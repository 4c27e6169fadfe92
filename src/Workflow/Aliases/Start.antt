-- ===== src/Workflow/Aliases/Start.antt =====
-- The degrees that topoSortAliases in internal/workflow/compile.go counts, and where its loop starts.
use sqlproxy.Prelude.{
  ℕ, suc, ◌+◌, ◌≡◌, refl, ap, ◌∙◌, inl, inr, arith, List, [], ◌∷◌, Text, true, false, none, some,
  Bool-cases, All, if◌then◌else◌, text_eq, text_eq_iff, text_eq_refl, Dict, lookup, insert,
  lookup-insert, ℤ, pos,
}
use mathlib.Core.Path.{subst}
use sqlproxy.SqlUtil.Words.{contains_word}
use sqlproxy.Workflow.Aliases.{
  dict_keys, refs_of, increment, degree_of, no_degrees, count_refs, count_all, first_queue,
  start_sorting,
}
use sqlproxy.Workflow.Aliases.Sums.{NoRepeat, Within, Within-contains_word, sum_over}
use sqlproxy.Workflow.Aliases.Rounds.{count, referred, IsConsistent}
use sqlproxy.Workflow.Aliases.Keys.{dict_keys-insert}
use sqlproxy.Workflow.Aliases.Queue.{
  first_queue_known, first_queue-NoRepeat, first_queue_idle, first_queue_found,
}

dict_keys-no_degrees : (names : List Text) → dict_keys (no_degrees names) ≡ names
unfolding dict_keys no_degrees
dict_keys-no_degrees [] = refl
dict_keys-no_degrees (k ∷ names) = ap (λ l. k ∷ l) (dict_keys-no_degrees names)

dict_keys-count_refs :
    (refs : List Text) (m : Dict ℤ)
    → Within (dict_keys m) refs
    → dict_keys (count_refs refs m) ≡ dict_keys m
unfolding count_refs
dict_keys-count_refs [] m w = refl
dict_keys-count_refs (ref ∷ refs) m (h, w) =
    let e = dict_keys-insert ref (increment (degree_of m ref)) m h in
    dict_keys-count_refs refs (insert ref (increment (degree_of m ref)) m) (rw e w) ∙ e

-- all that the aliases refer to are names
abbrev pub AreWithin : List Text → Dict (List Text) → Type 0
AreWithin names = All (λ (e : Text × List Text). Within names e.1)

dict_keys-count_all :
    (deps : Dict (List Text)) (m : Dict ℤ)
    → AreWithin (dict_keys m) deps
    → dict_keys (count_all deps m) ≡ dict_keys m
unfolding count_all
dict_keys-count_all [] m w = refl
dict_keys-count_all ((k, refs) ∷ deps) m (h, w) =
    let e = dict_keys-count_refs refs m h in
    dict_keys-count_all deps (count_refs refs m) (rw e w) ∙ e

lookup-no_degrees :
    (x : Text) (names : List Text)
    → contains_word names x ≡ true
    → lookup x (no_degrees names) ≡ some (pos 0)
unfolding contains_word no_degrees lookup
lookup-no_degrees x [] h = absurd (cc (h))
lookup-no_degrees x (k ∷ names) h = ground (arith, lookup-no_degrees x names)

degree_of-lookup : (x : Text) (m : Dict ℤ) (d : ℤ) → lookup x m ≡ some d → degree_of m x ≡ d
unfolding degree_of
degree_of-lookup x m d e = ap (λ o. elim o [ none ↦ pos 0 | some d ↦ d ]) e

counted :
    (x ref : Text) (n : ℕ) (m : Dict ℤ)
    → lookup x m ≡ some (pos n)
    → lookup x (insert ref (increment (degree_of m ref)) m)
      ≡ some (pos (if text_eq ref x then suc n else n))
unfolding increment
counted x ref n m e =
    lookup-insert ref x (increment (degree_of m ref)) m ∙ elim (Bool-cases (text_eq ref x)) [
      | inl y ↦ rw (y, (text_eq_iff ref x).0 y, degree_of-lookup x m (pos n) e) refl
      | inr z ↦ rw (z, e) refl
    ]

lookup-count_refs :
    (x : Text) (refs : List Text) (n : ℕ) (m : Dict ℤ)
    → lookup x m ≡ some (pos n)
    → lookup x (count_refs refs m) ≡ some (pos (n + count x refs))
unfolding count_refs
lookup-count_refs x [] n m e = e ∙ ap (λ k. some (pos k)) (omega arith)
lookup-count_refs x (ref ∷ refs) n m e =
    lookup-count_refs x refs (if text_eq ref x then suc n else n)
      (insert ref (increment (degree_of m ref)) m) (counted x ref n m e)
    ∙ ap (λ k. some (pos k)) (ground arith)

-- how often the entries refer to x
abbrev total : Text → Dict (List Text) → ℕ
total x [] = 0
total x ((k, refs) ∷ deps) = count x refs + total x deps

lookup-count_all :
    (x : Text) (deps : Dict (List Text)) (n : ℕ) (m : Dict ℤ)
    → lookup x m ≡ some (pos n)
    → lookup x (count_all deps m) ≡ some (pos (n + total x deps))
unfolding count_all
lookup-count_all x [] n m e = e ∙ ap (λ k. some (pos k)) (omega arith)
lookup-count_all x ((k, refs) ∷ deps) n m e =
    lookup-count_all x deps (n + count x refs) (count_refs refs m) (lookup-count_refs x refs n m e)
    ∙ ap (λ k. some (pos k)) (omega arith)

pub refs_of-cons :
    (k n : Text) (refs : List Text) (deps : Dict (List Text))
    → refs_of ((k, refs) ∷ deps) n ≡ (if text_eq k n then refs else refs_of deps n)
unfolding refs_of lookup
refs_of-cons k n refs deps = ground arith

-- an entry that is put before matters to no other name
sum_over_other :
    (x k : Text) (refs : List Text) (deps : Dict (List Text)) (ks : List Text)
    → contains_word ks k ≡ false
    → sum_over (λ n. count x (refs_of ((k, refs) ∷ deps) n)) ks
      ≡ sum_over (λ n. count x (refs_of deps n)) ks
unfolding contains_word
sum_over_other x k refs deps [] n = refl
sum_over_other x k refs deps (j ∷ ks) n =
    let apart : text_eq k j ≡ false = ground (arith, text_eq_iff k j, text_eq_iff j k) in
    rw (refs_of-cons k j refs deps, apart)
      (ap (λ s. count x (refs_of deps j) + s) (sum_over_other x k refs deps ks (ground arith)))

total_lem :
    (x : Text) (deps : Dict (List Text))
    → NoRepeat (dict_keys deps)
    → total x deps ≡ sum_over (λ n. count x (refs_of deps n)) (dict_keys deps)
unfolding dict_keys
total_lem x [] d = refl
total_lem x ((k, refs) ∷ deps) (n, d) =
    rw (refs_of-cons k k refs deps, text_eq_refl k)
      (omega (arith, total_lem x deps d, sum_over_other x k refs deps (dict_keys deps) n))

module _ (names : List Text) (deps : Dict (List Text)) (d : NoRepeat names)
    (e : dict_keys deps ≡ names) (w : AreWithin names deps) where
  abbrev first : Dict ℤ
  first = no_degrees names

  keys_counted : dict_keys (count_all deps first) ≡ names
  keys_counted =
      dict_keys-count_all deps first (rw (dict_keys-no_degrees names) w)
      ∙ dict_keys-no_degrees names

  first_degree :
      (x : Text)
      → contains_word names x ≡ true
      → lookup x (count_all deps first) ≡ some (pos (referred names deps x names))
  first_degree x h =
      lookup-count_all x deps 0 first (lookup-no_degrees x names h)
      ∙ ap (λ k. some (pos k))
          (omega (arith, total_lem x deps (rw e d)) ∙ ap (referred names deps x) e)

  first_queue-Within : Within names (first_queue (count_all deps first))
  first_queue-Within = Within-contains_word names (first_queue (count_all deps first)) (λ x h.
      subst (λ ks. contains_word ks x ≡ true) keys_counted
        (first_queue_known x (count_all deps first) h))

  pub start_sorting_lem : IsConsistent names deps [] (start_sorting names deps)
  unfolding start_sorting
  start_sorting_lem = record {
    degree = λ x h. (referred names deps x names, first_degree x h, omega arith);
    free = first_queue_idle (count_all deps first) (rw keys_counted d);
    once = first_queue-NoRepeat (count_all deps first) (rw keys_counted d);
    known = first_queue-Within;
    ordered = tt;
    found = λ x h f. first_queue_found x (count_all deps first) f;
  }
