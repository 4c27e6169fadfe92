-- ===== src/Workflow/Aliases/Drain.antt =====
-- The loop of topoSortAliases in internal/workflow/compile.go: a round, and all rounds.
use sqlproxy.Prelude.{
  ℕ, zero, suc, ◌+◌, ◌≤◌, ◌≡◌, refl, sym, ap, ◌∙◌, arith, List, [], ◌∷◌, ◌++◌, Text, true, some,
  All, length, length-append, text_eq_refl, Dict,
}
use mathlib.Core.List.{append_assoc}
use mathlib.Core.Path.{subst}
use sqlproxy.SqlUtil.Words.{contains_word}
use sqlproxy.Workflow.Aliases.{Sorting, refs_of, release, release_all, pop_alias, drain_queue}
use sqlproxy.Workflow.Aliases.Sums.{
  NoRepeat, Within, sum_over-++, length_le, contains_word-++, All-contains_word,
}
use sqlproxy.Workflow.Aliases.Rounds.{count, referred, IsConsistent, IsFree, IsAfterUses-snoc}
use sqlproxy.Workflow.Aliases.Release.{release_all_keeps}

module _ (names : List Text) (deps : Dict (List Text)) where
  module _ (name : Text) (rest : List Text) (s : Sorting) (c : IsConsistent names deps [] s)
      (e : s.queue ≡ name ∷ rest) where
    -- the state before the references of name are released
    abbrev popped : Sorting
    popped = record s { queue = rest; sorted = s.sorted ++ (name ∷ []) }

    append_popped : s.sorted ++ s.queue ≡ (s.sorted ++ (name ∷ [])) ++ rest
    append_popped = ap (λ q. s.sorted ++ q) e ∙ sym (append_assoc s.sorted (name ∷ []) rest)

    name_known : contains_word (s.sorted ++ s.queue) name ≡ true
    unfolding contains_word
    name_known = contains_word-++ s.sorted s.queue name ∙ rw (e, text_eq_refl name) (ground arith)

    referred_all : referred names deps name s.sorted ≡ referred names deps name names
    referred_all =
        let (r, e', q) = c.degree name (
          All-contains_word (λ k. contains_word names k ≡ true) (s.sorted ++ s.queue) name c.known
            name_known) in
        let free =
          All-contains_word (IsFree names deps s) (s.sorted ++ s.queue) name c.free name_known in
        let none_left : r ≡ 0 = cc in omega arith

    popped-IsConsistent : IsConsistent names deps (refs_of deps name) popped
    popped-IsConsistent = record {
      degree = λ x h.
          let (r, e', q) = c.degree x h in
          (r, e', omega (arith, sum_over-++ (λ n. count x (refs_of deps n)) s.sorted (name ∷ [])));
      free = subst (All (IsFree names deps s)) append_popped c.free;
      once = subst NoRepeat append_popped c.once;
      known = subst (Within names) append_popped c.known;
      ordered = IsAfterUses-snoc names deps [] s.sorted name c.ordered referred_all;
      found = λ x h f. ap (λ l. contains_word l x) (sym append_popped) ∙ c.found x h f;
    }

  pop_keeps :
      (name : Text) (rest : List Text) (s : Sorting)
      → ((n : Text) → Within names (refs_of deps n))
      → IsConsistent names deps [] s
      → s.queue ≡ name ∷ rest
      → IsConsistent names deps [] (pop_alias deps name rest s)
  unfolding pop_alias
  pop_keeps name rest s w c e =
      release_all_keeps names deps (refs_of deps name)
        (record s { queue = rest; sorted = s.sorted ++ (name ∷ []) }) (w name)
        (popped-IsConsistent name rest s c e)

  sorted-release_all : (left : List Text) (s : Sorting) → (release_all left s).sorted ≡ s.sorted
  unfolding release_all release
  sorted-release_all [] s = refl
  sorted-release_all (y ∷ left) s = sorted-release_all left (release y s)

  sorted-pop_alias :
      (name : Text) (rest : List Text) (s : Sorting)
      → length (pop_alias deps name rest s).sorted ≡ suc (length s.sorted)
  unfolding pop_alias
  sorted-pop_alias name rest s =
      ap length (
        sorted-release_all (refs_of deps name)
          (record s { queue = rest; sorted = s.sorted ++ (name ∷ []) }))
      ∙ length-append s.sorted (name ∷ [])
      ∙ omega arith

  drain_queue_stop : (f : ℕ) (s : Sorting) → s.queue ≡ [] → drain_queue deps f s ≡ some s
  unfolding drain_queue
  drain_queue_stop zero s e = rw e refl
  drain_queue_stop (suc f) s e = rw e refl

  drain_queue_step :
      (f : ℕ) (name : Text) (rest : List Text) (s : Sorting)
      → s.queue ≡ name ∷ rest
      → drain_queue deps (suc f) s ≡ drain_queue deps f (pop_alias deps name rest s)
  unfolding drain_queue
  drain_queue_step f name rest s e =
      ap
        (λ q. elim q [
          | [] ↦ some s
          | name ∷ rest ↦ drain_queue deps f (pop_alias deps name rest s)
        ])
        e

  abbrev pub Drained : ℕ → Sorting → Type 0
  Drained f s =
      (t : Sorting) × (drain_queue deps f s ≡ some t)
      × IsConsistent names deps [] t
      × (t.queue ≡ [])

  all_sorted :
      (s : Sorting) → IsConsistent names deps [] s → length names ≤ length s.sorted → s.queue ≡ []
  all_sorted s c b = by_queue s.queue refl
    where
      by_queue : (q : List Text) → s.queue ≡ q → s.queue ≡ []
      by_queue [] e = e
      by_queue (name ∷ rest) e = absurd (
          let n = length_le (s.sorted ++ s.queue) names c.once c.known in
          let l = ap length e in omega (arith, length-append s.sorted s.queue))

  -- The loop, with a round for each name that is not sorted, ends with an empty queue.
  pub drain_queue_returns :
      ((n : Text) → Within names (refs_of deps n))
      → (f : ℕ) (s : Sorting) → IsConsistent names deps [] s
      → length names ≤ f + length s.sorted
      → Drained f s
  drain_queue_returns w zero s c b =
      let e = all_sorted s c (omega arith) in (s, drain_queue_stop 0 s e, c, e)
  drain_queue_returns w (suc f) s c b = by_queue s.queue refl (drain_queue_returns w f)
    where
      by_queue :
          (q : List Text)
          → s.queue ≡ q
          → ((t : Sorting)
              → IsConsistent names deps [] t
              → length names ≤ f + length t.sorted
              → Drained f t)
          → Drained (suc f) s
      by_queue [] e ih = (s, drain_queue_stop (suc f) s e, c, e)
      by_queue (name ∷ rest) e ih =
          let (t, d, k, z) =
            ih (pop_alias deps name rest s) (pop_keeps name rest s w c e)
              (omega (arith, sorted-pop_alias name rest s)) in
          (t, drain_queue_step f name rest s e ∙ d, k, z)
