-- ===== src/Workflow/Aliases/Queue.antt =====
-- The first queue of topoSortAliases in internal/workflow/compile.go.
use sqlproxy.Prelude.{
  ◌≡◌, refl, ap, ◌∙◌, inl, inr, arith, List, [], ◌∷◌, Text, true, some, some-injective, Bool-cases,
  All, All-map, ==_iff, text_eq, Dict, lookup, ℤ, pos, negsuc,
}
use sqlproxy.SqlUtil.Words.{contains_word}
use sqlproxy.Workflow.Aliases.{dict_keys, has_none, first_queue}
use sqlproxy.Workflow.Aliases.Sums.{NoRepeat}
use sqlproxy.Workflow.Aliases.Keys.{lookup_behind, lookup_front}

has_none_iff : (d : ℤ) → has_none d ≡ true → d ≡ pos 0
unfolding has_none
has_none_iff (pos n) h = ap pos ((==_iff n 0).0 h)
has_none_iff (negsuc n) h = absurd (cc (h))

pub first_queue_known :
    (x : Text) (m : Dict ℤ)
    → contains_word (first_queue m) x ≡ true
    → contains_word (dict_keys m) x ≡ true
unfolding contains_word dict_keys first_queue
first_queue_known x [] h = h
first_queue_known x ((k, d) ∷ m) h = ground (arith, first_queue_known x m)

pub first_queue-NoRepeat : (m : Dict ℤ) → NoRepeat (dict_keys m) → NoRepeat (first_queue m)
unfolding first_queue dict_keys
first_queue-NoRepeat [] d = tt
first_queue-NoRepeat ((k, d) ∷ m) (n, r) = elim (Bool-cases (has_none d)) [
  | inl e ↦ rw e (elim (Bool-cases (contains_word (first_queue m) k)) [
    | inl i ↦ absurd (let i' = first_queue_known k m i in cc)
    | inr i ↦ (i, first_queue-NoRepeat m r)
  ])
  | inr e ↦ rw e (first_queue-NoRepeat m r)
]

abbrev pub AllIdle : Dict ℤ → List Text → Type 0
AllIdle m = All (λ x. lookup x m ≡ some (pos 0))

pub first_queue_idle : (m : Dict ℤ) → NoRepeat (dict_keys m) → AllIdle m (first_queue m)
unfolding first_queue dict_keys
first_queue_idle [] d = tt
first_queue_idle ((k, d) ∷ m) (n, r) =
    let later =
      All-map (λ x. lookup x ((k, d) ∷ m) ≡ some (pos 0)) (λ x e. lookup_behind k x d (pos 0) m n e)
        (first_queue m) (first_queue_idle m r) in
    elim (Bool-cases (has_none d)) [
      | inl e ↦ rw e (lookup_front k d m ∙ ap some (has_none_iff d e), later)
      | inr e ↦ rw e later
    ]

pub first_queue_found :
    (x : Text) (m : Dict ℤ) → lookup x m ≡ some (pos 0) → contains_word (first_queue m) x ≡ true
unfolding contains_word first_queue lookup has_none
first_queue_found x [] e = absurd (cc (e))
first_queue_found x ((k, d) ∷ m) e = elim (Bool-cases (text_eq k x)) [
  | inl i ↦ let z : d ≡ pos 0 = some-injective (rw i at e) in rw (z, i) refl
  | inr i ↦ ground (arith, first_queue_found x m (rw i at e))
]
