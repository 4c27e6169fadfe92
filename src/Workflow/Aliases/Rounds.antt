-- ===== src/Workflow/Aliases/Rounds.antt =====
-- The invariant of the inner loop of topoSortAliases in internal/workflow/compile.go.
use sqlproxy.Prelude.{
  ℕ, suc, ◌+◌, ◌≤◌, ◌≡◌, sym, ap, ◌∙◌, List, [], ◌∷◌, ◌++◌, Text, true, some, All, if◌then◌else◌,
  text_eq, Dict, lookup, pos,
}
use mathlib.Core.List.{append_assoc, append-nil}
use sqlproxy.SqlUtil.Words.{contains_word}
use sqlproxy.Workflow.Aliases.{Sorting, refs_of}
use sqlproxy.Workflow.Aliases.Sums.{
  NoRepeat, Within, sum_over, sum_over_le, All-prefix, NoRepeat-prefix,
}

-- how often a name stands in a list
abbrev pub count : Text → List Text → ℕ
count x [] = 0
count x (y ∷ ys) = let rest = count x ys in if text_eq y x then suc rest else rest

module _ (names : List Text) (deps : Dict (List Text)) where
  -- how often the names of a list refer to x
  abbrev pub referred : Text → List Text → ℕ
  referred x = sum_over (λ n. count x (refs_of deps n))

  -- All that refers to a name stands before it, after the names `before`.
  abbrev pub IsAfterUses : List Text → List Text → Type 0
  IsAfterUses before [] = Unit
  IsAfterUses before (x ∷ xs) =
      (referred x before ≡ referred x names) × IsAfterUses (before ++ (x ∷ [])) xs

  abbrev pub IsFree : Sorting → Text → Type 0
  IsFree s x = lookup x s.degrees ≡ some (pos 0)

  -- `left` is what is left of the references of the last name popped.
  pub record IsConsistent (left : List Text) (s : Sorting) : Type 0 where
    pub degree :
        (x : Text)
        → contains_word names x ≡ true
        → (r : ℕ) × (lookup x s.degrees ≡ some (pos r))
          × (r + referred x s.sorted ≡ referred x names + count x left)
    pub free : All (IsFree s) (s.sorted ++ s.queue)
    pub once : NoRepeat (s.sorted ++ s.queue)
    pub known : Within names (s.sorted ++ s.queue)
    pub ordered : IsAfterUses [] s.sorted
    pub found :
        (x : Text)
        → contains_word names x ≡ true
        → IsFree s x
        → contains_word (s.sorted ++ s.queue) x ≡ true

  pub IsAfterUses-snoc :
      (before xs : List Text) (k : Text)
      → IsAfterUses before xs
      → referred k (before ++ xs) ≡ referred k names
      → IsAfterUses before (xs ++ (k ∷ []))
  IsAfterUses-snoc before [] k o h = (ap (referred k) (sym (append-nil before)) ∙ h, tt)
  IsAfterUses-snoc before (x ∷ xs) k (u, o) h = (
    u,
    IsAfterUses-snoc (before ++ (x ∷ [])) xs k o
        (ap (referred k) (append_assoc before (x ∷ []) xs) ∙ h),
  )

  pub referred_le :
      (left : List Text) (s : Sorting)
      → IsConsistent left s
      → (x : Text) → referred x s.sorted ≤ referred x names
  referred_le left s c x =
      sum_over_le (λ n. count x (refs_of deps n)) s.sorted names
        (NoRepeat-prefix s.sorted s.queue c.once)
        (All-prefix (λ k. contains_word names k ≡ true) s.sorted s.queue c.known)
