-- ===== src/Workflow/Aliases/Order.antt =====
-- Where the sort of internal/workflow/compile.go puts what an alias refers to.
use sqlproxy.Prelude.{
  ◌<◌, ◌⊎◌, ◌≡◌, sym, ap, ◌∙◌, inl, inr, arith, List, [], ◌∷◌, ◌++◌, Text, true, false, Bool-cases,
  text_eq, text_eq_iff, Dict,
}
use mathlib.Core.List.{append_assoc, append-nil}
use mathlib.Core.Path.{subst}
use sqlproxy.SqlUtil.Words.{contains_word}
use sqlproxy.Workflow.Aliases.{refs_of}
use sqlproxy.Workflow.Aliases.Sums.{
  NoRepeat, Within, sum_over_le, contains_word-++, NoRepeat-prefix, All-prefix,
}
use sqlproxy.Workflow.Aliases.Splits.{split_at, not_before}
use sqlproxy.Workflow.Aliases.Rounds.{count, referred, IsAfterUses}

count_positive : (x : Text) (xs : List Text) → contains_word xs x ≡ true → 0 < count x xs
unfolding contains_word
count_positive x [] h = absurd (cc (h))
count_positive x (y ∷ xs) h = ground (arith, count_positive x xs)

pub count_contains : (x : Text) (xs : List Text) → 0 < count x xs → contains_word xs x ≡ true
unfolding contains_word
count_contains x [] h = absurd (omega arith)
count_contains x (y ∷ xs) h = ground (arith, count_contains x xs)

module _ (names : List Text) (deps : Dict (List Text)) where
  -- x, which refers to d, is one of the names that do
  not_all_uses :
      (d x : Text) (p : List Text)
      → NoRepeat p
      → Within names p
      → contains_word p x ≡ false
      → contains_word names x ≡ true
      → contains_word (refs_of deps x) d ≡ true
      → referred names deps d p < referred names deps d names
  not_all_uses d x p n w l h r = omega (
    arith,
    sum_over_le (λ k. count d (refs_of deps k)) (x ∷ p) names (l, n) (h, w),
    count_positive d (refs_of deps x) r,
  )

  uses_at :
      (before p : List Text) (d : Text) (q : List Text)
      → IsAfterUses names deps before (p ++ (d ∷ q))
      → referred names deps d (before ++ p) ≡ referred names deps d names
  uses_at before [] d q (u, a) = ap (referred names deps d) (append-nil before) ∙ u
  uses_at before (x ∷ p) d q (u, a) =
      ap (referred names deps d) (sym (append_assoc before (x ∷ []) p))
      ∙ uses_at (before ++ (x ∷ [])) p d q a

  -- What x refers to stands behind x, where the uses come first.
  pub refs_behind :
      (u v : List Text) (x d : Text)
      → NoRepeat (u ++ (x ∷ v))
      → Within names (u ++ (x ∷ v))
      → IsAfterUses names deps [] (u ++ (x ∷ v))
      → contains_word names x ≡ true
      → contains_word (refs_of deps x) d ≡ true
      → contains_word (u ++ (x ∷ v)) d ≡ true
      → contains_word v d ≡ true
  unfolding contains_word
  refs_behind u v x d n w a h r c =
      by_place (Bool-cases (contains_word u d)) (Bool-cases (text_eq x d))
    where
      -- d does not stand where x is still to come
      not_at :
          (p q : List Text)
          → u ++ (x ∷ v) ≡ p ++ (d ∷ q)
          → contains_word p x ≡ false
          → contains_word v d ≡ true
      not_at p q e l = absurd (
          let n' = subst NoRepeat e n in
          let w' = subst (Within names) e w in
          let all = uses_at [] p d q (subst (IsAfterUses names deps []) e a) in
          let less =
            not_all_uses d x p (NoRepeat-prefix p (d ∷ q) n')
              (All-prefix (λ k. contains_word names k ≡ true) p (d ∷ q) w') l h r in
          omega arith)

      by_place :
          (contains_word u d ≡ true) ⊎ (contains_word u d ≡ false)
          → (text_eq x d ≡ true) ⊎ (text_eq x d ≡ false)
          → contains_word v d ≡ true
      by_place (inl i) s =
          let (p, q, e) = split_at d u i in
          let apart = not_before u v x n in
          not_at p (q ++ (x ∷ v)) (ap (λ l. l ++ (x ∷ v)) e ∙ append_assoc p (d ∷ q) (x ∷ v)) (
            let parts = ap (λ l. contains_word l x) (sym e) ∙ apart in
            let both = sym (contains_word-++ p (d ∷ q) x) ∙ parts in ground arith)
      by_place (inr i) (inl s) =
          not_at u v (ap (λ y. u ++ (y ∷ v)) ((text_eq_iff x d).0 s)) (not_before u v x n)
      by_place (inr i) (inr s) = let both = sym (contains_word-++ u (x ∷ v) d) ∙ c in ground arith
