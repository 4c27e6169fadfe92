-- ===== src/Workflow/Aliases/Splits.antt =====
-- Where a name stands in a list, and lists reversed.
use sqlproxy.Prelude.{
  ℕ, ◌<◌, ◌⊎◌, ◌≡◌, refl, sym, ap, ◌∙◌, inl, inr, arith, List, [], ◌∷◌, ◌++◌, reverse, Text, true,
  false, Bool-cases, All, length, length-append, text_eq, text_eq_iff, text_eq_refl,
}
use mathlib.Core.List.{append_assoc, reverse-cons, reverse-append}
use mathlib.Core.Path.{subst}
use sqlproxy.SqlUtil.Words.{contains_word}
use sqlproxy.Workflow.Aliases.Sums.{
  NoRepeat, sum_over, sum_over_covered, contains_word-++, NoRepeat-snoc,
}

pub split_at :
    (k : Text) (xs : List Text)
    → contains_word xs k ≡ true
    → (p q : List Text) × (xs ≡ p ++ (k ∷ q))
unfolding contains_word
split_at k [] h = absurd (cc (h))
split_at k (x ∷ xs) h = elim (Bool-cases (text_eq x k)) [
  | inl e ↦ ([], xs, ap (λ y. y ∷ xs) ((text_eq_iff x k).0 e))
  | inr n ↦ let (p, q, e) = split_at k xs (rw n at h) in (x ∷ p, q, ap (λ l. x ∷ l) e)
]

pub contains_word-reverse :
    (xs : List Text) (k : Text) → contains_word (reverse xs) k ≡ contains_word xs k
unfolding contains_word
contains_word-reverse [] k = refl
contains_word-reverse (x ∷ xs) k =
    ap (λ l. contains_word l k) (reverse-cons x xs)
    ∙ contains_word-++ (reverse xs) (x ∷ []) k
    ∙ ground (arith, contains_word-reverse xs k)

pub NoRepeat-reverse : (xs : List Text) → NoRepeat xs → NoRepeat (reverse xs)
NoRepeat-reverse [] d = tt
NoRepeat-reverse (x ∷ xs) (n, d) =
    subst NoRepeat (sym (reverse-cons x xs))
      (NoRepeat-snoc (reverse xs) x (NoRepeat-reverse xs d) (contains_word-reverse xs x ∙ n))

pub length-reverse : (xs : List Text) → length (reverse xs) ≡ length xs
length-reverse [] = refl
length-reverse (x ∷ xs) =
    ap length (reverse-cons x xs)
    ∙ omega (arith, length-append (reverse xs) (x ∷ []), length-reverse xs)

pub reverse-middle :
    (p q : List Text) (k : Text) → reverse (p ++ (k ∷ q)) ≡ reverse q ++ (k ∷ reverse p)
reverse-middle p q k =
    reverse-append p (k ∷ q)
    ∙ ap (λ l. l ++ reverse p) (reverse-cons k q)
    ∙ append_assoc (reverse q) (k ∷ []) (reverse p)

-- a name in the middle of names without repetition
pub not_before : (p q : List Text) (k : Text) → NoRepeat (p ++ (k ∷ q)) → contains_word p k ≡ false
unfolding contains_word
not_before [] q k d = refl
not_before (x ∷ p) q k (n, d) =
    let apart = sym (contains_word-++ p (k ∷ q) x) ∙ n in
    ground (arith, text_eq_iff x k, text_eq_iff k x, not_before p q k d)

-- a name that lacks in xs and counts, or none
missing :
    (f : Text → ℕ) (xs names : List Text)
    → ((k : Text) × (contains_word names k ≡ true) × (contains_word xs k ≡ false) × (0 < f k))
      ⊎ All (λ k. (contains_word xs k ≡ true) ⊎ (f k ≡ 0)) names
unfolding contains_word
missing f xs [] = inr tt
missing f xs (k ∷ names) =
    by_cases (Bool-cases (contains_word xs k)) (zero_or_more (f k)) (missing f xs names)
  where
    zero_or_more : (n : ℕ) → (n ≡ 0) ⊎ (0 < n)
    zero_or_more n = ground arith

    by_cases :
        (contains_word xs k ≡ true) ⊎ (contains_word xs k ≡ false)
        → (f k ≡ 0) ⊎ (0 < f k)
        → ((j : Text) × (contains_word names j ≡ true) × (contains_word xs j ≡ false) × (0 < f j))
          ⊎ All (λ j. (contains_word xs j ≡ true) ⊎ (f j ≡ 0)) names
        → ((j : Text) × (contains_word (k ∷ names) j ≡ true)
            × (contains_word xs j ≡ false)
            × (0 < f j))
          ⊎ All (λ j. (contains_word xs j ≡ true) ⊎ (f j ≡ 0)) (k ∷ names)
    by_cases c z (inl (j, n, l, p)) = inl (j, ground arith, l, p)
    by_cases (inl c) z (inr a) = inr (inl c, a)
    by_cases (inr c) (inl z) (inr a) = inr (inr z, a)
    by_cases (inr c) (inr z) (inr a) = inl (k, rw (text_eq_refl k) refl, c, z)

-- Of names with a larger sum than xs, one lacks in xs and counts.
pub one_missing :
    (f : Text → ℕ) (xs names : List Text)
    → NoRepeat names
    → sum_over f xs < sum_over f names
    → (k : Text) × (contains_word names k ≡ true) × (contains_word xs k ≡ false) × (0 < f k)
one_missing f xs names d l = elim (missing f xs names) [
  | inl m ↦ m
  | inr a ↦ absurd (let le = sum_over_covered f names xs d a in omega arith)
]
