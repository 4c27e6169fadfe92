-- ===== src/Workflow/Aliases/Sums.antt =====
-- Lists of names without repetition, and sums over them.
use sqlproxy.Prelude.{
  ℕ, ◌+◌, ◌≤◌, ◌⊎◌, ◌≡◌, refl, sym, ◌∙◌, inl, inr, arith, List, [], ◌∷◌, ◌++◌, Text, true, false,
  ◌||◌, Bool-cases, All, All-map, length, if◌then◌else◌, text_eq, text_eq_iff, text_eq_refl,
}
use sqlproxy.SqlUtil.Words.{contains_word}

abbrev pub NoRepeat : List Text → Type 0
NoRepeat [] = Unit
NoRepeat (x ∷ xs) = (contains_word xs x ≡ false) × NoRepeat xs

abbrev pub Within : List Text → List Text → Type 0
Within names = All (λ x. contains_word names x ≡ true)

abbrev pub sum_over : (Text → ℕ) → List Text → ℕ
sum_over f [] = 0
sum_over f (x ∷ xs) = f x + sum_over f xs

-- the names without the first that is x
abbrev remove : Text → List Text → List Text
remove x [] = []
remove x (y ∷ ys) = let rest = remove x ys in if text_eq y x then ys else y ∷ rest

contains_word-remove :
    (x : Text) (ys : List Text) (k : Text)
    → text_eq x k ≡ false
    → contains_word ys k ≡ true
    → contains_word (remove x ys) k ≡ true
unfolding contains_word
contains_word-remove x [] k n h = h
contains_word-remove x (y ∷ ys) k n h =
    ground (arith, text_eq_iff y x, text_eq_iff y k, text_eq_iff x k, contains_word-remove x ys k n)

sum_over-remove :
    (f : Text → ℕ) (x : Text) (ys : List Text)
    → contains_word ys x ≡ true
    → sum_over f ys ≡ f x + sum_over f (remove x ys)
unfolding contains_word
sum_over-remove f x [] h = absurd (cc (h))
sum_over-remove f x (y ∷ ys) h = elim (Bool-cases (text_eq y x)) [
  | inl e ↦ rw (e, (text_eq_iff y x).0 e) refl
  | inr e ↦ rw e (omega (arith, sum_over-remove f x ys (ground arith)))
]

pub All-contains_word :
    (P : Text → Type 0) (xs : List Text) (k : Text) → All P xs → contains_word xs k ≡ true → P k
unfolding contains_word
All-contains_word P [] k a h = absurd (cc (h))
All-contains_word P (x ∷ xs) k (p, ps) h = elim (Bool-cases (text_eq x k)) [
  | inl e ↦ rw (← (text_eq_iff x k).0 e) p
  | inr e ↦ All-contains_word P xs k ps (ground arith)
]

covered-remove :
    (f : Text → ℕ) (x : Text) (names xs : List Text)
    → contains_word xs x ≡ false
    → All (λ k. (contains_word names k ≡ true) ⊎ (f k ≡ 0)) xs
    → All (λ k. (contains_word (remove x names) k ≡ true) ⊎ (f k ≡ 0)) xs
unfolding contains_word
covered-remove f x names [] n a = tt
covered-remove f x names (y ∷ ys) n (inl h, a) =
    let apart : text_eq x y ≡ false = ground (arith, text_eq_iff x y, text_eq_iff y x) in
    (inl (contains_word-remove x names y apart h), covered-remove f x names ys (ground arith) a)
covered-remove f x names (y ∷ ys) n (inr z, a) =
    (inr z, covered-remove f x names ys (ground arith) a)

-- A sum over some of the names, each once, and over what adds nothing, is at most that over all.
pub sum_over_covered :
    (f : Text → ℕ) (xs names : List Text)
    → NoRepeat xs
    → All (λ k. (contains_word names k ≡ true) ⊎ (f k ≡ 0)) xs
    → sum_over f xs ≤ sum_over f names
sum_over_covered f [] names d a = omega arith
sum_over_covered f (x ∷ xs) names (n, d) (inl h, a) = omega (
  arith,
  sum_over-remove f x names h,
  sum_over_covered f xs (remove x names) d (covered-remove f x names xs n a),
)
sum_over_covered f (x ∷ xs) names (n, d) (inr z, a) = omega (arith, sum_over_covered f xs names d a)

pub sum_over_le :
    (f : Text → ℕ) (xs names : List Text)
    → NoRepeat xs
    → Within names xs
    → sum_over f xs ≤ sum_over f names
sum_over_le f xs names d w =
    sum_over_covered f xs names d
      (All-map (λ k. (contains_word names k ≡ true) ⊎ (f k ≡ 0)) (λ k h. inl h) xs w)

-- the sum reaches each of its parts
pub part_le :
    (f : Text → ℕ) (x : Text) (xs : List Text) → contains_word xs x ≡ true → f x ≤ sum_over f xs
part_le f x xs h = omega (arith, sum_over-remove f x xs h)

pub sum_over-++ :
    (f : Text → ℕ) (xs ys : List Text) → sum_over f (xs ++ ys) ≡ sum_over f xs + sum_over f ys
sum_over-++ f [] ys = omega arith
sum_over-++ f (x ∷ xs) ys = omega (arith, sum_over-++ f xs ys)

sum_over-length : (xs : List Text) → sum_over (λ x. 1) xs ≡ length xs
sum_over-length [] = refl
sum_over-length (x ∷ xs) = omega (arith, sum_over-length xs)

pub length_le : (xs names : List Text) → NoRepeat xs → Within names xs → length xs ≤ length names
length_le xs names d w =
    omega (arith, sum_over_le (λ x. 1) xs names d w, sum_over-length xs, sum_over-length names)

-- As many names, each once, are all of them.
pub contains_all :
    (xs names : List Text) (k : Text)
    → NoRepeat xs
    → Within names xs
    → length xs ≡ length names
    → contains_word names k ≡ true
    → contains_word xs k ≡ true
contains_all xs names k d w n h = elim (Bool-cases (contains_word xs k)) [
  | inl e ↦ e
  | inr e ↦ absurd (let more = length_le (k ∷ xs) names (e, d) (h, w) in omega arith)
]

pub contains_word-++ :
    (xs ys : List Text) (k : Text)
    → contains_word (xs ++ ys) k ≡ (contains_word xs k || contains_word ys k)
unfolding contains_word
contains_word-++ [] ys k = refl
contains_word-++ (x ∷ xs) ys k = ground (arith, contains_word-++ xs ys k)

pub NoRepeat-snoc :
    (xs : List Text) (k : Text)
    → NoRepeat xs
    → contains_word xs k ≡ false
    → NoRepeat (xs ++ (k ∷ []))
unfolding contains_word
NoRepeat-snoc [] k d n = (refl, tt)
NoRepeat-snoc (x ∷ xs) k (h, d) n = (
  contains_word-++ xs (k ∷ []) x ∙ ground (arith, text_eq_iff k x, text_eq_iff x k),
  NoRepeat-snoc xs k d (ground arith),
)

pub All-snoc :
    (P : Text → Type 0) (xs : List Text) (k : Text) → All P xs → P k → All P (xs ++ (k ∷ []))
All-snoc P [] k a p = (p, tt)
All-snoc P (x ∷ xs) k (q, a) p = (q, All-snoc P xs k a p)

pub All-prefix : (P : Text → Type 0) (xs ys : List Text) → All P (xs ++ ys) → All P xs
All-prefix P [] ys a = tt
All-prefix P (x ∷ xs) ys (p, a) = (p, All-prefix P xs ys a)

pub NoRepeat-prefix : (xs ys : List Text) → NoRepeat (xs ++ ys) → NoRepeat xs
NoRepeat-prefix [] ys d = tt
NoRepeat-prefix (x ∷ xs) ys (n, d) =
    let apart = sym (contains_word-++ xs ys x) ∙ n in (ground arith, NoRepeat-prefix xs ys d)

-- what holds of all, and, but for y, whatever becomes of it
pub All-map-except :
    (P Q : Text → Type 0) (y : Text) (xs : List Text)
    → ((x : Text) → text_eq y x ≡ false → P x → Q x)
    → contains_word xs y ≡ false
    → All P xs
    → All Q xs
unfolding contains_word
All-map-except P Q y [] f n a = tt
All-map-except P Q y (x ∷ xs) f n (p, a) = (
  f x (ground (arith, text_eq_iff x y, text_eq_iff y x)) p,
  All-map-except P Q y xs f (ground arith) a,
)

pub Within-contains_word :
    (names xs : List Text)
    → ((k : Text) → contains_word xs k ≡ true → contains_word names k ≡ true)
    → Within names xs
unfolding contains_word
Within-contains_word names [] f = tt
Within-contains_word names (x ∷ xs) f =
    (f x (rw (text_eq_refl x) refl), Within-contains_word names xs (λ k h. f k (ground (arith, h))))
