-- ===== src/PublicId/Base62/RoundTrip.antt =====
-- encodeBase62 and decodeBase62 against base 62 as arithmetic.
use sqlproxy.Prelude.{
  ℕ, zero, suc, ◌+◌, ◌-◌, ◌*◌, ◌/◌, ◌%◌, ◌^◌, ◌≤◌, ◌<◌, ◌≡◌, refl, sym, ◌∙◌, arith, Option, none,
  some, List, [], ◌∷◌, ◌++◌, Text, codes, length, ltb, ◌==◌, ==_iff, Bool, true, false, ◌&&◌,
  if◌then◌else◌, lt→ltb, ltb→lt, Option-cases, Bool-cases, inl, inr, ok, err, Result-cases, ◌>>=◌,
}
use mathlib.Core.List.{append-nil}
use native.Mathlib.Nat.{pow-suc}
use sqlproxy.PublicId.Base62.{
  base62_alphabet, char_at, index_from, index_rune, fill, encode_base62, accumulate, overflow,
  decode_char, decode_loop, decode_base62,
}

-- The number that a character stands for, in base 62.
abbrev pub IsDigit : ℕ → ℕ → Type 0
IsDigit c d = index_rune base62_alphabet c ≡ some d

-- Whether the index of each of the first n letters is found again.
finds_back : Option ℕ → ℕ → Bool
finds_back none i = false
finds_back (some j) i = j == i

letters_found : ℕ → Bool
unfolding finds_back
letters_found zero = true
letters_found (suc i) =
    letters_found i && finds_back (index_rune base62_alphabet (char_at i base62_alphabet)) i

finds_back_eq : (o : Option ℕ) (i : ℕ) → finds_back o i ≡ true → o ≡ some i
unfolding finds_back
finds_back_eq none i h = cc
finds_back_eq (some j) i h = ground (arith, ==_iff j i)

letter_found :
    (n i : ℕ)
    → letters_found n ≡ true
    → i < n
    → finds_back (index_rune base62_alphabet (char_at i base62_alphabet)) i ≡ true
unfolding letters_found
letter_found zero i table lt = absurd (omega arith)
letter_found (suc n) i table lt = elim (Bool-cases (n == i)) [
  | inl e ↦ rw (← (==_iff n i).0 e) (ground arith)
  | inr e ↦ letter_found n i (ground arith) (ground arith)
]

alphabet_found : letters_found 62 ≡ true
unfolding letters_found index_rune char_at
alphabet_found = refl

char_at-IsDigit : (i : ℕ) → i < 62 → IsDigit (char_at i base62_alphabet) i
char_at-IsDigit i h = finds_back_eq _ i (letter_found 62 i alphabet_found h)

-- An index that is found is in range and leads back to the character.
char_at_sub : (i j d : ℕ) (s : Text) (c : ℕ) → i ≡ j → d ≡ c → char_at (j - i) (d ∷ s) ≡ c
unfolding char_at
char_at_sub i j d s c e same = let z : j - i ≡ 0 = omega arith in rw z same

index_from_found :
    (i : ℕ) (s : Text) (c j : ℕ)
    → index_from i s c ≡ some j
    → (i ≤ j) × (j < i + length s) × (char_at (j - i) s ≡ c)
unfolding index_from char_at
index_from_found i [] c j h = cc
index_from_found i (d ∷ s) c j h = elim (Bool-cases (d == c)) [
  | inl same ↦
      let e : some i ≡ some j = rw same at h in
      let k : i ≡ j = ground arith in
      (omega arith, omega arith, char_at_sub i j d s c k ((==_iff d c).0 same))
  | inr other ↦
      let rest = index_from_found (suc i) s c j (rw other at h) in
      (
        omega (arith, rest),
        omega (arith, rest),
        let z : j - i ≡ suc (j - suc i) = omega (arith, rest) in rw z rest.2,
      )
]

IsDigit-lt : (c d : ℕ) → IsDigit c d → d < 62
unfolding index_rune
IsDigit-lt c d h = omega (arith, index_from_found 0 base62_alphabet c d h)

char_at_of_IsDigit : (c d : ℕ) → IsDigit c d → char_at d base62_alphabet ≡ c
unfolding index_rune
char_at_of_IsDigit c d h =
    let z : d ≡ d - 0 = omega arith in rw z (index_from_found 0 base62_alphabet c d h).2

-- The checked step, as arithmetic: it fails exactly when the sum leaves 64 bits.
accumulate_lem :
    (r d : ℕ)
    → r < 2 ^ 64
    → d < 62
    → accumulate r d ≡ (if ltb (r * 62 + d) (2 ^ 64) then ok (r * 62 + d) else err overflow)
unfolding accumulate
accumulate_lem r d hr hd = ground arith

decode_char_digit :
    (r c d : ℕ)
    → r < 2 ^ 64
    → IsDigit c d
    → decode_char r c ≡ (if ltb (r * 62 + d) (2 ^ 64) then ok (r * 62 + d) else err overflow)
unfolding decode_char
decode_char_digit r c d hr h = rw (h, decode_char) (accumulate_lem r d hr (IsDigit-lt c d h))

-- The characters of `fill` are read back as the number that was written.
decode_loop-fill :
    (i n : ℕ) (acc : Text)
    → n < 62 ^ i
    → n < 2 ^ 64
    → decode_loop 0 (fill i n acc) ≡ decode_loop n acc
unfolding fill decode_loop
decode_loop-fill zero n acc h fits = let z : n ≡ 0 = omega arith in rw z
decode_loop-fill (suc i) n acc h fits =
    decode_loop-fill i (n / 62) (char_at (n % 62) base62_alphabet ∷ acc)
      (omega (arith, pow-suc 62 i)) (omega arith)
    ∙ rw
        (decode_char_digit (n / 62) (char_at (n % 62) base62_alphabet) (n % 62) (omega arith)
          (char_at-IsDigit (n % 62) (omega arith)))
        (let z : n / 62 * 62 + n % 62 ≡ n = omega arith in rw (z, lt→ltb n (2 ^ 64) fits))

length-fill : (i n : ℕ) (acc : Text) → length (fill i n acc) ≡ i + length acc
unfolding fill
length-fill zero n acc = omega arith
length-fill (suc i) n acc =
    omega (arith, length-fill i (n / 62) (char_at (n % 62) base62_alphabet ∷ acc))

fill-zero : fill 11 0 [] ≡ codes "00000000000"
unfolding fill char_at
fill-zero = refl

encode-fill : (n : ℕ) → encode_base62 n ≡ fill 11 n []
unfolding encode_base62
encode-fill n = elim (Bool-cases (n == 0)) [
  | inl e ↦ rw (e, (==_iff n 0).0 e) (sym fill-zero)
  | inr e ↦ rw e
]

pub length-encode : (n : ℕ) → length (encode_base62 n) ≡ 11
length-encode n = rw encode-fill (omega (arith, length-fill 11 n []))

loop-nil : (n : ℕ) → decode_loop n [] ≡ ok n
unfolding decode_loop
loop-nil n = refl

-- Decoding an encoded uint64 gives it back.
pub decode-encode_base62 : (n : ℕ) → n < 2 ^ 64 → decode_base62 (encode_base62 n) ≡ ok n
unfolding decode_base62
decode-encode_base62 n h =
    rw (length-encode n) (rw encode-fill (decode_loop-fill 11 n [] (omega arith) h ∙ loop-nil n))

-- What a decoded text encodes to.
in_range :
    (v n : ℕ) → (if ltb v (2 ^ 64) then ok v else err overflow) ≡ ok n → (n < 2 ^ 64) × (n ≡ v)
in_range v n h = ground arith

decode_char_ok :
    (r c n : ℕ)
    → r < 2 ^ 64
    → decode_char r c ≡ ok n
    → (n < 2 ^ 64) × (n / 62 ≡ r) × (char_at (n % 62) base62_alphabet ≡ c)
unfolding decode_char
decode_char_ok r c n hr h = elim (Option-cases (index_rune base62_alphabet c)) [
  | inl e ↦ ground arith
  | inr (d, e) ↦
      let (lt, eq) = in_range (r * 62 + d) n (sym (decode_char_digit r c d hr e) ∙ h) in
      let small : d < 62 = IsDigit-lt c d e in
      let last : n % 62 ≡ d = omega arith in (lt, omega arith, rw last (char_at_of_IsDigit c d e))
]

fill-decode_loop :
    (r : ℕ) (s : Text) (n k m : ℕ) (acc : Text)
    → r < 2 ^ 64
    → m ≡ k + length s
    → decode_loop r s ≡ ok n
    → (n < 2 ^ 64) × (fill m n acc ≡ fill k r (s ++ acc))
unfolding decode_loop fill
fill-decode_loop r [] n k m acc hr e h =
    let same : n ≡ r = ground arith in let len : m ≡ k = omega arith in (rw same hr, rw (same, len))
fill-decode_loop r (c ∷ s) n k m acc hr e h = elim (Result-cases (decode_char r c)) [
  | inl (er, f) ↦ ground arith
  | inr (r', f) ↦
      let (lt, quot, last) = decode_char_ok r c r' hr f in
      let (bound, same) =
        fill-decode_loop r' s n (suc k) m acc lt (omega arith) (rw (f, ◌>>=◌) at h) in
      (bound, same ∙ cc (quot, last))
]

fill_done : (s : Text) → fill 0 0 (s ++ []) ≡ s
unfolding fill
fill_done s = append-nil s

-- A decoded text is the one that its number encodes to, so two texts never decode alike.
pub encode-decode_base62 :
    (s : Text) (n : ℕ) → decode_base62 s ≡ ok n → (n < 2 ^ 64) × (encode_base62 n ≡ s)
unfolding decode_base62
encode-decode_base62 s n h = elim (Bool-cases (length s == 11)) [
  | inl e ↦
      let (bound, same) =
        fill-decode_loop 0 s n 0 11 [] (omega arith) (omega (arith, (==_iff (length s) 11).0 e))
          (rw e at h) in
      (bound, encode-fill n ∙ same ∙ fill_done s)
  | inr e ↦ ground arith
]

-- The number that digits write, highest first, after those that write `r`.
unfoldable pub value : ℕ → List ℕ → ℕ
value r [] = r
value r (d ∷ ds) = value (r * 62 + d) ds

abbrev pub Digits : Text → List ℕ → Type 0
Digits [] [] = Unit {0}
Digits (c ∷ s) (d ∷ ds) = IsDigit c d × Digits s ds
Digits _ _ = ⊥

le-value : (r : ℕ) (ds : List ℕ) → r ≤ value r ds
unfolding value
le-value r [] = omega arith
le-value r (d ∷ ds) = omega (arith, le-value (r * 62 + d) ds)

decode_loop-value :
    (r : ℕ) (s : Text) (ds : List ℕ)
    → r < 2 ^ 64
    → Digits s ds
    → decode_loop r s ≡ (if ltb (value r ds) (2 ^ 64) then ok (value r ds) else err overflow)
unfolding decode_loop value
decode_loop-value r [] [] hr h = rw (lt→ltb r (2 ^ 64) hr)
decode_loop-value r [] (d ∷ ds) hr h = absurd h
decode_loop-value r (c ∷ s) [] hr h = absurd h
decode_loop-value r (c ∷ s) (d ∷ ds) hr h = elim (Bool-cases (ltb (r * 62 + d) (2 ^ 64))) [
  | inl fits ↦
      rw (decode_char_digit r c d hr h.0)
        (rw fits (decode_loop-value (r * 62 + d) s ds (ltb→lt _ _ fits) h.1))
  | inr over ↦ rw (decode_char_digit r c d hr h.0) (ground (arith, le-value (r * 62 + d) ds))
]

-- On eleven digits the decoder computes their value and overflows exactly when it does not fit 64
-- bits.
pub decode_base62-value :
    (s : Text) (ds : List ℕ)
    → length s ≡ 11
    → Digits s ds
    → decode_base62 s ≡ (if ltb (value 0 ds) (2 ^ 64) then ok (value 0 ds) else err overflow)
unfolding decode_base62
decode_base62-value s ds len h = rw len (decode_loop-value 0 s ds (omega arith) h)
