-- ===== src/Db/Params/Placeholders.antt =====
-- MySQL's translateQuery of internal/db/mysql.go puts one ? for each parameter.
use sqlproxy.Prelude.{
  ℕ, zero, suc, ◌+◌, ◌≤◌, ◌≡◌, refl, ap, inl, inr, arith, [], ◌∷◌, map, Text, Bool, false, ◌&&◌,
  ◌||◌, Bool-cases, length, ◌==◌, if◌then◌else◌, Dict,
}
use sqlproxy.SqlUtil.Words.{is_ident_char, take_ident, drop_ident}
use sqlproxy.Db.Params.{
  begins_word, words_from, query_names, value_or_nil, translate_from, translate_query,
}

-- the number of ? in a text
abbrev pub marks : Text → ℕ
marks [] = 0
marks (c ∷ s) = let rest = marks s in if c == b'?' then suc rest else rest

-- A parameter stands in the text.
abbrev has_param : Text → Bool
has_param [] = false
has_param (c ∷ s) = c == b'@' && begins_word s || has_param s

words_from-none : (fuel : ℕ) (s : Text) → has_param s ≡ false → words_from fuel s ≡ []
unfolding words_from
words_from-none zero s h = refl
words_from-none (suc fuel) [] h = refl
words_from-none (suc fuel) (c ∷ s) h =
    let here : (c == b'@' && begins_word s) ≡ false = ground arith in
    let later : has_param s ≡ false = ground arith in
    simp (words_from, here) (words_from-none fuel s later)

length-drop_ident : (s : Text) → length (drop_ident s) ≤ length s
unfolding drop_ident
length-drop_ident [] = omega arith
length-drop_ident (c ∷ s) = ground (arith, length-drop_ident s)

marks-drop_ident : (s : Text) → marks (drop_ident s) ≡ marks s
unfolding drop_ident is_ident_char
marks-drop_ident [] = refl
marks-drop_ident (c ∷ s) = ground (arith, marks-drop_ident s)

begins_word-drop_ident : (s : Text) → begins_word (drop_ident s) ≡ false
unfolding drop_ident begins_word
begins_word-drop_ident [] = refl
begins_word-drop_ident (c ∷ s) = elim (Bool-cases (is_ident_char c)) [
  | inl e ↦ simp (drop_ident, e) (begins_word-drop_ident s)
  | inr e ↦ simp (drop_ident, e) refl
]

module _ {Value : Type 0} (nothing : Value) (params : Dict Value) where
  translate_from-args :
      (fuel : ℕ) (s : Text)
      → (translate_from nothing params fuel s).1
        ≡ map (value_or_nil nothing params) (words_from fuel s)
  unfolding translate_from words_from
  translate_from-args zero s = refl
  translate_from-args (suc fuel) [] = refl
  translate_from-args (suc fuel) (c ∷ s) = elim (Bool-cases (c == b'@' && begins_word s)) [
    | inl e ↦
        simp (translate_from, words_from, e)
          (ap (λ l. value_or_nil nothing params (take_ident s) ∷ l)
            (translate_from-args fuel (drop_ident s)))
    | inr e ↦ simp (translate_from, words_from, e) (translate_from-args fuel s)
  ]

  marks-translate_from :
      (fuel : ℕ) (s : Text)
      → marks (translate_from nothing params fuel s).0
        ≡ marks s + length (translate_from nothing params fuel s).1
  unfolding translate_from
  marks-translate_from zero s = omega arith
  marks-translate_from (suc fuel) [] = omega arith
  marks-translate_from (suc fuel) (c ∷ s) = elim (Bool-cases (c == b'@' && begins_word s)) [
    | inl e ↦
        simp (translate_from, e)
          (ground (arith, e, marks-translate_from fuel (drop_ident s), marks-drop_ident s))
    | inr e ↦ simp (translate_from, e) (ground (arith, marks-translate_from fuel s))
  ]

  begins_word-translate_from :
      (fuel : ℕ) (s : Text) → begins_word (translate_from nothing params fuel s).0 ≡ begins_word s
  unfolding translate_from begins_word is_ident_char
  begins_word-translate_from zero s = refl
  begins_word-translate_from (suc fuel) [] = refl
  begins_word-translate_from (suc fuel) (c ∷ s) = elim (Bool-cases (c == b'@' && begins_word s)) [
    | inl e ↦ simp (translate_from, e) (ground (arith, e))
    | inr e ↦ simp (translate_from, e) refl
  ]

  has_param-translate_from :
      (fuel : ℕ) (s : Text)
      → length s ≤ fuel
      → has_param (translate_from nothing params fuel s).0 ≡ false
  unfolding translate_from
  has_param-translate_from zero [] h = refl
  has_param-translate_from zero (c ∷ s) h = absurd (omega arith)
  has_param-translate_from (suc fuel) [] h = refl
  has_param-translate_from (suc fuel) (c ∷ s) h = elim (Bool-cases (c == b'@' && begins_word s)) [
    | inl e ↦
        simp (translate_from, e)
          (has_param-translate_from fuel (drop_ident s) (omega (arith, length-drop_ident s)))
    | inr e ↦
        simp (translate_from, e)
          (rw (begins_word-translate_from fuel s, e)
            (has_param-translate_from fuel s (omega arith)))
  ]

  -- The statement that the MySQL driver sends has the values of its parameters as arguments, in
  -- the order of the matches of ParamRegex, one more ? for each of them, and no parameter left.
  pub translate_query-args :
      (query : Text)
      → let translated = translate_query nothing params query in
        (translated.1 ≡ map (value_or_nil nothing params) (query_names query))
        × (marks translated.0 ≡ marks query + length translated.1)
        × (query_names translated.0 ≡ [])
  unfolding translate_query query_names
  translate_query-args query =
      let out = (translate_from nothing params (length query) query).0 in
      (
        translate_from-args (length query) query,
        marks-translate_from (length query) query,
        words_from-none (length out) out
            (has_param-translate_from (length query) query (omega arith)),
      )
