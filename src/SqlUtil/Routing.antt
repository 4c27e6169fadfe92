-- ===== src/SqlUtil/Routing.antt =====
-- IsWriteQuery against RequiresWriteAccess of internal/sqlutil/sqlutil.go.
use mathlib.Core.List.{append_assoc, map-append, reverse-append, reverse-reverse}
use sqlproxy.Prelude.{
  ℕ, ◌≡◌, refl, ap, sym, ◌∙◌, arith, List, [], ◌∷◌, ◌++◌, reverse, Text, codes, true, false,
  text_eq, text_eq_iff, has_prefix, Bool-cases, inl, inr, All,
}
use sqlproxy.SqlUtil.Strip.{strip_literals}
use sqlproxy.SqlUtil.Words.{
  is_ident_char, upper_char, is_space, trim_left, trim_space, first_field, to_upper, contains_word,
}
use sqlproxy.SqlUtil.Access.{IsWord, EndsOutside, BeginsOutside, requires_write_access_iff}
use sqlproxy.SqlUtil.{write_keywords, procedure_keywords, is_write_query, requires_write_access}

abbrev IsBlank : Text → Type 0
IsBlank = All (λ c. is_space c ≡ true)

All-append : (P : ℕ → Type 0) (s t : Text) → All P s → All P t → All P (s ++ t)
All-append P [] t hs ht = ht
All-append P (c ∷ s) t hs ht = (hs.0, All-append P s t hs.1 ht)

All-reverse : (P : ℕ → Type 0) (s : Text) → All P s → All P (reverse s)
All-reverse P [] h = tt
All-reverse P (c ∷ s) h =
    rw (reverse-append (c ∷ []) s)
      (All-append P (reverse s) (c ∷ []) (All-reverse P s h.1) (h.0, tt))

trim_left-IsBlank : (s : Text) → (a : Text) × IsBlank a × (s ≡ a ++ trim_left s)
unfolding trim_left
trim_left-IsBlank [] = ([], tt, refl)
trim_left-IsBlank (c ∷ s) = elim (Bool-cases (is_space c)) [
  | inl e ↦
      let (a, blank, same) = trim_left-IsBlank s in (c ∷ a, (e, blank), rw e (ap (◌∷◌ c) same))
  | inr e ↦ ([], tt, rw e)
]

-- Trimming takes white space off both ends, and nothing else.
trim_space-IsBlank :
    (s : Text) → (a : Text) × (b : Text) × IsBlank a × IsBlank b × (s ≡ a ++ (trim_space s ++ b))
unfolding trim_space
trim_space-IsBlank s =
    let (a, ha, ea) = trim_left-IsBlank s in
    let (b, hb, eb) = trim_left-IsBlank (reverse (trim_left s)) in
    (
      a,
      reverse b,
      ha,
      All-reverse _ b hb,
      ea
          ∙ ap (λ (t : Text). a ++ t)
              (sym (reverse-reverse (trim_left s))
                ∙ ap (reverse {A = ℕ}) eb
                ∙ reverse-append b (trim_left (reverse (trim_left s)))),
    )

upper_space : (c : ℕ) → is_space c ≡ true → is_ident_char (upper_char c) ≡ false
unfolding is_space is_ident_char upper_char
upper_space c h = ground arith

upper-EndsOutside : (s : Text) → IsBlank s → EndsOutside (to_upper s)
unfolding to_upper
upper-EndsOutside [] h = tt
upper-EndsOutside (c ∷ []) h = upper_space c h.0
upper-EndsOutside (c ∷ d ∷ s) h = upper-EndsOutside (d ∷ s) h.1

upper-BeginsOutside : (s : Text) → IsBlank s → BeginsOutside (to_upper s)
unfolding to_upper
upper-BeginsOutside [] h = tt
upper-BeginsOutside (c ∷ s) h = upper_space c h.0

space_outside : (c : ℕ) → is_space c ≡ true → is_ident_char c ≡ false
unfolding is_space is_ident_char
space_outside c h = ground arith

upper-append : (s t : Text) → to_upper (s ++ t) ≡ to_upper s ++ to_upper t
unfolding to_upper
upper-append s t = map-append upper_char s t

-- The first field ends at white space or at the end.
first_field_lem :
    (s t : Text) → BeginsOutside t → (r : Text) × (s ≡ first_field s ++ r) × BeginsOutside (r ++ t)
unfolding first_field
first_field_lem [] t h = ([], refl, h)
first_field_lem (c ∷ s) t h = elim (Bool-cases (is_space c)) [
  | inl e ↦ (c ∷ s, rw e, space_outside c e)
  | inr e ↦ let (r, same, out) = first_field_lem s t h in (r, rw e (ap (◌∷◌ c) same), out)
]

contains_word_found :
    (P : Text → Type 0) (ks : List Text) (w : Text) → All P ks → contains_word ks w ≡ true → P w
unfolding contains_word
contains_word_found P [] w h e = absurd (ground arith)
contains_word_found P (k ∷ ks) w h e = elim (Bool-cases (text_eq k w)) [
  | inl same ↦ rw (← (text_eq_iff k w).0 same) h.0
  | inr other ↦ contains_word_found P ks w h.1 (rw other at e)
]

contains_word-append :
    (ks ls : List Text) (w : Text) → contains_word ks w ≡ true → contains_word (ks ++ ls) w ≡ true
unfolding contains_word
contains_word-append [] ls w h = absurd (ground arith)
contains_word-append (k ∷ ks) ls w h = ground (arith, contains_word-append ks ls w)

write_keywords-IsWord : All IsWord write_keywords
unfolding is_ident_char
write_keywords-IsWord = assumption refl

-- A statement that is routed as a write by its first word is never allowed on a read-only
-- connection.
pub is_write_query-requires_write_access :
    (sql : Text)
    → is_write_query sql ≡ true
    → has_prefix (to_upper (trim_space (strip_literals sql))) (codes "WITH ") ≡ false
    → requires_write_access sql ≡ true
unfolding is_write_query
is_write_query-requires_write_access sql h other =
    let s = strip_literals sql in
    let (a, b, ha, hb, e) = trim_space-IsBlank s in
    let (r, same, out) =
      first_field_lem (to_upper (trim_space s)) (to_upper b) (upper-BeginsOutside b hb) in
    let kw : contains_word write_keywords (first_field (to_upper (trim_space s))) ≡ true =
      ground arith in
    (requires_write_access_iff sql).1 (record {
      before = to_upper a;
      word = first_field (to_upper (trim_space s));
      after = r ++ to_upper b;
      splits =
          ap to_upper e
          ∙ upper-append a (trim_space s ++ b)
          ∙ ap (λ (t : Text). to_upper a ++ t)
              (upper-append (trim_space s) b
                ∙ ap (λ (t : Text). t ++ to_upper b) same
                ∙ append_assoc (first_field (to_upper (trim_space s))) r (to_upper b));
      outside_before = upper-EndsOutside a ha;
      outside_after = out;
      is_word = contains_word_found IsWord write_keywords _ write_keywords-IsWord kw;
      keyword = contains_word-append write_keywords procedure_keywords _ kw;
    })
