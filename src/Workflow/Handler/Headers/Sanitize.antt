-- ===== src/Workflow/Handler/Headers/Sanitize.antt =====
-- Request ids and cookies of internal/workflow/handler.go.
use sqlproxy.Prelude.{
  ℕ, zero, suc, ◌≡◌, ◌≤◌, refl, sym, ap, arith, inl, inr, List, [], ◌∷◌, Text, true, Option-cases,
  Bool-cases, All, length, text_eq_iff, Dict, lookup, insert, lookup-insert, or_else, or_else-none,
}
use sqlproxy.Workflow.Handler.Headers.{
  HeaderRequest, take, is_header_char, keep_header_chars, sanitize_header_value, add_cookies,
  parse_cookies,
}

length-take : (n : ℕ) (s : Text) → length (take n s) ≤ n
unfolding take
length-take zero s = omega arith
length-take (suc n) [] = omega arith
length-take (suc n) (c ∷ s) = omega (arith, length-take n s)

take_short : (n : ℕ) (s : Text) → length s ≤ n → take n s ≡ s
unfolding take
take_short zero [] h = refl
take_short zero (c ∷ s) h = absurd (omega arith)
take_short (suc n) [] h = refl
take_short (suc n) (c ∷ s) h = ap (λ t. c ∷ t) (take_short n s (omega arith))

length-keep_header_chars : (s : Text) → length (keep_header_chars s) ≤ length s
unfolding keep_header_chars
length-keep_header_chars [] = omega arith
length-keep_header_chars (c ∷ s) = ground (arith, length-keep_header_chars s)

abbrev pub IsPrintable : Text → Type 0
IsPrintable s = All (λ c. is_header_char c ≡ true) s

keep_header_chars-IsPrintable : (s : Text) → IsPrintable (keep_header_chars s)
unfolding keep_header_chars
keep_header_chars-IsPrintable [] = tt
keep_header_chars-IsPrintable (c ∷ s) = elim (Bool-cases (is_header_char c)) [
  | inl e ↦ rw (e, keep_header_chars) (e, keep_header_chars-IsPrintable s)
  | inr e ↦ rw (e, keep_header_chars) (keep_header_chars-IsPrintable s)
]

keep_header_chars_printable : (s : Text) → IsPrintable s → keep_header_chars s ≡ s
unfolding keep_header_chars
keep_header_chars_printable [] h = refl
keep_header_chars_printable (c ∷ s) h =
    rw (h.0, keep_header_chars) (ap (λ t. c ∷ t) (keep_header_chars_printable s h.1))

-- A sanitized request id has at most 128 bytes, all printable, and an id that has so already is
-- kept as it is.
pub sanitize_header_value_lem :
    (s : Text)
    → (length (sanitize_header_value s) ≤ 128)
      × IsPrintable (sanitize_header_value s)
      × (length s ≤ 128 → IsPrintable s → sanitize_header_value s ≡ s)
unfolding sanitize_header_value
sanitize_header_value_lem s = (
  omega (arith, length-take 128 s, length-keep_header_chars (take 128 s)),
  keep_header_chars-IsPrintable (take 128 s),
  (λ h p. rw (take_short 128 s h) (keep_header_chars_printable s p)),
)

lookup-add_cookies :
    (cs : List (Text × Text)) (m : Dict Text) (name : Text)
    → lookup name (add_cookies cs m) ≡ or_else (lookup name m) (lookup name cs)
unfolding add_cookies lookup
lookup-add_cookies [] m name = sym (or_else-none (lookup name m))
lookup-add_cookies ((n, v) ∷ cs) m name = elim (Option-cases (lookup n m)) [
  | inl e ↦ ground (
    arith,
    text_eq_iff n name,
    e,
    lookup-add_cookies cs (insert n v m) name,
    lookup-insert n name v m,
  )
  | inr (w, e) ↦ ground (arith, text_eq_iff n name, e, lookup-add_cookies cs m name)
]

-- The parsed cookies have under each name the value of the first cookie of that name.
pub lookup-parse_cookies :
    (r : HeaderRequest) (name : Text) → lookup name (parse_cookies r) ≡ lookup name r.cookies
unfolding parse_cookies lookup
lookup-parse_cookies r name = lookup-add_cookies r.cookies [] name
