-- ===== src/Params/Texts.antt =====
-- The functions of Go's strings and strconv packages that internal/types/params.go calls, on ASCII
-- text.
use sqlproxy.Prelude.{
  ℕ, zero, suc, ◌+◌, ◌-◌, ◌*◌, ◌^◌, List, [], ◌∷◌, map, Text, codes, Bool, true, false, ◌&&◌, ◌||◌,
  Option, none, some, ltb, leb, ◌==◌, if◌then◌else◌, text_eq, Result, ok, err, ℤ, pos, negsuc,
}

-- strings.ToLower
unfoldable pub lower_char : ℕ → ℕ
lower_char c = if leb b'A' c && leb c b'Z' then c + 32 else c

unfoldable pub to_lower : Text → Text
unfolding lower_char
to_lower = map lower_char

pub data NumberError : Type 0 where
  invalid_syntax out_of_range : NumberError

-- The number that a text of digits reads, after n; none if another byte stands in it.
unfoldable pub digits_from : ℕ → Text → Option ℕ
digits_from n [] = some n
digits_from n (c ∷ s) =
    let more = digits_from (n * 10 + (c - b'0')) s in
    if leb b'0' c && leb c b'9' then more else none

-- a text that has a digit at least
unfoldable pub digits : Text → Option ℕ
unfolding digits_from
digits [] = none
digits (c ∷ s) = digits_from 0 (c ∷ s)

unfoldable pub signed : Bool → Text → Result NumberError ℤ
unfolding digits
signed negative s = elim (digits s) [
  | none ↦ err invalid_syntax
  | some n ↦
      if negative
      then if ltb (2 ^ 63) n then err out_of_range else ok (negate n)
      else if ltb n (2 ^ 63)
      then ok (pos n)
      else err out_of_range
]
  where
    negate : ℕ → ℤ
    negate zero = pos 0
    negate (suc n) = negsuc n

-- strconv.Atoi, for an int of 64 bits
unfoldable pub atoi : Text → Result NumberError ℤ
unfolding signed
atoi [] = err invalid_syntax
atoi (c ∷ s) =
    if c == b'-' then signed true s else if c == b'+' then signed false s else signed false (c ∷ s)

abbrev pub one_of : Text → List Text → Bool
one_of s [] = false
one_of s (t ∷ ts) = text_eq s t || one_of s ts

-- strconv.ParseBool
unfoldable pub parse_bool : Text → Result NumberError Bool
unfolding text_eq
parse_bool s =
    if one_of s
      (codes "1" ∷ codes "t" ∷ codes "T" ∷ codes "true" ∷ codes "TRUE" ∷ codes "True" ∷ [])
    then ok true
    else if one_of s
        (codes "0" ∷ codes "f" ∷ codes "F" ∷ codes "false" ∷ codes "FALSE" ∷ codes "False" ∷ [])
    then ok false
    else err invalid_syntax

-- strconv.FormatBool
unfoldable pub format_bool : Bool → Text
format_bool true = codes "true"
format_bool false = codes "false"
