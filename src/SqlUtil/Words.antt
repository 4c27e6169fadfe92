-- ===== src/SqlUtil/Words.antt =====
-- The functions of Go's strings and slices packages that internal/sqlutil/sqlutil.go calls, on
-- ASCII text, and isIdentChar.
use sqlproxy.Prelude.{
  ℕ, suc, ◌-◌, List, [], ◌∷◌, map, reverse, Text, Bool, false, not, ◌&&◌, ◌||◌, Option, none, some,
  leb, ◌==◌, if◌then◌else◌, text_eq, has_prefix,
}

unfoldable pub is_ident_char : ℕ → Bool
is_ident_char c =
    (leb b'a' c && leb c b'z')
    || (leb b'A' c && leb c b'Z')
    || (leb b'0' c && leb c b'9')
    || c == b'_'

-- strings.ToUpper
unfoldable pub upper_char : ℕ → ℕ
upper_char c = if leb b'a' c && leb c b'z' then c - 32 else c

unfoldable pub to_upper : Text → Text
unfolding upper_char
to_upper = map upper_char

-- unicode.IsSpace
unfoldable pub is_space : ℕ → Bool
is_space c = (leb 9 c && leb c 13) || c == 32

unfoldable pub trim_left : Text → Text
trim_left [] = []
trim_left (c ∷ s) = let rest = trim_left s in if is_space c then rest else c ∷ s

-- strings.TrimSpace
unfoldable pub trim_space : Text → Text
unfolding trim_left is_space
trim_space s = reverse (trim_left (reverse (trim_left s)))

-- strings.HasSuffix
unfoldable pub has_suffix : Text → Text → Bool
has_suffix s p = has_prefix (reverse s) (reverse p)

-- strings.Contains
unfoldable pub contains : Text → Text → Bool
contains [] p = has_prefix [] p
contains (c ∷ s) p = has_prefix (c ∷ s) p || contains s p

-- strings.Index, counting from i; `none` is the -1
unfoldable pub index_from : ℕ → Text → Text → Option ℕ
index_from i [] p = if has_prefix [] p then some i else none
index_from i (c ∷ s) p = if has_prefix (c ∷ s) p then some i else index_from (suc i) s p

-- slices.Contains
unfoldable pub contains_word : List Text → Text → Bool
contains_word [] w = false
contains_word (k ∷ ks) w = text_eq k w || contains_word ks w

-- The longest prefix of identifier characters, and what follows it.
unfoldable pub take_ident : Text → Text
take_ident [] = []
take_ident (c ∷ s) = let rest = take_ident s in if is_ident_char c then c ∷ rest else []

unfoldable pub drop_ident : Text → Text
drop_ident [] = []
drop_ident (c ∷ s) = let rest = drop_ident s in if is_ident_char c then rest else c ∷ s

-- The first element of strings.Fields: the longest prefix of a trimmed text without white space.
unfoldable pub first_field : Text → Text
first_field [] = []
first_field (c ∷ s) = let rest = first_field s in if is_space c then [] else c ∷ rest

-- [a-zA-Z_] at the front, as the patterns for names in other packages have it
unfoldable pub begins_name : Text → Bool
begins_name [] = false
begins_name (c ∷ s) = is_ident_char c && not (leb b'0' c && leb c b'9')
