-- ===== src/SqlUtil.antt =====
-- internal/sqlutil/sqlutil.go: which statements write, by keyword, outside literals and comments.
pub mod Strip
pub mod Words
pub mod Access
pub mod Routing
pub mod Samples
mod Tests
use sqlproxy.Prelude.{
  ℕ, zero, suc, ◌+◌, ◌-◌, List, [], ◌∷◌, ◌++◌, map, reverse, Text, codes, Bool, true, false, not,
  ◌&&◌, ◌||◌, Option, none, some, length, drop, get_elem?, ltb, leb, ◌==◌, if◌then◌else◌, text_eq,
  has_prefix,
}
use Strip.{strip_literals}
use Words.{
  is_ident_char, take_ident, drop_ident, to_upper, trim_space, has_suffix, contains, contains_word,
  index_from, first_field,
}

abbrev pub write_keywords : List Text
write_keywords =
    codes "INSERT"
    ∷ codes "UPDATE"
    ∷ codes "DELETE"
    ∷ codes "CREATE"
    ∷ codes "DROP"
    ∷ codes "ALTER"
    ∷ codes "TRUNCATE"
    ∷ codes "MERGE"
    ∷ []

abbrev pub procedure_keywords : List Text
procedure_keywords = codes "EXEC" ∷ codes "EXECUTE" ∷ codes "CALL" ∷ []

abbrev pub mutating_keywords : List Text
mutating_keywords = write_keywords ++ procedure_keywords

-- the loop over the keywords in a common table expression
mentions_keyword : List Text → Text → Bool
mentions_keyword [] upper = false
mentions_keyword (kw ∷ kws) upper =
    (contains upper (kw ++ codes " ") || has_suffix upper kw) || mentions_keyword kws upper

pub is_write_query : Text → Bool
unfolding mentions_keyword
is_write_query sql =
    let upper = to_upper (trim_space (strip_literals sql)) in
    if text_eq upper []
    then false
    else if has_prefix upper (codes "WITH ")
    then mentions_keyword write_keywords upper
    else if text_eq (first_field upper) []
    then false
    else contains_word write_keywords (first_field upper)

-- The loop over `upper[i:]`; a word is read to its end and compared whole.
scan_words : ℕ → Text → Bool
scan_words zero upper = false
scan_words (suc fuel) [] = false
scan_words (suc fuel) (c ∷ s) = elim (is_ident_char c) [
  | false ↦ scan_words fuel s
  | true ↦ elim (contains_word mutating_keywords (c ∷ take_ident s)) [
    | true ↦ true
    | false ↦ scan_words fuel (drop_ident s)
  ]
]

pub requires_write_access : Text → Bool
requires_write_access sql =
    let upper = to_upper (strip_literals sql) in scan_words (length upper) upper

-- isIdentChar(s[i]), where the source has tested that i is in range
ident_at : Text → ℕ → Bool
ident_at s i = elim (get_elem? s i) [ none ↦ false | some c ↦ is_ident_char c ]

pub has_returning_clause : Text → Bool
unfolding ident_at
has_returning_clause sql =
    let stripped = strip_literals sql in
    let upper = to_upper stripped in
    if contains upper (codes "OUTPUT INSERTED") || contains upper (codes "OUTPUT DELETED")
    then true
    else elim (index_from 0 upper (codes "RETURNING")) [
      | none ↦ false
      | some idx ↦
          let end = idx + 9 in
          if ltb 0 idx && ident_at stripped (idx - 1)
          then false
          else if ltb end (length stripped) && ident_at stripped end
          then false
          else true
    ]
