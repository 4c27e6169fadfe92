-- ===== src/Db/Params.antt =====
-- The parameters of a statement: translateQuery of internal/db/mysql.go and internal/db/sqlite.go, and
-- buildArgs of internal/db/sqlserver.go.
pub mod Placeholders
pub mod Named
use sqlproxy.Prelude.{
  ℕ, zero, suc, List, [], ◌∷◌, Text, codes, Bool, true, false, ◌&&◌, Option, none, some, length,
  ◌==◌, if◌then◌else◌, text_eq, Dict, lookup,
}
use sqlproxy.SqlUtil.Words.{is_ident_char, take_ident, drop_ident, contains_word}

-- A character of \w comes next.
unfoldable pub begins_word : Text → Bool
begins_word [] = false
begins_word (c ∷ s) = is_ident_char c

-- The matches of ParamRegex, from left to right; the length is fuel enough.
unfoldable pub words_from : ℕ → Text → List Text
unfolding begins_word
words_from zero s = []
words_from (suc fuel) [] = []
words_from (suc fuel) (c ∷ s) = elim (c == b'@' && begins_word s) [
  | true ↦ take_ident s ∷ words_from fuel (drop_ident s)
  | false ↦ words_from fuel s
]

unfoldable pub query_names : Text → List Text
unfolding words_from
query_names query = words_from (length query) query

-- `nothing` is the nil of a name that params does not have.
module _ {Value : Type 0} (nothing : Value) (params : Dict Value) where
  unfoldable pub value_or_nil : Text → Value
  value_or_nil name = elim (lookup name params) [ some v ↦ v | none ↦ nothing ]

  -- the loop of MySQLDriver.translateQuery, on the text from the last match on
  unfoldable pub translate_from : ℕ → Text → Text × List Value
  unfolding value_or_nil begins_word
  translate_from zero s = (s, [])
  translate_from (suc fuel) [] = ([], [])
  translate_from (suc fuel) (c ∷ s) =
      let rest = translate_from fuel s in
      let after = translate_from fuel (drop_ident s) in
      elim (c == b'@' && begins_word s) [
        | true ↦ (b'?' ∷ after.0, value_or_nil (take_ident s) ∷ after.1)
        | false ↦ (c ∷ rest.0, rest.1)
      ]

  unfoldable pub translate_query : Text → Text × List Value
  unfolding translate_from
  translate_query query = translate_from (length query) query

  -- the loop of buildArgs and of SQLiteDriver.translateQuery, after the names in `added`
  unfoldable pub named_args : List Text → List Text → Dict Value
  unfolding value_or_nil
  named_args added [] = []
  named_args added (name ∷ names) =
      if contains_word added name
      then named_args added names
      else (name, value_or_nil name) ∷ named_args (name ∷ added) names

  unfoldable pub build_args : Text → Dict Value
  unfolding named_args query_names
  build_args query = named_args [] (query_names query)
