-- ===== src/Workflow/SqlParams/Tests.antt =====
-- Runs of extractSQLParams of internal/workflow/execute_query.go.
use sqlproxy.Prelude.{
  ◌≡◌, refl, List, [], ◌∷◌, Text, codes, Option, none, some, Dict, lookup, insert, text_eq,
}
use sqlproxy.SqlUtil.Words.{contains_word, begins_name, is_ident_char, take_ident, drop_ident}
use sqlproxy.Workflow.SqlParams.Search.{IsSearched, lookup-extract_sql_params}
use sqlproxy.Workflow.SqlParams.{param_names, names_from, value_of, extract_sql_params, bind_names}

data Json : Type 0 where
  text : Text → Json
  fields : List (Text × Text) → Json

texts : List (Text × Text) → Dict Json
texts [] = []
texts ((k, v) ∷ m) = (k, text v) ∷ texts m

fields_of : Json → Option (Dict Json)
unfolding texts
fields_of (text t) = none
fields_of (fields m) = some (texts m)

abbrev row_data : Dict Json
row_data =
    (codes "z", fields ((codes "id", codes "1") ∷ []))
    ∷ (codes "params", fields ((codes "name", codes "n") ∷ []))
    ∷ (codes "item", fields ((codes "id", codes "2") ∷ []))
    ∷ []

abbrev statement : Text
statement = codes "SELECT @id, @name, a@b"

-- The iteration variables are searched in the order of their names.
extract_run :
    extract_sql_params fields_of statement row_data
    ≡ (codes "id", text (codes "2")) ∷ (codes "name", text (codes "n")) ∷ []
unfolding extract_sql_params fields_of text_eq bind_names value_of param_names names_from
    begins_name is_ident_char take_ident drop_ident lookup insert
extract_run = refl

lookup-extract_sql_params_example :
    IsSearched fields_of row_data
      (codes "id")
      (lookup (codes "id") (extract_sql_params fields_of statement row_data))
    × (lookup (codes "z") (extract_sql_params fields_of statement row_data) ≡ none)
unfolding param_names names_from begins_name is_ident_char take_ident drop_ident contains_word
    text_eq
lookup-extract_sql_params_example =
    lookup-extract_sql_params fields_of row_data (codes "id") statement (codes "z") refl refl
