-- ===== src/Workflow/SqlParams.antt =====
-- extractSQLParams of internal/workflow/execute_query.go: the values that are bound to a statement.
pub mod Search
mod Tests
use sqlproxy.Prelude.{
  ℕ, zero, suc, ◌-◌, ◌≡◌, refl, ◌∙◌, ◌⊎◌, inl, inr, arith, List, [], ◌∷◌, map, Text, codes, Bool,
  true, false, not, ◌&&◌, ◌||◌, Option, none, some, Option-cases, Bool-cases, length, ltb, leb,
  ◌==◌, if◌then◌else◌, text_eq, text_eq_iff, Dict, lookup, insert, lookup-insert, or_else,
  or_else-none,
}
use sqlproxy.SqlUtil.Words.{is_ident_char, take_ident, drop_ident, begins_name, contains_word}

-- The matches of @([a-zA-Z_][a-zA-Z0-9_]*), from left to right; the length is fuel enough.
names_from : ℕ → Text → List Text
names_from zero s = []
names_from (suc fuel) [] = []
names_from (suc fuel) (c ∷ s) = elim (c == b'@' && begins_name s) [
  | true ↦ take_ident s ∷ names_from fuel (drop_ident s)
  | false ↦ names_from fuel s
]

pub param_names : Text → List Text
unfolding names_from
param_names sql = names_from (length sql) sql

-- s < t, as sort.Strings compares bytes
pub text_lt : Text → Text → Bool
text_lt s [] = false
text_lt [] (d ∷ t) = true
text_lt (c ∷ s) (d ∷ t) = ltb c d || c == d && text_lt s t

insert_sorted : Text → List Text → List Text
insert_sorted k [] = k ∷ []
insert_sorted k (j ∷ ks) =
    let rest = insert_sorted k ks in if text_lt j k then j ∷ rest else k ∷ j ∷ ks

sort_keys : List Text → List Text
unfolding insert_sorted text_lt
sort_keys [] = []
sort_keys (k ∷ ks) = insert_sorted k (sort_keys ks)

-- `fields` is the type assertion to map[string]any.
module _ {Value : Type 0} (fields : Value → Option (Dict Value)) where
  -- m[key].(map[string]any)[name], where each step may find nothing
  within : Text → Text → Dict Value → Option Value
  within key name data_map = elim (lookup key data_map) [
    | none ↦ none
    | some v ↦ elim (fields v) [ none ↦ none | some m ↦ lookup name m ]
  ]

  trigger_param : Text → Dict Value → Option Value
  unfolding within
  trigger_param name data_map = elim (lookup (codes "trigger") data_map) [
    | none ↦ none
    | some v ↦ elim (fields v) [ none ↦ none | some trigger ↦ within (codes "params") name trigger ]
  ]

  -- the loop over the sorted keys
  first_field_of : Text → Dict Value → List Text → Option Value
  unfolding within
  first_field_of name data_map [] = none
  first_field_of name data_map (k ∷ ks) =
      or_else (within k name data_map) (first_field_of name data_map ks)

  -- the body of the loop over the matches: the value that a name stands for, if any
  pub value_of : Dict Value → Text → Option Value
  unfolding within trigger_param first_field_of sort_keys
  value_of data_map name = or_else (within (codes "params") name data_map) (
      or_else (trigger_param name data_map) (
        or_else (first_field_of name data_map (sort_keys (map (λ e. e.0) data_map)))
          (lookup name data_map)))

  bind_names : Dict Value → List Text → Dict Value → Dict Value
  bind_names data_map [] params = params
  bind_names data_map (name ∷ names) params =
      bind_names data_map names
        (elim (value_of data_map name) [ none ↦ params | some v ↦ insert name v params ])

  pub extract_sql_params : Text → Dict Value → Dict Value
  unfolding bind_names
  extract_sql_params sql data_map = bind_names data_map (param_names sql) []

  lookup-bind_names :
      (data_map : Dict Value) (names : List Text) (params : Dict Value) (name : Text)
      → lookup name (bind_names data_map names params) ≡ (
          if contains_word names name
          then or_else (value_of data_map name) (lookup name params)
          else lookup name params)
  unfolding bind_names contains_word
  lookup-bind_names data_map [] params name = refl
  lookup-bind_names data_map (n ∷ names) params name = elim (Option-cases (value_of data_map n)) [
    | inl e ↦ ground (arith, text_eq_iff n name, lookup-bind_names data_map names params name, e)
    | inr (v, e) ↦ ground (
      arith,
      text_eq_iff n name,
      lookup-bind_names data_map names (insert n v params) name,
      lookup-insert n name v params,
      e,
    )
  ]
