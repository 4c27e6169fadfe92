-- ===== src/Workflow/Handler/Parameters.antt =====
-- parseParameters of internal/workflow/handler.go, and ExtractPathParams of
-- internal/workflow/validate.go.
use sqlproxy.Prelude.{
  ℕ, zero, suc, List, [], ◌∷◌, Text, codes, Bool, true, false, ◌&&◌, ◌||◌, Option, none, some,
  length, ◌==◌, if◌then◌else◌, text_eq, has_prefix, Dict, lookup, insert, Result, ok, err, ◌>>=◌,
  map_err,
}
use sqlproxy.SqlUtil.Words.{take_ident, drop_ident, begins_name, is_ident_char}
use sqlproxy.Params.Values.{ValueLibrary, Fields, array, object, no_more, field}
use sqlproxy.Params.Texts.{to_lower}
use sqlproxy.Params
use sqlproxy.Params.{ParamConfig, Any, is_array_type, convert_value, convert_json_value}

-- What net/http gives of a request: FormValue and PathValue by name, the Content-Type, and the body
-- as the JSON decoder reads it, if there is one.
pub record FormRequest (lib : ValueLibrary) : Type 0 where
  pub content_type : Text
  pub json_body : Option (Result Text (Fields lib.Float lib.Time))
  pub form_error : Option Text
  pub path_value : Text → Text
  pub form_value : Text → Text

pub data Error : Type 0 where
  bad_json bad_form : Text → Error
  object_not_supported array_not_supported missing_required : Text → Error
  invalid_value : Text → Params.Error → Error

-- '}' at the front
closes : Text → Bool
closes [] = false
closes (c ∷ s) = c == b'}'

-- The matches of \{([a-zA-Z_][a-zA-Z0-9_]*)\}; the length is fuel enough.
path_params_from : ℕ → Text → List Text
unfolding closes begins_name is_ident_char take_ident drop_ident
path_params_from zero s = []
path_params_from (suc fuel) [] = []
path_params_from (suc fuel) (c ∷ s) = elim (c == b'{' && (begins_name s && closes (drop_ident s))) [
  | true ↦ take_ident s ∷ path_params_from fuel (drop_ident s)
  | false ↦ path_params_from fuel s
]

unfoldable pub extract_path_params : Text → List Text
unfolding path_params_from
extract_path_params path = path_params_from (length path) path

-- the map of the declared types; a name that is not declared has the type ""
unfoldable pub param_types : List ParamConfig → Dict Text → Dict Text
param_types [] types = types
param_types (p ∷ ps) types = param_types ps (insert p.name (to_lower p.type_name) types)

unfoldable pub type_of : Text → Dict Text → Text
type_of name types = elim (lookup name types) [ none ↦ [] | some t ↦ t ]

module _ (lib : ValueLibrary) where
  -- the type switch on a member of the JSON body
  unfoldable pub check_member : Text → Text → Any lib → Result Error (Any lib)
  check_member name type_name (object fs) =
      if text_eq type_name (codes "json") then ok (object fs) else err (object_not_supported name)
  check_member name type_name (array vs) =
      if text_eq type_name (codes "json") || is_array_type type_name
      then ok (array vs)
      else err (array_not_supported name)
  check_member name type_name v = ok v

  -- the loop over the members of the JSON body
  unfoldable pub json_params :
      Dict Text → Fields lib.Float lib.Time → Dict (Any lib) → Result Error (Dict (Any lib))
  unfolding check_member type_of
  json_params types no_more acc = ok acc
  json_params types (field k v fs) acc =
      check_member k (type_of k types) v >>= λ v'. json_params types fs (insert k v' acc)

  -- the parameters in the body; none for a request without a JSON body
  unfoldable pub body_params :
      List ParamConfig → FormRequest lib → Result Error (Option (Dict (Any lib)))
  unfolding json_params param_types
  body_params configs r =
      if has_prefix r.content_type (codes "application/json")
      then elim r.json_body [
        | none ↦ ok none
        | some (err e) ↦ err (bad_json e)
        | some (ok fs) ↦ json_params (param_types configs []) fs [] >>= λ m. ok (some m)
      ]
      else ok none

  abbrev pub member_of : Text → List Text → Bool
  member_of name [] = false
  member_of name (n ∷ ns) = text_eq n name || member_of name ns

  -- the value in the path, or else in the query string or the form
  unfoldable pub given : List Text → FormRequest lib → Text → Text
  given path r name =
      let v = if member_of name path then r.path_value name else [] in
      if text_eq v [] then r.form_value name else v

  unfoldable pub from_json : Option (Dict (Any lib)) → Text → Option (Any lib)
  from_json none name = none
  from_json (some m) name = lookup name m

  -- the body of the loop over the declared parameters: the value that is bound
  unfoldable pub bind_param :
      List Text → FormRequest lib → Option (Dict (Any lib)) → ParamConfig → Result Error (Any lib)
  unfolding given from_json
  bind_param path r json p =
      let value = given path r p.name in
      if text_eq value []
      then elim (from_json json p.name) [
        | some v ↦ map_err (invalid_value p.name) (convert_json_value lib v p.type_name)
        | none ↦
            if p.required
            then err (missing_required p.name)
            else map_err (invalid_value p.name) (convert_value lib p.default p.type_name)
      ]
      else map_err (invalid_value p.name) (convert_value lib value p.type_name)

  unfoldable pub bind_params :
      List Text
      → FormRequest lib
      → Option (Dict (Any lib))
      → List ParamConfig
      → Dict (Any lib)
      → Result Error (Dict (Any lib))
  bind_params path r json [] params = ok params
  bind_params path r json (p ∷ ps) params =
      bind_param path r json p >>= λ v. bind_params path r json ps (insert p.name v params)

  -- the error of ParseForm, if there is one
  unfoldable pub check_form : FormRequest lib → Result Error (Unit {0})
  check_form r = elim r.form_error [ none ↦ ok tt | some e ↦ err (bad_form e) ]

  unfoldable pub parse_parameters :
      Text → List ParamConfig → FormRequest lib → Result Error (Dict (Any lib))
  unfolding body_params check_form
  parse_parameters path configs r = body_params configs r >>= λ json.
      check_form r >>= λ _. bind_params (extract_path_params path) r json configs []
