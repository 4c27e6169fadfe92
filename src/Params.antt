-- ===== src/Params.antt =====
-- internal/types/params.go: the parameters of a trigger and the conversion of their values.
pub mod Values
pub mod Texts
pub mod Elements
pub mod Typing
pub mod Agreement
pub mod Tests
use sqlproxy.Prelude.{
  ℕ, zero, suc, ◌+◌, ◌-◌, List, [], ◌∷◌, Text, codes, Bool, true, false, ◌&&◌, ◌||◌, Option, none,
  some, length, drop, reverse, ltb, if◌then◌else◌, text_eq, has_prefix, Result, ok, err, ◌>>=◌,
  map_err, ℤ,
}
use sqlproxy.SqlUtil.Words.{has_suffix}
use Values.{
  Value, Items, ValueLibrary, nil, boolean, int, float, text, time, array, object, none_left, item,
}
use Texts.{NumberError, to_lower, atoi, parse_bool, format_bool}

pub record ParamConfig : Type 0 where
  pub name : Text
  pub type_name : Text
  pub required : Bool
  pub default : Text

unfoldable pub is_array_type : Text → Bool
unfolding has_suffix has_prefix
is_array_type name = ltb 2 (length name) && has_suffix name (codes "[]")

unfoldable pub array_base_type : Text → Text
unfolding is_array_type
array_base_type name = if is_array_type name then reverse (drop 2 (reverse name)) else name

-- What the conversions tell the (lower case) type names apart by, in the order of their tests.
pub data Kind : Type 0 where
  as_json : Kind
  as_array : Text → Kind
  as_int as_bool as_datetime as_float as_other : Kind

abbrev either : Text → Text → Text → Bool
either name s t = text_eq name s || text_eq name t

-- the cases of the two switches on a type name
pub scalar_kind : Text → Kind
scalar_kind name =
    if either name (codes "int") (codes "integer")
    then as_int
    else if either name (codes "float") (codes "double")
    then as_float
    else if either name (codes "bool") (codes "boolean")
    then as_bool
    else if either name (codes "datetime") (codes "date")
    then as_datetime
    else as_other

unfoldable pub kind_of : Text → Kind
unfolding scalar_kind to_lower is_array_type text_eq
kind_of type_name =
    let lower = to_lower type_name in
    if text_eq lower (codes "json")
    then as_json
    else if is_array_type lower
    then as_array (array_base_type lower)
    else scalar_kind lower

pub data Error : Type 0 where
  invalid_json not_serializable expected_array_text : Text → Error
  number : NumberError → Error
  float_syntax : Text → Error
  invalid_datetime : Error
  expected_array expected_integer expected_number expected_boolean expected_string : Error
  element : ℕ → Error → Error

abbrev pub datetime_layouts : List Text
datetime_layouts =
    codes "2006-01-02T15:04:05Z07:00"
    ∷ codes "2006-01-02T15:04:05"
    ∷ codes "2006-01-02 15:04:05"
    ∷ codes "2006-01-02"
    ∷ []

module _ (lib : ValueLibrary) where
  abbrev pub Any : Type 0
  Any = Value lib.Float lib.Time

  abbrev pub Elements : Type 0
  Elements = Items lib.Float lib.Time

  -- the loop over the layouts
  parse_datetime : List Text → Text → Result Error Any
  parse_datetime [] value = err invalid_datetime
  parse_datetime (f ∷ fs) value = elim (lib.parse_time f value) [
    | some t ↦ ok (time t)
    | none ↦ parse_datetime fs value
  ]

  -- the body of the loop over the elements
  convert_element : Kind → Any → Result Error Any
  convert_element as_int (float x) = ok (int (lib.truncate x))
  convert_element as_int _ = err expected_integer
  convert_element as_float (float x) = ok (float x)
  convert_element as_float _ = err expected_number
  convert_element as_bool (boolean b) = ok (boolean b)
  convert_element as_bool _ = err expected_boolean
  convert_element _ v = ok v

  convert_string : Any → Result Error Any
  convert_string (text s) = ok (text s)
  convert_string _ = err expected_string

  element_of : Text → Any → Result Error Any
  unfolding convert_element convert_string
  element_of base v =
      if text_eq base (codes "string")
      then convert_string v
      else convert_element (scalar_kind base) v

  elements_from : ℕ → Text → Elements → Result Error Elements
  elements_from i base none_left = ok none_left
  elements_from i base (item v vs) = map_err (element i) (element_of base v) >>= λ v'.
      elements_from (suc i) base vs >>= λ vs'. ok (item v' vs')

  pub validate_array_elements : Elements → Text → Result Error Elements
  unfolding elements_from
  validate_array_elements arr base = elements_from 0 base arr

  -- the checked elements as JSON
  pub serialize_array : Text → Elements → Result Error Any
  serialize_array base arr = validate_array_elements arr base >>= λ validated.
      map_err not_serializable (lib.marshal (array validated)) >>= λ s. ok (text s)

  convert_as : Kind → Text → Result Error Any
  unfolding parse_datetime serialize_array
  convert_as as_json value = map_err invalid_json (lib.unmarshal value) >>= λ parsed.
      map_err not_serializable (lib.marshal parsed) >>= λ s. ok (text s)
  convert_as (as_array base) value =
      map_err expected_array_text (lib.unmarshal_array value) >>= serialize_array base
  convert_as as_int value = map_err number (atoi value) >>= λ n. ok (int n)
  convert_as as_bool value = map_err number (parse_bool value) >>= λ b. ok (boolean b)
  convert_as as_datetime value = parse_datetime datetime_layouts value
  convert_as as_float value = map_err float_syntax (lib.parse_float value) >>= λ x. ok (float x)
  convert_as as_other value = ok (text value)

  unfoldable pub convert_value : Text → Text → Result Error Any
  unfolding convert_as
  convert_value value type_name = convert_as (kind_of type_name) value

  convert_json_as : Kind → Any → Result Error Any
  unfolding parse_datetime serialize_array
  convert_json_as as_json v = ok v
  convert_json_as (as_array base) (array vs) = serialize_array base vs
  convert_json_as (as_array base) _ = err expected_array
  convert_json_as as_int (float x) = ok (int (lib.truncate x))
  convert_json_as as_int (text s) = map_err number (atoi s) >>= λ n. ok (int n)
  convert_json_as as_int _ = err expected_integer
  convert_json_as as_float (float x) = ok (float x)
  convert_json_as as_float (text s) = map_err float_syntax (lib.parse_float s) >>= λ x. ok (float x)
  convert_json_as as_float _ = err expected_number
  convert_json_as as_bool (boolean b) = ok (boolean b)
  convert_json_as as_bool (text s) = map_err number (parse_bool s) >>= λ b. ok (boolean b)
  convert_json_as as_bool _ = err expected_boolean
  convert_json_as as_datetime (text s) = parse_datetime datetime_layouts s
  convert_json_as as_datetime _ = err expected_string
  convert_json_as as_other (text s) = ok (text s)
  convert_json_as as_other (float x) = ok (text (lib.format_float x))
  convert_json_as as_other (boolean b) = ok (text (format_bool b))
  convert_json_as as_other nil = ok (text [])
  convert_json_as as_other v = ok (text (lib.sprint v))

  unfoldable pub convert_json_value : Any → Text → Result Error Any
  unfolding convert_json_as
  convert_json_value v type_name = convert_json_as (kind_of type_name) v
