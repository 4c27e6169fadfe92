-- ===== src/Params/Agreement.antt =====
-- ConvertValue and ConvertJSONValue of internal/types/params.go on texts.
use sqlproxy.Prelude.{◌≡◌, refl, Text}
use sqlproxy.Params.Values.{ValueLibrary, text}
use sqlproxy.Params.{
  Kind, as_json, as_array, as_int, as_bool, as_datetime, as_float, as_other, kind_of, convert_as,
  convert_value, convert_json_as, convert_json_value,
}

-- a kind that is neither json nor an array
abbrev pub IsScalar : Kind → Type 0
IsScalar as_json = ⊥
IsScalar (as_array base) = ⊥
IsScalar _ = Unit

module _ (lib : ValueLibrary) where
  convert_as-agree :
      (k : Kind) (s : Text) → IsScalar k → convert_json_as lib k (text s) ≡ convert_as lib k s
  unfolding convert_as convert_json_as
  convert_as-agree as_json s h = absurd h
  convert_as-agree (as_array base) s h = absurd h
  convert_as-agree as_int s h = refl
  convert_as-agree as_bool s h = refl
  convert_as-agree as_datetime s h = refl
  convert_as-agree as_float s h = refl
  convert_as-agree as_other s h = refl

  -- For a scalar type, a text in the JSON body converts exactly as the same text in the path, the
  -- query or the form does, errors included.
  pub convert_json_value-text :
      (s type_name : Text)
      → IsScalar (kind_of type_name)
      → convert_json_value lib (text s) type_name ≡ convert_value lib s type_name
  unfolding convert_value convert_json_value
  convert_json_value-text s type_name h = convert_as-agree (kind_of type_name) s h
