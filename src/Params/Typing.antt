-- ===== src/Params/Typing.antt =====
-- The types of the values that internal/types/params.go makes.
use sqlproxy.Prelude.{
  ◌≡◌, ◌≢◌, refl, inl, inr, List, [], ◌∷◌, Text, Option-cases, ok, Ensures, gives, fails,
  of_Ensures, >>=-Ensures, map_err,
}
use sqlproxy.Params.Values.{ValueLibrary, nil, boolean, int, float, text, time, array, object}
use sqlproxy.Params.Texts.{atoi, parse_bool}
use sqlproxy.Params.Elements.{IsArrayValue, serialize_array-IsArrayValue}
use sqlproxy.Params.{
  Kind, as_json, as_array, as_int, as_bool, as_datetime, as_float, as_other, invalid_json,
  not_serializable, expected_array_text, number, float_syntax, Any, kind_of, parse_datetime,
  convert_as, convert_value, convert_json_as, convert_json_value, datetime_layouts,
}

-- a kind of value that no empty text stands for
abbrev pub NeedsText : Kind → Type 0
NeedsText as_int = Unit
NeedsText as_bool = Unit
NeedsText _ = ⊥

module _ (lib : ValueLibrary) where
  -- The Go type of a value is the one that a kind of parameter converts to; an array is a JSON
  -- text, with elements of its base type.
  abbrev pub HasKind : Kind → Any lib → Type 0
  HasKind as_int (int n) = Unit
  HasKind as_bool (boolean b) = Unit
  HasKind as_datetime (time t) = Unit
  HasKind as_float (float x) = Unit
  HasKind as_other (text s) = Unit
  HasKind as_json (text s) = Unit
  HasKind (as_array base) v = IsArrayValue lib base v
  HasKind _ _ = ⊥

  parse_datetime-HasKind :
      (fs : List Text) (s : Text) → Ensures (HasKind as_datetime) (parse_datetime lib fs s)
  unfolding parse_datetime
  parse_datetime-HasKind [] s = fails _
  parse_datetime-HasKind (f ∷ fs) s = elim (Option-cases (lib.parse_time f s)) [
    | inl e ↦ rw (e, parse_datetime) (parse_datetime-HasKind fs s)
    | inr (t, e) ↦ rw (e, parse_datetime) (gives tt)
  ]

  convert_as-HasKind : (k : Kind) (value : Text) → Ensures (HasKind k) (convert_as lib k value)
  unfolding convert_as
  convert_as-HasKind as_json value =
      >>=-Ensures (map_err invalid_json (lib.unmarshal value)) _
        λ v. >>=-Ensures (map_err not_serializable (lib.marshal v)) _ λ s. gives tt
  convert_as-HasKind (as_array base) value =
      >>=-Ensures (map_err expected_array_text (lib.unmarshal_array value)) _
        (serialize_array-IsArrayValue lib base)
  convert_as-HasKind as_int value = >>=-Ensures (map_err number (atoi value)) _ λ n. gives tt
  convert_as-HasKind as_bool value = >>=-Ensures (map_err number (parse_bool value)) _ λ b. gives tt
  convert_as-HasKind as_datetime value = parse_datetime-HasKind datetime_layouts value
  convert_as-HasKind as_float value =
      >>=-Ensures (map_err float_syntax (lib.parse_float value)) _ λ x. gives tt
  convert_as-HasKind as_other value = gives tt

  -- A text that converts becomes a value of the Go type that its parameter type stands for; JSON
  -- and arrays become text.
  pub convert_value-HasKind :
      (value type_name : Text) (r : Any lib)
      → convert_value lib value type_name ≡ ok r
      → HasKind (kind_of type_name) r
  unfolding convert_value
  convert_value-HasKind value type_name r h =
      of_Ensures (HasKind (kind_of type_name)) (convert_as-HasKind (kind_of type_name) value) h

  -- What JSON values convert to: a json parameter keeps the value.
  abbrev pub HasJsonKind : Kind → Any lib → Any lib → Type 0
  HasJsonKind as_json v r = r ≡ v
  HasJsonKind (as_array base) v r = HasKind (as_array base) r
  HasJsonKind as_int v r = HasKind as_int r
  HasJsonKind as_bool v r = HasKind as_bool r
  HasJsonKind as_datetime v r = HasKind as_datetime r
  HasJsonKind as_float v r = HasKind as_float r
  HasJsonKind as_other v r = HasKind as_other r

  convert_json_as-HasJsonKind :
      (k : Kind) (v : Any lib) → Ensures (HasJsonKind k v) (convert_json_as lib k v)
  unfolding convert_json_as
  convert_json_as-HasJsonKind as_json v = gives refl
  convert_json_as-HasJsonKind (as_array base) (array vs) = serialize_array-IsArrayValue lib base vs
  convert_json_as-HasJsonKind (as_array base) _ = fails _
  convert_json_as-HasJsonKind as_int (text s) =
      >>=-Ensures (map_err number (atoi s)) _ λ n. gives tt
  convert_json_as-HasJsonKind as_int nil = fails _
  convert_json_as-HasJsonKind as_int (boolean b) = fails _
  convert_json_as-HasJsonKind as_int (int n) = fails _
  convert_json_as-HasJsonKind as_int (float x) = gives tt
  convert_json_as-HasJsonKind as_int (time t) = fails _
  convert_json_as-HasJsonKind as_int (array vs) = fails _
  convert_json_as-HasJsonKind as_int (object vs) = fails _
  convert_json_as-HasJsonKind as_float (text s) =
      >>=-Ensures (map_err float_syntax (lib.parse_float s)) _ λ n. gives tt
  convert_json_as-HasJsonKind as_float nil = fails _
  convert_json_as-HasJsonKind as_float (boolean b) = fails _
  convert_json_as-HasJsonKind as_float (int n) = fails _
  convert_json_as-HasJsonKind as_float (float x) = gives tt
  convert_json_as-HasJsonKind as_float (time t) = fails _
  convert_json_as-HasJsonKind as_float (array vs) = fails _
  convert_json_as-HasJsonKind as_float (object vs) = fails _
  convert_json_as-HasJsonKind as_bool (text s) =
      >>=-Ensures (map_err number (parse_bool s)) _ λ n. gives tt
  convert_json_as-HasJsonKind as_bool nil = fails _
  convert_json_as-HasJsonKind as_bool (boolean b) = gives tt
  convert_json_as-HasJsonKind as_bool (int n) = fails _
  convert_json_as-HasJsonKind as_bool (float x) = fails _
  convert_json_as-HasJsonKind as_bool (time t) = fails _
  convert_json_as-HasJsonKind as_bool (array vs) = fails _
  convert_json_as-HasJsonKind as_bool (object vs) = fails _
  convert_json_as-HasJsonKind as_datetime (text s) = parse_datetime-HasKind datetime_layouts s
  convert_json_as-HasJsonKind as_datetime _ = fails _
  convert_json_as-HasJsonKind as_other nil = gives tt
  convert_json_as-HasJsonKind as_other (boolean b) = gives tt
  convert_json_as-HasJsonKind as_other (int n) = gives tt
  convert_json_as-HasJsonKind as_other (float x) = gives tt
  convert_json_as-HasJsonKind as_other (text s) = gives tt
  convert_json_as-HasJsonKind as_other (time t) = gives tt
  convert_json_as-HasJsonKind as_other (array vs) = gives tt
  convert_json_as-HasJsonKind as_other (object vs) = gives tt

  -- A member of a JSON body that converts becomes a value of the Go type that its parameter type
  -- stands for; a json parameter keeps the value that was sent.
  pub convert_json_value-HasJsonKind :
      (v : Any lib) (type_name : Text) (r : Any lib)
      → convert_json_value lib v type_name ≡ ok r
      → HasJsonKind (kind_of type_name) v r
  unfolding convert_json_value
  convert_json_value-HasJsonKind v type_name r h =
      of_Ensures (HasJsonKind (kind_of type_name) v)
        (convert_json_as-HasJsonKind (kind_of type_name) v) h

  convert_as-empty : (k : Kind) (v : Any lib) → NeedsText k → convert_as lib k [] ≢ ok v
  unfolding convert_as atoi parse_bool
  convert_as-empty as_json v h e = h
  convert_as-empty (as_array b) v h e = h
  convert_as-empty as_int v h e = cc
  convert_as-empty as_bool v h e = cc
  convert_as-empty as_datetime v h e = h
  convert_as-empty as_float v h e = h
  convert_as-empty as_other v h e = h

  pub convert_value-empty :
      (type_name : Text) (v : Any lib)
      → NeedsText (kind_of type_name)
      → convert_value lib [] type_name ≢ ok v
  unfolding convert_value
  convert_value-empty type_name v h = convert_as-empty (kind_of type_name) v h
