-- ===== src/Params/Tests.antt =====
-- Runs of internal/types/params.go, with whole numbers for floats and texts for times.
use sqlproxy.Prelude.{
  ◌≡◌, refl, Text, codes, none, some, ok, err, ℤ, pos, negsuc, text_eq, if◌then◌else◌,
}
use sqlproxy.Params.Values.{ValueLibrary, int, text, none_left, item}
use sqlproxy.Params.Texts.{atoi}
use sqlproxy.Params.{
  kind_of, convert_value, element_of, validate_array_elements, expected_string, element,
}

abbrev pub whole : ValueLibrary
whole = record {
  Float = ℤ;
  Time = Text;
  unmarshal = λ s. ok (text s);
  unmarshal_array = λ s. ok none_left;
  marshal = λ v. ok (codes "json");
  truncate = λ x. x;
  parse_float = λ s. err s;
  format_float = λ x. codes "number";
  parse_time = λ layout s. if text_eq layout (codes "2006-01-02") then some s else none;
  sprint = λ v. codes "value";
}

atoi_run : atoi (codes "-9223372036854775808") ≡ ok (negsuc 9223372036854775807)
unfolding atoi
atoi_run = refl

convert_run : convert_value whole (codes "+42") (codes "Integer") ≡ ok (int (pos 42))
unfolding convert_value kind_of atoi
convert_run = refl

mixed_run :
    validate_array_elements whole
      (item (text (codes "a")) (item (int (pos 1)) none_left))
      (codes "string")
    ≡ err (element 1 expected_string)
unfolding validate_array_elements element_of text_eq
mixed_run = refl
