-- ===== src/Params/Values.antt =====
-- The values that Go's `any` holds in internal/types/params.go: those of encoding/json, and the
-- int and time.Time that a conversion makes.
use sqlproxy.Prelude.{Text, Bool, Option, Result, ℤ}

mutual
  pub data Value (Float Time : Type 0) : Type 0 where
    nil : Value Float Time
    boolean : Bool → Value Float Time
    int : ℤ → Value Float Time
    float : Float → Value Float Time
    text : Text → Value Float Time
    time : Time → Value Float Time
    array : Items Float Time → Value Float Time
    object : Fields Float Time → Value Float Time

  pub data Items (Float Time : Type 0) : Type 0 where
    none_left : Items Float Time
    item : Value Float Time → Items Float Time → Items Float Time

  pub data Fields (Float Time : Type 0) : Type 0 where
    no_more : Fields Float Time
    field : Text → Value Float Time → Fields Float Time → Fields Float Time

-- encoding/json, strconv on floats, time.Parse with a layout, and fmt's %v.
pub record ValueLibrary : Type 1 where
  pub Float : Type 0
  pub Time : Type 0
  pub unmarshal : Text → Result Text (Value Float Time)
  pub unmarshal_array : Text → Result Text (Items Float Time)
  pub marshal : Value Float Time → Result Text Text
  pub truncate : Float → ℤ
  pub parse_float : Text → Result Text Float
  pub format_float : Float → Text
  pub parse_time : Text → Text → Option Time
  pub sprint : Value Float Time → Text
