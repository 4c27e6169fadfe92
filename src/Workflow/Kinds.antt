-- ===== src/Workflow/Kinds.antt =====
-- StepType of internal/workflow/config.go beside IsBlock, IsQuery, IsHTTPCall and IsResponse.
use sqlproxy.Prelude.{[], ◌≡◌, refl, arith, true, false, not, ◌&&◌, ◌||◌, text_eq, text_eq_iff}
use sqlproxy.Workflow.Config.{
  StepConfig, type_query, type_httpcall, type_response, filled, is_block, is_query, is_http_call,
  is_response, resolved_type,
}

module _ {Nested : Type 0} (s : StepConfig Nested) where
  -- For a step that has a type and is no block, StepType answers query, httpcall and response
  -- exactly when IsQuery, IsHTTPCall and IsResponse hold.
  pub typed_agree :
      is_block s ≡ false
      → filled s.step_type ≡ true
      → (text_eq (resolved_type s) type_query ≡ is_query s)
        × (text_eq (resolved_type s) type_httpcall ≡ is_http_call s)
        × (text_eq (resolved_type s) type_response ≡ is_response s)
  unfolding resolved_type is_query is_http_call is_response
  typed_agree h typed =
      let e : text_eq s.step_type [] ≡ false = ground (arith, typed) in
      rw (h, e) (ground arith, ground arith, refl)

  -- For a step without a type that is no block, StepType agrees with IsQuery; it answers httpcall
  -- when IsHTTPCall holds and there is no SQL, and response when there is a template and neither
  -- SQL nor URL, while IsResponse never holds.
  pub untyped_agree :
      is_block s ≡ false
      → text_eq s.step_type [] ≡ true
      → (text_eq (resolved_type s) type_query ≡ is_query s)
        × (text_eq (resolved_type s) type_httpcall ≡ (is_http_call s && not (filled s.sql)))
        × (text_eq (resolved_type s) type_response
            ≡ (filled s.template && not (filled s.sql || filled s.url)))
        × (is_response s ≡ false)
  unfolding resolved_type is_query is_http_call is_response text_eq
  untyped_agree h untyped =
      let e : s.step_type ≡ [] = (text_eq_iff s.step_type []).0 untyped in
      rw (h, e) (ground arith, ground arith, ground arith, refl)
