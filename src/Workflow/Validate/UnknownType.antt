-- ===== src/Workflow/Validate/UnknownType.antt =====
-- validateStep of internal/workflow/validate.go on a step whose type is no step type.
use sqlproxy.Prelude.{
  ℕ, suc, ◌≡◌, refl, arith, [], ◌∷◌, Text, true, false, Option, none, text_eq, Dict,
}
use sqlproxy.Params.Texts.{one_of}
use sqlproxy.Workflow.Config.{
  StepConfig, StepTree, is_block, resolved_type, filled, type_query, type_httpcall, type_response,
  type_block, type_unknown,
}
use sqlproxy.Workflow.Validate.Triggers.{ValidationContext}
use sqlproxy.Workflow.Validate.Leaves.{unknown_word}
use sqlproxy.Workflow.Validate.Steps.{
  ExprLibrary, validate_condition, validate_common, validate_by_type, validate_step,
}
use sqlproxy.Workflow.Validate.Report.{when, NoErrors}

resolved_type-leaf :
    {Nested : Type 0} (cfg : StepConfig Nested)
    → cfg.steps ≡ none
    → filled cfg.step_type ≡ true
    → resolved_type cfg ≡ cfg.step_type
unfolding resolved_type is_block
resolved_type-leaf cfg leaf typed = rw (leaf, typed) refl

is_block-leaf :
    {Nested : Type 0} (cfg : StepConfig Nested) → cfg.steps ≡ none → is_block cfg ≡ false
unfolding is_block
is_block-leaf cfg leaf = rw leaf refl

-- A leaf step without condition, on_error and iterate whose type is not empty and is none of
-- query, httpcall, response, block and unknown passes without an error.
pub validate_step_unknown_type :
    (exprs : ExprLibrary) (ctx : Option ValidationContext) (aliases : Dict Text) (depth : ℕ)
    → (cfg : StepTree (suc depth)) → cfg.steps ≡ none
    → cfg.iterate ≡ none
    → cfg.condition ≡ []
    → cfg.on_error ≡ []
    → filled cfg.step_type ≡ true
    → one_of cfg.step_type
        (type_query ∷ type_httpcall ∷ type_response ∷ type_block ∷ type_unknown ∷ [])
      ≡ false
    → (place : Text) (i : ℕ) (names : Dict ℕ)
    → NoErrors (validate_step exprs (suc depth) ctx aliases cfg place i names)
unfolding validate_step validate_common validate_condition unknown_word validate_by_type when
    text_eq
validate_step_unknown_type exprs ctx aliases depth cfg leaf single unconditional plain typed other
      place i names =
    let q : text_eq cfg.step_type type_query ≡ false = ground arith in
    let c : text_eq cfg.step_type type_httpcall ≡ false = ground arith in
    let r : text_eq cfg.step_type type_response ≡ false = ground arith in
    let b : text_eq cfg.step_type type_block ≡ false = ground arith in
    let u : text_eq cfg.step_type type_unknown ≡ false = ground arith in
    rw
      (
        resolved_type-leaf cfg leaf typed,
        is_block-leaf cfg leaf,
        q,
        c,
        r,
        b,
        u,
        single,
        unconditional,
        plain,
      )
      ((tt, tt), (tt, tt))
