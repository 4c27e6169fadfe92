-- ===== src/Workflow/Validate/Steps.antt =====
-- validateStep of internal/workflow/validate.go and the functions that it calls.
use sqlproxy.Prelude.{
  ℕ, zero, suc, List, [], ◌∷◌, ◌++◌, Text, codes, Bool, true, false, not, ◌&&◌, Option, none, some,
  ltb, ◌==◌, if◌then◌else◌, text_eq, Dict, lookup,
}
use sqlproxy.Params.Texts.{one_of}
use sqlproxy.Workflow.Config.{
  IterateConfig, StepConfig, StepTree, config_of, is_block, is_response, resolved_type, filled,
  type_query, type_httpcall, type_response, type_block, type_unknown,
}
use sqlproxy.Workflow.Validate.Triggers.{ValidationContext, names_set}
use sqlproxy.Workflow.Validate.Leaves.{
  unknown_word, is_empty, source_of, validate_query_step, validate_http_call_step,
  validate_response_step, validate_block_fields, step_place, note_name, check_name,
}
use sqlproxy.Workflow.Validate.Report.{
  Issues, silent, report, ◌&◌, error_at, when, type_required, over_required, as_required,
  invalid_expression, invalid_on_error, unknown_step, self_reference, forward_reference,
  iterate_without_steps, empty_block, response_in_block,
}

-- The compiler of expressions: whether validateExprSyntax accepts a text, the steps that
-- ExtractStepRefs finds in it, and which of the names extractAliasRefs finds.
pub record ExprLibrary : Type 0 where
  pub valid_expr : Text → Bool
  pub step_refs : Text → Option (List Text)
  pub alias_refs : Text → List Text → Option (List Text)

module _ (lib : ExprLibrary) where
  -- the names of all steps that an expression mentions, its aliases included
  unfoldable pub alias_step_refs : Dict Text → List Text → List Text → List Text
  unfolding names_set source_of
  alias_step_refs aliases [] seen = seen
  alias_step_refs aliases (a ∷ used) seen =
      alias_step_refs aliases used (elim (lib.step_refs (source_of a aliases)) [
        | none ↦ seen
        | some refs ↦ names_set refs seen
      ])

  unfoldable pub keys_of : Dict Text → List Text
  keys_of [] = []
  keys_of ((k, v) ∷ m) = k ∷ keys_of m

  -- the names in the expression itself, and those in the aliases that it uses
  unfoldable pub with_aliases : Text → Dict Text → List Text → Option (List Text)
  unfolding alias_step_refs keys_of
  with_aliases e [] direct = some direct
  with_aliases e (a ∷ more) direct = elim (lib.alias_refs e (keys_of (a ∷ more))) [
    | none ↦ none
    | some used ↦ some (alias_step_refs (a ∷ more) used direct)
  ]

  unfoldable pub all_refs : Text → Dict Text → Option (List Text)
  unfolding with_aliases names_set
  all_refs e aliases = elim (lib.step_refs e) [
    | none ↦ none
    | some refs ↦ with_aliases e aliases (names_set refs [])
  ]

  -- the index of the step that is mentioned, against that of the step that mentions it
  unfoldable pub check_index : Text → ℕ → Option ℕ → Issues
  check_index place i none = report (error_at place unknown_step)
  check_index place i (some j) =
      when (j == i) (error_at place self_reference)
      & when (ltb i j) (error_at place forward_reference)

  unfoldable pub check_ref : Text → ℕ → Dict ℕ → Text → Issues
  unfolding check_index
  check_ref place i names ref = check_index place i (lookup ref names)

  unfoldable pub check_refs : Text → ℕ → Dict ℕ → List Text → Issues
  unfolding check_ref
  check_refs place i names [] = silent
  check_refs place i names (r ∷ rs) = check_ref place i names r & check_refs place i names rs

  -- the loop over the steps that were found; none after an error, which is reported elsewhere
  unfoldable pub check_found : Text → ℕ → Dict ℕ → Option (List Text) → Issues
  unfolding check_refs
  check_found place i names none = silent
  check_found place i names (some refs) = check_refs place i names refs

  unfoldable pub validate_step_refs : Text → Text → ℕ → Dict ℕ → Dict Text → Issues
  unfolding all_refs check_found
  validate_step_refs e place i names aliases = check_found place i names (all_refs e aliases)

  unfoldable pub validate_condition : Text → Text → ℕ → Dict ℕ → Dict Text → Issues
  unfolding validate_step_refs
  validate_condition e place i names aliases =
      if filled e
      then if lib.valid_expr e
        then validate_step_refs e place i names aliases
        else report (error_at place invalid_expression)
      else silent

  unfoldable pub validate_iterate : IterateConfig → Text → Issues
  unfolding unknown_word
  validate_iterate it place =
      (if filled it.over
        then when (not (lib.valid_expr it.over))
            (error_at (place ++ codes ".over") invalid_expression)
        else report (error_at place over_required))
      & (when (not (filled it.as_name)) (error_at place as_required)
          & when (unknown_word it.on_error (codes "abort" ∷ codes "continue" ∷ codes "skip" ∷ []))
              (error_at place invalid_on_error))

  unfoldable pub validate_outputs : Dict Text → Text → Issues
  validate_outputs [] prefix = silent
  validate_outputs ((name, e) ∷ outputs) prefix =
      when
        (not (one_of e (codes "success_count" ∷ codes "failure_count" ∷ codes "skipped_count" ∷ []))
          && not (lib.valid_expr e))
        (error_at (prefix ++ (codes ".outputs[" ++ (name ++ codes "]"))) invalid_expression)
      & validate_outputs outputs prefix

  -- what validateStep checks before the fields of the type
  unfoldable pub validate_common :
      {Nested : Type 0} → StepConfig Nested → Text → ℕ → Dict ℕ → Dict Text → Issues
  unfolding validate_condition unknown_word
  validate_common cfg prefix i names aliases =
      validate_condition cfg.condition (prefix ++ codes ".condition") i names aliases
      & when (unknown_word cfg.on_error (codes "abort" ∷ codes "continue" ∷ []))
          (error_at prefix invalid_on_error)

  -- the loop over the steps of a block from index i on, with the check of a step
  unfoldable pub validate_nested :
      {E Nested : Type 0}
      → (E → StepConfig Nested)
      → (E → Text → ℕ → Dict ℕ → Issues)
      → Text
      → ℕ
      → List E
      → Dict ℕ
      → Issues
  unfolding check_name note_name step_place
  validate_nested view check prefix i [] names = silent
  validate_nested view check prefix i (s ∷ steps) names =
      let place = step_place prefix i (view s) in
      let names' = note_name (view s) i names in
      let rest = validate_nested view check prefix (suc i) steps names' in
      check_name (view s) names place
      & ((if is_response (view s)
            then report (error_at place response_in_block)
            else check s place i names')
          & rest)

  unfoldable pub validate_block_step :
      {E Nested : Type 0}
      → (E → StepConfig Nested)
      → (E → Text → ℕ → Dict ℕ → Issues)
      → StepConfig E
      → List E
      → Text
      → Issues
  unfolding validate_iterate validate_nested validate_outputs is_empty
  validate_block_step view check cfg steps prefix =
      (elim cfg.iterate [
        | none ↦ silent
        | some it ↦ validate_iterate it (prefix ++ codes ".iterate")
      ])
      & (when (is_empty steps) (error_at prefix empty_block)
          & (validate_nested view check prefix 0 steps [] & validate_outputs cfg.outputs prefix))

  -- the switch on the type of a step
  unfoldable pub validate_by_type :
      {E Nested : Type 0}
      → (E → StepConfig Nested)
      → (E → Text → ℕ → Dict ℕ → Issues)
      → Option ValidationContext
      → StepConfig E
      → Text
      → Issues
  unfolding validate_query_step validate_http_call_step validate_response_step validate_block_step
  validate_by_type view check ctx cfg prefix =
      let kind = resolved_type cfg in
      if text_eq kind type_query
      then validate_query_step ctx cfg prefix
      else if text_eq kind type_httpcall
      then validate_http_call_step cfg prefix
      else if text_eq kind type_response
      then validate_response_step cfg prefix
      else if text_eq kind type_block
      then validate_block_step view check cfg (elim cfg.steps [ none ↦ [] | some ss ↦ ss ]) prefix
      else silent

  unfoldable pub validate_step :
      (depth : ℕ)
      → Option ValidationContext
      → Dict Text
      → StepTree depth
      → Text
      → ℕ
      → Dict ℕ
      → Issues
  unfolding validate_common validate_block_fields validate_by_type
  validate_step zero ctx aliases s prefix i names = absurd s
  validate_step (suc depth) ctx aliases cfg prefix i names =
      validate_common cfg prefix i names aliases
      & (if text_eq (resolved_type cfg) type_unknown
          then report (error_at prefix type_required)
          else (if is_block cfg
              then validate_block_fields cfg prefix
              else when (elim cfg.iterate [ none ↦ false | some _ ↦ true ])
                  (error_at prefix iterate_without_steps))
            & validate_by_type (config_of depth) (validate_step depth ctx aliases) ctx cfg prefix)
