-- ===== src/Workflow/Validate.antt =====
-- internal/workflow/validate.go: the checks of a workflow's configuration.
pub mod Report
pub mod Cron
pub mod Triggers
pub mod Leaves
pub mod Steps
pub mod Sections
pub mod ReadOnly
pub mod Declared
pub mod Order
pub mod UnknownType
mod Tests
use sqlproxy.Prelude.{
  ℕ, zero, suc, ◌+◌, List, [], ◌∷◌, ◌++◌, Text, codes, Bool, true, false, not, ◌&&◌, ◌||◌, Option,
  none, some, ltb, ◌==◌, if◌then◌else◌, text_eq, Dict, length, pos,
}
use sqlproxy.RateLimit.InlineKey.{decimal}
use sqlproxy.Params.Texts.{one_of}
use sqlproxy.Workflow.Config.{
  StepConfig, StepTree, config_of, TriggerConfig, WorkflowConfig, is_response, filled,
}
use Cron.{CronLibrary}
use Triggers.{ValidationContext, indexed, validate_trigger}
use Leaves.{check_name, note_name, step_place, is_empty}
use Steps.{ExprLibrary, validate_step}
use Report.{
  Issue, Issues, silent, report, ◌&◌, ValidationResult, error_at, warning_at, when, add_issues,
  name_required, trigger_required, step_required, invalid_expression, duplicate_route,
  response_missing, response_without_http, unconditional_responses, only_conditional_responses,
}

unfoldable pub is_http : TriggerConfig → Bool
is_http t = text_eq t.trigger_type (codes "http")

unfoldable pub is_cron : TriggerConfig → Bool
is_cron t = text_eq t.trigger_type (codes "cron")

unfoldable pub any_trigger : (TriggerConfig → Bool) → List TriggerConfig → Bool
any_trigger p [] = false
any_trigger p (t ∷ ts) = p t || any_trigger p ts

unfoldable pub route_of : TriggerConfig → Text
route_of t = t.method ++ (codes " " ++ t.path)

module _ (cron : CronLibrary) (exprs : ExprLibrary) (ctx : Option ValidationContext) where
  -- the loop over the triggers, with the routes seen
  unfoldable pub validate_triggers : Text → ℕ → List TriggerConfig → List Text → Issues
  unfolding validate_trigger is_http route_of indexed
  validate_triggers prefix i [] routes = silent
  validate_triggers prefix i (t ∷ ts) routes =
      let place = indexed prefix (codes "triggers") i in
      let rest =
        validate_triggers prefix (suc i) ts (if is_http t then route_of t ∷ routes else routes) in
      validate_trigger cron ctx t place
      & (when (is_http t && one_of (route_of t) routes) (error_at place duplicate_route) & rest)

  unfoldable pub validate_conditions : Text → Dict Text → Issues
  validate_conditions prefix [] = silent
  validate_conditions prefix ((name, e) ∷ conditions) =
      when (not (exprs.valid_expr e))
        (error_at (prefix ++ (codes ".conditions[" ++ (name ++ codes "]"))) invalid_expression)
      & validate_conditions prefix conditions

  module _ (depth : ℕ) where
    -- the loop over the steps, with the indices of the names seen
    unfoldable pub validate_steps : Text → Dict Text → ℕ → List (StepTree depth) → Dict ℕ → Issues
    unfolding validate_step check_name note_name step_place
    validate_steps prefix aliases i [] names = silent
    validate_steps prefix aliases i (s ∷ steps) names =
        let cfg = config_of depth s in
        let place = step_place prefix i cfg in
        let names' = note_name cfg i names in
        let rest = validate_steps prefix aliases (suc i) steps names' in
        check_name cfg names place & (validate_step exprs depth ctx aliases s place i names' & rest)

    unfoldable pub count_responses : (Bool → Bool) → List (StepTree depth) → ℕ
    count_responses p [] = 0
    count_responses p (s ∷ steps) =
        let cfg = config_of depth s in
        let rest = count_responses p steps in
        if is_response cfg && p (filled cfg.condition) then suc rest else rest

    -- the checks of the response steps
    unfoldable pub validate_responses : Text → List TriggerConfig → List (StepTree depth) → Issues
    unfolding count_responses any_trigger is_http is_cron
    validate_responses prefix triggers steps =
        let http = any_trigger is_http triggers in
        let conditional = count_responses (λ c. c) steps in
        let unconditional = count_responses not steps in
        let has_response = ltb 0 (conditional + unconditional) in
        when (http && not has_response) (warning_at prefix response_missing)
        & (when (any_trigger is_cron triggers && (not http && has_response))
              (error_at prefix response_without_http)
            & (when (ltb 1 unconditional) (error_at prefix unconditional_responses)
                & when (http && (ltb 0 conditional && (unconditional == 0)))
                    (warning_at prefix only_conditional_responses)))

    -- the loop that asks for names, in a workflow of two steps or more
    unfoldable pub validate_names : Text → ℕ → List (StepTree depth) → Issues
    validate_names prefix i [] = silent
    validate_names prefix i (s ∷ steps) =
        let cfg = config_of depth s in
        when (not (filled cfg.name) && not (is_response cfg))
          (error_at (prefix ++ (codes ".steps[#" ++ decimal (pos i) (codes "]"))) name_required)
        & validate_names prefix (suc i) steps

  unfoldable pub workflow_prefix : {depth : ℕ} → WorkflowConfig depth → Text
  workflow_prefix cfg = codes "workflow[" ++ (cfg.name ++ codes "]")

  unfoldable pub validate_workflow : {depth : ℕ} → WorkflowConfig depth → Issues
  unfolding validate_triggers validate_conditions validate_steps validate_responses validate_names
  validate_workflow {depth = depth} cfg =
      let prefix = workflow_prefix cfg in
      when (is_empty cfg.triggers) (error_at prefix trigger_required)
      & (validate_triggers prefix 0 cfg.triggers []
          & (validate_conditions prefix cfg.conditions
              & (when (is_empty cfg.steps) (error_at prefix step_required)
                  & (validate_steps depth prefix cfg.conditions 0 cfg.steps []
                      & (validate_responses depth prefix cfg.triggers cfg.steps
                          & (if ltb 1 (length cfg.steps)
                              then validate_names depth prefix 0 cfg.steps
                              else silent))))))

  unfoldable pub validate : {depth : ℕ} → WorkflowConfig depth → ValidationResult
  unfolding validate_workflow
  validate cfg =
      let issues =
        (if filled cfg.name
          then validate_workflow cfg
          else report (error_at (codes "workflow") name_required)) in
      add_issues issues (record { valid = true; errors = []; warnings = [] })
