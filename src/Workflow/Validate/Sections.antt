-- ===== src/Workflow/Validate/Sections.antt =====
-- What a workflow that validates passed, of the checks in internal/workflow/validate.go.
use sqlproxy.Prelude.{
  ℕ, suc, ◌≡◌, inl, inr, List, [], ◌∷◌, Text, codes, true, Option, Bool-cases, All, if◌then◌else◌,
  Dict,
}
use sqlproxy.Workflow.Config.{StepTree, config_of, TriggerConfig, WorkflowConfig, filled}
use sqlproxy.Workflow.Validate.{
  validate_triggers, validate_steps, validate_workflow, validate, workflow_prefix, is_http,
  route_of,
}
use sqlproxy.Workflow.Validate.Cron.{CronLibrary}
use sqlproxy.Workflow.Validate.Triggers.{ValidationContext, indexed, validate_trigger}
use sqlproxy.Workflow.Validate.Leaves.{step_place, note_name}
use sqlproxy.Workflow.Validate.Steps.{ExprLibrary, validate_step}
use sqlproxy.Workflow.Validate.Report.{add_issues_valid, NoErrors}

module _ (cron : CronLibrary) (exprs : ExprLibrary) (ctx : Option ValidationContext) where
  pub validate-NoErrors :
      {depth : ℕ} (cfg : WorkflowConfig depth)
      → (validate cron exprs ctx cfg).valid ≡ true
      → NoErrors (validate_workflow cron exprs ctx cfg)
  unfolding validate
  validate-NoErrors cfg e = elim (Bool-cases (filled cfg.name)) [
    | inl named ↦ rw named at (add_issues_valid _ _ e)
    | inr unnamed ↦ absurd (rw unnamed at (add_issues_valid _ _ e))
  ]

  validate_triggers_passed :
      (prefix : Text) (i : ℕ) (ts : List TriggerConfig) (routes : List Text)
      → NoErrors (validate_triggers cron exprs ctx prefix i ts routes)
      → All (λ t. (place : Text) × NoErrors (validate_trigger cron ctx t place)) ts
  unfolding validate_triggers
  validate_triggers_passed prefix i [] routes h = tt
  validate_triggers_passed prefix i (t ∷ ts) routes h = (
    (indexed prefix (codes "triggers") i, h.0),
    validate_triggers_passed prefix (suc i) ts (if is_http t then route_of t ∷ routes else routes)
        h.1.1,
  )

  -- A step that passed validateStep, at some place after some names.
  abbrev pub Passed : (depth : ℕ) → Dict Text → StepTree depth → Type 0
  Passed depth aliases s =
      (place : Text) × ((j : ℕ) × ((known : Dict ℕ) × NoErrors
            (validate_step exprs depth ctx aliases s place j known)))

  validate_steps-Passed :
      (depth : ℕ) (prefix : Text) (aliases : Dict Text) (i : ℕ) (steps : List (StepTree depth))
      (names : Dict ℕ)
      → NoErrors (validate_steps cron exprs ctx depth prefix aliases i steps names)
      → All (Passed depth aliases) steps
  unfolding validate_steps
  validate_steps-Passed depth prefix aliases i [] names h = tt
  validate_steps-Passed depth prefix aliases i (s ∷ steps) names h =
      let cfg = config_of depth s in
      (
        (step_place prefix i cfg, (i, (note_name cfg i names, h.1.0))),
        validate_steps-Passed depth prefix aliases (suc i) steps (note_name cfg i names) h.1.1,
      )

  -- Of a workflow that is valid, each trigger and each step passed its check.
  pub validate-Passed :
      {depth : ℕ} (cfg : WorkflowConfig depth)
      → (validate cron exprs ctx cfg).valid ≡ true
      → All (λ t. (place : Text) × NoErrors (validate_trigger cron ctx t place)) cfg.triggers
        × All (Passed depth cfg.conditions) cfg.steps
  unfolding validate_workflow
  validate-Passed {depth = depth} cfg e =
      let prefix = workflow_prefix cron exprs ctx cfg in
      let h = validate-NoErrors cfg e in
      (
        validate_triggers_passed prefix 0 cfg.triggers [] h.1.0,
        validate_steps-Passed depth prefix cfg.conditions 0 cfg.steps [] h.1.1.1.1.0,
      )
