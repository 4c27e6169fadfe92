-- ===== src/Workflow/Validate/ReadOnly.antt =====
-- Workflows that internal/workflow/validate.go accepts leave read-only databases alone.
use sqlproxy.Prelude.{
  ℕ, zero, suc, ◌≡◌, refl, inl, inr, List, [], ◌∷◌, Text, Bool, true, false, ◌&&◌, none, some,
  Option-cases, Bool-cases, All, All-map, text_eq, Dict, lookup,
}
use sqlproxy.SqlUtil.{requires_write_access}
use sqlproxy.Workflow.Config.{
  StepConfig, StepTree, config_of, WorkflowConfig, is_block, is_response, resolved_type, filled,
  type_query, type_block, type_unknown,
}
use sqlproxy.Workflow.Validate.{validate}
use sqlproxy.Workflow.Validate.Cron.{CronLibrary}
use sqlproxy.Workflow.Validate.Triggers.{ValidationContext}
use sqlproxy.Workflow.Validate.Leaves.{
  validate_database, validate_query_step, note_name, step_place,
}
use sqlproxy.Workflow.Validate.Steps.{
  ExprLibrary, validate_nested, validate_block_step, validate_by_type, validate_step,
}
use sqlproxy.Workflow.Validate.Sections.{validate-Passed}
use sqlproxy.Workflow.Validate.Report.{Issues, NoErrors, NoErrors-when, read_only_database}

-- the steps in a block, none for a leaf
abbrev pub steps_of : {Nested : Type 0} → StepConfig Nested → List Nested
steps_of cfg = elim cfg.steps [ none ↦ [] | some ss ↦ ss ]

module _ (c : ValidationContext) where
  -- A query step whose database is known, and whose statement needs no write access if the
  -- database is read-only.
  abbrev pub IsGuardedQuery : {Nested : Type 0} → StepConfig Nested → Type 0
  IsGuardedQuery cfg =
      (read_only : Bool) × (lookup cfg.database c.databases ≡ some read_only)
      × (read_only ≡ true → requires_write_access cfg.sql ≡ false)

  -- Every query step is guarded, at any depth of blocks.
  abbrev pub IsGuarded : (depth : ℕ) → StepTree depth → Type 0
  IsGuarded zero s = ⊥
  IsGuarded (suc depth) cfg =
      (resolved_type cfg ≡ type_query → IsGuardedQuery cfg) × All (IsGuarded depth) (steps_of cfg)

  validate_query_step-IsGuardedQuery :
      {Nested : Type 0} (cfg : StepConfig Nested) (prefix : Text)
      → NoErrors (validate_query_step (some c) cfg prefix)
      → IsGuardedQuery cfg
  unfolding validate_query_step validate_database
  validate_query_step-IsGuardedQuery cfg prefix h = elim (Bool-cases (filled cfg.database)) [
    | inr empty ↦ absurd (rw empty at h.0)
    | inl named ↦ elim (Option-cases (lookup cfg.database c.databases)) [
      | inl unknown ↦ absurd (rw (named, unknown) at h.0)
      | inr (read_only, known) ↦
          let unwritten =
            NoErrors-when (read_only && requires_write_access cfg.sql) prefix read_only_database
              (rw (named, known) at h.0) in
          (read_only, known, λ r. rw r at unwritten)
    ]
  ]

  module _ (exprs : ExprLibrary) where
    validate_nested_passed :
        {E Nested : Type 0} (view : E → StepConfig Nested) (check : E → Text → ℕ → Dict ℕ → Issues)
        → (prefix : Text) (i : ℕ) (ss : List E) (names : Dict ℕ)
        → NoErrors (validate_nested exprs view check prefix i ss names)
        → All
            (λ s.
              (place : Text) × ((j : ℕ) × ((known : Dict ℕ) × NoErrors (check s place j known))))
            ss
    unfolding validate_nested
    validate_nested_passed view check prefix i [] names h = tt
    validate_nested_passed view check prefix i (s ∷ ss) names h =
        let place = step_place prefix i (view s) in
        let names' = note_name (view s) i names in
        let passed : NoErrors (check s place i names') = elim (Bool-cases (is_response (view s))) [
          | inl response ↦ absurd (rw response at h.1.0)
          | inr other ↦ rw other at h.1.0
        ] in
        (
          (place, (i, (names', passed))),
          validate_nested_passed view check prefix (suc i) ss names' h.1.1,
        )

    by_type_query :
        {E Nested : Type 0} (view : E → StepConfig Nested) (check : E → Text → ℕ → Dict ℕ → Issues)
        → (cfg : StepConfig E) (place : Text) → resolved_type cfg ≡ type_query
        → validate_by_type exprs view check (some c) cfg place
          ≡ validate_query_step (some c) cfg place
    unfolding validate_by_type text_eq
    by_type_query view check cfg place e = rw e refl

    by_type_block :
        {E Nested : Type 0} (view : E → StepConfig Nested) (check : E → Text → ℕ → Dict ℕ → Issues)
        → (cfg : StepConfig E) (place : Text) → resolved_type cfg ≡ type_block
        → validate_by_type exprs view check (some c) cfg place
          ≡ validate_block_step exprs view check cfg (steps_of cfg) place
    unfolding validate_by_type text_eq
    by_type_block view check cfg place e = rw e refl

    resolved_type-block :
        {E : Type 0} (cfg : StepConfig E) (ss : List E)
        → cfg.steps ≡ some ss
        → resolved_type cfg ≡ type_block
    unfolding resolved_type is_block
    resolved_type-block cfg ss e = rw e refl

    validate_step-IsGuarded :
        (depth : ℕ) (aliases : Dict Text) (s : StepTree depth) (place : Text) (i : ℕ)
        (names : Dict ℕ)
        → NoErrors (validate_step exprs depth (some c) aliases s place i names)
        → IsGuarded depth s
    unfolding validate_step validate_block_step
    validate_step-IsGuarded zero aliases s place i names h = absurd s
    validate_step-IsGuarded (suc depth) aliases cfg place i names h =
        elim (Bool-cases (text_eq (resolved_type cfg) type_unknown)) [
          | inl unknown ↦ absurd (rw unknown at h.1)
          | inr typed ↦
              let view = config_of depth in
              let check = validate_step exprs depth (some c) aliases in
              let by = (rw typed at h.1).1 in
              (
                λ q.
                    validate_query_step-IsGuardedQuery cfg place
                      (rw (by_type_query view check cfg place q) at by),
                elim (Option-cases cfg.steps) [
                  | inl leaf ↦ rw leaf tt
                  | inr (ss, block) ↦
                      let b =
                        rw (by_type_block view check cfg place (resolved_type-block cfg ss block))
                          at by in
                      All-map (IsGuarded depth)
                        (λ s p. validate_step-IsGuarded depth aliases s p.0 p.1.0 p.1.1.0 p.1.1.1)
                        (steps_of cfg)
                        (validate_nested_passed view check place 0 (steps_of cfg) [] b.1.1.0)
                ],
              )
        ]

    -- In a workflow that validates against a list of databases, every query step, in blocks of any
    -- depth too, names a known database, and needs no write access where that database is
    -- read-only.
    pub validate-IsGuarded :
        (cron : CronLibrary) {depth : ℕ} (cfg : WorkflowConfig depth)
        → (validate cron exprs (some c) cfg).valid ≡ true
        → All (IsGuarded depth) cfg.steps
    validate-IsGuarded cron {depth = depth} cfg e =
        All-map (IsGuarded depth)
          (λ s p. validate_step-IsGuarded depth cfg.conditions s p.0 p.1.0 p.1.1.0 p.1.1.1)
          cfg.steps (validate-Passed cron exprs (some c) cfg e).1
