-- ===== src/Workflow/Executor.antt =====
-- Execute of internal/workflow/executor.go: the loop over the steps of a workflow.
pub mod Block
pub mod Response
pub mod Step
mod Tests
use sqlproxy.Prelude.{
  ℕ, zero, suc, ◌+◌, ◌≡◌, refl, ◌∙◌, ◌⊎◌, inl, inr, arith, List, [], ◌∷◌, ◌++◌, Text, codes, Bool,
  true, false, ◌&&◌, ◌||◌, Option, none, some, Option-cases, Bool-cases, if◌then◌else◌, text_eq,
  Dict, lookup, insert, lookup-insert, text_eq_refl, Result, ok, err, Result-cases, pos,
}
use sqlproxy.Workflow.Config.{StepConfig, is_response, resolved_type}
use sqlproxy.RateLimit.InlineKey.{decimal}

-- The fields of a StepResult that Execute reads or sets; `Detail` has the rest.
pub record StepResult (Error Detail : Type 0) : Type 0 where
  pub name : Text
  pub result_type : Text
  pub success : Bool
  pub error : Option Error
  pub detail : Detail

-- What Execute calls: the context's cancellation, EvalCondition on the results so far, and
-- executeStep.
pub record Runner (Nested : Type 0) : Type 1 where
  pub World : Type 0
  pub Error : Type 0
  pub Detail : Type 0
  pub Condition : Type 0
  pub cancelled : World → Option Error
  pub holds : Condition → Dict (StepResult Error Detail) → Result Error Bool
  pub execute_step :
      StepConfig Nested
      → Dict (StepResult Error Detail)
      → World
      → World × Result Error (StepResult Error Detail)

module _ {Nested : Type 0} (run : Runner Nested) where
  pub record CompiledStep : Type 0 where
    pub config : StepConfig Nested
    pub condition : Option run.Condition

  pub record ExecuteResult : Type 0 where
    pub success : Bool
    pub error : Option run.Error
    pub response_sent : Bool
    pub steps : Dict (StepResult run.Error run.Detail)

  -- the name of the i-th step
  step_name : ℕ → StepConfig Nested → Text
  step_name i cfg = if text_eq cfg.name [] then codes "step_" ++ decimal (pos i) [] else cfg.name

  -- what the loop records of a step
  record_step :
      ℕ → StepConfig Nested → StepResult run.Error run.Detail → ExecuteResult → ExecuteResult
  unfolding step_name
  record_step i cfg sr r =
      let name = step_name i cfg in
      let sr' = record sr { name = name; result_type = resolved_type cfg } in
      record r {
        steps = insert name sr' r.steps;
        response_sent = r.response_sent || is_response cfg && sr.success;
      }

  -- onError == "abort", the default
  pub aborts : StepConfig Nested → Bool
  aborts cfg = text_eq cfg.on_error [] || text_eq cfg.on_error (codes "abort")

  -- cs.Condition == nil, or it holds; a condition that cannot be evaluated skips the step
  should_run : CompiledStep → ExecuteResult → Bool
  should_run cs r = elim cs.condition [
    | none ↦ true
    | some c ↦ elim (run.holds c r.steps) [ err e ↦ false | ok b ↦ b ]
  ]

  run_steps : ℕ → List CompiledStep → ExecuteResult → run.World → run.World × ExecuteResult
  run_steps i [] r w = (w, record r { success = true })
  run_steps i (cs ∷ rest) r w =
      let (w', res) = run.execute_step cs.config r.steps w in
      let skipped = run_steps (suc i) rest r w in
      let after : ExecuteResult → run.World × ExecuteResult = λ r'. run_steps (suc i) rest r' w' in
      if cs.config.disabled then skipped else elim (run.cancelled w) [
        | some e ↦ (w, record r { error = some e })
        | none ↦
            if should_run cs r
            then elim res [
              | err e ↦ (w', record r { error = some e })
              | ok sr ↦
                  let r' = record_step i cs.config sr r in
                  if sr.success
                  then after r'
                  else if aborts cs.config
                  then (w', record r' { error = sr.error })
                  else after r'
            ]
            else skipped
      ]

  abbrev pub nothing_yet : ExecuteResult
  nothing_yet = record { success = false; error = none; response_sent = false; steps = [] }

  pub execute : List CompiledStep → run.World → run.World × ExecuteResult
  unfolding run_steps
  execute steps w = run_steps 0 steps nothing_yet w

  record_step_success :
      (i : ℕ) (cfg : StepConfig Nested) (sr : StepResult run.Error run.Detail) (r : ExecuteResult)
      → (record_step i cfg sr r).success ≡ r.success
  unfolding record_step
  record_step_success i cfg sr r = refl

  record_step_error :
      (i : ℕ) (cfg : StepConfig Nested) (sr : StepResult run.Error run.Detail) (r : ExecuteResult)
      → (record_step i cfg sr r).error ≡ r.error
  unfolding record_step
  record_step_error i cfg sr r = refl

  -- a step that is recorded as failed without an error
  abbrev IsSilent : Dict (StepResult run.Error run.Detail) → Type 0
  IsSilent steps =
      (name : Text) × (sr : StepResult run.Error run.Detail) × (lookup name steps ≡ some sr)
      × (sr.success ≡ false)
      × (sr.error ≡ none)

  -- A run succeeds without an error, or fails with one, or fails without one at a step that did.
  pub IsDecided : ExecuteResult → Type 0
  IsDecided r =
      ((r.success ≡ true) × (r.error ≡ none))
      ⊎ ((r.success ≡ false)
          × (((e : run.Error) × (r.error ≡ some e)) ⊎ ((r.error ≡ none) × IsSilent r.steps)))

  -- a run that stops at a step that failed
  stopped-IsDecided :
      (i : ℕ) (cfg : StepConfig Nested) (sr : StepResult run.Error run.Detail) (r : ExecuteResult)
      → r.success ≡ false
      → sr.success ≡ false
      → IsDecided (record (record_step i cfg sr r) { error = sr.error })
  unfolding record_step IsDecided
  stopped-IsDecided i cfg sr r h t = inr (
    h,
    elim (Option-cases sr.error) [
      | inr (e, q) ↦ inl (e, q)
      | inl q ↦
          let name = step_name i cfg in
          let recorded = record sr { name = name; result_type = resolved_type cfg } in
          inr (
            q,
            (
              name,
              recorded,
              lookup-insert name name recorded r.steps ∙ rw (text_eq_refl name) refl,
              t,
              q,
            ),
          )
    ],
  )

  run_steps-IsDecided :
      (i : ℕ) (steps : List CompiledStep) (r : ExecuteResult) (w : run.World)
      → r.success ≡ false
      → r.error ≡ none
      → IsDecided (run_steps i steps r w).1
  unfolding run_steps IsDecided
  run_steps-IsDecided i [] r w h e = inl (refl, e)
  run_steps-IsDecided i (cs ∷ rest) r w h e =
      let skipped = run_steps-IsDecided (suc i) rest r w h e in
      let (w', res) = run.execute_step cs.config r.steps w in
      elim (Bool-cases cs.config.disabled) [
        | inl d ↦ simp (run_steps, d) skipped
        | inr d ↦ elim (Option-cases (run.cancelled w)) [
          | inr (x, c) ↦ simp (run_steps, d, c) (inr (h, inl (x, refl)))
          | inl c ↦ elim (Bool-cases (should_run cs r)) [
            | inr s ↦ simp (run_steps, d, c, s) skipped
            | inl s ↦ elim (Result-cases res) [
              | inl (x, q) ↦ simp (run_steps, d, c, s, q) (inr (h, inl (x, refl)))
              | inr (sr, q) ↦
                  let after =
                    run_steps-IsDecided (suc i) rest (record_step i cs.config sr r) w'
                      (record_step_success i cs.config sr r ∙ h)
                      (record_step_error i cs.config sr r ∙ e) in
                  elim (Bool-cases sr.success) [
                    | inl t ↦ simp (run_steps, d, c, s, q, t) after
                    | inr t ↦ elim (Bool-cases (aborts cs.config)) [
                      | inl a ↦
                          simp (run_steps, d, c, s, q, t, a)
                            (stopped-IsDecided i cs.config sr r h t)
                      | inr a ↦ simp (run_steps, d, c, s, q, t, a) after
                    ]
                  ]
            ]
          ]
        ]
      ]

  -- A run succeeds without an error, or fails with one, or fails without one and has recorded a
  -- step that failed without an error.
  pub execute-IsDecided :
      (steps : List CompiledStep) (w : run.World) → IsDecided (execute steps w).1
  unfolding execute
  execute-IsDecided steps w = run_steps-IsDecided 0 steps nothing_yet w refl refl

  -- If the first step is enabled and unconditional, the run is not cancelled, and the step aborts,
  -- fails and reports no error, then the run fails without an error and without a response,
  -- whatever the other steps are.
  pub execute_fails_silently :
      (cs : CompiledStep) (rest : List CompiledStep) (w : run.World)
      (sr : StepResult run.Error run.Detail)
      → cs.config.disabled ≡ false
      → cs.condition ≡ none
      → aborts cs.config ≡ true
      → run.cancelled w ≡ none
      → (run.execute_step cs.config [] w).1 ≡ ok sr
      → sr.success ≡ false
      → sr.error ≡ none
      → let r = (execute (cs ∷ rest) w).1 in
        (r.success ≡ false) × (r.error ≡ none) × (r.response_sent ≡ false)
  unfolding execute should_run record_step run_steps
  execute_fails_silently cs rest w sr d c a k q t e =
      simp (execute, run_steps, should_run, record_step, d, c, a, k, q, t, e)
        (refl, refl, ground arith)
