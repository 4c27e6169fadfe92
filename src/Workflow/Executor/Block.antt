-- ===== src/Workflow/Executor/Block.antt =====
-- executeBlockStep of internal/workflow/executor.go.
pub mod Tally
mod Tests
use sqlproxy.Prelude.{
  ℕ, zero, suc, ◌+◌, List, [], ◌∷◌, ◌++◌, Text, codes, Bool, true, false, not, ◌&&◌, ◌||◌, Option,
  none, some, length, ◌==◌, if◌then◌else◌, text_eq, Dict, insert, Result, ok, err, pos,
}
use sqlproxy.Params.Values.{Value, Items, ValueLibrary, nil, array, none_left, item}
use sqlproxy.Params.{Any}
use sqlproxy.RateLimit.InlineKey.{decimal}
use sqlproxy.Workflow.Config.{StepConfig, IterateConfig, resolved_type, type_query, type_httpcall}
use sqlproxy.Workflow.Context.{build_expr_env, build_block_env, set_block_result}
use sqlproxy.Workflow.Context.Results.{
  StepResult, IterationResult, Context, BlockContext, empty_result,
}

-- What a block calls: exprFuncs, fmt's %T, the cancellation of the context, the expressions, and the
-- two kinds of steps that it may hold, which see the data of their iteration. An `array` that an
-- expression gives is a []any or a []map[string]any.
pub record BlockRunner (lib : ValueLibrary) (Nested : Type 0) : Type 1 where
  pub World : Type 0
  pub Expression : Type 0
  pub expr_funcs : Dict (Any lib)
  pub type_name : Any lib → Text
  pub cancelled : World → Option Text
  pub eval_condition : Expression → Dict (Any lib) → Result Text Bool
  pub eval_expression : Expression → Dict (Any lib) → Result Text (Any lib)
  pub execute_query_step :
      StepConfig Nested → Dict (Any lib) → World → World × Result Text (StepResult lib ⊥)
  pub execute_http_call_step :
      StepConfig Nested → Dict (Any lib) → World → World × Result Text (StepResult lib ⊥)

-- the values of a slice
unfoldable pub values : {Float Time : Type 0} → Items Float Time → List (Value Float Time)
values none_left = []
values (item v vs) = v ∷ values vs

abbrev pub BlockResult : ValueLibrary → Type 0
BlockResult lib = StepResult lib (IterationResult lib)

-- result.Iterations, which is never nil here
abbrev pub iterations_of : {lib : ValueLibrary} → BlockResult lib → List (IterationResult lib)
iterations_of r = elim r.iterations [ none ↦ [] | some its ↦ its ]

module _ {lib : ValueLibrary} {Nested : Type 0} (run : BlockRunner lib Nested) where
  -- the CompiledStep of a step in a block
  pub record NestedStep : Type 0 where
    pub config : StepConfig Nested
    pub condition : Option run.Expression

  -- the CompiledStep of a block; `over` is none without an iteration
  pub record CompiledBlock : Type 0 where
    pub config : StepConfig Nested
    pub over : Option run.Expression
    pub iterate : Option IterateConfig
    pub block_steps : List NestedStep

  -- what the steps of one iteration have done so far
  pub record Iterating : Type 0 where
    pub context : BlockContext lib
    pub success : Bool
    pub error : Option Text

  -- the switch on the type of a step in a block
  unfoldable pub execute_nested :
      NestedStep → Dict (Any lib) → run.World → run.World × Result Text (StepResult lib ⊥)
  execute_nested s env w =
      if text_eq (resolved_type s.config) type_query
      then run.execute_query_step s.config env w
      else if text_eq (resolved_type s.config) type_httpcall
      then run.execute_http_call_step s.config env w
      else (w, err (codes "unsupported step type in block: " ++ resolved_type s.config))

  unfoldable pub nested_name : ℕ → NestedStep → Text
  nested_name j s =
      if text_eq s.config.name [] then codes "step_" ++ decimal (pos j) [] else s.config.name

  -- A condition that cannot be evaluated skips the step.
  unfoldable pub should_run_nested : NestedStep → Dict (Any lib) → Bool
  should_run_nested s env = elim s.condition [
    | none ↦ true
    | some c ↦ elim (run.eval_condition c env) [ err e ↦ false | ok b ↦ b ]
  ]

  -- The step's result in the iteration, which a failure marks.
  unfoldable pub record_nested : ℕ → NestedStep → StepResult lib ⊥ → Iterating → Iterating
  unfolding nested_name set_block_result
  record_nested j s sr it =
      let sr' = record sr { name = nested_name j s; result_type = resolved_type s.config } in
      let context = set_block_result (nested_name j s) sr' it.context in
      if sr.success
      then record it { context = context }
      else record it { context = context; success = false; error = sr.error }

  unfoldable pub nested_aborts : NestedStep → Bool
  nested_aborts s = text_eq s.config.on_error [] || text_eq s.config.on_error (codes "abort")

  -- the loop over the steps of one iteration, from index j on
  unfoldable pub run_nested :
      Text → ℕ → List NestedStep → Iterating → run.World → run.World × Result Text Iterating
  unfolding execute_nested should_run_nested record_nested nested_aborts
  run_nested iterate_as j [] it w = (w, ok it)
  run_nested iterate_as j (s ∷ steps) it w =
      let env = build_block_env lib run.expr_funcs it.context iterate_as in
      let skipped = run_nested iterate_as (suc j) steps it w in
      let done = execute_nested s env w in
      let after : Iterating → run.World × Result Text Iterating =
        λ it'. run_nested iterate_as (suc j) steps it' done.0 in
      if s.config.disabled
      then skipped
      else if should_run_nested s env
      then elim done.1 [
        | err e ↦ (done.0, err e)
        | ok sr ↦
            if sr.success
            then after (record_nested j s sr it)
            else if nested_aborts s
            then (done.0, ok (record_nested j s sr it))
            else after (record_nested j s sr it)
      ]
      else skipped

  unfoldable pub iteration_result : ℕ → Any lib → Iterating → IterationResult lib
  iteration_result i current it = record {
    index = i;
    current = current;
    success = it.success;
    error = it.error;
    steps = it.context.steps;
  }

  -- the iteration appended and counted
  unfoldable pub record_iteration : IterationResult lib → BlockResult lib → BlockResult lib
  record_iteration it r =
      let appended = record r { iterations = some (iterations_of r ++ (it ∷ [])) } in
      if it.success
      then record appended { success_count = appended.success_count + 1 }
      else record appended { failure_count = appended.failure_count + 1 }

  -- after the loop
  unfoldable pub finish_block : BlockResult lib → BlockResult lib
  finish_block r = record r { success = r.failure_count == 0 }

  abbrev pub new_iterating : BlockContext lib → Iterating
  new_iterating context = record { context = context; success = true; error = none }

  -- the loop over the items from index i on; an error leaves the block as it is
  unfoldable pub run_items :
      CompiledBlock
      → Context lib
      → Text
      → Text
      → ℕ
      → ℕ
      → List (Any lib)
      → BlockResult lib
      → run.World
      → run.World × BlockResult lib
  unfolding run_nested iteration_result record_iteration finish_block
  run_items cs parent iterate_as on_error total i [] r w = (w, finish_block r)
  run_items cs parent iterate_as on_error total i (current ∷ items) r w =
      let context : BlockContext lib = record {
        parent = parent;
        block_name = cs.config.name;
        steps = [];
        current_item = current;
        current_index = i;
        total_count = total;
      } in
      let done = run_nested iterate_as 0 cs.block_steps (new_iterating context) w in
      elim (run.cancelled w) [
        | some e ↦ (w, record r { error = some e })
        | none ↦ elim done.1 [
          | err e ↦ (done.0, record r { error = some e })
          | ok it ↦
              let r' = record_iteration (iteration_result i current it) r in
              if it.success || not (text_eq on_error (codes "abort"))
              then run_items cs parent iterate_as on_error total (suc i) items r' done.0
              else (done.0, finish_block (record r' { error = it.error }))
        ]
      ]

  abbrev pub new_block_result : BlockResult lib
  new_block_result = record (empty_result lib (IterationResult lib)) {
    result_type = codes "block";
    iterations = some [];
  }

  -- the items of the iteration, one nil item without one
  unfoldable pub items_of_block : CompiledBlock → Context lib → Result Text (List (Any lib))
  unfolding build_expr_env values
  items_of_block cs c = elim cs.over [
    | none ↦ ok (nil ∷ [])
    | some e ↦ elim (run.eval_expression e (build_expr_env lib run.expr_funcs c)) [
      | err x ↦ err (codes "iterate.over expression error: " ++ x)
      | ok (array vs) ↦ ok (values vs)
      | ok v ↦ err (codes "iterate.over must return array, got " ++ run.type_name v)
    ]
  ]

  unfoldable pub iterate_as_of : CompiledBlock → Text
  iterate_as_of cs = elim cs.iterate [ none ↦ [] | some it ↦ it.as_name ]

  unfoldable pub iterate_on_error : CompiledBlock → Text
  iterate_on_error cs = elim cs.iterate [
    | none ↦ codes "abort"
    | some it ↦ if text_eq it.on_error [] then codes "abort" else it.on_error
  ]

  unfoldable pub execute_block_step :
      CompiledBlock → Context lib → run.World → run.World × BlockResult lib
  unfolding items_of_block run_items iterate_as_of iterate_on_error
  execute_block_step cs c w = elim (items_of_block cs c) [
    | err e ↦ (w, record new_block_result { error = some e })
    | ok items ↦
        run_items cs c (iterate_as_of cs) (iterate_on_error cs) (length items) 0 items
          new_block_result w
  ]
