-- ===== src/Workflow/Executor/Block/Tests.antt =====
-- A run of executeBlockStep of internal/workflow/executor.go over two items, the second of which
-- fails.
use sqlproxy.Prelude.{
  ℕ, ◌+◌, ◌≡◌, refl, [], ◌∷◌, Text, codes, Bool, true, false, none, some, ◌==◌, if◌then◌else◌,
  text_eq, ok, err,
}
use sqlproxy.Params.Values.{text, array, none_left, item}
use sqlproxy.Params.Tests.{whole}
use sqlproxy.Workflow.Config.{resolved_type}
use sqlproxy.Workflow.Context.Results.{StepResult, empty_result}
use sqlproxy.Workflow.Context.Tests.{cron_run}
use sqlproxy.Workflow.Executor.Tests.{named_step}
use sqlproxy.Workflow.Executor.Block.{
  BlockRunner, CompiledBlock, values, items_of_block, execute_block_step, run_items, run_nested,
  record_iteration, iteration_result, finish_block, iterate_on_error, iterate_as_of, execute_nested,
  record_nested, nested_aborts, should_run_nested, nested_name,
}
use sqlproxy.Workflow.Executor.Block.Tally.{IsTallied, execute_block_step-IsTallied}

abbrev outcome : Bool → StepResult whole ⊥
outcome b = record (empty_result whole ⊥) {
  success = b;
  error = if b then none else some (codes "failed");
}

-- An expression is a name of the data, and the first query succeeds only.
abbrev first_only : BlockRunner whole Unit
first_only = record {
  World = ℕ;
  Expression = Text;
  expr_funcs = [];
  type_name = λ v. codes "string";
  cancelled = λ w. none;
  eval_condition = λ c env. ok true;
  eval_expression =
      λ e env. ok (array (item (text (codes "a")) (item (text (codes "b")) none_left)));
  execute_query_step = λ cfg env w. (w + 1, ok (outcome (w == 0)));
  execute_http_call_step = λ cfg env w. (w, err (codes "unreachable"));
}

abbrev each : CompiledBlock first_only
each = record {
  config = named_step (codes "each") [];
  over = some (codes "items");
  iterate =
      some (record { over = codes "items"; as_name = codes "entry"; on_error = codes "skip" });
  block_steps =
      record {
        config = record (named_step (codes "q") []) { step_type = codes "query" };
        condition = none;
      }
      ∷ [];
}

-- An item that fails under `skip` counts as a failure.
skip_run :
    let r = (execute_block_step first_only each cron_run 0).1 in
    (r.success_count ≡ 1) × (r.failure_count ≡ 1) × (r.skipped_count ≡ 0) × (r.success ≡ false)
unfolding execute_block_step items_of_block values run_items run_nested record_iteration
    iteration_result finish_block iterate_on_error iterate_as_of execute_nested record_nested
    nested_aborts should_run_nested nested_name resolved_type text_eq
skip_run = (refl, refl, refl, refl)

execute_block_step-IsTallied_example :
    IsTallied
      (text (codes "a") ∷ text (codes "b") ∷ [])
      (execute_block_step first_only each cron_run 0).1
unfolding items_of_block values
execute_block_step-IsTallied_example =
    execute_block_step-IsTallied first_only each cron_run 0
      (text (codes "a") ∷ text (codes "b") ∷ []) refl
