-- ===== src/Workflow/Context.antt =====
-- internal/workflow/context.go: the results of steps and the data that templates and expressions
-- see. The values of exprFuncs are an argument, `functions`.
pub mod Results
pub mod Shortcuts
pub mod Tests
use sqlproxy.Prelude.{
  ℕ, List, [], ◌∷◌, Text, codes, Bool, true, false, not, Option, none, some, ltb, ◌==◌,
  if◌then◌else◌, text_eq, Dict, lookup, insert, ℤ, pos,
}
use sqlproxy.Params.Values.{
  Value, Items, Fields, ValueLibrary, nil, boolean, int, text, time, array, object, none_left, item,
  no_more, field,
}
use sqlproxy.Params.{Any}
use sqlproxy.Workflow.Handler.Interface.{TriggerData}
use sqlproxy.Workflow.Context.Results.{
  Row, StepResult, IterationResult, empty_result, Context, BlockContext,
}

module _ (lib : ValueLibrary) where
  -- maps and slices as values
  unfoldable pub fields_of : Dict (Any lib) → Fields lib.Float lib.Time
  fields_of [] = no_more
  fields_of ((k, v) ∷ m) = field k v (fields_of m)

  unfoldable pub object_of : Dict (Any lib) → Any lib
  unfolding fields_of
  object_of m = object (fields_of m)

  unfoldable pub row_items : List (Row lib) → Items lib.Float lib.Time
  unfolding object_of
  row_items [] = none_left
  row_items (r ∷ rs) = item (object_of r) (row_items rs)

  unfoldable pub text_items : List Text → Items lib.Float lib.Time
  text_items [] = none_left
  text_items (s ∷ ss) = item (text s) (text_items ss)

  unfoldable pub text_fields : Dict Text → Fields lib.Float lib.Time
  text_fields [] = no_more
  text_fields ((k, s) ∷ m) = field k (text s) (text_fields m)

  abbrev pub natural : ℕ → Any lib
  natural n = int (pos n)

  unfoldable pub header_value : List Text → Any lib
  unfolding text_items
  header_value (s ∷ []) = text s
  header_value [] = array none_left
  header_value (s ∷ t ∷ ss) = array (text_items (s ∷ t ∷ ss))

  unfoldable pub header_to_map : Dict (List Text) → Dict (Any lib)
  unfolding header_value
  header_to_map [] = []
  header_to_map ((k, v) ∷ h) = (k, header_value v) ∷ header_to_map h

  unfoldable pub first_row : List (Row lib) → Any lib
  unfolding object_of
  first_row [] = nil
  first_row (r ∷ rs) = object_of r

  -- r.Data, never nil
  unfoldable pub data_of : Option (List (Row lib)) → List (Row lib)
  data_of none = []
  data_of (some rs) = rs

  unfoldable pub add_convenience_shortcuts : Dict (Any lib) → List (Row lib) → ℕ → Dict (Any lib)
  unfolding first_row
  add_convenience_shortcuts m rows count = insert (codes "many") (boolean (ltb 1 count)) (
      insert (codes "one") (boolean (count == 1)) (
        insert (codes "empty") (boolean (count == 0)) (
          insert (codes "found") (boolean (ltb 0 count))
            (insert (codes "row") (first_row rows) m))))

  unfoldable pub add_error : Option Text → Dict (Any lib) → Dict (Any lib)
  add_error none m = m
  add_error (some e) m = insert (codes "error") (text e) m

  unfoldable pub iteration_to_map : IterationResult lib → Dict (Any lib)
  unfolding add_error
  iteration_to_map it = add_error it.error (
      (codes "index", natural it.index)
      ∷ (codes "item", it.current)
      ∷ (codes "success", boolean it.success)
      ∷ [])

  module _ {Iteration : Type 0} (view : Iteration → Dict (Any lib)) where
    unfoldable pub iteration_items : List Iteration → Items lib.Float lib.Time
    unfolding object_of
    iteration_items [] = none_left
    iteration_items (it ∷ its) = item (object_of (view it)) (iteration_items its)

    unfoldable pub query_fields : StepResult lib Iteration → Dict (Any lib) → Dict (Any lib)
    unfolding data_of row_items
    query_fields r m = insert (codes "rows_affected") (int r.rows_affected) (
        insert (codes "count") (natural r.count)
          (insert (codes "data") (array (row_items (data_of r.rows))) m))

    unfoldable pub add_query : StepResult lib Iteration → Dict (Any lib) → Dict (Any lib)
    unfolding query_fields add_convenience_shortcuts
    add_query r m =
        if text_eq r.result_type (codes "query")
        then add_convenience_shortcuts (query_fields r m) (data_of r.rows) r.count
        else m

    unfoldable pub http_call_fields : StepResult lib Iteration → Dict (Any lib) → Dict (Any lib)
    unfolding data_of row_items header_to_map object_of
    http_call_fields r m = insert (codes "count") (natural r.count) (
        insert (codes "data") (array (row_items (data_of r.rows))) (
          insert (codes "body") (text r.response_body) (
            insert (codes "headers") (object_of (header_to_map r.headers))
              (insert (codes "status_code") (int r.status_code) m))))

    unfoldable pub add_http_call : StepResult lib Iteration → Dict (Any lib) → Dict (Any lib)
    unfolding http_call_fields add_convenience_shortcuts
    add_http_call r m =
        if text_eq r.result_type (codes "httpcall")
        then add_convenience_shortcuts (http_call_fields r m) (data_of r.rows) r.count
        else m

    unfoldable pub add_block : StepResult lib Iteration → Dict (Any lib) → Dict (Any lib)
    unfolding iteration_items
    add_block r m =
        if text_eq r.result_type (codes "block")
        then insert (codes "iterations")
            (array (elim r.iterations [ none ↦ none_left | some its ↦ iteration_items its ]))
            (insert (codes "skipped_count") (natural r.skipped_count) (
              insert (codes "failure_count") (natural r.failure_count)
                (insert (codes "success_count") (natural r.success_count) m)))
        else m

    -- what every result has
    unfoldable pub common_fields : StepResult lib Iteration → Dict (Any lib)
    unfolding add_error
    common_fields r = add_error r.error (
        (codes "name", text r.name)
        ∷ (codes "type", text r.result_type)
        ∷ (codes "success", boolean r.success)
        ∷ (codes "duration_ms", int r.duration_ms)
        ∷ (codes "cache_hit", boolean r.cache_hit)
        ∷ [])

    unfoldable pub step_result_to_map : StepResult lib Iteration → Dict (Any lib)
    unfolding add_query add_http_call add_block common_fields
    step_result_to_map r = add_block r (add_http_call r (add_query r (common_fields r)))

    unfoldable pub steps_to_map : Dict (StepResult lib Iteration) → Dict (Any lib)
    unfolding step_result_to_map object_of
    steps_to_map [] = []
    steps_to_map ((name, r) ∷ rs) = (name, object_of (step_result_to_map r)) ∷ steps_to_map rs

  unfoldable pub trigger_to_map : Context lib → Dict (Any lib)
  unfolding header_to_map text_fields object_of
  trigger_to_map c =
      (codes "type", text c.trigger.trigger_type)
      ∷ (codes "params", object_of c.trigger.params)
      ∷ (if text_eq c.trigger.trigger_type (codes "http")
          then (codes "headers", object_of (header_to_map c.trigger.headers))
            ∷ (codes "cookies", object (text_fields c.trigger.cookies))
            ∷ (codes "client_ip", text c.trigger.client_ip)
            ∷ (codes "method", text c.trigger.method)
            ∷ (codes "path", text c.trigger.path)
            ∷ []
          else (codes "schedule_time", time c.schedule_time)
            ∷ (codes "cron", text c.cron_expr)
            ∷ [])

  unfoldable pub workflow_to_map : Context lib → Dict (Any lib)
  workflow_to_map c =
      (codes "name", text c.workflow_name)
      ∷ (codes "start_time", time c.start_time)
      ∷ (codes "request_id", text c.request_id)
      ∷ []

  unfoldable pub add_expr_funcs : Dict (Any lib) → Dict (Any lib) → Dict (Any lib)
  add_expr_funcs [] env = env
  add_expr_funcs ((name, f) ∷ fs) env = add_expr_funcs fs (insert name f env)

  module _ (functions : Dict (Any lib)) where
    -- Context.BuildExprEnv, which BuildTemplateData returns too
    unfoldable pub build_expr_env : Context lib → Dict (Any lib)
    unfolding steps_to_map iteration_to_map trigger_to_map workflow_to_map text_fields
        add_expr_funcs
    build_expr_env c = add_expr_funcs functions (
        (codes "steps", object_of (steps_to_map iteration_to_map c.steps))
        ∷ (codes "trigger", object_of (trigger_to_map c))
        ∷ (codes "workflow", object_of (workflow_to_map c))
        ∷ (codes "vars", object (text_fields c.variables))
        ∷ [])

    -- BlockContext.BuildExprEnv; the parent's trigger, workflow and vars are looked up in its data.
    unfoldable pub build_block_env : BlockContext lib → Text → Dict (Any lib)
    unfolding build_expr_env object_of steps_to_map add_expr_funcs
    build_block_env b iterate_as =
        let steps = steps_to_map (λ it. absurd it) b.steps in
        let parent = build_expr_env b.parent in
        let forward : Text → Any lib =
          λ name. elim (lookup name parent) [ some v ↦ v | none ↦ nil ] in
        let own =
          insert (codes "parent") (object_of parent) ((codes "steps", object_of steps) ∷ []) in
        let named = if text_eq iterate_as [] then own else insert iterate_as b.current_item own in
        add_expr_funcs functions (
          insert (codes "vars") (forward (codes "vars")) (
            insert (codes "workflow") (forward (codes "workflow")) (
              insert (codes "trigger") (forward (codes "trigger")) (
                insert (codes "_count") (natural b.total_count)
                  (insert (codes "_index") (natural b.current_index) named)))))

unfoldable pub set_step_result :
    {lib : ValueLibrary} → Text → StepResult lib (IterationResult lib) → Context lib → Context lib
set_step_result name r c = record c { steps = insert name r c.steps }

unfoldable pub set_block_result :
    {lib : ValueLibrary} → Text → StepResult lib ⊥ → BlockContext lib → BlockContext lib
set_block_result name r b = record b { steps = insert name r b.steps }
