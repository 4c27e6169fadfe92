-- ===== src/Workflow/Context/Tests.antt =====
-- What templates see of a run of internal/workflow/context.go.
use sqlproxy.Prelude.{refl, inl, List, [], ◌∷◌, codes, true, some, text_eq, pos}
use sqlproxy.Params.Values.{int, text}
use sqlproxy.Params.Tests.{whole}
use sqlproxy.Workflow.Context.{step_result_to_map, iteration_to_map, data_of}
use sqlproxy.Workflow.Context.Results.{
  Row, StepResult, IterationResult, Context, BlockContext, empty_result,
}
use sqlproxy.Workflow.Context.Shortcuts.{IsTold, step_result_to_map-IsTold}

abbrev pub cron_run : Context whole
cron_run = record {
  workflow_name = codes "report";
  trigger = record {
    trigger_type = codes "cron";
    params = [];
    headers = [];
    cookies = [];
    client_ip = [];
    method = [];
    path = [];
  };
  schedule_time = codes "noon";
  cron_expr = codes "0 12 * * *";
  steps = [];
  request_id = codes "r1";
  start_time = codes "noon";
  variables = [];
}

abbrev pub one_row : List (Row whole)
one_row = ((codes "id", int (pos 7)) ∷ []) ∷ []

abbrev query_result : StepResult whole (IterationResult whole)
query_result = record (empty_result whole (IterationResult whole)) {
  result_type = codes "query";
  success = true;
  rows = some one_row;
  count = 1;
}

abbrev second_of_two : BlockContext whole
second_of_two = record {
  parent = cron_run;
  block_name = codes "each";
  steps = [];
  current_item = text (codes "b");
  current_index = 1;
  total_count = 2;
}

step_result_to_map-IsTold_example :
    IsTold whole one_row (step_result_to_map whole (iteration_to_map whole) query_result)
unfolding text_eq data_of
step_result_to_map-IsTold_example =
    step_result_to_map-IsTold whole (iteration_to_map whole) query_result (inl refl) refl
