-- ===== src/Workflow/Context/Results.antt =====
-- The types of internal/workflow/context.go: the results of steps and the contexts.
use sqlproxy.Prelude.{ℕ, List, [], Text, Bool, false, Option, none, Dict, ℤ, pos}
use sqlproxy.Params.Values.{ValueLibrary}
use sqlproxy.Params.{Any}
use sqlproxy.Workflow.Handler.Interface.{TriggerData}

-- A row of Data, and the data of a template.
abbrev pub Row : ValueLibrary → Type 0
Row lib = Dict (Any lib)

-- StepResult; `Iteration` is the type of the iterations of a block, and a nil slice is `none`.
pub record StepResult (lib : ValueLibrary) (Iteration : Type 0) : Type 0 where
  pub name : Text
  pub result_type : Text
  pub success : Bool
  pub error : Option Text
  pub duration_ms : ℤ
  pub cache_hit : Bool
  pub rows : Option (List (Row lib))
  pub count : ℕ
  pub rows_affected : ℤ
  pub status_code : ℤ
  pub headers : Dict (List Text)
  pub response_body : Text
  pub iterations : Option (List Iteration)
  pub success_count : ℕ
  pub failure_count : ℕ
  pub skipped_count : ℕ

-- A step in a block has no iterations of its own.
pub record IterationResult (lib : ValueLibrary) : Type 0 where
  pub index : ℕ
  pub current : Any lib
  pub success : Bool
  pub error : Option Text
  pub steps : Dict (StepResult lib ⊥)

-- &StepResult{}
abbrev pub empty_result : (lib : ValueLibrary) (Iteration : Type 0) → StepResult lib Iteration
empty_result lib Iteration = record {
  name = [];
  result_type = [];
  success = false;
  error = none;
  duration_ms = pos 0;
  cache_hit = false;
  rows = none;
  count = 0;
  rows_affected = pos 0;
  status_code = pos 0;
  headers = [];
  response_body = [];
  iterations = none;
  success_count = 0;
  failure_count = 0;
  skipped_count = 0;
}

-- Context; the two fields of a cron trigger stand beside the trigger.
pub record Context (lib : ValueLibrary) : Type 0 where
  pub workflow_name : Text
  pub trigger : TriggerData lib
  pub schedule_time : lib.Time
  pub cron_expr : Text
  pub steps : Dict (StepResult lib (IterationResult lib))
  pub request_id : Text
  pub start_time : lib.Time
  pub variables : Dict Text

pub record BlockContext (lib : ValueLibrary) : Type 0 where
  pub parent : Context lib
  pub block_name : Text
  pub steps : Dict (StepResult lib ⊥)
  pub current_item : Any lib
  pub current_index : ℕ
  pub total_count : ℕ
