-- ===== src/Workflow/Executor/Step/Replay.antt =====
-- executeStep of internal/workflow/executor.go runs a cached step once.
use sqlproxy.Prelude.{◌≡◌, List, [], Text, true, some, length, Dict, ok, pos}
use sqlproxy.Params.Values.{ValueLibrary}
use sqlproxy.Params.{Any}
use sqlproxy.Workflow.Context.Results.{Row, StepResult, IterationResult, Context}
use sqlproxy.Workflow.Executor.Step.{StepServices, CompiledStep, step_cache_key, template_data}

module _ {lib : ValueLibrary} {Nested : Type 0} (s : StepServices lib Nested) where
  -- The step is looked up under the key, with these template data.
  pub record IsKeyed (cs : CompiledStep s) (c : Context lib) (env : Dict (Any lib)) (key : Text)
      : Type 0 where
    pub data_found : template_data s cs c ≡ ok env
    pub key_found : step_cache_key s cs env ≡ some key

  -- What a hit answers: the rows, and nothing else of the result.
  pub record IsReplay (rows : List (Row lib)) (r : StepResult lib (IterationResult lib))
      : Type 0 where
    pub success : r.success ≡ true
    pub cache_hit : r.cache_hit ≡ true
    pub found : r.rows ≡ some rows
    pub count : r.count ≡ length rows
    pub forgotten :
        (r.status_code ≡ pos 0)
        × (r.headers ≡ [])
        × (r.response_body ≡ [])
        × (r.rows_affected ≡ pos 0)
