-- ===== src/Workflow/Executor/Response/Tests.antt =====
-- A run of executeResponseStep of internal/workflow/execute_response.go.
use sqlproxy.Prelude.{◌≡◌, refl, ◌⊎◌, List, [], ◌∷◌, Text, codes, true, false, none, some, ok}
use sqlproxy.Params.Tests.{whole}
use sqlproxy.Workflow.Context.Results.{StepResult, IterationResult}
use sqlproxy.Workflow.Handler.Writer.{Write, set_header, write_header, write}
use sqlproxy.Workflow.Executor.Tests.{named_step}
use sqlproxy.Workflow.Executor.Response.{
  ResponseLibrary, ResponseStep, set_headers, status_of, header_code, write_body,
  execute_response_step,
}
use sqlproxy.Workflow.Executor.Response.Answered.{
  IsAnswered, IsRefused, execute_response_step_answers,
}

-- A template is its text.
abbrev plain_text : ResponseLibrary whole
plain_text = record { Template = Text; run_template = λ t env. ok t; write_error = λ ws b. none }

abbrev xml : ResponseStep plain_text Unit
xml = record {
  config = named_step (codes "answer") [];
  template_tmpl = codes "<a/>";
  header_tmpls = (codes "Content-Type", codes "text/xml") ∷ [];
}

-- The header of the step is set, and then set again.
overwritten :
    (r : StepResult whole (IterationResult whole)) × (execute_response_step plain_text true xml []
      ≡ some (
        set_header (codes "Content-Type") (codes "text/xml")
            ∷ set_header (codes "Content-Type") (codes "application/json")
            ∷ write_header 200
            ∷ write (codes "<a/>")
            ∷ [],
        r,
      ))
unfolding execute_response_step set_headers status_of header_code write_body
overwritten = (_, refl)

execute_response_step_answers_example :
    (ws : List Write) × (r : StepResult whole (IterationResult whole)) × (execute_response_step
        plain_text true xml []
      ≡ some (ws, r))
    × (((r.success ≡ true) × IsAnswered plain_text ws r)
        ⊎ ((r.success ≡ false) × IsRefused plain_text ws r))
unfolding status_of header_code
execute_response_step_answers_example =
    execute_response_step_answers plain_text xml [] true 200 refl
