-- ===== src/Workflow/Executor/Response.antt =====
-- executeResponseStep of internal/workflow/execute_response.go: the calls that it makes on the
-- writer, and its result.
pub mod Answered
mod Tests
use sqlproxy.Prelude.{
  ℕ, List, [], ◌∷◌, ◌++◌, Text, codes, Bool, true, false, ◌&&◌, Option, none, some, leb, ◌==◌,
  if◌then◌else◌, Dict, Result, ok, err, ℤ, pos, negsuc,
}
use sqlproxy.Params.Values.{ValueLibrary}
use sqlproxy.Params.{Any}
use sqlproxy.Workflow.Config.{StepConfig}
use sqlproxy.Workflow.Context.Results.{StepResult, IterationResult, empty_result}
use sqlproxy.Workflow.Handler.Writer.{Write, set_header, write_header, write}

-- text/template, and the connection: the error of a Write of the body after some calls
pub record ResponseLibrary (lib : ValueLibrary) : Type 1 where
  pub Template : Type 0
  pub run_template : Template → Dict (Any lib) → Result Text Text
  pub write_error : List Write → Text → Option Text

module _ {lib : ValueLibrary} (out : ResponseLibrary lib) where
  -- the CompiledStep of a response; the headers in the order of the range over the map
  pub record ResponseStep (Nested : Type 0) : Type 0 where
    pub config : StepConfig Nested
    pub template_tmpl : out.Template
    pub header_tmpls : Dict out.Template

  abbrev pub failure : Text → StepResult lib (IterationResult lib)
  failure e = record (empty_result lib (IterationResult lib)) { error = some e }

  -- the loop over the headers: the calls until the first error
  unfoldable pub set_headers : Dict out.Template → Dict (Any lib) → List Write × Option Text
  set_headers [] env = ([], none)
  set_headers ((name, tmpl) ∷ hs) env =
      let rest = set_headers hs env in
      elim (out.run_template tmpl env) [
        | err e ↦ ([], some (codes "header " ++ name ++ codes " template error: " ++ e))
        | ok value ↦ (set_header name value ∷ rest.0, rest.1)
      ]

  unfoldable pub status_of : {Nested : Type 0} → ResponseStep Nested → ℤ
  status_of cs = elim cs.config.status_code [
    | pos n ↦ if n == 0 then pos 200 else pos n
    | negsuc n ↦ negsuc n
  ]

  -- net/http panics at any other code
  unfoldable pub header_code : ℤ → Option ℕ
  header_code (pos n) = if leb 100 n && leb n 999 then some n else none
  header_code (negsuc n) = none

  abbrev pub preamble : ℕ → List Write
  preamble code =
      set_header (codes "Content-Type") (codes "application/json") ∷ write_header code ∷ []

  unfoldable pub write_body :
      List Write → ℕ → Text → List Write × StepResult lib (IterationResult lib)
  write_body ws code body = (
    ws ++ (write body ∷ []),
    elim (out.write_error ws body) [
      | some e ↦ failure (codes "write response error: " ++ e)
      | none ↦ record (empty_result lib (IterationResult lib)) {
        success = true;
        status_code = pos code;
        response_body = body;
      }
    ],
  )

  -- `none` is a panic.
  unfoldable pub execute_response_step :
      {Nested : Type 0}
      → Bool
      → ResponseStep Nested
      → Dict (Any lib)
      → Option (List Write × StepResult lib (IterationResult lib))
  unfolding set_headers status_of header_code write_body
  execute_response_step has_writer cs env = elim has_writer [
    | false ↦
        some ([], failure (codes "response step called without ResponseWriter (cron trigger?)"))
    | true ↦ elim (out.run_template cs.template_tmpl env) [
      | err e ↦ some ([], failure (codes "response template error: " ++ e))
      | ok body ↦
          let hs = set_headers cs.header_tmpls env in
          elim hs.1 [
            | some e ↦ some (hs.0, failure e)
            | none ↦ elim (header_code (status_of cs)) [
              | none ↦ none
              | some code ↦ some (write_body (hs.0 ++ preamble code) code body)
            ]
          ]
    ]
  ]
