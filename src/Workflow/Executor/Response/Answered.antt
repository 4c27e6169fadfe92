-- ===== src/Workflow/Executor/Response/Answered.antt =====
-- What executeResponseStep of internal/workflow/execute_response.go leaves on the writer.
use sqlproxy.Prelude.{
  ℕ, ◌≡◌, refl, ap, ◌∙◌, ◌⊎◌, inl, inr, List, [], ◌∷◌, ◌++◌, Text, codes, Bool, true, false, Option,
  none, some, Option-cases, Bool-cases, Result-cases, if◌then◌else◌, Dict, lookup, lookup-insert,
  text_eq, pos,
}
use mathlib.Core.Path.{subst}
use sqlproxy.Params.Values.{ValueLibrary}
use sqlproxy.Params.{Any}
use sqlproxy.Workflow.Context.Results.{StepResult, IterationResult}
use sqlproxy.Workflow.Handler.Writer.{
  Response, Write, set_header, write, is_informational, allows_body, with_status,
  with_status-headers, with_status-body, perform, perform_all,
}
use sqlproxy.Workflow.Handler.Answers.{IsAnswer, ++-IsAnswer, write-IsAnswer}
use sqlproxy.Workflow.Executor.Response.{
  ResponseLibrary, ResponseStep, set_headers, status_of, header_code, preamble, write_body,
  execute_response_step, failure,
}

perform_all-++ :
    (ws vs : List Write) (r : Response)
    → perform_all (ws ++ vs) r ≡ perform_all vs (perform_all ws r)
unfolding perform_all
perform_all-++ [] vs r = refl
perform_all-++ (w ∷ ws) vs r = perform_all-++ ws vs (perform w r)

-- Calls that set headers only.
abbrev IsQuiet : List Write → Type 0
IsQuiet ws =
    (r : Response) → ((perform_all ws r).status ≡ r.status) × ((perform_all ws r).body ≡ r.body)

module _ {lib : ValueLibrary} (out : ResponseLibrary lib) where
  set_headers-IsQuiet :
      (hs : Dict out.Template) (env : Dict (Any lib)) → IsQuiet (set_headers out hs env).0
  unfolding set_headers perform_all perform
  set_headers-IsQuiet [] env r = (refl, refl)
  set_headers-IsQuiet ((name, t) ∷ hs) env r = elim (Result-cases (out.run_template t env)) [
    | inl (e, q) ↦ simp (set_headers, q) (refl, refl)
    | inr (v, q) ↦
        simp (set_headers, q) (set_headers-IsQuiet hs env (perform (set_header name v) r))
  ]

  -- The status that the client gets last: 200 after an informational one.
  abbrev pub final_status : ℕ → ℕ
  final_status code = if is_informational code then 200 else code

  -- The calls answer with the result's status and body, as JSON, the body where the status allows
  -- one.
  pub record IsAnswered (ws : List Write) (r : StepResult lib (IterationResult lib)) : Type 0 where
    pub answer : IsAnswer ws
    pub status :
        (p : Response)
        → p.status ≡ none
        → (code : ℕ) × ((perform_all ws p).status ≡ some (final_status code))
          × (r.status_code ≡ pos code)
    pub content_type :
        (p : Response)
        → lookup (codes "Content-Type") (perform_all ws p).headers ≡ some (codes "application/json")
    pub body :
        (p : Response)
        → (perform_all ws p).body
          ≡ (if allows_body (perform_all ws p).status then p.body ++ r.response_body else p.body)

  -- No body is written: the writer has the status and the body it had.
  pub record IsRefused (ws : List Write) (r : StepResult lib (IterationResult lib)) : Type 0 where
    pub error : (e : Text) × (r.error ≡ some e)
    pub quiet :
        ((vs : List Write) (b : Text) → out.write_error vs b ≡ none)
        → (p : Response)
        → ((perform_all ws p).status ≡ p.status) × ((perform_all ws p).body ≡ p.body)

  -- what the last three calls do
  abbrev ending : ℕ → Text → Response → Response
  ending code b p = perform_all (preamble out code ++ (write b ∷ [])) p

  ending-status :
      (code : ℕ) (b : Text) (p : Response)
      → p.status ≡ none
      → (ending code b p).status ≡ some (final_status code)
  unfolding perform_all perform with_status is_informational
  ending-status code b p h = elim (Bool-cases (is_informational code)) [
    | inl early ↦ simp (with_status, h, early) refl
    | inr final ↦ simp (with_status, h, final) refl
  ]

  ending-content_type :
      (code : ℕ) (b : Text) (p : Response)
      → lookup (codes "Content-Type") (ending code b p).headers ≡ some (codes "application/json")
  unfolding perform_all perform text_eq
  ending-content_type code b p = simp with_status-headers (
      lookup-insert (codes "Content-Type") (codes "Content-Type") (codes "application/json")
        p.headers)

  ending-body :
      (code : ℕ) (b : Text) (p : Response)
      → (ending code b p).body
        ≡ (if allows_body (ending code b p).status then p.body ++ b else p.body)
  unfolding perform_all perform
  ending-body code b p = simp with_status-body refl

  run_ending :
      (ws : List Write) (code : ℕ) (b : Text) (p : Response)
      → perform_all (ws ++ preamble out code ++ (write b ∷ [])) p ≡ ending code b (perform_all ws p)
  unfolding perform_all
  run_ending ws code b p =
      perform_all-++ (ws ++ preamble out code) (write b ∷ []) p
      ∙ ap (perform (write b)) (perform_all-++ ws (preamble out code) p)

  write_body-IsAnswered :
      (ws : List Write) (code : ℕ) (b : Text)
      → IsQuiet ws
      → out.write_error (ws ++ preamble out code) b ≡ none
      → let done = write_body out (ws ++ preamble out code) code b in
        (done.1.success ≡ true) × IsAnswered done.0 done.1
  unfolding write_body perform_all
  write_body-IsAnswered ws code b q n = rw n (
    refl,
    record {
      answer = ++-IsAnswer (ws ++ preamble out code) (write b ∷ []) (write-IsAnswer b []);
      status = λ p h. (
        code,
        ap (λ (x : Response). x.status) (run_ending ws code b p)
            ∙ ending-status code b (perform_all ws p) ((q p).0 ∙ h),
        refl,
      );
      content_type = λ p.
          ap (λ (x : Response). lookup (codes "Content-Type") x.headers) (run_ending ws code b p)
          ∙ ending-content_type code b (perform_all ws p);
      body = λ p.
          let run = run_ending ws code b p in
          let sent = ap (λ (x : Response). allows_body x.status) run in
          ap (λ (x : Response). x.body) run
          ∙ ending-body code b (perform_all ws p)
          ∙ rw (sent, (q p).1) refl;
    },
  )

  -- The two ends of a response step.
  abbrev IsReported : List Write × StepResult lib (IterationResult lib) → Type 0
  IsReported (ws, r) =
      ((r.success ≡ true) × IsAnswered ws r) ⊎ ((r.success ≡ false) × IsRefused ws r)

  -- A step panics on a status code that net/http refuses only.
  abbrev IsReportedUnless :
      Option ℕ → Option (List Write × StepResult lib (IterationResult lib)) → Type 0
  IsReportedUnless code none = code ≡ none
  IsReportedUnless code (some p) = IsReported p

  refused-IsReported : (ws : List Write) (e : Text) → IsQuiet ws → IsReported (ws, failure out e)
  refused-IsReported ws e q = inr (refl, record { error = (e, refl); quiet = λ n p. q p })

  write_body-IsReported :
      (ws : List Write) (code : ℕ) (b : Text)
      → IsQuiet ws
      → IsReported (write_body out (ws ++ preamble out code) code b)
  unfolding write_body
  write_body-IsReported ws code b q =
      elim (Option-cases (out.write_error (ws ++ preamble out code) b)) [
        | inl n ↦ inl (write_body-IsAnswered ws code b q n)
        | inr (e, h) ↦ rw h (
            inr (
              refl,
              record {
                error = (codes "write response error: " ++ e, refl);
                quiet = λ n p. absurd (cc (h, n (ws ++ preamble out code) b));
              },
            ))
      ]

  execute_response_step-IsReportedUnless :
      {Nested : Type 0} (cs : ResponseStep out Nested) (env : Dict (Any lib)) (has_writer : Bool)
      → IsReportedUnless
          (header_code out (status_of out cs))
          (execute_response_step out has_writer cs env)
  unfolding execute_response_step perform_all
  execute_response_step-IsReportedUnless cs env false = refused-IsReported [] _ (λ p. (refl, refl))
  execute_response_step-IsReportedUnless cs env true =
      let hs = set_headers out cs.header_tmpls env in
      elim (Result-cases (out.run_template cs.template_tmpl env)) [
        | inl (e, t) ↦ simp (execute_response_step, t) (refused-IsReported [] _ (λ p. (refl, refl)))
        | inr (b, t) ↦ elim (Option-cases hs.1) [
          | inr (e, k) ↦
              simp (execute_response_step, t, k)
                (refused-IsReported hs.0 e (set_headers-IsQuiet cs.header_tmpls env))
          | inl k ↦ elim (Option-cases (header_code out (status_of out cs))) [
            | inl c ↦ simp (execute_response_step, t, k, c) refl
            | inr (code, c) ↦
                simp (execute_response_step, t, k, c)
                  (write_body-IsReported hs.0 code b (set_headers-IsQuiet cs.header_tmpls env))
          ]
        ]
      ]

  -- With a status code of 0 or of 100 to 999 a response step returns. Either it succeeds: its
  -- calls are an answer, through a capture too, which on a response not begun has the status of
  -- the result, or 200 if that is informational, which has the Content-Type application/json and,
  -- where the final status allows a body, the body of the result appended. Or it fails with an
  -- error, and then, if the writer never fails, the calls leave status and body as they were.
  pub execute_response_step_answers :
      {Nested : Type 0} (cs : ResponseStep out Nested) (env : Dict (Any lib)) (has_writer : Bool)
      (code : ℕ)
      → header_code out (status_of out cs) ≡ some code
      → (ws : List Write) × (r : StepResult lib (IterationResult lib)) × (execute_response_step out
            has_writer cs env
          ≡ some (ws, r))
        × (((r.success ≡ true) × IsAnswered ws r) ⊎ ((r.success ≡ false) × IsRefused ws r))
  execute_response_step_answers cs env has_writer code c =
      let told = execute_response_step-IsReportedUnless cs env has_writer in
      elim (Option-cases (execute_response_step out has_writer cs env)) [
        | inl e ↦
            absurd (cc (c, subst (IsReportedUnless (header_code out (status_of out cs))) e told))
        | inr (p, e) ↦
            (p.0, p.1, e, subst (IsReportedUnless (header_code out (status_of out cs))) e told)
      ]
