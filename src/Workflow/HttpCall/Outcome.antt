-- ===== src/Workflow/HttpCall/Outcome.antt =====
-- What a step of internal/workflow/execute_httpcall.go reports.
use sqlproxy.Prelude.{
  ◌≡◌, refl, inl, inr, arith, List, [], Text, codes, Bool, true, false, none, some, Bool-cases,
  if◌then◌else◌, Result-cases, length, text_eq, Dict,
}
use sqlproxy.Workflow.HttpCall.Library.{HttpLibrary, Response}
use sqlproxy.Workflow.HttpCall.Requests.{Error, build_http_request}
use sqlproxy.Workflow.HttpCall.{
  Attempted, returned, failed, responded, StepResult, CompiledStep, failure, received, is_success,
  parse_body, finish, text_or, execute_http_call_step,
}

module _ (lib : HttpLibrary) where
  -- A result says success only for a status of 200 to 299 and without an error; its rows are
  -- counted, and there are none without success.
  pub record IsConsistent (r : StepResult lib) : Type 0 where
    pub status : r.success ≡ true → is_success lib r.status_code ≡ true
    pub no_error : r.success ≡ true → r.error ≡ none
    pub counted : r.count ≡ length r.rows
    pub no_rows : r.success ≡ false → r.rows ≡ []

  failure-IsConsistent : (e : Error) → IsConsistent (failure lib e)
  failure-IsConsistent e = record {
    status = λ h. ground (arith, h);
    no_error = λ h. ground (arith, h);
    counted = refl;
    no_rows = λ h. refl;
  }

  module _ (resp : Response lib.Body) (body : Text) where
    with_rows :
        (rows : List (Dict lib.Value))
        → is_success lib resp.status_code ≡ true
        → IsConsistent (record (received lib resp body) { rows = rows; count = length rows })
    with_rows rows h = record {
      status = λ _. h;
      no_error = λ _. refl;
      counted = refl;
      no_rows = λ n. ground (arith, h, n);
    }

    not_parsed :
        (e : Error)
        → IsConsistent (record (received lib resp body) { error = some e; success = false })
    not_parsed e = record {
      status = λ n. ground (arith, n);
      no_error = λ n. ground (arith, n);
      counted = refl;
      no_rows = λ n. refl;
    }

    parse_body-IsConsistent :
        (parse : Text)
        → is_success lib resp.status_code ≡ true
        → IsConsistent (parse_body lib parse body (received lib resp body))
    unfolding parse_body
    parse_body-IsConsistent parse h = elim (Bool-cases (text_eq parse (codes "json"))) [
      | inl j ↦ elim (Result-cases (lib.unmarshal body)) [
        | inl (e, u) ↦ simp (parse_body, j, u) (not_parsed _)
        | inr (v, u) ↦ simp (parse_body, j, u) (with_rows _ h)
      ]
      | inr j ↦ elim (Bool-cases (text_eq parse (codes "form"))) [
        | inl f ↦ elim (Result-cases (lib.parse_query body)) [
          | inl (e, u) ↦ simp (parse_body, j, f, u) (not_parsed _)
          | inr (v, u) ↦ simp (parse_body, j, f, u) (with_rows _ h)
        ]
        | inr f ↦ elim (Bool-cases (text_eq parse (codes "text"))) [
          | inl t ↦ simp (parse_body, j, f, t) (with_rows _ h)
          | inr t ↦ simp (parse_body, j, f, t) (with_rows [] h)
        ]
      ]
    ]

    judge :
        (parse : Text) (b : Bool)
        → is_success lib resp.status_code ≡ b
        → IsConsistent (
            if b
            then parse_body lib parse body (received lib resp body)
            else received lib resp body)
    judge parse true h = parse_body-IsConsistent parse h
    judge parse false h = record {
      status = λ n. n;
      no_error = λ _. refl;
      counted = refl;
      no_rows = λ _. refl;
    }

  finish-IsConsistent : (parse : Text) (a : Attempted lib) → IsConsistent (finish lib parse a)
  unfolding finish
  finish-IsConsistent parse (returned e) = failure-IsConsistent _
  finish-IsConsistent parse (failed e) = failure-IsConsistent _
  finish-IsConsistent parse (responded closed resp) =
      elim (Result-cases (lib.read_all closed resp.body)) [
        | inl (e, q) ↦ rw (q, finish) (failure-IsConsistent _)
        | inr (body, q) ↦ rw (q, finish) (judge resp body parse _ refl)
      ]

  -- An HTTP step succeeds only with a status of 200 to 299 and without an error, its count is that
  -- of its rows, and without success it has no rows.
  pub execute_http_call_step-IsConsistent :
      {Nested : Type 0} (cs : CompiledStep lib Nested) (w : lib.World)
      → IsConsistent (execute_http_call_step lib cs w).1
  unfolding execute_http_call_step
  execute_http_call_step-IsConsistent cs w =
      let method = text_or lib cs.config.http_method (codes "GET") in
      elim (Result-cases (lib.execute cs.url_tmpl)) [
        | inl (e, u) ↦ simp (execute_http_call_step, u) (failure-IsConsistent _)
        | inr (url, u) ↦
            elim (Result-cases (build_http_request lib method url cs.body_tmpl cs.header_tmpls)) [
              | inl (e, b) ↦ simp (execute_http_call_step, u, b) (failure-IsConsistent _)
              | inr (req, b) ↦ simp (execute_http_call_step, u, b) (finish-IsConsistent _ _)
            ]
      ]
