-- ===== src/Workflow/HttpCall.antt =====
-- internal/workflow/execute_httpcall.go: a step that calls a URL, with retries.
pub mod Library
pub mod Requests
pub mod Retry
pub mod Outcome
pub mod Bounds
pub mod ServerErrors
use sqlproxy.Prelude.{
  ℕ, zero, suc, ◌+◌, ◌-◌, ◌*◌, List, [], ◌∷◌, Text, codes, Bool, true, false, not, ◌&&◌, ◌||◌,
  Option, none, some, Option-cases, length, ltb, leb, if◌then◌else◌, text_eq, Dict, lookup, insert,
  Result, ok, err, ◌>>=◌, map_err, ℤ, pos, negsuc, map,
}
use sqlproxy.Workflow.Config.{StepConfig, RetryConfig}
use Requests.{
  Error, url_template, body_template, create_request, context_done, request_failed, read_response,
  json_parse, form_parse, header_template, on_retry, build_http_request,
}
use Library.{HttpLibrary, Request, Response, Kind, array, object, other}

abbrev pub second : ℕ
second = 1000000000

-- The numbers of a retry configuration as the loop uses them; times are nanoseconds.
pub record Plan : Type 0 where
  pub max_attempts : ℕ
  pub backoff : ℕ
  pub max_backoff : ℕ

-- n if it is positive, or else a default
abbrev pub positive_or : ℤ → ℕ → ℕ
positive_or (pos zero) d = d
positive_or (pos (suc n)) d = suc n
positive_or (negsuc n) d = d

unfoldable pub plan_of : Option RetryConfig → Plan
plan_of none = record { max_attempts = 1; backoff = 1 * second; max_backoff = 30 * second }
plan_of (some r) = record {
  max_attempts = if r.enabled then positive_or r.max_attempts 3 else 1;
  backoff = positive_or r.initial_backoff_sec 1 * second;
  max_backoff = positive_or r.max_backoff_sec 30 * second;
}

-- backoff *= 2, and not above the maximum
unfoldable pub next_backoff : ℕ → ℕ → ℕ
next_backoff maximum backoff = if ltb maximum (backoff * 2) then maximum else backoff * 2

module _ (lib : HttpLibrary) where
  pub record CompiledStep (Nested : Type 0) : Type 0 where
    pub config : StepConfig Nested
    pub url_tmpl : lib.Template
    pub body_tmpl : Option lib.Template
    pub header_tmpls : Dict lib.Template

  -- The fields of a StepResult that an HTTP call fills in.
  pub record StepResult : Type 0 where
    pub success : Bool
    pub error : Option Error
    pub status_code : ℕ
    pub headers : Dict (List Text)
    pub response_body : Text
    pub rows : List (Dict lib.Value)
    pub count : ℕ

  -- How the loop ends: with an early return, the error of the last attempt, or a response, whose
  -- body may be closed.
  pub data Attempted : Type 0 where
    returned : Error → Attempted
    failed : Text → Attempted
    responded : Bool → Response lib.Body → Attempted

  -- what the loop leaves after an attempt that is not to be kept
  last_attempt : Result Text (Response lib.Body) → Attempted
  last_attempt (err e) = failed e
  last_attempt (ok resp) = responded true resp

  -- lastErr == nil && resp.StatusCode < 500
  is_final : Result Text (Response lib.Body) → Bool
  is_final (err e) = false
  is_final (ok resp) = ltb resp.status_code 500

  kept : Result Text (Response lib.Body) → Attempted
  kept (err e) = failed e
  kept (ok resp) = responded false resp

  -- The loop with `n` attempts left after this one; `rebuilt` is what buildHTTPRequest gives each
  -- time, for it depends on the step and its data alone.
  unfoldable pub attempts :
      Result Error Request → ℕ → ℕ → ℕ → Request → lib.World → lib.World × Attempted
  unfolding last_attempt is_final kept
  attempts rebuilt maximum zero backoff req w =
      let (w1, r) = lib.send req w in (w1, if is_final r then kept r else last_attempt r)
  attempts rebuilt maximum (suc n) backoff req w =
      let (w1, r) = lib.send req w in
      let (w2, cancelled) = lib.wait backoff w1 in
      let again : Request → lib.World × Attempted =
        λ req'. attempts rebuilt maximum n (next_backoff maximum backoff) req' w2 in
      if is_final r then (w1, kept r) else elim cancelled [
        | some e ↦ (w2, returned (context_done e))
        | none ↦ elim rebuilt [ err e ↦ (w2, returned (on_retry e)) | ok req' ↦ again req' ]
      ]

  pub normalize_json_response : lib.Value → List (Dict lib.Value)
  normalize_json_response v = elim (lib.kind v) [
    | array items ↦ map normalize_item items
    | object fields ↦ fields ∷ []
    | other ↦ ((codes "value", v) ∷ []) ∷ []
  ]
    where
      normalize_item : lib.Value → Dict lib.Value
      normalize_item item = elim (lib.kind item) [
        | object fields ↦ fields
        | array _ ↦ (codes "value", item) ∷ []
        | other ↦ (codes "value", item) ∷ []
      ]

  -- the fields of the one row of a form; a key with one value has it, another the list
  form_value : List Text → lib.Value
  form_value [] = lib.strings []
  form_value (v ∷ []) = lib.string v
  form_value (v ∷ u ∷ vs) = lib.strings (v ∷ u ∷ vs)

  form_row : Dict (List Text) → Dict lib.Value
  unfolding form_value
  form_row [] = []
  form_row ((k, vs) ∷ m) = (k, form_value vs) ∷ form_row m

  abbrev pub failure : Error → StepResult
  failure e = record {
    success = false;
    error = some e;
    status_code = 0;
    headers = [];
    response_body = [];
    rows = [];
    count = 0;
  }

  -- the switch on the parse mode, for a response with a status of 200 to 299
  parse_body : Text → Text → StepResult → StepResult
  unfolding form_row
  parse_body parse body r =
      if text_eq parse (codes "json")
      then elim (lib.unmarshal body) [
        | err e ↦ record r { error = some (json_parse e); success = false }
        | ok v ↦ record r {
          rows = normalize_json_response v;
          count = length (normalize_json_response v);
        }
      ]
      else if text_eq parse (codes "form")
      then elim (lib.parse_query body) [
        | err e ↦ record r { error = some (form_parse e); success = false }
        | ok values ↦ record r { rows = form_row values ∷ []; count = 1 }
      ]
      else if text_eq parse (codes "text")
      then record r { rows = ((codes "body", lib.string body) ∷ []) ∷ []; count = 1 }
      else r

  -- resp.StatusCode >= 200 && resp.StatusCode < 300
  abbrev pub is_success : ℕ → Bool
  is_success status = leb 200 status && ltb status 300

  abbrev pub received : Response lib.Body → Text → StepResult
  received resp body = record {
    success = is_success resp.status_code;
    error = none;
    status_code = resp.status_code;
    headers = resp.headers;
    response_body = body;
    rows = [];
    count = 0;
  }

  -- what follows the loop
  unfoldable pub finish : Text → Attempted → StepResult
  unfolding parse_body
  finish parse (returned e) = failure e
  finish parse (failed e) = failure (request_failed e)
  finish parse (responded closed resp) = elim (lib.read_all closed resp.body) [
    | err e ↦ failure (read_response e)
    | ok body ↦
        let r = received resp body in
        if is_success resp.status_code then parse_body parse body r else r
  ]

  -- s, or a default if it is empty
  abbrev pub text_or : Text → Text → Text
  text_or s d = if text_eq s [] then d else s

  -- context.WithTimeout, if a timeout is configured
  unfoldable pub start : ℤ → lib.World → lib.World
  start (pos zero) w = w
  start (pos (suc n)) w = lib.with_timeout (suc n * second) w
  start (negsuc n) w = w

  unfoldable pub execute_http_call_step :
      {Nested : Type 0} → CompiledStep Nested → lib.World → lib.World × StepResult
  execute_http_call_step cs w =
      let method = text_or cs.config.http_method (codes "GET") in
      let parse = text_or cs.config.parse (codes "json") in
      let w0 = start cs.config.timeout_sec w in
      let plan = plan_of cs.config.retry in
      elim (lib.execute cs.url_tmpl) [
        | err e ↦ (w0, failure (url_template e))
        | ok url ↦
            let built = build_http_request lib method url cs.body_tmpl cs.header_tmpls in
            elim built [
              | err e ↦ (w0, failure e)
              | ok req ↦
                  let (w1, r) =
                    attempts (build_http_request lib method url cs.body_tmpl cs.header_tmpls)
                      plan.max_backoff (plan.max_attempts - 1) plan.backoff req w0 in
                  (w1, finish parse r)
            ]
      ]
