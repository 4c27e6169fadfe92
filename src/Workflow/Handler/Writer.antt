-- ===== src/Workflow/Handler/Writer.antt =====
-- http.ResponseWriter as internal/workflow/handler.go uses it, and its responseCapture.
use sqlproxy.Prelude.{
  ℕ, ◌≡◌, refl, List, [], ◌∷◌, ◌++◌, Text, Bool, true, false, Option, none, some, Dict, insert, not,
  ◌&&◌, ◌||◌, leb, ◌==◌, if◌then◌else◌, arith,
}

-- A response so far: the final status once it is written, and the bytes of the body. Headers are set on
-- the map of headers, also after the status is written.
pub record Response : Type 0 where
  pub headers : Dict Text
  pub status : Option ℕ
  pub body : Text

-- w.Header().Set, w.WriteHeader and w.Write
pub data Write : Type 0 where
  set_header : Text → Text → Write
  write_header : ℕ → Write
  write : Text → Write

-- A status below 200 but 101: it is sent at once, and the final status is still to come.
unfoldable pub is_informational : ℕ → Bool
is_informational code = leb 100 code && (leb code 199 && not (code == 101))

-- whether a response with the status may have a body
unfoldable pub allows_body : Option ℕ → Bool
allows_body none = true
allows_body (some code) = not (leb 100 code && leb code 199 || (code == 204 || code == 304))

-- A second WriteHeader is ignored, and a Write without one writes 200.
unfoldable pub with_status : ℕ → Response → Response
unfolding is_informational
with_status code r = elim r.status [
  | none ↦ if is_informational code then r else record r { status = some code }
  | some _ ↦ r
]

pub with_status_open :
    (code : ℕ) (r : Response)
    → r.status ≡ none
    → is_informational code ≡ false
    → with_status code r ≡ record r { status = some code }
unfolding with_status
with_status_open code r n final = simp (with_status, n, final) refl

pub with_status_done : (code old : ℕ) (r : Response) → r.status ≡ some old → with_status code r ≡ r
unfolding with_status
with_status_done code old r n = simp (with_status, n) refl

pub with_status-body : (code : ℕ) (r : Response) → (with_status code r).body ≡ r.body
unfolding with_status
with_status-body code r = ground arith

pub with_status-headers : (code : ℕ) (r : Response) → (with_status code r).headers ≡ r.headers
unfolding with_status
with_status-headers code r = ground arith

-- The bytes of a Write are dropped where the status allows no body.
unfoldable pub perform : Write → Response → Response
unfolding with_status allows_body
perform (set_header name value) r = record r { headers = insert name value r.headers }
perform (write_header code) r = with_status code r
perform (write b) r =
    let r' = with_status 200 r in
    record r' { body = if allows_body r'.status then r'.body ++ b else r'.body }

unfoldable pub perform_all : List Write → Response → Response
perform_all [] r = r
perform_all (w ∷ ws) r = perform_all ws (perform w r)

-- responseCapture: what it has seen, and the writer behind it
pub record ResponseCapture : Type 0 where
  pub response : Response
  pub body : Text
  pub status_code : ℕ
  pub wrote_header : Bool

unfoldable pub capture_of : Response → ResponseCapture
capture_of r = record { response = r; body = []; status_code = 0; wrote_header = false }

unfoldable pub capture_write_header : ℕ → ResponseCapture → ResponseCapture
capture_write_header code c = elim c.wrote_header [
  | true ↦ c
  | false ↦ record c {
    status_code = code;
    wrote_header = true;
    response = perform (write_header code) c.response;
  }
]

unfoldable pub capture_write : Text → ResponseCapture → ResponseCapture
capture_write b c = elim c.wrote_header [
  | true ↦ record c { body = c.body ++ b; response = perform (write b) c.response }
  | false ↦ record c {
    status_code = 200;
    wrote_header = true;
    body = c.body ++ b;
    response = perform (write b) c.response;
  }
]

-- A capture shares the headers of the writer behind it.
unfoldable pub capture : Write → ResponseCapture → ResponseCapture
unfolding capture_write_header capture_write
capture (set_header name value) c = record c {
  response = perform (set_header name value) c.response;
}
capture (write_header code) c = capture_write_header code c
capture (write b) c = capture_write b c

unfoldable pub capture_all : List Write → ResponseCapture → ResponseCapture
capture_all [] c = c
capture_all (w ∷ ws) c = capture_all ws (capture w c)
