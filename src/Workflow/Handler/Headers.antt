-- ===== src/Workflow/Handler/Headers.antt =====
-- What internal/workflow/handler.go reads of the headers of a request, as ASCII text.
pub mod Sanitize
use sqlproxy.Prelude.{
  ℕ, zero, suc, ◌≡◌, List, [], ◌∷◌, Text, codes, Bool, true, false, not, ◌&&◌, ◌||◌, Option, none,
  some, leb, ltb, ◌==◌, if◌then◌else◌, text_eq, Dict, lookup, insert,
}
use sqlproxy.SqlUtil.Words.{trim_space}

-- r.Header.Get, r.Cookies(), r.RemoteAddr and the id that crypto/rand would give; the host of the
-- address, if net.SplitHostPort accepts it.
pub record HeaderRequest : Type 0 where
  pub header : Text → Text
  pub cookies : List (Text × Text)
  pub remote_addr : Text
  pub remote_host : Option Text
  pub random_id : Text

-- s[:n]
take : ℕ → Text → Text
take zero s = []
take (suc n) [] = []
take (suc n) (c ∷ s) = c ∷ take n s

unfoldable pub is_header_char : ℕ → Bool
is_header_char c = leb 32 c && not (c == 127)

-- the loop of sanitizeHeaderValue
keep_header_chars : Text → Text
keep_header_chars [] = []
keep_header_chars (c ∷ s) =
    let rest = keep_header_chars s in if is_header_char c then c ∷ rest else rest

pub sanitize_header_value : Text → Text
unfolding take
sanitize_header_value s = keep_header_chars (take 128 s)

unfoldable pub get_or_generate_request_id : HeaderRequest → Text
get_or_generate_request_id r =
    let id = r.header (codes "X-Request-ID") in
    let correlation = r.header (codes "X-Correlation-ID") in
    if not (text_eq id [])
    then sanitize_header_value id
    else if not (text_eq correlation [])
    then sanitize_header_value correlation
    else r.random_id

-- strings.Split(s, ",")[0]
before_comma : Text → Text
before_comma [] = []
before_comma (c ∷ s) = let rest = before_comma s in if c == b',' then [] else c ∷ rest

-- the host of RemoteAddr, or all of it
peer : HeaderRequest → Text
peer r = elim r.remote_host [ some host ↦ host | none ↦ r.remote_addr ]

pub resolve_client_ip : HeaderRequest → Bool → Text
unfolding before_comma peer
resolve_client_ip r trust =
    let forwarded = r.header (codes "X-Forwarded-For") in
    let real = r.header (codes "X-Real-IP") in
    if trust && not (text_eq forwarded [])
    then trim_space (before_comma forwarded)
    else if trust && not (text_eq real [])
    then trim_space real
    else peer r

-- the loop over the cookies
add_cookies : List (Text × Text) → Dict Text → Dict Text
add_cookies [] cookies = cookies
add_cookies ((name, value) ∷ cs) cookies =
    add_cookies cs
      (elim (lookup name cookies) [ none ↦ insert name value cookies | some _ ↦ cookies ])

pub parse_cookies : HeaderRequest → Dict Text
unfolding add_cookies
parse_cookies r = add_cookies r.cookies []

-- flattenHeaders and flattenQuery, on a map without repeated keys
pub flatten : Dict (List Text) → Dict Text
flatten [] = []
flatten ((k, []) ∷ m) = flatten m
flatten ((k, v ∷ vs) ∷ m) = (k, v) ∷ flatten m
