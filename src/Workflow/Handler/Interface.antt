-- ===== src/Workflow/Handler/Interface.antt =====
-- The types of internal/workflow/handler.go, and what the handler calls of the limiter, the cache
-- and the executor.
use sqlproxy.Prelude.{ℕ, List, Text, Bool, Option, Dict, Result, ℤ}
use sqlproxy.Params.Values.{ValueLibrary}
use sqlproxy.Params.{ParamConfig, Any}
use sqlproxy.Workflow.Handler.Parameters.{FormRequest, Error}
use sqlproxy.Workflow.Handler.Headers.{HeaderRequest}
use sqlproxy.Workflow.Handler.Writer.{Write}

pub record HttpRequest (lib : ValueLibrary) : Type 0 where
  pub method : Text
  pub url_path : Text
  pub header_request : HeaderRequest
  pub header_map : Dict (List Text)
  pub query_map : Dict (List Text)
  pub form : FormRequest lib

-- tmpl.RateLimitData
pub record RateLimitContext (lib : ValueLibrary) : Type 0 where
  pub client_ip : Text
  pub params : Dict (Any lib)
  pub headers : Dict Text
  pub query : Dict Text
  pub cookies : Dict Text

pub record TriggerData (lib : ValueLibrary) : Type 0 where
  pub trigger_type : Text
  pub params : Dict (Any lib)
  pub headers : Dict (List Text)
  pub cookies : Dict Text
  pub client_ip : Text
  pub method : Text
  pub path : Text

-- The data of a template for the key of the cache: the namespace `trigger`, and RequestID.
pub record KeyData (lib : ValueLibrary) : Type 0 where
  pub params : Dict (Any lib)
  pub client_ip : Text
  pub method : Text
  pub path : Text
  pub headers : Dict Text
  pub query : Dict Text
  pub cookies : Dict Text
  pub request_id : Text

-- httpResponse, with no data, and rateLimitResponse
pub data Message : Type 0 where
  http_response : Bool → Text → Text → Message
  rate_limit_response : Text → Text → ℤ → Message

-- What ServeHTTP reads of an ExecuteResult, with the calls of the writer that the steps made.
pub record Execution : Type 0 where
  pub error : Option Text
  pub response_sent : Bool
  pub writes : List Write

-- The interfaces that the handler is given, over a state of the world: the RateLimiter (allowed, and
-- the seconds to wait), the TriggerCache and the executor; the cache's template, the texts of
-- errors, and encoding/json with its newline.
pub record Services (lib : ValueLibrary) : Type 1 where
  pub World : Type 0
  pub Limit : Type 0
  pub Template : Type 0
  pub check_trigger_limits :
      List Limit → RateLimitContext lib → World → World × Result Text (Bool × ℤ)
  pub cache_get : Text → Text → World → World × Option (Text × ℕ)
  pub cache_set : Text → Text → Text → ℕ → ℤ → World → World
  pub execute : TriggerData lib → Text → World → World × Execution
  pub execute_template : Template → KeyData lib → Result Text Text
  pub describe : Error → Text
  pub encode : Message → Text

-- HttpHandler, with the configuration of its trigger and the name of its workflow. The seconds of
-- a configured cache are `ttl_sec`.
pub record HttpHandler {lib : ValueLibrary} (s : Services lib) : Type 0 where
  pub workflow_name : Text
  pub method : Text
  pub path : Text
  pub parameters : List ParamConfig
  pub limits : List s.Limit
  pub cache_key : Option s.Template
  pub ttl_sec : Option ℤ
  pub has_limiter : Bool
  pub has_cache : Bool
  pub trust_proxy_headers : Bool
  pub version : Text
  pub build_time : Text

-- what the lookup in the trigger's cache says
pub data Lookup : Type 0 where
  disabled : Lookup
  hit : Text → ℕ → Lookup
  miss : Text → Lookup
