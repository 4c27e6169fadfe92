-- ===== src/Workflow/HttpCall/Library.antt =====
-- What internal/workflow/execute_httpcall.go uses of net/http, encoding/json, net/url,
-- text/template and the clock.
use sqlproxy.Prelude.{ℕ, List, Text, Bool, Option, Dict, Result}

pub record Request : Type 0 where
  pub method : Text
  pub url : Text
  pub headers : Dict Text
  pub body : Option Text

pub record Response (Body : Type 0) : Type 0 where
  pub status_code : ℕ
  pub headers : Dict (List Text)
  pub body : Body

-- The cases of a decoded JSON value that the code tells apart.
pub data Kind (Value : Type 0) : Type 0 where
  array : List Value → Kind Value
  object : Dict Value → Kind Value
  other : Kind Value

-- `World` is the network and the clock. Templates are executed on the data of the step. The Bool of
-- `read_all` says whether the body has been closed before.
pub record HttpLibrary : Type 1 where
  pub World : Type 0
  pub Template : Type 0
  pub Body : Type 0
  pub Value : Type 0
  pub execute : Template → Result Text Text
  pub invalid_request : Text → Text → Option Text
  pub canonical : Text → Text
  pub with_timeout : ℕ → World → World
  pub send : Request → World → World × Result Text (Response Body)
  pub wait : ℕ → World → World × Option Text
  pub read_all : Bool → Body → Result Text Text
  pub unmarshal : Text → Result Text Value
  pub kind : Value → Kind Value
  pub parse_query : Text → Result Text (Dict (List Text))
  pub string : Text → Value
  pub strings : List Text → Value
