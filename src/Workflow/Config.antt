-- ===== src/Workflow/Config.antt =====
-- The steps of internal/workflow/config.go.
use sqlproxy.Params.{ParamConfig}
use sqlproxy.RateLimit.InlineKey.{RateLimitConfig}
use sqlproxy.Prelude.{
  ℕ, zero, suc, List, [], Text, codes, Bool, true, false, not, ◌&&◌, ◌||◌, Option, none, some,
  if◌then◌else◌, text_eq, Dict, ℤ,
}

pub record StepCacheConfig : Type 0 where
  pub key : Text
  pub ttl_sec : ℤ

pub record IterateConfig : Type 0 where
  pub over : Text
  pub as_name : Text
  pub on_error : Text

pub record RetryConfig : Type 0 where
  pub enabled : Bool
  pub max_attempts : ℤ
  pub initial_backoff_sec : ℤ
  pub max_backoff_sec : ℤ

-- A step; `Nested` is the type of the steps in a block, and `steps` is `none` for a nil slice.
pub record StepConfig (Nested : Type 0) : Type 0 where
  pub name : Text
  pub disabled : Bool
  pub condition : Text
  pub on_error : Text
  pub step_type : Text
  pub cache : Option StepCacheConfig
  pub params : Dict Text
  pub database : Text
  pub sql : Text
  pub isolation : Text
  pub lock_timeout_ms : Option ℤ
  pub deadlock_priority : Text
  pub json_columns : List Text
  pub url : Text
  pub http_method : Text
  pub headers : Dict Text
  pub body : Text
  pub parse : Text
  pub timeout_sec : ℤ
  pub retry : Option RetryConfig
  pub status_code : ℤ
  pub template : Text
  pub iterate : Option IterateConfig
  pub inputs : Dict Text
  pub steps : Option (List Nested)
  pub outputs : Dict Text

-- A step whose blocks are nested less than a depth.
abbrev pub StepTree : ℕ → Type 0
StepTree zero = ⊥
StepTree (suc depth) = StepConfig (StepTree depth)

-- The type of the steps in a block of such a step, and the step as its fields.
abbrev pub Below : ℕ → Type 0
Below zero = ⊥
Below (suc depth) = StepTree depth

abbrev pub config_of : (depth : ℕ) → StepTree depth → StepConfig (Below depth)
config_of zero s = absurd s
config_of (suc depth) s = s

pub record TriggerCacheConfig : Type 0 where
  pub enabled : Bool
  pub key : Text
  pub ttl_sec : ℤ
  pub max_size_mb : ℤ
  pub evict_cron : Text

pub record TriggerConfig : Type 0 where
  pub trigger_type : Text
  pub path : Text
  pub method : Text
  pub parameters : List ParamConfig
  pub rate_limit : List RateLimitConfig
  pub cache : Option TriggerCacheConfig
  pub schedule : Text
  pub params : Dict Text

pub record WorkflowConfig (depth : ℕ) : Type 0 where
  pub name : Text
  pub timeout_sec : ℤ
  pub conditions : Dict Text
  pub triggers : List TriggerConfig
  pub steps : List (StepTree depth)

abbrev pub type_query : Text
type_query = codes "query"

abbrev pub type_httpcall : Text
type_httpcall = codes "httpcall"

abbrev pub type_response : Text
type_response = codes "response"

abbrev pub type_block : Text
type_block = codes "block"

abbrev pub type_unknown : Text
type_unknown = codes "unknown"

abbrev pub filled : Text → Bool
filled s = not (text_eq s [])

module _ {Nested : Type 0} where
  unfoldable pub is_block : StepConfig Nested → Bool
  is_block s = elim s.steps [ none ↦ false | some _ ↦ true ]

  unfoldable pub is_query : StepConfig Nested → Bool
  is_query s = text_eq s.step_type type_query || text_eq s.step_type [] && filled s.sql

  unfoldable pub is_http_call : StepConfig Nested → Bool
  is_http_call s = text_eq s.step_type type_httpcall || text_eq s.step_type [] && filled s.url

  unfoldable pub is_response : StepConfig Nested → Bool
  is_response s = text_eq s.step_type type_response

  -- StepType
  unfoldable pub resolved_type : StepConfig Nested → Text
  unfolding is_block
  resolved_type s =
      if is_block s
      then type_block
      else if filled s.step_type
      then s.step_type
      else if filled s.sql
      then type_query
      else if filled s.url
      then type_httpcall
      else if filled s.template
      then type_response
      else type_unknown
