-- ===== src/Checks/Server.antt =====
-- validateServer, validateLogging and validateDebug of internal/validate/validate.go.
use sqlproxy.Prelude.{
  List, [], ◌∷◌, ◌++◌, Text, codes, Bool, true, false, not, ◌&&◌, ◌||◌, Option, none, some, ltb,
  ◌==◌, if◌then◌else◌, text_eq, ℤ, pos, negsuc,
}
use sqlproxy.Params.Texts.{to_lower}
use sqlproxy.RateLimit.InlineKey.{decimal}
use sqlproxy.SqlUtil.Words.{contains_word}
use sqlproxy.Checks.{Message, error_if}

-- CacheConfig, ServerConfig, LoggingConfig and DebugConfig, as far as they are checked
pub record CacheConfig : Type 0 where
  pub enabled : Bool
  pub max_size_mb : ℤ
  pub default_ttl_sec : ℤ

pub record ServerConfig : Type 0 where
  pub port : ℤ
  pub host : Text
  pub default_timeout_sec : ℤ
  pub max_timeout_sec : ℤ
  pub cache : Option CacheConfig

pub record LoggingConfig : Type 0 where
  pub level : Text
  pub max_size_mb : ℤ
  pub max_backups : ℤ
  pub max_age_days : ℤ

pub record DebugConfig : Type 0 where
  pub enabled : Bool
  pub port : ℤ
  pub host : Text

unfoldable pub is_zero : ℤ → Bool
is_zero (pos n) = n == 0
is_zero (negsuc n) = false

unfoldable pub is_negative : ℤ → Bool
is_negative (pos n) = false
is_negative (negsuc n) = true

unfoldable pub int_lt : ℤ → ℤ → Bool
int_lt (pos m) (pos n) = ltb m n
int_lt (pos m) (negsuc n) = false
int_lt (negsuc m) (pos n) = true
int_lt (negsuc m) (negsuc n) = ltb n m

unfoldable pub validate_cache : Option CacheConfig → List Message
unfolding error_if is_negative
validate_cache none = []
validate_cache (some c) =
    if c.enabled
    then error_if (is_negative c.max_size_mb) (codes "server.cache.max_size_mb cannot be negative")
      ++ error_if (is_negative c.default_ttl_sec)
          (codes "server.cache.default_ttl_sec cannot be negative")
    else []

unfoldable pub validate_port : ℤ → List Message
unfolding error_if is_zero is_negative int_lt
validate_port port =
    if is_zero port
    then error_if true (codes "server.port is required")
    else error_if (is_negative port || int_lt (pos 65535) port)
        (codes "server.port must be 1-65535, got: " ++ decimal port [])

unfoldable pub validate_default_timeout : ℤ → List Message
unfolding error_if is_zero int_lt
validate_default_timeout t =
    if is_zero t
    then error_if true (codes "server.default_timeout_sec is required")
    else error_if (int_lt t (pos 1)) (codes "server.default_timeout_sec must be at least 1 second")

unfoldable pub validate_max_timeout : ℤ → ℤ → List Message
unfolding error_if is_zero int_lt
validate_max_timeout max default =
    if is_zero max
    then error_if true (codes "server.max_timeout_sec is required")
    else error_if (int_lt max default) (
        codes "server.max_timeout_sec ("
        ++ decimal max []
        ++ codes ") must be >= server.default_timeout_sec ("
        ++ decimal default []
        ++ codes ")")

unfoldable pub validate_server : ServerConfig → List Message
unfolding validate_cache validate_port validate_default_timeout validate_max_timeout
validate_server c =
    error_if (text_eq c.host []) (codes "server.host is required")
    ++ (validate_port c.port
        ++ (validate_default_timeout c.default_timeout_sec
            ++ (validate_max_timeout c.max_timeout_sec c.default_timeout_sec
                ++ validate_cache c.cache)))

-- a setting of the log that has to be there
unfoldable pub required_positive : ℤ → Text → List Message
unfolding error_if is_zero is_negative
required_positive n name =
    if is_zero n
    then error_if true (name ++ codes " is required")
    else error_if (is_negative n) (name ++ codes " cannot be negative")

abbrev pub valid_levels : List Text
valid_levels = codes "debug" ∷ codes "info" ∷ codes "warn" ∷ codes "error" ∷ []

unfoldable pub validate_logging : LoggingConfig → List Message
unfolding required_positive error_if
validate_logging c =
    (if text_eq c.level []
      then error_if true (codes "logging.level is required")
      else error_if (not (contains_word valid_levels (to_lower c.level)))
          (codes "logging.level must be debug, info, warn, or error, got: " ++ c.level))
    ++ (required_positive c.max_size_mb (codes "logging.max_size_mb")
        ++ (required_positive c.max_backups (codes "logging.max_backups")
            ++ required_positive c.max_age_days (codes "logging.max_age_days")))

unfoldable pub int_eq : ℤ → ℤ → Bool
int_eq (pos m) (pos n) = m == n
int_eq (negsuc m) (negsuc n) = m == n
int_eq (pos m) (negsuc n) = false
int_eq (negsuc m) (pos n) = false

unfoldable pub validate_debug : DebugConfig → ServerConfig → List Message
unfolding is_zero is_negative int_lt int_eq error_if
validate_debug d s =
    if not d.enabled
    then []
    else error_if (is_negative d.port || int_lt (pos 65535) d.port)
        (codes "debug.port must be 0-65535, got: " ++ decimal d.port [])
      ++ error_if (not (text_eq d.host []) && (is_zero d.port || int_eq d.port s.port)) (
          codes
            "debug.host cannot be set when debug endpoints share the main server port (debug.port is 0 or same as server.port); debug.host only applies when using a separate debug port")
