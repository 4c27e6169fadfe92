-- ===== src/Checks/Tests.antt =====
-- Configurations that internal/validate/validate.go accepts.
use sqlproxy.Prelude.{
  ℕ, ◌≡◌, refl, List, [], ◌∷◌, Text, codes, true, false, Option, none, ◌==◌, ◌-◌, ◌+◌,
  if◌then◌else◌, text_eq, has_prefix, ok, pos,
}
use sqlproxy.SqlUtil.Words.{contains_word}
use sqlproxy.RateLimit.InlineKey.{is_positive}
use sqlproxy.RateLimit.Buckets.{RateLibrary}
use sqlproxy.RateLimit.{new_limiter}
use sqlproxy.RateLimit.State.{RateLimitPoolConfig, Limiter}
use sqlproxy.Checks.{Report, add_messages, add_message, error_if}
use sqlproxy.Checks.Server.{
  ServerConfig, validate_server, validate_port, validate_default_timeout, validate_max_timeout,
  validate_cache, validate_debug, is_zero, is_negative, int_lt, int_eq,
}
use sqlproxy.Checks.Pools.{validate_rate_limits, validate_pools, validate_pool, validate_key}
use sqlproxy.Checks.Accepted.{validate_rate_limits-new_limiter}
use sqlproxy.Checks.Databases.{
  DatabaseConfig, AreDistinct, validate_database, validate_databases, validate_type,
  validate_sqlite, negative_ms, validate_database-AreDistinct,
}

abbrev empty_report : Report
empty_report = record { valid = true; errors = []; warnings = [] }

abbrev server : ServerConfig
server = record {
  port = pos 8080;
  host = codes "localhost";
  default_timeout_sec = pos 30;
  max_timeout_sec = pos 300;
  cache = none;
}

server_run : (add_messages (validate_server server) empty_report).valid ≡ true
unfolding add_messages add_message validate_server validate_port validate_default_timeout
    validate_max_timeout validate_cache is_zero is_negative int_lt error_if text_eq
server_run = refl

-- A debug port of its own, and one that is the server's.
debug_run :
    (validate_debug (record { enabled = true; port = pos 6060; host = codes "localhost" }) server
      ≡ [])
    × ((add_messages
          (validate_debug
            (record { enabled = true; port = pos 8080; host = codes "localhost" })
            server)
          empty_report).valid
        ≡ false)
unfolding add_messages add_message validate_debug is_zero is_negative int_lt int_eq error_if text_eq
debug_run = (refl, refl)

abbrev pools : List RateLimitPoolConfig
pools =
    record { name = codes "api"; requests_per_second = pos 5; burst = pos 10; key = codes "k" } ∷ []

-- a bucket is the number of its tokens
abbrev tokens : RateLibrary
tokens = record {
  Tokens = ℕ;
  new_limiter = λ rate burst. burst;
  reserve = λ n now. (n - 1, if n == 0 then 1000000000 else 0);
  cancel = λ n now. n + 1;
}

abbrev any_key : Text → Option Text
any_key k = none

pools_run : (add_messages (validate_rate_limits any_key pools) empty_report).valid ≡ true
unfolding add_messages add_message validate_rate_limits validate_pools validate_pool validate_key
    is_positive error_if contains_word has_prefix text_eq
pools_run = refl

validate_rate_limits-new_limiter_example :
    (l : Limiter tokens) × (new_limiter tokens (λ k. true) pools ≡ ok l)
validate_rate_limits-new_limiter_example =
    validate_rate_limits-new_limiter any_key tokens (λ k. true) (λ k h. refl) pools empty_report
      pools_run

abbrev databases : List DatabaseConfig
databases =
    record {
      name = codes "main";
      db_type = codes "sqlite";
      host = [];
      port = pos 0;
      user = [];
      password = [];
      database = [];
      path = codes "main.db";
      isolation = [];
      deadlock_priority = [];
      lock_timeout_ms = none;
      busy_timeout_ms = none;
      journal_mode = [];
    }
    ∷ []

databases_run : (add_messages (validate_database databases) empty_report).valid ≡ true
unfolding add_messages add_message validate_database validate_databases validate_type
    validate_sqlite negative_ms error_if contains_word text_eq
databases_run = refl

validate_database-AreDistinct_example : (¬ (databases ≡ [])) × AreDistinct [] databases
validate_database-AreDistinct_example =
    validate_database-AreDistinct databases empty_report databases_run
