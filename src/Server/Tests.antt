-- ===== src/Server/Tests.antt =====
-- Runs of the adapters of internal/server/server.go.
use sqlproxy.Prelude.{
  ◌≡◌, refl, arith, List, [], ◌∷◌, codes, true, false, Option, none, some, Dict, ok, pos,
}
use sqlproxy.Params.{Any}
use sqlproxy.Params.Tests.{whole}
use sqlproxy.RateLimit.InlineKey.{RateLimitConfig}
use sqlproxy.Server.{
  Verdict, Backends, retry_after_sec, check_trigger_limits, get_response, response_row,
  set_response,
}
use sqlproxy.Server.Adapters.{IsDenial, get_response-set_response, check_trigger_limits-IsDenial}

abbrev denial : Verdict
denial = record { allowed = false; retry_after = 2000000000; denying_pool = codes "api" }

-- The cache holds one entry, whatever its key, and the limiter denies every request.
abbrev backends : Backends whole
backends = record {
  World = Option (List (Dict (Any whole)));
  Context = Unit;
  has_limiter = true;
  has_cache = true;
  allow = λ limits ctx w. (w, ok denial);
  record_allowed = λ pool w. w;
  record_denied = λ pool w. w;
  record_cache_miss = λ workflow_name w. w;
  cache_get = λ workflow_name key w. (w, w);
  cache_set = λ workflow_name key rows ttl w. (some rows, true);
  float_of = λ n. pos n;
}

get_response-set_response_example :
    let rows = response_row backends (codes "{}") 200 ∷ [] in
    (set_response backends (codes "w") (codes "k") (codes "{}") 200 (pos 60) none
      ≡ (some rows, true))
    × (get_response backends (codes "w") (codes "k") (some rows)
        ≡ (some rows, some (codes "{}", pos 200)))
get_response-set_response_example =
    get_response-set_response backends refl (λ n h. refl) (codes "w") (codes "k") (codes "{}") 200
      (pos 60) none (some (response_row backends (codes "{}") 200 ∷ [])) (omega arith) refl

abbrev limit : RateLimitConfig
limit = record { pool = codes "api"; requests_per_second = pos 0; burst = pos 0; key = [] }

denied_run : (check_trigger_limits backends (limit ∷ []) tt none).1 ≡ ok (false, 2)
unfolding check_trigger_limits retry_after_sec
denied_run = refl

check_trigger_limits-IsDenial_example : IsDenial backends (ok denial) 2
check_trigger_limits-IsDenial_example =
    check_trigger_limits-IsDenial backends (limit ∷ []) tt none 2 denied_run
