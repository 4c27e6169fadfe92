-- ===== src/Metrics/Tests.antt =====
-- Runs of internal/metrics/metrics.go.
use sqlproxy.Prelude.{
  ℕ, ◌≡◌, refl, arith, List, [], ◌∷◌, Text, codes, false, some, text_eq, lookup, insert,
}
use sqlproxy.Metrics.{
  RequestMetrics, EndpointData, FloatLibrary, new_collector, record_request, record_requests,
  record_endpoint, get_or_create_endpoint, get_snapshot,
}
use sqlproxy.Metrics.Balance.{
  IsBounded, Member, IsBalanced, record_requests-IsBounded, get_snapshot-IsBalanced,
}

abbrev request : Text → Text → ℕ → RequestMetrics
request error error_type duration = record {
  endpoint = codes "/a";
  query_name = codes "a";
  database = [];
  method = codes "GET";
  total_duration = duration;
  query_duration = 0;
  row_count = 1;
  status_code = 200;
  error = error;
  error_type = error_type;
  cache_hit = false;
}

abbrev two_requests : List RequestMetrics
two_requests = request [] [] 500 ∷ request (codes "failed") [] 700 ∷ []

abbrev seen : EndpointData
seen = record {
  query_name = codes "a";
  request_count = 2;
  error_count = 1;
  timeout_count = 0;
  total_rows = 2;
  total_duration = 12;
  total_query = 0;
  max_duration = 7;
  min_duration = 5;
}

two_requests_run :
    lookup (codes "/a") (record_requests two_requests new_collector).endpoints ≡ some seen
unfolding record_requests record_request record_endpoint get_or_create_endpoint lookup insert
    text_eq
two_requests_run = refl

record_requests-IsBounded_example :
    IsBounded (λ m. Member m two_requests × (m.endpoint ≡ codes "/a")) seen
record_requests-IsBounded_example =
    record_requests-IsBounded two_requests (codes "/a") seen (omega arith, (omega arith, tt))
      two_requests_run

-- Numbers as they are.
abbrev naturals : FloatLibrary
naturals = record {
  Float = ℕ;
  zero_float = 0;
  of_natural = λ n. n;
  unit_to_ms = 1;
  times = λ m n. m;
  divided_by = λ m n. m;
}

get_snapshot-IsBalanced_example :
    IsBalanced naturals 2 (get_snapshot naturals (record_requests two_requests new_collector))
get_snapshot-IsBalanced_example = get_snapshot-IsBalanced naturals two_requests
