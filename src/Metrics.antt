-- ===== src/Metrics.antt =====
-- internal/metrics/metrics.go: the counters of requests and their snapshot.
pub mod Balance
mod Tests
use sqlproxy.Prelude.{
  ℕ, ◌+◌, ◌*◌, ◌-◌, ◌/◌, ◌^◌, List, [], ◌∷◌, ◌++◌, Text, codes, Bool, true, false, ◌&&◌, ◌||◌, not,
  Option, none, some, ◌≤◌, ◌<◌, leb, ltb, ◌==◌, if◌then◌else◌, text_eq, Dict, lookup, insert,
}

-- RequestMetrics, with durations in nanoseconds
pub record RequestMetrics : Type 0 where
  pub endpoint : Text
  pub query_name : Text
  pub database : Text
  pub method : Text
  pub total_duration : ℕ
  pub query_duration : ℕ
  pub row_count : ℕ
  pub status_code : ℕ
  pub error : Text
  pub error_type : Text
  pub cache_hit : Bool

-- endpointData, with durations in units of 100 nanoseconds
pub record EndpointData : Type 0 where
  pub query_name : Text
  pub request_count : ℕ
  pub error_count : ℕ
  pub timeout_count : ℕ
  pub total_rows : ℕ
  pub total_duration : ℕ
  pub total_query : ℕ
  pub max_duration : ℕ
  pub min_duration : ℕ

-- The calls of the Prometheus client.
pub data Observation : Type 0 where
  request_counted : Text → Text → Text → Observation
  duration_observed : Text → ℕ → Observation
  query_duration_observed : Text → Text → ℕ → Observation
  rows_added : Text → ℕ → Observation
  error_counted : Text → Text → Observation
  cache_hit_counted cache_miss_counted allowed_counted denied_counted cron_panic_counted :
      Text → Observation

-- the Collector, with the calls that it made
pub record Collector : Type 0 where
  pub total_requests : ℕ
  pub total_errors : ℕ
  pub total_timeouts : ℕ
  pub endpoints : Dict EndpointData
  pub observations : List Observation

abbrev pub duration_unit : ℕ
duration_unit = 100

-- 1<<63 - 1
abbrev pub max_int64 : ℕ
max_int64 = 2 ^ 63 - 1

abbrev pub new_endpoint_data : Text → EndpointData
new_endpoint_data query_name = record {
  query_name = query_name;
  request_count = 0;
  error_count = 0;
  timeout_count = 0;
  total_rows = 0;
  total_duration = 0;
  total_query = 0;
  max_duration = 0;
  min_duration = max_int64;
}

-- statusCodeString
unfoldable pub status_code_string : ℕ → Text
status_code_string code =
    if code == 200
    then codes "200"
    else if code == 400
    then codes "400"
    else if code == 404
    then codes "404"
    else if code == 405
    then codes "405"
    else if code == 429
    then codes "429"
    else if code == 500
    then codes "500"
    else if code == 504
    then codes "504"
    else if leb 200 code && ltb code 300
    then codes "2xx"
    else if leb 400 code && ltb code 500
    then codes "4xx"
    else if leb 500 code
    then codes "5xx"
    else codes "other"

-- getOrCreateEndpoint, without the store
unfoldable pub get_or_create_endpoint : Text → Text → Collector → EndpointData
get_or_create_endpoint endpoint query_name c = elim (lookup endpoint c.endpoints) [
  | some ep ↦ ep
  | none ↦ new_endpoint_data query_name
]

abbrev pub is_error : RequestMetrics → ℕ
is_error m = if text_eq m.error [] then 0 else 1

abbrev pub is_timeout : RequestMetrics → ℕ
is_timeout m = if m.status_code == 504 then 1 else 0

unfoldable pub record_endpoint : RequestMetrics → EndpointData → EndpointData
record_endpoint m ep =
    let units = m.total_duration / duration_unit in
    record {
      query_name = ep.query_name;
      request_count = ep.request_count + 1;
      error_count = ep.error_count + is_error m;
      timeout_count = ep.timeout_count + is_timeout m;
      total_rows = ep.total_rows + m.row_count;
      total_duration = ep.total_duration + units;
      total_query = ep.total_query + m.query_duration / duration_unit;
      max_duration = if leb units ep.max_duration then ep.max_duration else units;
      min_duration = if leb ep.min_duration units then ep.min_duration else units;
    }

-- the calls of the Prometheus client for a request
unfoldable pub observe : RequestMetrics → List Observation
unfolding status_code_string
observe m =
    (request_counted m.endpoint m.method (status_code_string m.status_code)
      ∷ duration_observed m.endpoint m.total_duration
      ∷ [])
    ++ ((if text_eq m.database []
          then []
          else query_duration_observed m.endpoint m.database m.query_duration ∷ [])
        ++ ((rows_added m.endpoint m.row_count ∷ [])
            ++ ((if not (text_eq m.error_type [])
                  then error_counted m.endpoint m.error_type ∷ []
                  else if not (text_eq m.error [])
                  then error_counted m.endpoint (codes "unknown") ∷ []
                  else [])
                ++ (if m.cache_hit then cache_hit_counted m.endpoint ∷ [] else []))))

-- Record, for a collector that is there
unfoldable pub record_request : RequestMetrics → Collector → Collector
unfolding get_or_create_endpoint record_endpoint observe
record_request m c = record {
  total_requests = c.total_requests + 1;
  total_errors = c.total_errors + is_error m;
  total_timeouts = c.total_timeouts + is_timeout m;
  endpoints =
      insert m.endpoint (record_endpoint m (get_or_create_endpoint m.endpoint m.query_name c))
        c.endpoints;
  observations = c.observations ++ observe m;
}

unfoldable pub record_requests : List RequestMetrics → Collector → Collector
unfolding record_request
record_requests [] c = c
record_requests (m ∷ ms) c = record_requests ms (record_request m c)

abbrev pub new_collector : Collector
new_collector = record {
  total_requests = 0;
  total_errors = 0;
  total_timeouts = 0;
  endpoints = [];
  observations = [];
}

-- float64
pub record FloatLibrary : Type 1 where
  pub Float : Type 0
  pub zero_float : Float
  pub of_natural : ℕ → Float
  pub unit_to_ms : Float
  pub times : Float → Float → Float
  pub divided_by : Float → Float → Float

module _ (fl : FloatLibrary) where
  pub record EndpointStats : Type 0 where
    pub endpoint : Text
    pub query_name : Text
    pub request_count : ℕ
    pub error_count : ℕ
    pub timeout_count : ℕ
    pub total_rows : ℕ
    pub avg_duration_ms : fl.Float
    pub max_duration_ms : fl.Float
    pub min_duration_ms : fl.Float
    pub avg_query_ms : fl.Float

  -- the counters of a Snapshot
  pub record Snapshot : Type 0 where
    pub total_requests : ℕ
    pub total_errors : ℕ
    pub total_timeouts : ℕ
    pub endpoints : Dict EndpointStats

  abbrev pub in_ms : ℕ → fl.Float
  in_ms n = fl.times (fl.of_natural n) fl.unit_to_ms

  unfoldable pub average : ℕ → ℕ → fl.Float
  average sum count =
      if ltb 0 count then fl.divided_by (in_ms sum) (fl.of_natural count) else fl.zero_float

  unfoldable pub stats_of : Text → EndpointData → EndpointStats
  unfolding average
  stats_of endpoint ep = record {
    endpoint = endpoint;
    query_name = ep.query_name;
    request_count = ep.request_count;
    error_count = ep.error_count;
    timeout_count = ep.timeout_count;
    total_rows = ep.total_rows;
    avg_duration_ms = average ep.total_duration ep.request_count;
    max_duration_ms = in_ms ep.max_duration;
    min_duration_ms =
        if ep.request_count == 0 || ep.min_duration == max_int64
        then fl.zero_float
        else in_ms ep.min_duration;
    avg_query_ms = average ep.total_query ep.request_count;
  }

  unfoldable pub stats_of_all : Dict EndpointData → Dict EndpointStats
  unfolding stats_of
  stats_of_all [] = []
  stats_of_all ((endpoint, ep) ∷ m) = (endpoint, stats_of endpoint ep) ∷ stats_of_all m

  unfoldable pub get_snapshot : Collector → Snapshot
  unfolding stats_of_all
  get_snapshot c = record {
    total_requests = c.total_requests;
    total_errors = c.total_errors;
    total_timeouts = c.total_timeouts;
    endpoints = stats_of_all c.endpoints;
  }
