-- ===== src/Metrics/Balance.antt =====
-- The counters of internal/metrics/metrics.go agree with the requests recorded.
use sqlproxy.Prelude.{
  ℕ, leb, ◌⊎◌, text_eq_iff, ◌+◌, ◌*◌, ◌/◌, ◌^◌, ◌≤◌, ◌<◌, ◌≡◌, refl, sym, ◌∙◌, inl, inr, arith,
  List, [], ◌∷◌, Text, some, some-injective, Option-cases, Bool-cases, All, length, text_eq, Dict,
  lookup, lookup-insert, total, total-insert, of_option,
}
use mathlib.Core.Path.{subst}
use native.Mathlib.Nat.{mul-le-mul_right}
use sqlproxy.Metrics.{
  RequestMetrics, EndpointData, Collector, duration_unit, new_endpoint_data, new_collector,
  is_error, is_timeout, get_or_create_endpoint, record_endpoint, record_request, record_requests,
  FloatLibrary, Snapshot, EndpointStats, stats_of, stats_of_all, get_snapshot,
}

-- units of a request's duration
abbrev pub units_of : RequestMetrics → ℕ
units_of m = m.total_duration / duration_unit

-- The durations of an endpoint that counts requests lie between its bounds, and so does their mean;
-- each bound is the duration of a request with P.
pub record IsBounded (P : RequestMetrics → Type 0) (ep : EndpointData) : Type 0 where
  pub counted : 1 ≤ ep.request_count
  pub errors : ep.error_count ≤ ep.request_count
  pub timeouts : ep.timeout_count ≤ ep.request_count
  pub low : ep.min_duration * ep.request_count ≤ ep.total_duration
  pub high : ep.total_duration ≤ ep.max_duration * ep.request_count
  pub shortest : (m : RequestMetrics) × P m × (units_of m ≡ ep.min_duration)
  pub longest : (m : RequestMetrics) × P m × (units_of m ≡ ep.max_duration)

abbrev pub IsInt64 : RequestMetrics → Type 0
IsInt64 m = m.total_duration < 2 ^ 63

abbrev pub Member : RequestMetrics → List RequestMetrics → Type 0
Member m [] = ⊥
Member m (r ∷ rs) = (m ≡ r) ⊎ Member m rs

low_step :
    (low low' unit sum count : ℕ)
    → low * count ≤ sum
    → low' ≤ low
    → low' ≤ unit
    → low' * (count + 1) ≤ sum + unit
low_step low low' unit sum count h l u =
    let less : low' * count ≤ low * count = mul-le-mul_right count l in omega arith

high_step :
    (high high' unit sum count : ℕ)
    → sum ≤ high * count
    → high ≤ high'
    → unit ≤ high'
    → sum + unit ≤ high' * (count + 1)
high_step high high' unit sum count h l u =
    let more : high * count ≤ high' * count = mul-le-mul_right count l in omega arith

record_new-IsBounded :
    (P : RequestMetrics → Type 0) (m : RequestMetrics) (query_name : Text)
    → IsInt64 m
    → P m
    → IsBounded P (record_endpoint m (new_endpoint_data query_name))
unfolding record_endpoint
record_new-IsBounded P m q h here = record {
  counted = ground arith;
  errors = ground arith;
  timeouts = ground arith;
  low = ground arith;
  high = ground arith;
  shortest = (m, here, ground arith);
  longest = (m, here, ground arith);
}

record_endpoint-IsBounded :
    (P : RequestMetrics → Type 0) (m : RequestMetrics) (ep : EndpointData)
    → P m
    → IsBounded P ep
    → IsBounded P (record_endpoint m ep)
unfolding record_endpoint
record_endpoint-IsBounded P m ep here b = record {
  counted = ground arith;
  errors = ground (arith, b.errors);
  timeouts = ground (arith, b.timeouts);
  low =
      low_step ep.min_duration _ (units_of m) ep.total_duration ep.request_count b.low
        (ground arith) (ground arith);
  high =
      high_step ep.max_duration _ (units_of m) ep.total_duration ep.request_count b.high
        (ground arith) (ground arith);
  shortest = elim (Bool-cases (leb ep.min_duration (units_of m))) [
    | inl e ↦ let (r, p, q) = b.shortest in (r, p, rw e q)
    | inr e ↦ (m, here, rw e refl)
  ];
  longest = elim (Bool-cases (leb (units_of m) ep.max_duration)) [
    | inl e ↦ let (r, p, q) = b.longest in (r, p, rw e q)
    | inr e ↦ (m, here, rw e refl)
  ];
}

module _ (Q : RequestMetrics → Type 0) where
  -- the requests with Q at an endpoint
  abbrev At : Text → RequestMetrics → Type 0
  At e m = Q m × (m.endpoint ≡ e)

  AllBounded : Collector → Type 0
  AllBounded c =
      (e : Text) (ep : EndpointData) → lookup e c.endpoints ≡ some ep → IsBounded (At e) ep

  get_or_create-IsBounded :
      (m : RequestMetrics) (c : Collector)
      → IsInt64 m
      → Q m
      → AllBounded c
      → IsBounded
          (At m.endpoint)
          (record_endpoint m (get_or_create_endpoint m.endpoint m.query_name c))
  unfolding get_or_create_endpoint AllBounded
  get_or_create-IsBounded m c h here b = elim (Option-cases (lookup m.endpoint c.endpoints)) [
    | inl e ↦
        simp (get_or_create_endpoint, e)
          (record_new-IsBounded (At m.endpoint) m m.query_name h (here, refl))
    | inr (ep, e) ↦
        simp (get_or_create_endpoint, e)
          (record_endpoint-IsBounded (At m.endpoint) m ep (here, refl) (b m.endpoint ep e))
  ]

  record_request-AllBounded :
      (m : RequestMetrics) (c : Collector)
      → IsInt64 m
      → Q m
      → AllBounded c
      → AllBounded (record_request m c)
  unfolding record_request AllBounded
  record_request-AllBounded m c h here b e ep p =
      let new = record_endpoint m (get_or_create_endpoint m.endpoint m.query_name c) in
      let found = sym (lookup-insert m.endpoint e new c.endpoints) ∙ p in
      elim (Bool-cases (text_eq m.endpoint e)) [
        | inl q ↦
            let same : some new ≡ some ep = rw q at found in
            subst (λ k. IsBounded (At k) ep) ((text_eq_iff m.endpoint e).0 q)
              (subst (IsBounded (At m.endpoint)) (some-injective same)
                (get_or_create-IsBounded m c h here b))
        | inr q ↦ b e ep (rw q at found)
      ]

  record_requests-AllBounded :
      (ms : List RequestMetrics) (c : Collector)
      → All (λ m. IsInt64 m × Q m) ms
      → AllBounded c
      → AllBounded (record_requests ms c)
  unfolding record_requests
  record_requests-AllBounded [] c h b = b
  record_requests-AllBounded (m ∷ ms) c ((h, here), hs) b =
      record_requests-AllBounded ms (record_request m c) hs (record_request-AllBounded m c h here b)

All-Member :
    (ms all : List RequestMetrics)
    → ((m : RequestMetrics) → Member m ms → Member m all)
    → All IsInt64 ms
    → All (λ m. IsInt64 m × Member m all) ms
All-Member [] all f h = tt
All-Member (m ∷ ms) all f (h, hs) = ((h, f m (inl refl)), All-Member ms all (λ r k. f r (inr k)) hs)

-- After requests of less than 2^63 nanoseconds each are recorded by a new collector, each endpoint
-- has at least one request, no more errors or timeouts than requests, a minimum and a maximum that
-- are durations of requests recorded at that endpoint, and a total duration between its requests
-- times its minimum and its requests times its maximum.
pub record_requests-IsBounded :
    (ms : List RequestMetrics) (e : Text) (ep : EndpointData)
    → All IsInt64 ms
    → lookup e (record_requests ms new_collector).endpoints ≡ some ep
    → IsBounded (λ m. Member m ms × (m.endpoint ≡ e)) ep
unfolding AllBounded lookup
record_requests-IsBounded ms e ep h p =
    record_requests-AllBounded (λ m. Member m ms) ms new_collector (All-Member ms ms (λ m k. k) h)
      (λ k x q. absurd (cc (q))) e ep p

-- a counter of the endpoints, its total and what a request adds to it
record Counter : Type 0 where
  of_endpoint : EndpointData → ℕ
  of_collector : Collector → ℕ
  of_request : RequestMetrics → ℕ
  fresh : (query_name : Text) → of_endpoint (new_endpoint_data query_name) ≡ 0
  endpoint_step :
      (m : RequestMetrics) (ep : EndpointData)
      → of_endpoint (record_endpoint m ep) ≡ of_endpoint ep + of_request m
  collector_step :
      (m : RequestMetrics) (c : Collector)
      → of_collector (record_request m c) ≡ of_collector c + of_request m

requests : Counter
unfolding record_endpoint record_request
requests = record {
  of_endpoint = λ (ep : EndpointData). ep.request_count;
  of_collector = λ (c : Collector). c.total_requests;
  of_request = λ m. 1;
  fresh = λ q. refl;
  endpoint_step = λ m ep. refl;
  collector_step = λ m c. refl;
}

errors : Counter
unfolding record_endpoint record_request
errors = record {
  of_endpoint = λ (ep : EndpointData). ep.error_count;
  of_collector = λ (c : Collector). c.total_errors;
  of_request = λ m. is_error m;
  fresh = λ q. refl;
  endpoint_step = λ m ep. refl;
  collector_step = λ m c. refl;
}

timeouts : Counter
unfolding record_endpoint record_request
timeouts = record {
  of_endpoint = λ (ep : EndpointData). ep.timeout_count;
  of_collector = λ (c : Collector). c.total_timeouts;
  of_request = λ m. is_timeout m;
  fresh = λ q. refl;
  endpoint_step = λ m ep. refl;
  collector_step = λ m c. refl;
}

module _ (k : Counter) where
  get_or_create_counted :
      (m : RequestMetrics) (c : Collector)
      → k.of_endpoint (get_or_create_endpoint m.endpoint m.query_name c)
        ≡ of_option k.of_endpoint (lookup m.endpoint c.endpoints)
  unfolding get_or_create_endpoint
  get_or_create_counted m c = elim (Option-cases (lookup m.endpoint c.endpoints)) [
    | inl e ↦ simp (get_or_create_endpoint, e) (k.fresh m.query_name)
    | inr (ep, e) ↦ simp (get_or_create_endpoint, e) refl
  ]

  record_request_counted :
      (m : RequestMetrics) (c : Collector)
      → total k.of_endpoint c.endpoints ≡ k.of_collector c
      → total k.of_endpoint (record_request m c).endpoints ≡ k.of_collector (record_request m c)
  unfolding record_request
  record_request_counted m c h =
      let old = get_or_create_endpoint m.endpoint m.query_name c in
      let inserted = total-insert k.of_endpoint m.endpoint (record_endpoint m old) c.endpoints in
      let stepped = k.endpoint_step m old in
      let counted = get_or_create_counted m c in
      let held = k.collector_step m c in omega (arith, held, inserted, stepped, counted, h)

  record_requests_counted :
      (ms : List RequestMetrics) (c : Collector)
      → total k.of_endpoint c.endpoints ≡ k.of_collector c
      → total k.of_endpoint (record_requests ms c).endpoints ≡ k.of_collector (record_requests ms c)
  unfolding record_requests
  record_requests_counted [] c h = h
  record_requests_counted (m ∷ ms) c h =
      record_requests_counted ms (record_request m c) (record_request_counted m c h)

total_requests_counted :
    (ms : List RequestMetrics) (c : Collector)
    → (record_requests ms c).total_requests ≡ length ms + c.total_requests
unfolding record_requests record_request
total_requests_counted [] c = omega arith
total_requests_counted (m ∷ ms) c = omega (arith, total_requests_counted ms (record_request m c))

module _ (fl : FloatLibrary) where
  -- The endpoints of a snapshot add up to its totals, and the requests are those recorded.
  pub record IsBalanced (n : ℕ) (s : Snapshot fl) : Type 0 where
    pub recorded : s.total_requests ≡ n
    pub request_sum :
        total (λ (e : EndpointStats fl). e.request_count) s.endpoints ≡ s.total_requests
    pub error_sum : total (λ (e : EndpointStats fl). e.error_count) s.endpoints ≡ s.total_errors
    pub timeout_sum :
        total (λ (e : EndpointStats fl). e.timeout_count) s.endpoints ≡ s.total_timeouts

  total-stats_of_all :
      (f : EndpointStats fl → ℕ) (g : EndpointData → ℕ)
      → ((e : Text) (ep : EndpointData) → f (stats_of fl e ep) ≡ g ep)
      → (m : Dict EndpointData) → total f (stats_of_all fl m) ≡ total g m
  unfolding stats_of_all
  total-stats_of_all f g same [] = refl
  total-stats_of_all f g same ((e, ep) ∷ m) =
      omega (arith, same e ep, total-stats_of_all f g same m)

  -- After any requests are recorded by a new collector, its snapshot counts them all, and the
  -- requests, errors and timeouts of its endpoints add up to its totals.
  pub get_snapshot-IsBalanced :
      (ms : List RequestMetrics)
      → IsBalanced (length ms) (get_snapshot fl (record_requests ms new_collector))
  unfolding get_snapshot stats_of requests errors timeouts
  get_snapshot-IsBalanced ms =
      let c = record_requests ms new_collector in
      record {
        recorded = omega (arith, total_requests_counted ms new_collector);
        request_sum =
            total-stats_of_all _ requests.of_endpoint (λ e ep. refl) c.endpoints
            ∙ record_requests_counted requests ms new_collector refl;
        error_sum =
            total-stats_of_all _ errors.of_endpoint (λ e ep. refl) c.endpoints
            ∙ record_requests_counted errors ms new_collector refl;
        timeout_sum =
            total-stats_of_all _ timeouts.of_endpoint (λ e ep. refl) c.endpoints
            ∙ record_requests_counted timeouts ms new_collector refl;
      }
