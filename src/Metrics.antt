-- ===== src/Metrics.antt =====
-- backend/shared/metrics/metrics.go: the vectors of metrics that the services export, and the calls of
-- them in client.go, proxy.go, ratelimit.go and recorder.go. The Prometheus library is a parameter.
-- The help texts, the buckets of the histograms and the numbers that are observed are left out.
pub mod Safety
use Prim.Native.String.{◌++◌}
use chainmesh.Base.{
  ℕ, ◌≡◌, String, Bool, false, Option, none, some, List, [], ◌∷◌, contains, length,
}
use chainmesh.Client
use chainmesh.Proxy
use chainmesh.RateLimit.{Limit, rps, rpm, daily}
use chainmesh.Gateway.{LimitMetric, rate_limit_error, rate_limited}
use chainmesh.Telemetry.{Kind, kind_usage, kind_request_log}

pub data Instrument : Type 0 where
  counter histogram gauge : Instrument

-- prometheus.CounterOpts and the like, with the names of the labels.
pub record Opts : Type 0 where
  pub namespace : String
  pub subsystem : String
  pub name : String
  pub instrument : Instrument
  pub labels : List String

pub data Vector : Type 0 where
  requests_total request_duration_seconds cache_hits_total cache_misses_total : Vector
  rate_limited_total rate_limit_errors_total : Vector
  upstream_requests_total upstream_errors_total upstream_request_duration_seconds : Vector
  node_healthy telemetry_write_failures_total telemetry_dropped_total : Vector

abbrev gateway_opts : String → Instrument → List String → Opts
gateway_opts name instrument labels = record {
  namespace = "blockmesh";
  subsystem = "gateway";
  name = name;
  instrument = instrument;
  labels = labels;
}

-- The variables of the package.
unfoldable pub opts : Vector → Opts
opts requests_total =
    gateway_opts "requests_total" counter ("network_id" ∷ "method" ∷ "status" ∷ "cache_hit" ∷ [])
opts request_duration_seconds =
    gateway_opts "request_duration_seconds" histogram
      ("network_id" ∷ "method" ∷ "status" ∷ "cache_hit" ∷ [])
opts cache_hits_total = gateway_opts "cache_hits_total" counter ("network_id" ∷ "method" ∷ [])
opts cache_misses_total = gateway_opts "cache_misses_total" counter ("network_id" ∷ "method" ∷ [])
opts rate_limited_total = gateway_opts "rate_limited_total" counter ("limit" ∷ [])
opts rate_limit_errors_total = gateway_opts "rate_limit_errors_total" counter []
opts upstream_requests_total =
    gateway_opts "upstream_requests_total" counter
      ("network_id" ∷ "endpoint" ∷ "method" ∷ "status" ∷ [])
opts upstream_errors_total =
    gateway_opts "upstream_errors_total" counter
      ("network_id" ∷ "endpoint" ∷ "method" ∷ "reason" ∷ [])
opts upstream_request_duration_seconds =
    gateway_opts "upstream_request_duration_seconds" histogram
      ("network_id" ∷ "endpoint" ∷ "method" ∷ [])
opts node_healthy = gateway_opts "node_healthy" gauge ("network_id" ∷ "endpoint" ∷ [])
opts telemetry_write_failures_total =
    gateway_opts "telemetry_write_failures_total" counter ("kind" ∷ [])
opts telemetry_dropped_total = gateway_opts "telemetry_dropped_total" counter ("kind" ∷ [])

-- The order in which the package registers them.
abbrev pub vectors : List Vector
vectors =
    requests_total ∷ request_duration_seconds ∷ cache_hits_total ∷ cache_misses_total
    ∷ rate_limited_total ∷ rate_limit_errors_total ∷ upstream_requests_total ∷ upstream_errors_total
    ∷ upstream_request_duration_seconds ∷ node_healthy ∷ telemetry_write_failures_total
    ∷ telemetry_dropped_total ∷ []

-- The name under which a vector is registered.
unfoldable pub full_name : Opts → String
full_name o = o.namespace ++ ("_" ++ (o.subsystem ++ ("_" ++ o.name)))

-- The library: promauto registers a vector, and WithLabelValues gives the series of values; none is a panic.
-- A new name is registered, and as many values as the vector has labels have a series.
pub record Prometheus : Type 1 where
  pub State : Type 0
  pub names : State → List String
  pub register : Opts → State → Option State
  pub with_label_values : Opts → List String → State → Option State
  pub register_new :
      (o : Opts) (s : State)
      → contains (full_name o) (names s) ≡ false
      → (s' : State) × (register o s ≡ some s') × (names s' ≡ full_name o ∷ names s)
  pub with_label_values_fit :
      (o : Opts) (values : List String) (s : State)
      → length values ≡ length o.labels
      → (s' : State) × (with_label_values o values s ≡ some s')

-- What the services count.
pub data Emission : Type 0 where
  of_client : Client.Metric → Emission
  of_proxy : Proxy.Metric → Emission
  of_limiter : LimitMetric → Emission
  dropped write_failed : Kind → Emission

unfoldable pub kind_text : Kind → String
kind_text kind_usage = "usage"
kind_text kind_request_log = "request_log"

-- status.RejectedLimit
unfoldable pub limit_text : Option Limit → String
limit_text none = ""
limit_text (some rps) = "rps"
limit_text (some rpm) = "rpm"
limit_text (some daily) = "daily"

-- The vector of a call, and the values that it gives to WithLabelValues.
unfoldable pub call_of : Emission → Vector × List String
call_of (of_client (Client.node_healthy network url healthy)) = (node_healthy, network ∷ url ∷ [])
call_of (of_client (Client.upstream_error network url method reason)) =
    (upstream_errors_total, network ∷ url ∷ method ∷ reason ∷ [])
call_of (of_client (Client.upstream_request network url method status)) =
    (upstream_requests_total, network ∷ url ∷ method ∷ status ∷ [])
call_of (of_client (Client.upstream_duration network url method d)) =
    (upstream_request_duration_seconds, network ∷ url ∷ method ∷ [])
call_of (of_proxy (Proxy.request_duration network method status cache_hit d)) =
    (request_duration_seconds, network ∷ method ∷ status ∷ cache_hit ∷ [])
call_of (of_proxy (Proxy.request_total network method status cache_hit)) =
    (requests_total, network ∷ method ∷ status ∷ cache_hit ∷ [])
call_of (of_proxy (Proxy.cache_hit network method)) = (cache_hits_total, network ∷ method ∷ [])
call_of (of_proxy (Proxy.cache_miss network method)) = (cache_misses_total, network ∷ method ∷ [])
call_of (of_limiter rate_limit_error) = (rate_limit_errors_total, [])
call_of (of_limiter (rate_limited l)) = (rate_limited_total, limit_text l ∷ [])
call_of (dropped k) = (telemetry_dropped_total, kind_text k ∷ [])
call_of (write_failed k) = (telemetry_write_failures_total, kind_text k ∷ [])

module _ (p : Prometheus) where
  -- The initialisation of the package.
  unfoldable pub register_all : List Vector → p.State → Option p.State
  register_all [] s = some s
  register_all (v ∷ vs) s = elim (p.register (opts v) s) [
    | none ↦ none
    | some s' ↦ register_all vs s'
  ]

  unfoldable pub emit_all : List Emission → p.State → Option p.State
  emit_all [] s = some s
  emit_all (e ∷ es) s = elim (p.with_label_values (opts (call_of e).0) (call_of e).1 s) [
    | none ↦ none
    | some s' ↦ emit_all es s'
  ]

  -- A process from its start on.
  unfoldable pub export : List Emission → p.State → Option p.State
  export es s = elim (register_all vectors s) [ none ↦ none | some s' ↦ emit_all es s' ]
