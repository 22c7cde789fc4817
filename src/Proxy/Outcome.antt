-- ===== src/Proxy/Outcome.antt =====
-- recordOutcome of backend/gateway/proxy/proxy.go: the metrics, the usage and the request log of one
-- request.
use chainmesh.Base.{
  ℕ, ◌-◌, ◌/◌, String, Bool, false, ◌&&◌, List, [], ◌∷◌, ◌++◌, ◌==◌, if◌then◌else◌,
}
use chainmesh.Clock.{truncate_minute}
use chainmesh.Model.{Tenant, RequestLog}
use chainmesh.Redis.Texts.{Texts}
use chainmesh.Proxy.{
  Request, Response, write_json_error, Label, label_text, Recorded, usage, request_log, Metric,
  request_duration, request_total, cache_hit, cache_miss, method_label, bool_label, cacheable,
  is_success, World,
}

-- The bookkeeping of recordOutcome.
unfoldable pub usage_of : Tenant → String → Request → ℕ → List Recorded
usage_of t method r bytes_in =
    if method == ""
    then []
    else usage (record {
      tenant_id = t.id;
      method = method;
      count = 1;
      bytes_in = bytes_in;
      period = truncate_minute r.start;
    })
      ∷ []

unfoldable pub log_of : Tenant → String → String → Label → Bool → Request → ℕ → RequestLog
log_of t network method label hit r bytes_in = record {
  tenant_id = t.id;
  network_id = network;
  method = method;
  status = label_text label;
  latency_ms = (r.now - r.start) / 1000000;
  cache_hit = hit;
  bytes_in = bytes_in;
  request_id = r.request_id;
}

cache_metrics : String → String → Label → Bool → List Metric
cache_metrics network method label hit =
    if hit
    then cache_hit network (method_label method) ∷ []
    else if cacheable method && is_success label
    then cache_miss network (method_label method) ∷ []
    else []

module _ (texts : Texts) where
  -- recordOutcome
  unfoldable pub record_outcome :
      Tenant → String → String → Label → Bool → Request → ℕ → World texts → World texts
  unfolding usage_of log_of cache_metrics label_text method_label bool_label
  record_outcome t network method label hit r bytes_in w =
      let name = method_label method in
      let status = label_text label in
      record w {
        metrics =
            cache_metrics network method label hit
            ++ (request_total network name status (bool_label hit)
                ∷ request_duration network name status (bool_label hit) (r.now - r.start)
                ∷ w.metrics);
        recorded =
            request_log (log_of t network method label hit r bytes_in)
            ∷ (usage_of t method r bytes_in ++ w.recorded);
      }

  -- An outcome with an error answer.
  unfoldable pub fail :
      Tenant
      → String
      → String
      → Label
      → Request
      → ℕ
      → ℕ
      → String
      → World texts
      → Response × World texts
  unfolding record_outcome
  fail t network method label r bytes_in status message w =
      (write_json_error status message, record_outcome t network method label false r bytes_in w)
