-- ===== src/Client.antt =====
-- backend/shared/blockchain/client.go: the JSON-RPC client of one network. This file has its state
-- and the critical sections under `healthMu`; the modules below have the probes, the routing, the
-- two calls, and the proofs. Times and durations are in nanoseconds. The logger, the tracing of
-- request IDs in log lines and the mutex itself are not modelled: each critical section is one step.
pub mod Probe
pub mod Routing
pub mod Calls
pub mod History
pub mod Order
pub mod Failover
pub mod Sorting
use chainmesh.Base.{
  ℕ, String, Bool, true, false, Option, none, some, List, [], ◌∷◌, map, if◌then◌else◌,
}
use chainmesh.Base.Int.{int_inc, int_ge}
use chainmesh.Base.Dict.{Dict, lookup, insert}

-- The counters are 64-bit patterns.
pub record EndpointHealth : Type 0 where
  pub url : String
  pub healthy : Bool
  pub latency : ℕ
  pub last_check : ℕ
  pub consecutive_fails : ℕ
  pub total_requests : ℕ
  pub total_failures : ℕ

-- What the client sends to Prometheus: a gauge that is set, or a counter or histogram with its
-- labels.
pub data Metric : Type 0 where
  node_healthy : (network url : String) → Bool → Metric
  upstream_error : (network url method reason : String) → Metric
  upstream_request : (network url method status : String) → Metric
  upstream_duration : (network url method : String) → ℕ → Metric

-- `checking` tells that the goroutine of StartHealthChecks runs, `check_cancel` that the cancel
-- function is set. `emitted` is what went to Prometheus, the newest first.
pub record Client : Type 0 where
  pub endpoints : List String
  pub network_id : String
  pub health : Dict EndpointHealth
  pub check_interval : ℕ
  pub check_cancel : Bool
  pub checking : Bool
  pub emitted : List Metric

-- &EndpointHealth{URL: url}
abbrev pub blank : String → EndpointHealth
blank url = record {
  url = url;
  healthy = false;
  latency = 0;
  last_check = 0;
  consecutive_fails = 0;
  total_requests = 0;
  total_failures = 0;
}

-- &EndpointHealth{URL: ep, Healthy: true}
abbrev pub fresh : String → EndpointHealth
fresh url = record (blank url) { healthy = true }

fresh_entries : List String → Dict EndpointHealth → Dict EndpointHealth
fresh_entries [] m = m
fresh_entries (ep ∷ eps) m = fresh_entries eps (insert ep (fresh ep) m)

unfoldable pub new : List String → Client
unfolding fresh_entries
new endpoints = record {
  endpoints = endpoints;
  network_id = "";
  health = fresh_entries endpoints [];
  check_interval = 10000000000;
  check_cancel = false;
  checking = false;
  emitted = [];
}

unfoldable pub set_network_id : Client → String → Client
set_network_id c id = record c { network_id = id }

unfoldable pub start_health_checks : Client → ℕ → Client
start_health_checks c interval = record c {
  check_interval = interval;
  check_cancel = true;
  checking = true;
}

unfoldable pub stop_health_checks : Client → Client
stop_health_checks c = if c.check_cancel then record c { checking = false } else c

-- A snapshot, in the order in which the loop ranges over the map.
unfoldable pub healthy_endpoints : Client → List EndpointHealth
healthy_endpoints c = map (λ e. e.1) c.health

or_blank : String → Option EndpointHealth → EndpointHealth
or_blank url none = blank url
or_blank url (some h) = h

-- The entry that a critical section works on: the map's, or a blank one that it adds.
unfoldable pub entry : Client → String → EndpointHealth
unfolding or_blank
entry c url = or_blank url (lookup url c.health)

-- The end of a critical section: the entry is in the map, and the gauge is set.
unfoldable pub store : Client → String → EndpointHealth → Client
store c url h = record c {
  health = insert url h c.health;
  emitted = node_healthy c.network_id url h.healthy ∷ c.emitted;
}

-- The assignments of markSuccess.
unfoldable pub succeeded : EndpointHealth → ℕ → ℕ → EndpointHealth
succeeded h latency now = record h {
  healthy = true;
  consecutive_fails = 0;
  latency = latency;
  total_requests = int_inc h.total_requests;
  last_check = now;
}

-- ConsecutiveFails++, and the third failure in a row makes the endpoint unhealthy.
unfoldable pub one_more_fail : EndpointHealth → EndpointHealth
one_more_fail h =
    let fails = int_inc h.consecutive_fails in
    record h { consecutive_fails = fails; healthy = if int_ge fails 3 then false else h.healthy }

-- The assignments of markFailure.
unfoldable pub failed : EndpointHealth → ℕ → EndpointHealth
unfolding one_more_fail
failed h now = record (one_more_fail h) {
  total_failures = int_inc h.total_failures;
  last_check = now;
}

unfoldable pub mark_success : Client → String → ℕ → ℕ → Client
unfolding entry store succeeded
mark_success c url latency now = store c url (succeeded (entry c url) latency now)

unfoldable pub mark_failure : Client → String → ℕ → Client
unfolding entry store failed
mark_failure c url now = store c url (failed (entry c url) now)
