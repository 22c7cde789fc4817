-- ===== src/Client/Probe.antt =====
-- runHealthCheck of backend/shared/blockchain/client.go, and the answers of an upstream node, which
-- the probes and the calls share.
use chainmesh.Base.{
  ℕ, String, Bool, true, false, ◌||◌, Option, none, some, List, [], ◌∷◌, ltb, leb, if◌then◌else◌,
}
use chainmesh.Json.{Codec, RpcResponse, unmarshal_response}
use chainmesh.Client.{Client, EndpointHealth, entry, store, one_more_fail}

-- http.Client.Do: a transport error, or a status with the body that io.ReadAll returns.
pub data Reply : Type 0 where
  unreachable : Reply
  answered : (status : ℕ) (body : String) → Reply

-- One request: its reply, when it was sent, how long it took, and the clock after it.
pub record Exchange : Type 0 where
  pub reply : Reply
  pub start : ℕ
  pub latency : ℕ
  pub now : ℕ

-- resp.StatusCode < 200 || resp.StatusCode >= 300
abbrev pub bad_status : ℕ → Bool
bad_status status = ltb status 200 || leb 300 status

-- The body decodes and carries no error object.
unfoldable pub is_valid_rpc : Option RpcResponse → Bool
is_valid_rpc none = false
is_valid_rpc (some r) = elim r.error [ none ↦ true | some e ↦ false ]

unfoldable pub probe_ok : Codec → Reply → Bool
unfolding is_valid_rpc
probe_ok codec unreachable = false
probe_ok codec (answered status body) =
    if bad_status status then false else is_valid_rpc (unmarshal_response codec body)

-- The assignments of one probe: a good answer resets the entry, any other is one more failure.
unfoldable pub probed : Codec → EndpointHealth → Exchange → EndpointHealth
unfolding probe_ok one_more_fail
probed codec h x =
    let seen = record h { last_check = x.start; latency = x.latency } in
    if probe_ok codec x.reply
    then record seen { consecutive_fails = 0; healthy = true }
    else one_more_fail seen

-- The critical section of the goroutine of one endpoint.
unfoldable pub check_endpoint : Codec → Client → String → Exchange → Client
unfolding probed entry store
check_endpoint codec c url x = store c url (probed codec (entry c url) x)

-- The goroutines take the lock in the order of the list, which is any order of the endpoints.
unfoldable pub run_health_check : Codec → Client → List (String × Exchange) → Client
unfolding check_endpoint
run_health_check codec c [] = c
run_health_check codec c ((url, x) ∷ rest) =
    run_health_check codec (check_endpoint codec c url x) rest
