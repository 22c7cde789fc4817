-- ===== src/Client/Calls.antt =====
-- Call and ProxyRaw of backend/shared/blockchain/client.go: failover over the routed endpoints.
use chainmesh.Base.{ℕ, suc, String, Option, none, some, List, [], ◌∷◌, ◌==◌, if◌then◌else◌}
use chainmesh.Base.Int.{pos}
use chainmesh.Json.{Codec, Items, RpcRequest, RpcResponse, unmarshal_response}
use chainmesh.Client.{
  Client, Metric, upstream_error, upstream_request, upstream_duration, mark_success, mark_failure,
}
use chainmesh.Client.Probe.{Reply, unreachable, answered, Exchange, bad_status}
use chainmesh.Client.Routing.{SortSlice, endpoints_for_call}

-- The body of a request: a marshalled RPCRequest, or the bytes of the caller.
pub data Payload : Type 0 where
  rpc : RpcRequest → Payload
  raw : String → Payload

pub record HttpRequest : Type 0 where
  pub url : String
  pub payload : Payload
  pub request_id : Option String

-- The upstream nodes: the exchange that the i-th request of a call gets.
abbrev pub Net : Type 0
Net = HttpRequest → ℕ → Exchange

-- if requestID != "" { req.Header.Set("X-Request-ID", requestID) }
abbrev pub request_id_header : String → Option String
request_id_header request_id = if request_id == "" then none else some request_id

unfoldable pub emit : Client → Metric → Client
emit c m = record c { emitted = m ∷ c.emitted }

-- `for _, ep := range endpoints`: the first attempt that returns a body ends the loop; `none` at
-- the end is the error "all endpoints failed".
unfoldable pub try_endpoints :
    (Client → ℕ → String → Client × Option String)
    → Client
    → ℕ
    → List String
    → Client × Option String
try_endpoints attempt c i [] = (c, none)
try_endpoints attempt c i (ep ∷ eps) =
    let (c', r) = attempt c i ep in
    elim r [ some body ↦ (c', some body) | none ↦ try_endpoints attempt c' (suc i) eps ]

abbrev pub status_label : RpcResponse → String
status_label r = elim r.error [ none ↦ "success" | some e ↦ "rpc_error" ]

-- What Call does with a body, once it has tried to decode it.
call_answer :
    Client → String → String → Exchange → String → Option RpcResponse → Client × Option String
call_answer c ep method x body none = (
  mark_failure (emit c (upstream_error c.network_id ep method "invalid_response")) ep x.now,
  none,
)
call_answer c ep method x body (some r) =
    let c₁ = emit c (upstream_duration c.network_id ep method x.latency) in
    let c₂ = emit c₁ (upstream_request c.network_id ep method (status_label r)) in
    (mark_success c₂ ep x.latency x.now, some body)

call_reply : Codec → Client → String → String → Exchange → Reply → Client × Option String
call_reply codec c ep method x unreachable =
    (mark_failure (emit c (upstream_error c.network_id ep method "transport")) ep x.now, none)
call_reply codec c ep method x (answered status body) =
    call_answer c ep method x body (unmarshal_response codec body)

-- One round of the loop of Call. The status of the answer is not read.
unfoldable pub call_attempt :
    Codec → Net → String → RpcRequest → Client → ℕ → String → Client × Option String
unfolding call_answer call_reply
call_attempt codec net request_id req c i ep =
    let x =
      net (record { url = ep; payload = rpc req; request_id = request_id_header request_id }) i in
    call_reply codec c ep req.method x x.reply

abbrev pub call_request : String → Items → RpcRequest
call_request method params = record {
  jsonrpc = "2.0";
  method = method;
  params = params;
  id = pos 1;
}

-- Client.Call
unfoldable pub call :
    Codec → SortSlice → Net → String → Client → String → Items → Client × Option String
call codec sort net request_id c method params =
    try_endpoints (call_attempt codec net request_id (call_request method params)) c 0
      (endpoints_for_call sort c)

raw_reply : Client → String → Exchange → Reply → Client × Option String
raw_reply c ep x unreachable =
    (mark_failure (emit c (upstream_error c.network_id ep "batch" "transport")) ep x.now, none)
raw_reply c ep x (answered status body) =
    if bad_status status
    then (
      mark_failure (emit c (upstream_error c.network_id ep "batch" "bad_status")) ep x.now,
      none,
    )
    else let c₁ = emit c (upstream_duration c.network_id ep "batch" x.latency) in
      let c₂ = emit c₁ (upstream_request c.network_id ep "batch" "success") in
      (mark_success c₂ ep x.latency x.now, some body)

-- One round of the loop of ProxyRaw. The body of the answer is not read.
unfoldable pub raw_attempt : Net → String → String → Client → ℕ → String → Client × Option String
unfolding raw_reply
raw_attempt net request_id payload c i ep =
    let x =
      net (record { url = ep; payload = raw payload; request_id = request_id_header request_id })
        i in
    raw_reply c ep x x.reply

-- Client.ProxyRaw
unfoldable pub proxy_raw : SortSlice → Net → String → Client → String → Client × Option String
proxy_raw sort net request_id c payload =
    try_endpoints (raw_attempt net request_id payload) c 0 (endpoints_for_call sort c)
