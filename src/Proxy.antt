-- ===== src/Proxy.antt =====
-- backend/gateway/proxy/proxy.go: the handler behind the middleware. What it works with from outside
-- is in the request (the clock, the default network of the database, the fate of the body) or a
-- parameter: JSON's text syntax, sort.Slice, the upstream nodes and the response cache.
pub mod Text
pub mod Outcome
pub mod Serve
pub mod Entry
pub mod Cases
pub mod Accounting
pub mod Caching
pub mod Purity
use Prim.Native.String.{◌++◌, len}
use chainmesh.Base.{
  ℕ, ◌+◌, ◌-◌, ◌*◌, ◌/◌, ◌≡◌, refl, String, Bool, true, false, not, ◌&&◌, ◌||◌, Option, none, some,
  List, [], ◌∷◌, ◌++◌ as append, ◌==◌, ltb, if◌then◌else◌,
}
use chainmesh.Base.Dict.{Dict, lookup, insert}
use chainmesh.Clock.{second, truncate_minute}
use chainmesh.Model.{Tenant, BlockchainConfig, Usage, RequestLog}
use chainmesh.Json.{Codec, RpcRequest, RpcResponse, unmarshal_request, unmarshal_response, is_nil}
use chainmesh.Redis.Texts
use chainmesh.Redis.Texts.{Texts}
use chainmesh.Client.{Client}
use chainmesh.Client.Routing.{SortSlice}
use chainmesh.Client.Calls.{Net, call, proxy_raw}

-- const maxBodyBytes = 2 << 20
abbrev pub max_body_bytes : ℕ
max_body_bytes = 2 * 1048576

-- var cachePolicies
unfoldable pub cache_policy : String → Option ℕ
cache_policy method =
    if method == "eth_chainId"
    then some (86400 * second)
    else if method == "eth_blockNumber"
    then some (2 * second)
    else if method == "eth_getBalance"
    then some (30 * second)
    else if method == "eth_gasPrice"
    then some (15 * second)
    else if method == "eth_maxPriorityFeePerGas"
    then some (15 * second)
    else none

-- A request as the handler gets it. `read_fails` is an error of the body's reader other than its
-- length; `now` is the clock at the end of the request.
pub record Request : Type 0 where
  pub tenant : Option Tenant
  pub request_id : String
  pub body : String
  pub read_fails : Bool
  pub default_config : Option BlockchainConfig
  pub start : ℕ
  pub now : ℕ

-- What is written to the client: an error object with a message, or bytes.
pub data Content : Type 0 where
  error_message : String → Content
  bytes : String → Content

pub record Response : Type 0 where
  pub status : ℕ
  pub x_cache : Option String
  pub content : Content

-- The status labels of recordOutcome.
pub data Label : Type 0 where
  invalid_request network_unavailable upstream_error rpc_error success : Label

unfoldable pub label_text : Label → String
label_text invalid_request = "invalid_request"
label_text network_unavailable = "network_unavailable"
label_text upstream_error = "upstream_error"
label_text rpc_error = "rpc_error"
label_text success = "success"

-- RecordUsage and RecordRequestLog, on the recorder or, where that is nil, on the database.
pub data Recorded : Type 0 where
  usage : Usage → Recorded
  request_log : RequestLog → Recorded

-- The counters and the histogram of recordOutcome, with their labels.
pub data Metric : Type 0 where
  request_duration : (network method status cache_hit : String) → ℕ → Metric
  request_total : (network method status cache_hit : String) → Metric
  cache_hit : (network method : String) → Metric
  cache_miss : (network method : String) → Metric

-- writeJSONError
abbrev pub write_json_error : ℕ → String → Response
write_json_error status message = record {
  status = status;
  x_cache = none;
  content = error_message message;
}

-- methodLabel
unfoldable pub method_label : String → String
method_label method = if method == "" then "unknown" else method

-- boolLabel
unfoldable pub bool_label : Bool → String
bool_label true = "true"
bool_label false = "false"

abbrev pub cacheable : String → Bool
cacheable method = elim (cache_policy method) [ none ↦ false | some ttl ↦ true ]

abbrev pub is_success : Label → Bool
is_success success = true
is_success _ = false

-- cacheKey
unfoldable pub cache_key : Codec → String → RpcRequest → String
cache_key codec network req =
    let key = "rpc:" ++ (network ++ (":" ++ req.method)) in
    if is_nil req.params then key else key ++ (":" ++ codec.marshal req.params)

-- tenant.BlockchainNetworkID, or the default network's
unfoldable pub network_of : Tenant → Option BlockchainConfig → Option String
network_of t config =
    if t.network_id == ""
    then elim config [ none ↦ none | some cfg ↦ some cfg.id ]
    else some t.network_id

module _ (texts : Texts) where
  -- The objects that the handler shares: the response cache, the clients of the manager, what was
  -- recorded and what was counted, the newest first.
  pub record World : Type 0 where
    pub cache : texts.State
    pub clients : Dict Client
    pub recorded : List Recorded
    pub metrics : List Metric
