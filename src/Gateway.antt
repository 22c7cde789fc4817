-- ===== src/Gateway.antt =====
-- The chain of handlers that backend/gateway/main.go builds: RequestID (middleware/requestid.go), Auth
-- (middleware/auth.go), RateLimit (middleware/ratelimit.go) and the proxy. A call is handled in one
-- step. The resolver, Redis, the nodes and the random bytes of request IDs are parameters.
pub mod Quota
pub mod Gate
pub mod Nodes
pub mod Startup
use chainmesh.Base.{
  ℕ, String, Bool, true, false, Option, none, some, List, [], ◌∷◌, ◌==◌, ltb, if◌then◌else◌,
}
use chainmesh.Base.Int.{ℤ, is_pos}
use chainmesh.ApiKey.{Random, generate_request_id}
use chainmesh.Model.{Tenant, BlockchainConfig}
use chainmesh.Json.{Codec}
use chainmesh.Redis.{Counters, Delivery}
use chainmesh.Redis.Texts.{Texts}
use chainmesh.Client.Routing.{SortSlice}
use chainmesh.Client.Calls.{Net}
use chainmesh.Auth.{TenantCache, Resolver, Arrival, Outcome, unauthorized, next, auth}
use chainmesh.RateLimit.{Limit, Status, Decision, allowed, rejected, unavailable, check_rate_limits}
use chainmesh.RateLimit
use chainmesh.Proxy.{Response, World}
use chainmesh.Proxy
use chainmesh.Proxy.Serve.{serve_http}

-- An HTTP request, with what its handling meets: the clocks, the fate of each round trip to Redis,
-- the bytes of a random ID, the default network, and the fate of the body.
pub record Call : Type 0 where
  pub x_request_id : String
  pub random : Random
  pub arrival : Arrival
  pub limit_now : ℕ
  pub limit_at : Limit → ℕ
  pub limit_delivery : Limit → Delivery
  pub limit_until : ℕ
  pub body : String
  pub read_fails : Bool
  pub default_config : Option BlockchainConfig
  pub start : ℕ
  pub now : ℕ

-- RequestID: the header's value, or a generated one
unfoldable pub request_id : Call → String
request_id c = if c.x_request_id == "" then generate_request_id c.random else c.x_request_id

-- The three X-RateLimit headers.
pub record LimitHeaders : Type 0 where
  pub limit_minute : ℤ
  pub remaining_minute : ℕ
  pub reset_unix : ℕ

pub data LimitMetric : Type 0 where
  rate_limit_error : LimitMetric
  rate_limited : Option Limit → LimitMetric

-- What is written to the client: an error of a middleware, or what the proxy writes.
pub data Written : Type 0 where
  error : (status : ℕ) (message : String) → Written
  proxied : Response → Written

pub record Reply : Type 0 where
  pub x_request_id : String
  pub limit : Option LimitHeaders
  pub retry_after : Option ℕ
  pub written : Written

-- if status.LimitMinute > 0
unfoldable pub limit_headers : Status → Option LimitHeaders
limit_headers st =
    if is_pos st.limit_minute
    then some (record {
      limit_minute = st.limit_minute;
      remaining_minute = st.remaining_minute;
      reset_unix = st.reset_unix;
    })
    else none

-- if status.RetryAfterSeconds > 0
unfoldable pub retry_header : Status → Option ℕ
retry_header st = if ltb 0 st.retry_after then some st.retry_after else none

module _ (texts : Texts) (redis : Counters) where
  -- The objects that the handlers share.
  pub record State : Type 0 where
    pub tenants : Option TenantCache
    pub counters : redis.State
    pub limit_metrics : List LimitMetric
    pub world : World texts

module _ (texts : Texts) (redis : Counters) (codec : Codec) (sort : SortSlice) (net : Net)
    (db : Resolver) where
  unfoldable pub limit_request : Tenant → Call → RateLimit.Request
  limit_request t c = record {
    tenant = t.id;
    quota_rps = t.quota_rps;
    quota_rpm = t.quota_rpm;
    quota_daily = t.quota_daily;
    now = c.limit_now;
    at = c.limit_at;
    delivery = c.limit_delivery;
    until = c.limit_until;
  }

  unfoldable pub proxy_request : Tenant → Call → Proxy.Request
  unfolding request_id
  proxy_request t c = record {
    tenant = some t;
    request_id = request_id c;
    body = c.body;
    read_fails = c.read_fails;
    default_config = c.default_config;
    start = c.start;
    now = c.now;
  }

  counted : LimitMetric → State texts redis → State texts redis
  counted x s = record s { limit_metrics = x ∷ s.limit_metrics }

  -- RateLimit, after CheckRateLimits
  after_check : Tenant → Call → Decision → State texts redis → Reply × State texts redis
  after_check t c (unavailable l st) s = (
    record {
      x_request_id = request_id c;
      limit = none;
      retry_after = none;
      written = error 503 "rate limiter unavailable";
    },
    counted rate_limit_error s,
  )
  after_check t c (rejected st) s = (
    record {
      x_request_id = request_id c;
      limit = limit_headers st;
      retry_after = retry_header st;
      written = error 429 "rate limit exceeded";
    },
    counted (rate_limited st.rejected) s,
  )
  after_check t c (allowed st) s =
      let (p, w) = serve_http texts codec sort net (proxy_request t c) s.world in
      (
        record {
          x_request_id = request_id c;
          limit = limit_headers st;
          retry_after = retry_header st;
          written = proxied p;
        },
        record s { world = w },
      )

  -- The tenant in the context is the one that Auth has put there.
  after_auth : Call → Outcome → State texts redis → Reply × State texts redis
  after_auth c unauthorized s = (
    record {
      x_request_id = request_id c;
      limit = none;
      retry_after = none;
      written = error 401 "unauthorized";
    },
    s,
  )
  after_auth c (next t) s =
      let (d, counters) = check_rate_limits redis (limit_request t c) s.counters in
      after_check t c d (record s { counters = counters })

  -- RequestID(Auth(db, tenantCache)(RateLimit(cache)(p)))
  unfoldable pub gateway : Call → State texts redis → Reply × State texts redis
  unfolding limit_request proxy_request counted after_check after_auth
  gateway c s =
      let (o, tenants) = auth db s.tenants c.arrival in
      after_auth c o (record s { tenants = tenants })
