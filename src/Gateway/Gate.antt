-- ===== src/Gateway/Gate.antt =====
-- What the middleware lets through to the proxy, and what it answers otherwise.
use chainmesh.Base.{ℕ, ◌≤◌, ◌≡◌, String, Option, none, some}
use chainmesh.Model.{Tenant}
use chainmesh.Json.{Codec}
use chainmesh.Redis.{Counters}
use chainmesh.Redis.Texts.{Texts}
use chainmesh.Client.Routing.{SortSlice}
use chainmesh.Client.Calls.{Net}
use chainmesh.Auth.{Resolver, next, auth}
use chainmesh.RateLimit.{Status, allowed, check_rate_limits}
use chainmesh.Proxy.Serve.{serve_http}
use chainmesh.Gateway.{Call, State, Reply, error, proxied, limit_request, proxy_request}

-- The answers of the middleware: a rejected call is told to wait at least a second.
pub data Refusal : ℕ → Option ℕ → Type 0 where
  no_tenant : Refusal 401 none
  no_limiter : Refusal 503 none
  over_limit : {wait : ℕ} → 1 ≤ wait → Refusal 429 (some wait)

module _ (texts : Texts) (redis : Counters) (codec : Codec) (sort : SortSlice) (net : Net)
    (db : Resolver) where
  -- The proxy has not been reached, or it was reached with the tenant that Auth found and that the
  -- limiter let through.
  pub data Gated (c : Call) (s : State texts redis) (p : Reply × State texts redis) : Type 0 where
    refused :
        {status : ℕ} {message : String}
        → p.0.written ≡ error status message
        → Refusal status p.0.retry_after
        → p.1.world ≡ s.world
        → Gated c s p
    served :
        (t : Tenant) (st : Status)
        → (auth db s.tenants c.arrival).0 ≡ next t
        → (check_rate_limits redis (limit_request texts redis codec sort net db t c) s.counters).0
          ≡ allowed st
        → p.0.written
          ≡ proxied
              (serve_http texts codec sort net
                (proxy_request texts redis codec sort net db t c)
                s.world).0
        → p.1.world
          ≡ (serve_http texts codec sort net
              (proxy_request texts redis codec sort net db t c)
              s.world).1
        → Gated c s p
