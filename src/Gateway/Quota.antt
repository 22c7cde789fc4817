-- ===== src/Gateway/Quota.antt =====
-- The quota of a tenant at the gateway: how many calls reach the proxy in a window of a limit.
use chainmesh.Base.{
  ◌≡◌, String, Bool, true, false, ◌&&◌, Option, none, some, List, [], ◌∷◌, ◌==◌, tally,
}
use chainmesh.Json.{Codec}
use chainmesh.Redis.{Counters}
use chainmesh.Redis.Texts.{Texts}
use chainmesh.Client.Routing.{SortSlice}
use chainmesh.Client.Calls.{Net}
use chainmesh.Auth.{Resolver, Outcome, unauthorized, next, auth}
use chainmesh.RateLimit.{Limit, Request, key}
use chainmesh.RateLimit.Bound.{serve, let_through}
use chainmesh.Gateway.{Call, State, Reply, Written, error, proxied, limit_request, gateway}

abbrev pub is_proxied : Written → Bool
is_proxied (error status message) = false
is_proxied (proxied p) = true

-- A call that reached the proxy in a window. The request is the one that its limits were checked with.
abbrev pub reached : Limit → String → Option Request × Reply → Bool
reached l k (none, x) = false
reached l k (some r, x) = is_proxied x.written && key l r.tenant r.now == k

abbrev also : Option Request → List Request → List Request
also none rs = rs
also (some r) rs = r ∷ rs

-- The requests whose limits were checked.
unfoldable pub checked : List (Option Request × Reply) → List Request
checked [] = []
checked ((o, x) ∷ rest) = also o (checked rest)

module _ (texts : Texts) (redis : Counters) (codec : Codec) (sort : SortSlice) (net : Net)
    (db : Resolver) where
  unfoldable pub request_of : Call → Outcome → Option Request
  request_of c unauthorized = none
  request_of c (next t) = some (limit_request texts redis codec sort net db t c)

  -- One call after another, each with its limit request, if Auth lets it so far.
  unfoldable pub handle_all : List Call → State texts redis → List (Option Request × Reply)
  unfolding request_of limit_request
  handle_all [] s = []
  handle_all (c ∷ cs) s =
      let (x, s') = gateway texts redis codec sort net db c s in
      (request_of c (auth db s.tenants c.arrival).0, x) ∷ handle_all cs s'

  module _ (l : Limit) (k : String) where
    -- As many reach the proxy as the limiter lets through.
    abbrev Agrees : List Call → State texts redis → Type 0
    Agrees cs s =
        tally (reached l k) (handle_all cs s)
        ≡ tally (let_through l k) (serve redis (checked (handle_all cs s)) s.counters)
