-- ===== src/Auth.antt =====
-- backend/gateway/middleware/auth.go: the bearer-key middleware with its in-memory tenant cache.
-- The resolver is the interface tenantResolver: what it answers may change with time.
pub mod Staleness
pub mod Revocation
use Prim.Native.String.{len, slice}
use text.Mathlib.Text.{starts_with}
use chainmesh.Base.{
  ℕ, ◌+◌, ◌≡◌, refl, String, Bool, true, Option, none, some, List, [], ◌∷◌, ltb, if◌then◌else◌,
}
use chainmesh.Base.Dict.{Dict, lookup, insert}
use chainmesh.Model.{Tenant}

pub record CachedTenant : Type 0 where
  pub tenant : Tenant
  pub expires_at : ℕ

pub record TenantCache : Type 0 where
  pub items : Dict CachedTenant
  pub ttl : ℕ

unfoldable pub new_tenant_cache : ℕ → TenantCache
new_tenant_cache ttl = record { items = []; ttl = ttl }

-- !ok || time.Now().After(item.expiresAt)
unexpired : ℕ → Option CachedTenant → Option Tenant
unexpired now none = none
unexpired now (some item) = if ltb item.expires_at now then none else some item.tenant

unfoldable pub get : TenantCache → ℕ → String → Option Tenant
unfolding unexpired
get cache now key = unexpired now (lookup key cache.items)

unfoldable pub set : TenantCache → ℕ → String → Tenant → TenantCache
set cache now key tenant = record cache {
  items = insert key (record { tenant = tenant; expires_at = now + cache.ttl }) cache.items;
}

-- GetTenantByAPIKey at a time; `none` is its error.
abbrev pub Resolver : Type 0
Resolver = ℕ → String → Option Tenant

-- One request: its Authorization header, and the clock at the cache's Get, at the resolver, and at
-- the cache's Set.
pub record Arrival : Type 0 where
  pub authorization : String
  pub now : ℕ
  pub resolved : ℕ
  pub stored : ℕ

-- The handler answers 401, or calls the next one with a tenant in the context.
pub data Outcome : Type 0 where
  unauthorized : Outcome
  next : Tenant → Outcome

-- strings.HasPrefix(auth, "Bearer "), then strings.TrimPrefix
unfoldable pub bearer : String → Option String
bearer auth =
    if starts_with auth "Bearer " then some (slice auth (len "Bearer ") (len auth)) else none

-- if cache != nil { cache.Set(key, tenant) }
remember : Option TenantCache → ℕ → String → Tenant → Option TenantCache
remember none now key tenant = none
remember (some cache) now key tenant = some (set cache now key tenant)

after_resolve : Option TenantCache → Arrival → String → Option Tenant → Outcome × Option TenantCache
after_resolve cache a key none = (unauthorized, cache)
after_resolve cache a key (some tenant) = (next tenant, remember cache a.stored key tenant)

cached : Option TenantCache → ℕ → String → Option Tenant
cached none now key = none
cached (some cache) now key = get cache now key

after_cache :
    Resolver → Option TenantCache → Arrival → String → Option Tenant → Outcome × Option TenantCache
after_cache db cache a key (some tenant) = (next tenant, cache)
after_cache db cache a key none = after_resolve cache a key (db a.resolved key)

with_key : Resolver → Option TenantCache → Arrival → Option String → Outcome × Option TenantCache
with_key db cache a none = (unauthorized, cache)
with_key db cache a (some key) = after_cache db cache a key (cached cache a.now key)

-- The handler that Auth(db, cache)(next) returns. The cache is an object that the requests share.
unfoldable pub auth : Resolver → Option TenantCache → Arrival → Outcome × Option TenantCache
unfolding bearer remember after_resolve cached after_cache with_key
auth db cache a = with_key db cache a (bearer a.authorization)

bearer_runs : bearer "Bearer bm_live_1" ≡ some "bm_live_1"
unfolding bearer
bearer_runs = refl

bearer_basic : bearer "Basic bm_live_1" ≡ none
unfolding bearer
bearer_basic = refl
