-- ===== src/Store/Keys.antt =====
-- backend/shared/storage/postgres/tenant_store.go, and the key functions of
-- backend/shared/util/apikey.go that it calls. bcrypt is a parameter; API keys are ASCII texts.
pub mod Resolve
pub mod Touched
use Prim.Native.String.{len, slice}
use chainmesh.Base.{
  ℕ, ◌≤◌, ◌≡◌, String, Bool, true, false, not, ◌&&◌, Option, none, some, List, [], ◌∷◌, ◌++◌, map,
  keep, ◌==◌, ltb, if◌then◌else◌,
}
use chainmesh.Base.Int.{ℤ}
use chainmesh.Base.Order.{OrderBy, descending}
use chainmesh.Model.{Tenant}
use chainmesh.Redis.{Delivery}
use chainmesh.Store.{Database, TenantRow, KeyRow}
use chainmesh.Store.Statements.{Statement, exec, query_row, Reading, query, in_transaction, commit}

-- golang.org/x/crypto/bcrypt: a key of at most 72 bytes has a hash for each salt, which it matches.
pub record Bcrypt : Type 0 where
  pub generate : (salt key : String) → String
  pub compare : (hash key : String) → Bool
  pub compare_generate : (salt key : String) → len key ≤ 72 → compare (generate salt key) key ≡ true

-- APIKeyPrefix
unfoldable pub api_key_prefix : String → String
api_key_prefix key = if ltb 12 (len key) then slice key 0 12 else key

-- COALESCE(blockchain_network_id::text, '')
abbrev pub coalesce : Option String → String
coalesce none = ""
coalesce (some s) = s

-- The columns of a tenant, scanned into the struct.
unfoldable pub scan_tenant : TenantRow → Tenant
scan_tenant row = record {
  id = row.id;
  name = row.name;
  quota_rpm = row.quota_rpm;
  quota_rps = row.quota_rps;
  quota_daily = row.quota_daily;
  plan = row.plan;
  network_id = coalesce row.network_id;
  created_at = row.created_at;
}

abbrev pub find_tenant : String → List TenantRow → Option TenantRow
find_tenant id [] = none
find_tenant id (row ∷ rows) = if row.id == id then some row else find_tenant id rows

-- GetTenantByID
unfoldable pub get_tenant_by_id : Delivery → String → Database → Option Tenant
unfolding scan_tenant
get_tenant_by_id trip id db =
    query_row trip
      (elim (find_tenant id db.tenants) [ none ↦ none | some row ↦ some (scan_tenant row) ])

-- ListTenants
unfoldable pub list_tenants : OrderBy → Reading → Database → Option (List Tenant)
list_tenants order reading db =
    query reading (map scan_tenant (descending order (λ row. row.created_at) db.tenants))

abbrev pub is_live : KeyRow → Bool
is_live row = elim row.revoked_at [ none ↦ true | some t ↦ false ]

-- The condition of the query of GetTenantByAPIKey.
abbrev pub is_candidate : String → KeyRow → Bool
is_candidate prefix row = row.key_prefix == prefix && is_live row

-- The loop over the candidates: the first one whose hash the key matches.
unfoldable pub first_match : Bcrypt → String → List KeyRow → Option KeyRow
first_match bcrypt key [] = none
first_match bcrypt key (row ∷ rows) =
    let rest = first_match bcrypt key rows in
    if bcrypt.compare row.key_hash key then some row else rest

-- UPDATE api_keys SET last_used_at = NOW() WHERE id = $1
abbrev pub touch : String → ℕ → KeyRow → KeyRow
touch id now row = if row.id == id then record row { last_used_at = some now } else row

abbrev pub touch_key : String → ℕ → Statement
touch_key id now db = some (record db { api_keys = map (touch id now) db.api_keys })

-- The round trips of one GetTenantByAPIKey, and the server's clock.
pub record Lookup : Type 0 where
  pub reading : Reading
  pub touching : Delivery
  pub getting : Delivery
  pub now : ℕ

after_match : Lookup → Option KeyRow → Database → Option Tenant × Database
after_match trips none db = (none, db)
after_match trips (some row) db =
    if row.tenant_id == ""
    then (none, db)
    else let db' = (exec trips.touching (touch_key row.id trips.now) db).1 in
      (get_tenant_by_id trips.getting row.tenant_id db', db')

after_candidates :
    Bcrypt → Lookup → String → Option (List KeyRow) → Database → Option Tenant × Database
after_candidates bcrypt trips key none db = (none, db)
after_candidates bcrypt trips key (some rows) db =
    after_match trips (first_match bcrypt key rows) db

-- GetTenantByAPIKey
unfoldable pub get_tenant_by_api_key :
    Bcrypt → Lookup → String → Database → Option Tenant × Database
unfolding after_match after_candidates
get_tenant_by_api_key bcrypt trips key db =
    after_candidates bcrypt trips key
      (query trips.reading (keep (is_candidate (api_key_prefix key)) db.api_keys)) db
