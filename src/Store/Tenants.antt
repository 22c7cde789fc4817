-- ===== src/Store/Tenants.antt =====
-- The operations of backend/shared/storage/postgres/tenant_store.go that write. Begin, Exec, QueryRow
-- and Commit are one round trip each.
pub mod Atomic
pub mod Rotation
use chainmesh.Base.{
  ℕ, ◌≡◌, String, Bool, true, false, not, ◌&&◌, ◌||◌, Option, none, some, List, [], ◌∷◌, ◌++◌, map,
  keep, contains, ◌==◌, if◌then◌else◌,
}
use chainmesh.Base.Int.{ℤ}
use chainmesh.Model.{Tenant, BlockchainConfig, Usage}
use chainmesh.Redis.{Delivery}
use chainmesh.Store.{Database, TenantRow, KeyRow, RequestLogRow}
use chainmesh.Store.Statements.{Statement, exec, in_transaction, commit, ◌>>=◌}
use chainmesh.Store.Keys.{Bcrypt, api_key_prefix, scan_tenant, is_live}

-- What the code passes for an optional column: nil for the empty text.
abbrev pub nullable : String → Option String
nullable s = if s == "" then none else some s

-- A foreign key: the row that it names exists.
abbrev pub names_config : Option String → Database → Bool
names_config none db = true
names_config (some id) db = contains id (map (λ c. c.id) db.configs)

abbrev pub names_tenant : String → Database → Bool
names_tenant id db = contains id (map (λ t. t.id) db.tenants)

-- INSERT INTO tenants: the primary key, and the foreign key of the network.
abbrev pub insert_tenant : TenantRow → Statement
insert_tenant row db =
    if names_tenant row.id db || not (names_config row.network_id db)
    then none
    else some (record db { tenants = db.tenants ++ (row ∷ []) })

-- INSERT INTO api_keys: the primary key, the unique hash, and the foreign key of the tenant.
abbrev pub insert_key : KeyRow → Statement
insert_key row db =
    if contains row.id (map (λ k. k.id) db.api_keys)
      || contains row.key_hash (map (λ k. k.key_hash) db.api_keys)
      || not (names_tenant row.tenant_id db)
    then none
    else some (record db { api_keys = db.api_keys ++ (row ∷ []) })

-- A new row of api_keys.
unfoldable pub key_row : Bcrypt → (id tenant_id name salt key : String) → ℕ → KeyRow
key_row bcrypt id tenant_id name salt key now = record {
  id = id;
  tenant_id = tenant_id;
  name = name;
  key_hash = bcrypt.generate salt key;
  key_prefix = api_key_prefix key;
  revoked_at = none;
  last_used_at = none;
  created_at = now;
}

-- The arguments of CreateTenantWithKey and UpdateTenant.
pub record TenantData : Type 0 where
  pub name : String
  pub network_id : String
  pub quota_rpm : ℤ
  pub quota_rps : ℤ
  pub quota_daily : ℤ
  pub plan : String

-- What the server and bcrypt make up in a transaction, and its round trips.
pub record Making : Type 0 where
  pub tenant_id : String
  pub key_id : String
  pub salt : String
  pub now : ℕ
  pub beginning : Delivery
  pub first : Delivery
  pub second : Delivery
  pub committing : Delivery

unfoldable pub tenant_row : TenantData → Making → TenantRow
tenant_row d m = record {
  id = m.tenant_id;
  name = d.name;
  network_id = nullable d.network_id;
  quota_rpm = d.quota_rpm;
  quota_rps = d.quota_rps;
  quota_daily = d.quota_daily;
  plan = if d.plan == "" then "free" else d.plan;
  created_at = m.now;
}

-- The statements of a transaction's body, then Commit.
abbrev pub finish : Delivery → Database → Option Database → Bool × Database
finish trip db none = (false, db)
finish trip db (some db') = commit trip db db'

abbrev pub begin : Statement
begin db = some db

-- CreateTenantWithKey
unfoldable pub create_tenant_with_key :
    Bcrypt → Making → TenantData → String → Database → Option Tenant × Database
unfolding tenant_row key_row
create_tenant_with_key bcrypt m d key db =
    let row = tenant_row d m in
    let made = do
      db₁ ← in_transaction m.beginning begin db
      db₂ ← in_transaction m.first (insert_tenant row) db₁
      in_transaction m.second
          (insert_key (key_row bcrypt m.key_id row.id "default" m.salt key m.now)) db₂
    in let (ok, db') = finish m.committing db made in
      (if ok then some (scan_tenant row) else none, db')

-- UPDATE api_keys SET revoked_at = NOW() WHERE tenant_id = $1 AND revoked_at IS NULL
abbrev pub revoke : String → ℕ → KeyRow → KeyRow
revoke tenant_id now row =
    if row.tenant_id == tenant_id && is_live row then record row { revoked_at = some now } else row

abbrev pub revoke_keys : String → ℕ → Statement
revoke_keys tenant_id now db =
    some (record db { api_keys = map (revoke tenant_id now) db.api_keys })

-- RotateAPIKey
unfoldable pub rotate_api_key :
    Bcrypt → Making → (tenant_id key : String) → Database → Bool × Database
unfolding key_row
rotate_api_key bcrypt m tenant_id key db =
    let made = do
      db₁ ← in_transaction m.beginning begin db
      db₂ ← in_transaction m.first (revoke_keys tenant_id m.now) db₁
      in_transaction m.second
          (insert_key (key_row bcrypt m.key_id tenant_id "rotated" m.salt key m.now)) db₂
    in finish m.committing db made

abbrev pub change_tenant : String → TenantData → TenantRow → TenantRow
change_tenant id d row =
    if row.id == id
    then record row {
      name = d.name;
      network_id = nullable d.network_id;
      quota_rpm = d.quota_rpm;
      quota_rps = d.quota_rps;
      quota_daily = d.quota_daily;
      plan = d.plan;
    }
    else row

-- The foreign key is checked only where there is a row.
abbrev pub update_tenants : String → TenantData → Statement
update_tenants id d db =
    if names_tenant id db && not (names_config (nullable d.network_id) db)
    then none
    else some (record db { tenants = map (change_tenant id d) db.tenants })

-- UpdateTenant
unfoldable pub update_tenant : Delivery → String → TenantData → Database → Bool × Database
update_tenant trip id d db = exec trip (update_tenants id d) db

-- DELETE FROM tenants, with what its foreign keys cascade to
abbrev pub delete_tenants : String → Statement
delete_tenants id db = some (record db {
  tenants = keep (λ row. not (row.id == id)) db.tenants;
  api_keys = keep (λ row. not (row.tenant_id == id)) db.api_keys;
  usage = keep (λ row. not (row.tenant_id == id)) db.usage;
  request_logs = keep (λ row. not (row.tenant_id == id)) db.request_logs;
})

-- DeleteTenant
unfoldable pub delete_tenant : Delivery → String → Database → Bool × Database
delete_tenant trip id db = exec trip (delete_tenants id) db
