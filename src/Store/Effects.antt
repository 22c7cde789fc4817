-- ===== src/Store/Effects.antt =====
-- The tables that the stores' operations leave alone.
use chainmesh.Base.{
  ℕ, ◌≡◌, refl, Bool, true, false, not, ◌&&◌, String, Option, none, some, List, if◌then◌else◌,
}
use chainmesh.Model.{Block, AuditLog, BlockchainConfig}
use chainmesh.Proxy.{Recorded}
use chainmesh.Proxy
use chainmesh.Redis.{Delivery, delivered, refused, lost}
use chainmesh.Store.{Database, KeyRow}
use chainmesh.Store.Statements.{Statement, exec, or_else}
use chainmesh.Store.Tenants.{
  TenantData, nullable, names_config, names_tenant, update_tenants, update_tenant,
}
use chainmesh.Store.Records.{upsert_usage, record_usage, insert_log, record_request_log, write}
use chainmesh.Store.Blocks.{has_block, insert_block, store_block}
use chainmesh.Store.Audit.{record_audit_log}
use chainmesh.Store.Networks.{save_blockchain_config, update_blockchain_config}

-- What a statement leaves alone, a call that runs it leaves alone.
module _ {B : Type 0} (f : Database → B) where
  abbrev pub Keeps : Database → Option Database → Type 0
  Keeps db none = Unit
  Keeps db (some db') = f db' ≡ f db

  pub exec-Keeps :
      (trip : Delivery) (s : Statement) (db : Database)
      → Keeps db (s db)
      → f (exec trip s db).1 ≡ f db
  unfolding exec
  exec-Keeps refused s db h = refl
  exec-Keeps delivered s db h = run (s db) h
    where
      run : (o : Option Database) → Keeps db o → f (or_else o db).1 ≡ f db
      run none h = refl
      run (some db') h = h
  exec-Keeps lost s db h = run (s db) h
    where
      run : (o : Option Database) → Keeps db o → f (or_else o db).1 ≡ f db
      run none h = refl
      run (some db') h = h

  pub Keeps-if :
      (b : Bool) (db : Database) (x y : Option Database)
      → Keeps db x
      → Keeps db y
      → Keeps db (if b then x else y)
  Keeps-if true db x y h k = h
  Keeps-if false db x y h k = k

-- The tables of the accounts' keys and of the networks.
pub record Tables : Type 0 where
  pub api_keys : List KeyRow
  pub configs : List BlockchainConfig

abbrev pub tables : Database → Tables
tables db = record { api_keys = db.api_keys; configs = db.configs }

pub write-tables :
    (trip : Delivery) (now : ℕ) (job : Recorded) (db : Database)
    → tables (write trip now job db).1 ≡ tables db
unfolding write record_usage upsert_usage record_request_log insert_log
write-tables trip now (Proxy.usage u) db =
    exec-Keeps tables trip (upsert_usage u) db
      (Keeps-if tables (names_tenant u.tenant_id db) db _ _ refl tt)
write-tables trip now (Proxy.request_log l) db = exec-Keeps tables trip (insert_log l now) db (
    Keeps-if tables (names_tenant l.tenant_id db && names_config (nullable l.network_id) db) db _ _
      refl tt)

pub store_block-tables :
    (trip : Delivery) (b : Block) (db : Database) → tables (store_block trip b db).1 ≡ tables db
unfolding store_block insert_block
store_block-tables trip b db = exec-Keeps tables trip (insert_block b) db (
    Keeps-if tables (has_block b.number b.network_id db.blocks) db _ _ refl
      (Keeps-if tables (not (names_config (some b.network_id) db)) db _ _ tt refl))

pub record_audit_log-tables :
    (trip : Delivery) (l : AuditLog) (db : Database)
    → tables (record_audit_log trip l db).1 ≡ tables db
unfolding record_audit_log
record_audit_log-tables trip l db = exec-Keeps tables trip _ db refl

pub update_tenant-tables :
    (trip : Delivery) (id : String) (d : TenantData) (db : Database)
    → tables (update_tenant trip id d db).1 ≡ tables db
unfolding update_tenant
update_tenant-tables trip id d db = exec-Keeps tables trip (update_tenants id d) db (
    Keeps-if tables (names_tenant id db && not (names_config (nullable d.network_id) db)) db _ _ tt
      refl)

-- The operations on networks leave the keys alone.
pub save_blockchain_config-api_keys :
    (trip : Delivery) (id : String) (now : ℕ) (cfg : BlockchainConfig) (db : Database)
    → (save_blockchain_config trip id now cfg db).1.api_keys ≡ db.api_keys
unfolding save_blockchain_config
save_blockchain_config-api_keys trip id now cfg db =
    exec-Keeps (λ d. d.api_keys) trip _ db
      (Keeps-if (λ d. d.api_keys) (names_config (some id) db) db _ _ tt refl)

pub update_blockchain_config-api_keys :
    (trip : Delivery) (now : ℕ) (cfg : BlockchainConfig) (db : Database)
    → (update_blockchain_config trip now cfg db).1.api_keys ≡ db.api_keys
unfolding update_blockchain_config
update_blockchain_config-api_keys trip now cfg db = exec-Keeps (λ d. d.api_keys) trip _ db refl
