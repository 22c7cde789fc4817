-- ===== src/System.antt =====
-- The database that the gateway, the admin service and the ingestor share: what each of them does to it
-- is one of these operations, in any order.
pub mod Revocation
pub mod Rotation
pub mod Rejection
pub mod Issue
pub mod Networks
pub mod Services
use chainmesh.Base.{ℕ, String, Bool, List, [], ◌∷◌}
use chainmesh.Model.{Block, BlockchainConfig, AuditLog}
use chainmesh.Redis.{Delivery}
use chainmesh.Proxy.{Recorded}
use chainmesh.Store.{Database}
use chainmesh.Store.Keys.{Bcrypt, Lookup, get_tenant_by_api_key}
use chainmesh.Store.Tenants.{
  TenantData, Making, create_tenant_with_key, rotate_api_key, update_tenant, delete_tenant,
}
use chainmesh.Store.Records.{write}
use chainmesh.Store.Blocks.{store_block}
use chainmesh.Store.Networks.{
  Trips, save_blockchain_config, update_blockchain_config, delete_blockchain_config,
}
use chainmesh.Store.Audit.{record_audit_log}

-- A call of a store that writes, with its arguments and the fate of its statements.
pub data Operation : Type 0 where
  looks_up : Lookup → (key : String) → Operation
  writes : Delivery → ℕ → Recorded → Operation
  stores : Delivery → Block → Operation
  creates : Making → TenantData → (key : String) → Operation
  rotates : Making → (tenant_id key : String) → Operation
  changes_tenant : Delivery → (id : String) → TenantData → Operation
  deletes_tenant : Delivery → (id : String) → Operation
  saves_network : Delivery → (id : String) → ℕ → BlockchainConfig → Operation
  changes_network : Delivery → ℕ → BlockchainConfig → Operation
  deletes_network : Trips → (id : String) → Operation
  audits : Delivery → AuditLog → Operation

unfoldable pub apply : Bcrypt → Operation → Database → Database
apply bcrypt (looks_up trips key) db = (get_tenant_by_api_key bcrypt trips key db).1
apply bcrypt (writes trip now job) db = (write trip now job db).1
apply bcrypt (stores trip b) db = (store_block trip b db).1
apply bcrypt (creates m d key) db = (create_tenant_with_key bcrypt m d key db).1
apply bcrypt (rotates m id key) db = (rotate_api_key bcrypt m id key db).1
apply bcrypt (changes_tenant trip id d) db = (update_tenant trip id d db).1
apply bcrypt (deletes_tenant trip id) db = (delete_tenant trip id db).1
apply bcrypt (saves_network trip id now cfg) db = (save_blockchain_config trip id now cfg db).1
apply bcrypt (changes_network trip now cfg) db = (update_blockchain_config trip now cfg db).1
apply bcrypt (deletes_network trips id) db = (delete_blockchain_config trips id db).1
apply bcrypt (audits trip l) db = (record_audit_log trip l db).1

unfoldable pub apply_all : Bcrypt → List Operation → Database → Database
apply_all bcrypt [] db = db
apply_all bcrypt (op ∷ ops) db = apply_all bcrypt ops (apply bcrypt op db)
