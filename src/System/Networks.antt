-- ===== src/System/Networks.antt =====
-- The networks that the services share: their primary key, and what the manager makes of them.
use chainmesh.Base.{Option, ◌≡◌, refl, ap, String, List, [], ◌∷◌, inl, inr}
use chainmesh.Model.{BlockchainConfig}
use chainmesh.Redis.{Delivery, delivered, refused, lost}
use chainmesh.Store.{Database}
use chainmesh.Store.Statements.{exec}
use chainmesh.Store.Effects.{
  Tables, write-tables, store_block-tables, record_audit_log-tables, update_tenant-tables,
}
use chainmesh.Store.Keys.{Bcrypt}
use chainmesh.Store.Keys.Touched.{Touched, get_tenant_by_api_key-Touched}
use chainmesh.Store.Tenants.{
  Making, TenantData, create_tenant_with_key, rotate_api_key, delete_tenant,
}
use chainmesh.Store.Tenants.Atomic
use chainmesh.Store.Tenants.Atomic.{create_tenant_with_key-Ends, rotate_api_key-Ends}
use chainmesh.Store.Networks.Keyed.{
  ids, IsKeyed, save_blockchain_config-IsKeyed, update_blockchain_config-IsKeyed,
  delete_blockchain_config-IsKeyed,
}
use chainmesh.Base.Unique.{Unique}
use chainmesh.System.{
  Operation, looks_up, writes, stores, creates, rotates, changes_tenant, deletes_tenant,
  saves_network, changes_network, deletes_network, audits, apply, apply_all,
}

module _ (bcrypt : Bcrypt) where
  same_configs : (old new : List BlockchainConfig) → new ≡ old → Unique (ids old) → Unique (ids new)
  same_configs old new e k = rw e k

  Touched-configs : (db db' : Database) → Touched db db' → db'.configs ≡ db.configs
  Touched-configs db db' (inl e) = ap (λ (d : Database). d.configs) e
  Touched-configs db db' (inr (id, now, e)) = ap (λ (d : Database). d.configs) e

  create_tenant_with_key-configs :
      (m : Making) (d : TenantData) (key : String) (db : Database)
      → (create_tenant_with_key bcrypt m d key db).1.configs ≡ db.configs
  create_tenant_with_key-configs m d key db =
      let (ok, e, ends) = create_tenant_with_key-Ends bcrypt m d key db in
      elim ends [
        | Atomic.unchanged no_ same ↦ ap (λ (x : Database). x.configs) same
        | Atomic.changed same e ↦ ap (λ (x : Database). x.configs) same
      ]

  rotate_api_key-configs :
      (m : Making) (id key : String) (db : Database)
      → (rotate_api_key bcrypt m id key db).1.configs ≡ db.configs
  rotate_api_key-configs m id key db = elim (rotate_api_key-Ends bcrypt m id key db) [
    | Atomic.unchanged no_ same ↦ ap (λ (x : Database). x.configs) same
    | Atomic.changed same e ↦ ap (λ (x : Database). x.configs) same
  ]

  delete_tenant-configs :
      (trip : Delivery) (id : String) (db : Database)
      → (delete_tenant trip id db).1.configs ≡ db.configs
  unfolding delete_tenant exec
  delete_tenant-configs delivered id db = refl
  delete_tenant-configs refused id db = refl
  delete_tenant-configs lost id db = refl

  apply-IsKeyed : (op : Operation) (db : Database) → IsKeyed db → IsKeyed (apply bcrypt op db)
  unfolding apply
  apply-IsKeyed (looks_up trips key) db k =
      same_configs _ _ (Touched-configs db _ (get_tenant_by_api_key-Touched bcrypt trips key db)) k
  apply-IsKeyed (writes trip now job) db k =
      same_configs _ _ (ap (λ (t : Tables). t.configs) (write-tables trip now job db)) k
  apply-IsKeyed (stores trip b) db k =
      same_configs _ _ (ap (λ (t : Tables). t.configs) (store_block-tables trip b db)) k
  apply-IsKeyed (creates m d key) db k =
      same_configs _ _ (create_tenant_with_key-configs m d key db) k
  apply-IsKeyed (rotates m id key) db k = same_configs _ _ (rotate_api_key-configs m id key db) k
  apply-IsKeyed (changes_tenant trip id d) db k =
      same_configs _ _ (ap (λ (t : Tables). t.configs) (update_tenant-tables trip id d db)) k
  apply-IsKeyed (deletes_tenant trip id) db k =
      same_configs _ _ (delete_tenant-configs trip id db) k
  apply-IsKeyed (saves_network trip id now cfg) db k =
      save_blockchain_config-IsKeyed trip id now cfg db k
  apply-IsKeyed (changes_network trip now cfg) db k =
      update_blockchain_config-IsKeyed trip now cfg db k
  apply-IsKeyed (deletes_network trips id) db k = delete_blockchain_config-IsKeyed trips id db k
  apply-IsKeyed (audits trip l) db k =
      same_configs _ _ (ap (λ (t : Tables). t.configs) (record_audit_log-tables trip l db)) k

  pub apply_all-IsKeyed :
      (ops : List Operation) (db : Database) → IsKeyed db → IsKeyed (apply_all bcrypt ops db)
  unfolding apply_all
  apply_all-IsKeyed [] db k = k
  apply_all-IsKeyed (op ∷ ops) db k =
      apply_all-IsKeyed ops (apply bcrypt op db) (apply-IsKeyed op db k)
