-- ===== src/System/Revocation.antt =====
-- Keys that have been revoked stay so, whatever the services do to the database afterwards.
use mathlib.Core.Bool.{false≢true}
use chainmesh.Base.{
  ℕ, ◌≡◌, ap, Bool, true, ◌&&◌, String, List, [], ◌∷◌, map, keep, ◌==◌, inl, inr, Bool-cases, All,
  All-append,
}
use chainmesh.Redis.{Delivery, delivered, refused, lost}
use chainmesh.Store.{Database, KeyRow}
use chainmesh.Store.Statements.{exec}
use chainmesh.Store.Effects.{
  Tables, write-tables, store_block-tables, record_audit_log-tables, update_tenant-tables,
  save_blockchain_config-api_keys, update_blockchain_config-api_keys,
}
use chainmesh.Store.Keys.{Bcrypt, is_live, touch}
use chainmesh.Store.Keys.Touched.{Touched, get_tenant_by_api_key-Touched}
use chainmesh.Store.Tenants.{
  Making, TenantData, key_row, create_tenant_with_key, rotate_api_key, revoke, delete_tenant,
}
use chainmesh.Store.Tenants.Atomic
use chainmesh.Store.Tenants.Atomic.{create_tenant_with_key-Ends, rotate_api_key-Ends}
use chainmesh.Store.Networks.Deletion
use chainmesh.Store.Networks.Deletion.{delete_blockchain_config-Ends}
use chainmesh.System.{
  Operation, looks_up, writes, stores, creates, rotates, changes_tenant, deletes_tenant,
  saves_network, changes_network, deletes_network, audits, apply, apply_all,
}

-- A property of a tenant's ID and a hash that every live row has.
module _ (P : String → String → Type 0) where
  abbrev pub HasP : KeyRow → Type 0
  HasP row = is_live row ≡ true → P row.tenant_id row.key_hash

  abbrev pub AllLive : List KeyRow → Type 0
  AllLive rows = All HasP rows

  touch-HasP : (id : String) (now : ℕ) (row : KeyRow) → HasP row → HasP (touch id now row)
  touch-HasP id now row h = elim (Bool-cases (row.id == id)) [ inl e ↦ rw e h | inr e ↦ rw e h ]

  revoke-HasP : (id : String) (now : ℕ) (row : KeyRow) → HasP row → HasP (revoke id now row)
  revoke-HasP id now row h = elim (Bool-cases (row.tenant_id == id && is_live row)) [
    | inl e ↦ rw e (λ live. absurd (false≢true live))
    | inr e ↦ rw e h
  ]

  map-AllLive :
      (f : KeyRow → KeyRow)
      → ((row : KeyRow) → HasP row → HasP (f row))
      → (rows : List KeyRow) → AllLive rows
      → AllLive (map f rows)
  map-AllLive f each [] h = tt
  map-AllLive f each (row ∷ rows) (p, h) = (each row p, map-AllLive f each rows h)

  keep-AllLive : (p : KeyRow → Bool) (rows : List KeyRow) → AllLive rows → AllLive (keep p rows)
  keep-AllLive p [] h = tt
  keep-AllLive p (row ∷ rows) (q, h) = elim (Bool-cases (p row)) [
    | inl e ↦ rw e (q, keep-AllLive p rows h)
    | inr e ↦ rw e (keep-AllLive p rows h)
  ]

  same-AllLive : (old new : List KeyRow) → new ≡ old → AllLive old → AllLive new
  same-AllLive old new e h = rw e h

  module _ (bcrypt : Bcrypt) where
    -- The hashes that an operation makes have the property.
    abbrev pub Makes : Operation → Type 0
    Makes (creates m d key) = P m.tenant_id (bcrypt.generate m.salt key)
    Makes (rotates m id key) = P id (bcrypt.generate m.salt key)
    Makes _ = Unit

    looked_up : (db db' : Database) → Touched db db' → AllLive db.api_keys → AllLive db'.api_keys
    looked_up db db' (inl e) h = rw e h
    looked_up db db' (inr (id, now, e)) h =
        rw e (map-AllLive (touch id now) (touch-HasP id now) db.api_keys h)

    created :
        (m : Making) (d : TenantData) (key : String) (db : Database)
        → P m.tenant_id (bcrypt.generate m.salt key)
        → AllLive db.api_keys
        → AllLive (create_tenant_with_key bcrypt m d key db).1.api_keys
    unfolding key_row
    created m d key db p h =
        let (ok, e, ends) = create_tenant_with_key-Ends bcrypt m d key db in
        elim ends [
          | Atomic.unchanged no_ same ↦ rw same h
          | Atomic.changed same e ↦ rw same (All-append HasP db.api_keys _ h ((λ live. p), tt))
        ]

    rotated :
        (m : Making) (id key : String) (db : Database)
        → P id (bcrypt.generate m.salt key)
        → AllLive db.api_keys
        → AllLive (rotate_api_key bcrypt m id key db).1.api_keys
    unfolding key_row
    rotated m id key db p h = elim (rotate_api_key-Ends bcrypt m id key db) [
      | Atomic.unchanged no_ same ↦ rw same h
      | Atomic.changed same e ↦ rw same (
          All-append HasP (map (revoke id m.now) db.api_keys) _
            (map-AllLive (revoke id m.now) (revoke-HasP id m.now) db.api_keys h) ((λ live. p), tt))
    ]

    tenant_deleted :
        (trip : Delivery) (id : String) (db : Database)
        → AllLive db.api_keys
        → AllLive (delete_tenant trip id db).1.api_keys
    unfolding delete_tenant exec
    tenant_deleted delivered id db h = keep-AllLive _ db.api_keys h
    tenant_deleted refused id db h = h
    tenant_deleted lost id db h = keep-AllLive _ db.api_keys h

    network_deleted :
        (id : String) (db : Database) (p : Bool × Database)
        → Deletion.Ends id db p
        → AllLive db.api_keys
        → AllLive p.1.api_keys
    network_deleted id db _ Deletion.kept h = h
    network_deleted id db _ (Deletion.removed ok db' a b c d f g) h = rw g h

    pub apply-AllLive :
        (op : Operation) (db : Database)
        → Makes op
        → AllLive db.api_keys
        → AllLive (apply bcrypt op db).api_keys
    unfolding apply
    apply-AllLive (looks_up trips key) db p h =
        looked_up db _ (get_tenant_by_api_key-Touched bcrypt trips key db) h
    apply-AllLive (writes trip now job) db p h =
        same-AllLive _ _ (ap (λ (t : Tables). t.api_keys) (write-tables trip now job db)) h
    apply-AllLive (stores trip b) db p h =
        same-AllLive _ _ (ap (λ (t : Tables). t.api_keys) (store_block-tables trip b db)) h
    apply-AllLive (creates m d key) db p h = created m d key db p h
    apply-AllLive (rotates m id key) db p h = rotated m id key db p h
    apply-AllLive (changes_tenant trip id d) db p h =
        same-AllLive _ _ (ap (λ (t : Tables). t.api_keys) (update_tenant-tables trip id d db)) h
    apply-AllLive (deletes_tenant trip id) db p h = tenant_deleted trip id db h
    apply-AllLive (saves_network trip id now cfg) db p h =
        same-AllLive _ _ (save_blockchain_config-api_keys trip id now cfg db) h
    apply-AllLive (changes_network trip now cfg) db p h =
        same-AllLive _ _ (update_blockchain_config-api_keys trip now cfg db) h
    apply-AllLive (deletes_network trips id) db p h =
        network_deleted id db _ (delete_blockchain_config-Ends trips id db) h
    apply-AllLive (audits trip l) db p h =
        same-AllLive _ _ (ap (λ (t : Tables). t.api_keys) (record_audit_log-tables trip l db)) h

    pub apply_all-AllLive :
        (ops : List Operation) (db : Database)
        → All Makes ops
        → AllLive db.api_keys
        → AllLive (apply_all bcrypt ops db).api_keys
    unfolding apply_all
    apply_all-AllLive [] db p h = h
    apply_all-AllLive (op ∷ ops) db (p, ps) h =
        apply_all-AllLive ops (apply bcrypt op db) ps (apply-AllLive op db p h)
