-- ===== src/System/Rotation.antt =====
-- A rotation through the admin service, and what the gateway does with the old keys afterwards.
use mathlib.Core.List.{Memᴰ}
use mathlib.Core.Bool.{false≢true}
use chainmesh.Base.{
  ◌≡◌, refl, sym, ap, ◌∙◌, true, String, some, List, [], ◌∷◌, ◌==◌, eq_iff, inl, inr, Bool-cases,
  All, if◌then◌else◌,
}
use chainmesh.Base.Members.{All-mem, All-of_mem}
use chainmesh.Model.{Tenant}
use chainmesh.Store.{Database, KeyRow}
use chainmesh.Store.Keys.{Bcrypt, Lookup, scan_tenant, get_tenant_by_api_key}
use chainmesh.Store.Keys.Resolve.{get_tenant_by_api_key-IsAuthorized}
use chainmesh.Store.Tenants.{Making, key_row, rotate_api_key}
use chainmesh.Store.Tenants.Atomic.{unchanged, changed, with_rotated, rotate_api_key-Ends}
use chainmesh.Store.Tenants.Rotation.{rotated_row}
use chainmesh.System.{
  Operation, looks_up, writes, stores, creates, rotates, changes_tenant, deletes_tenant,
  saves_network, changes_network, deletes_network, audits, apply_all,
}
use chainmesh.System.Revocation.{HasP, AllLive, Makes, apply_all-AllLive}

-- The hashes that operations make for a tenant.
abbrev pub generated : Bcrypt → String → List Operation → List String
generated bcrypt id [] = []
generated bcrypt id (creates m d key ∷ ops) =
    if m.tenant_id == id
    then bcrypt.generate m.salt key ∷ generated bcrypt id ops
    else generated bcrypt id ops
generated bcrypt id (rotates m tenant_id key ∷ ops) =
    if tenant_id == id
    then bcrypt.generate m.salt key ∷ generated bcrypt id ops
    else generated bcrypt id ops
generated bcrypt id (looks_up trips key ∷ ops) = generated bcrypt id ops
generated bcrypt id (writes trip now job ∷ ops) = generated bcrypt id ops
generated bcrypt id (stores trip b ∷ ops) = generated bcrypt id ops
generated bcrypt id (changes_tenant trip i d ∷ ops) = generated bcrypt id ops
generated bcrypt id (deletes_tenant trip i ∷ ops) = generated bcrypt id ops
generated bcrypt id (saves_network trip i now cfg ∷ ops) = generated bcrypt id ops
generated bcrypt id (changes_network trip now cfg ∷ ops) = generated bcrypt id ops
generated bcrypt id (deletes_network trips i ∷ ops) = generated bcrypt id ops
generated bcrypt id (audits trip l ∷ ops) = generated bcrypt id ops

-- The database that a rotation without an error leaves.
pub rotated_keys :
    (bcrypt : Bcrypt) (m : Making) (id key : String) (db : Database)
    → (rotate_api_key bcrypt m id key db).0 ≡ true
    → (rotate_api_key bcrypt m id key db).1
      ≡ with_rotated id m.now (key_row bcrypt m.key_id id "rotated" m.salt key m.now) db
rotated_keys bcrypt m id key db done = elim (rotate_api_key-Ends bcrypt m id key db) [
  | unchanged e same ↦ absurd (false≢true (sym e ∙ done))
  | changed same e ↦ same
]

module _ (bcrypt : Bcrypt) (id : String) (hashes : List String) where
  -- The hash of a live row of the tenant is a listed one.
  abbrev Listed : String → String → Type 0
  Listed tenant_id hash = tenant_id ≡ id → Memᴰ hash hashes

  abbrev Within : List String → Type 0
  Within others = (h : String) → Memᴰ h others → Memᴰ h hashes

  one_made :
      (tenant_id hash : String) (rest : List String)
      → Within (if tenant_id == id then hash ∷ rest else rest)
      → Listed tenant_id hash × Within rest
  one_made tenant_id hash rest w = elim (Bool-cases (tenant_id == id)) [
    | inl e ↦ let w' = rw e at w in ((λ same. w' hash (Memᴰ.head refl)), λ h m. w' h (Memᴰ.tail m))
    | inr e ↦
        let w' = rw e at w in
        ((λ same. absurd (false≢true (sym e ∙ (eq_iff tenant_id id).1 same))), w')
  ]

  all-Listed :
      (ops : List Operation) → Within (generated bcrypt id ops) → All (Makes Listed bcrypt) ops
  all-Listed [] w = tt
  all-Listed (creates m d key ∷ ops) w =
      let (p, w') = one_made m.tenant_id (bcrypt.generate m.salt key) (generated bcrypt id ops) w in
      (p, all-Listed ops w')
  all-Listed (rotates m tenant_id key ∷ ops) w =
      let (p, w') = one_made tenant_id (bcrypt.generate m.salt key) (generated bcrypt id ops) w in
      (p, all-Listed ops w')
  all-Listed (looks_up trips key ∷ ops) w = (tt, all-Listed ops w)
  all-Listed (writes trip now job ∷ ops) w = (tt, all-Listed ops w)
  all-Listed (stores trip b ∷ ops) w = (tt, all-Listed ops w)
  all-Listed (changes_tenant trip i d ∷ ops) w = (tt, all-Listed ops w)
  all-Listed (deletes_tenant trip i ∷ ops) w = (tt, all-Listed ops w)
  all-Listed (saves_network trip i now cfg ∷ ops) w = (tt, all-Listed ops w)
  all-Listed (changes_network trip now cfg ∷ ops) w = (tt, all-Listed ops w)
  all-Listed (deletes_network trips i ∷ ops) w = (tt, all-Listed ops w)
  all-Listed (audits trip l ∷ ops) w = (tt, all-Listed ops w)

-- After RotateAPIKey has succeeded, and after whatever else the three services have done to the database
-- since, a key that resolves to the tenant matches the hash of the new key, or one that was made for the
-- tenant since.
pub rotate_api_key-stays :
    (bcrypt : Bcrypt) (m : Making) (id key : String) (db : Database) (ops : List Operation)
    (trips : Lookup) (other : String) (t : Tenant)
    → (rotate_api_key bcrypt m id key db).0 ≡ true
    → (get_tenant_by_api_key bcrypt trips other
        (apply_all bcrypt ops (rotate_api_key bcrypt m id key db).1)).0
      ≡ some t
    → t.id ≡ id
    → (hash : String) × Memᴰ hash (bcrypt.generate m.salt key ∷ generated bcrypt id ops)
      × (bcrypt.compare hash other ≡ true)
unfolding key_row scan_tenant
rotate_api_key-stays bcrypt m id key db ops trips other t done found mine =
    let hashes = bcrypt.generate m.salt key ∷ generated bcrypt id ops in
    let after = apply_all bcrypt ops (rotate_api_key bcrypt m id key db).1 in
    let a = get_tenant_by_api_key-IsAuthorized bcrypt trips other after t found in
    let all =
      apply_all-AllLive (Listed bcrypt id hashes) bcrypt ops (rotate_api_key bcrypt m id key db).1
        (all-Listed bcrypt id hashes ops (λ h n. Memᴰ.tail n)) start in
    let owned = sym a.owned ∙ ap (λ (x : Tenant). x.id) (sym a.scanned) ∙ mine in
    (
      a.row.key_hash,
      All-mem (HasP (Listed bcrypt id hashes)) after.api_keys all a.listed a.live owned,
      a.verified,
    )
  where
    start :
        AllLive
          (Listed bcrypt id (bcrypt.generate m.salt key ∷ generated bcrypt id ops))
          (rotate_api_key bcrypt m id key db).1.api_keys
    start = rw (rotated_keys bcrypt m id key db done) (
        All-of_mem _ _ (λ row listed live mine'.
          let e = rotated_row bcrypt m id key db row listed live mine' in
          Memᴰ.head (ap (λ (r : KeyRow). r.key_hash) e)))
