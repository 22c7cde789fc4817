-- ===== src/Store/Tenants/Rotation.antt =====
-- Which keys work after a tenant is created and after its key is rotated.
use Prim.Native.String.{len}
use mathlib.Core.List.{Memᴰ}
use mathlib.Core.List.Memᴰ
use mathlib.Core.Path.{subst}
use mathlib.Core.Bool.{false≢true}
use chainmesh.Base.{
  ℕ, ◌≤◌, ◌≡◌, ◌≢◌, refl, sym, ap, ◌∙◌, String, Bool, true, false, ◌&&◌, none, some, List, [], ◌∷◌,
  ◌++◌, map, keep, ◌==◌, eq_iff, eq_refl, arith, inl, inr, Bool-cases, if◌then◌else◌,
}
use chainmesh.Base.Members.{keep-append}
use chainmesh.Model.{Tenant}
use chainmesh.Store.{Database, TenantRow, KeyRow}
use chainmesh.Store.Keys.{
  Bcrypt, api_key_prefix, scan_tenant, find_tenant, is_live, is_candidate, first_match, Lookup,
  get_tenant_by_api_key,
}
use chainmesh.Store.Keys.Resolve.{
  IsAuthorized, undisturbed, resolves, get_tenant_by_api_key-IsAuthorized,
}
use chainmesh.Store.Tenants.{
  key_row, TenantData, Making, tenant_row, create_tenant_with_key, revoke, rotate_api_key,
}
use chainmesh.Store.Tenants.Atomic.{
  Ends, unchanged, changed, with_tenant, create_tenant_with_key-Ends, with_rotated,
  rotate_api_key-Ends,
}

-- The key matches no live row yet.
abbrev pub IsUnused : Bcrypt → String → List KeyRow → Type 0
IsUnused bcrypt key rows =
    first_match bcrypt key (keep (is_candidate (api_key_prefix key)) rows) ≡ none

first_match-append :
    (bcrypt : Bcrypt) (key : String) (xs ys : List KeyRow)
    → first_match bcrypt key xs ≡ none
    → first_match bcrypt key (xs ++ ys) ≡ first_match bcrypt key ys
unfolding first_match
first_match-append bcrypt key [] ys h = refl
first_match-append bcrypt key (x ∷ xs) ys h = elim (Bool-cases (bcrypt.compare x.key_hash key)) [
  | inl e ↦ let h' : some x ≡ none = rw (e, first_match) at h in absurd (ground arith)
  | inr e ↦ rw (e, first_match) (first_match-append bcrypt key xs ys (rw (e, first_match) at h))
]

-- The new row of a key is found after rows that the key does not match.
new_row_found :
    (bcrypt : Bcrypt) (rows : List KeyRow) (id tenant name salt key : String) (now : ℕ)
    → len key ≤ 72
    → IsUnused bcrypt key rows
    → first_match bcrypt key (
        keep
          (is_candidate (api_key_prefix key))
          (rows ++ (key_row bcrypt id tenant name salt key now ∷ [])))
      ≡ some (key_row bcrypt id tenant name salt key now)
unfolding key_row first_match
new_row_found bcrypt rows id tenant name salt key now short unused =
    let k = key_row bcrypt id tenant name salt key now in
    let p = is_candidate (api_key_prefix key) in
    rw
      (
        keep-append p rows (k ∷ []),
        first_match-append bcrypt key (keep p rows) (keep p (k ∷ [])) unused,
      )
      (rw (eq_refl, bcrypt.compare_generate salt key short) refl)

find_tenant-append :
    (id : String) (rows : List TenantRow) (row : TenantRow)
    → find_tenant id rows ≡ none
    → row.id ≡ id
    → find_tenant id (rows ++ (row ∷ [])) ≡ some row
find_tenant-append id [] row h e = rw (e, eq_refl) refl
find_tenant-append id (r ∷ rs) row h e = elim (Bool-cases (r.id == id)) [
  | inl same ↦ let h' : some r ≡ none = rw (same, find_tenant) at h in absurd (ground arith)
  | inr other ↦
      rw (other, find_tenant) (find_tenant-append id rs row (rw (other, find_tenant) at h) e)
]

not_empty : (s : String) → s ≢ "" → (s == "") ≡ false
not_empty s h = ground (arith, eq_iff s "")

-- A tenant that was created is what its key resolves to in a lookup that loses nothing, if the key is
-- not too long for bcrypt, if it matches no live row of before, and if the server's ID for the tenant is
-- new and not empty.
pub create_tenant_with_key-resolves :
    (bcrypt : Bcrypt) (m : Making) (d : TenantData) (key : String) (db : Database) (t : Tenant)
    (now : ℕ)
    → (create_tenant_with_key bcrypt m d key db).0 ≡ some t
    → len key ≤ 72
    → IsUnused bcrypt key db.api_keys
    → m.tenant_id ≢ ""
    → find_tenant m.tenant_id db.tenants ≡ none
    → (get_tenant_by_api_key bcrypt
        (undisturbed now)
        key
        (create_tenant_with_key bcrypt m d key db).1).0
      ≡ some t
unfolding tenant_row key_row
create_tenant_with_key-resolves bcrypt m d key db t now made short unused named new =
    let (ok, result, ends) = create_tenant_with_key-Ends bcrypt m d key db in
    created ok (sym result ∙ made) ends
  where
    created :
        (ok : Bool)
        → (if ok then some (scan_tenant (tenant_row d m)) else none) ≡ some t
        → Ends db
            (with_tenant
              (tenant_row d m)
              (key_row bcrypt m.key_id m.tenant_id "default" m.salt key m.now)
              db)
            m.committing
            (ok, (create_tenant_with_key bcrypt m d key db).1)
        → (get_tenant_by_api_key bcrypt
            (undisturbed now)
            key
            (create_tenant_with_key bcrypt m d key db).1).0
          ≡ some t
    created false h ends = absurd (ground arith)
    created true h (unchanged e same) = absurd (ground arith)
    created true h (changed same e) = rw same (
        resolves bcrypt now key _ _ (tenant_row d m)
          (new_row_found bcrypt db.api_keys m.key_id m.tenant_id "default" m.salt key m.now short
            unused)
          (not_empty m.tenant_id named)
          (find_tenant-append m.tenant_id db.tenants (tenant_row d m) new refl)
        ∙ h)

revoked_not_live :
    (id : String) (now : ℕ) (x : KeyRow)
    → is_live (revoke id now x) ≡ true
    → ((revoke id now x).tenant_id == id) ≡ false
revoked_not_live id now x h = elim (Bool-cases (x.tenant_id == id && is_live x)) [
  | inl hit ↦ let h' : false ≡ true = rw hit at h in absurd (ground arith)
  | inr kept ↦ rw kept (other (rw kept at h))
]
  where
    other : is_live x ≡ true → (x.tenant_id == id) ≡ false
    other live = ground arith

-- A row that stands for the tenant after its keys are rotated is the new one.
pub rotated_row :
    (bcrypt : Bcrypt) (m : Making) (id key : String) (db : Database) (row : KeyRow)
    → Memᴰ row
        (with_rotated id m.now (key_row bcrypt m.key_id id "rotated" m.salt key m.now) db).api_keys
    → is_live row ≡ true
    → row.tenant_id ≡ id
    → row ≡ key_row bcrypt m.key_id id "rotated" m.salt key m.now
rotated_row bcrypt m id key db row listed live mine =
    elim (Memᴰ.append_cases (map (revoke id m.now) db.api_keys) listed) [
      | inr new ↦ Memᴰ.eq_of_singleton new
      | inl old ↦
          let (x, there, e) = Memᴰ.of_map (revoke id m.now) db.api_keys old in
          let live' : is_live (revoke id m.now x) ≡ true = ap is_live e ∙ live in
          let mine' : (revoke id m.now x).tenant_id ≡ id = ap (λ r. r.tenant_id) e ∙ mine in
          absurd (false≢true (sym (revoked_not_live id m.now x live') ∙ (eq_iff _ _).1 mine'))
    ]

-- After RotateAPIKey has succeeded, a key that resolves to the tenant is one that matches the hash of
-- the new key, whatever of the lookup's trips is lost.
pub rotate_api_key-revokes :
    (bcrypt : Bcrypt) (m : Making) (id key : String) (db : Database) (trips : Lookup)
    (other : String) (t : Tenant)
    → (rotate_api_key bcrypt m id key db).0 ≡ true
    → (get_tenant_by_api_key bcrypt trips other (rotate_api_key bcrypt m id key db).1).0 ≡ some t
    → t.id ≡ id
    → bcrypt.compare (bcrypt.generate m.salt key) other ≡ true
unfolding scan_tenant key_row
rotate_api_key-revokes bcrypt m id key db trips other t done found mine =
    rotated (rotate_api_key-Ends bcrypt m id key db)
  where
    a : IsAuthorized bcrypt other (rotate_api_key bcrypt m id key db).1 t
    a = get_tenant_by_api_key-IsAuthorized bcrypt trips other _ t found

    rotated :
        Ends db
          (with_rotated id m.now (key_row bcrypt m.key_id id "rotated" m.salt key m.now) db)
          m.committing
          (rotate_api_key bcrypt m id key db)
        → bcrypt.compare (bcrypt.generate m.salt key) other ≡ true
    rotated (unchanged e same) = absurd (false≢true (sym e ∙ done))
    rotated (changed same e) =
        let listed = subst (λ (d : Database). Memᴰ a.row d.api_keys) same a.listed in
        let new =
          rotated_row bcrypt m id key db a.row listed a.live
            (sym a.owned ∙ (ap (λ (x : Tenant). x.id) (sym a.scanned) ∙ mine)) in
        subst (λ (r : KeyRow). bcrypt.compare r.key_hash other ≡ true) new a.verified

-- Revoking keys does not make a key match a row.
revoke-IsUnused :
    (bcrypt : Bcrypt) (key id : String) (now : ℕ) (rows : List KeyRow)
    → IsUnused bcrypt key rows
    → IsUnused bcrypt key (map (revoke id now) rows)
unfolding first_match
revoke-IsUnused bcrypt key id now [] h = h
revoke-IsUnused bcrypt key id now (x ∷ xs) h =
    elim (Bool-cases (is_candidate (api_key_prefix key) x)) [
      | inr out ↦ without (still_out out) (revoke-IsUnused bcrypt key id now xs (rw out at h))
      | inl candidate ↦ elim (Bool-cases (bcrypt.compare x.key_hash key)) [
        | inl match ↦
            let h' : some x ≡ none = rw (candidate, first_match, match) at h in
            absurd (ground arith)
        | inr differs ↦
            let ih =
              revoke-IsUnused bcrypt key id now xs (rw (candidate, first_match, differs) at h) in
            elim (Bool-cases (is_candidate (api_key_prefix key) (revoke id now x))) [
              | inr gone ↦ without gone ih
              | inl stays ↦ rw (stays, same_hash, differs) ih
            ]
      ]
    ]
  where
    same_hash : (revoke id now x).key_hash ≡ x.key_hash
    same_hash = ground arith

    still_out :
        is_candidate (api_key_prefix key) x ≡ false
        → is_candidate (api_key_prefix key) (revoke id now x) ≡ false
    still_out out = ground arith

    without :
        is_candidate (api_key_prefix key) (revoke id now x) ≡ false
        → IsUnused bcrypt key (map (revoke id now) xs)
        → IsUnused bcrypt key (map (revoke id now) (x ∷ xs))
    without out ih = rw out ih

-- After RotateAPIKey has succeeded for a tenant that exists, whose ID is not empty, the new key resolves
-- to the tenant in a lookup that loses nothing, if it is not too long for bcrypt and matched no live row
-- before.
pub rotate_api_key-resolves :
    (bcrypt : Bcrypt) (m : Making) (id key : String) (db : Database) (owner : TenantRow) (now : ℕ)
    → (rotate_api_key bcrypt m id key db).0 ≡ true
    → len key ≤ 72
    → IsUnused bcrypt key db.api_keys
    → id ≢ ""
    → find_tenant id db.tenants ≡ some owner
    → (get_tenant_by_api_key bcrypt (undisturbed now) key (rotate_api_key bcrypt m id key db).1).0
      ≡ some (scan_tenant owner)
unfolding key_row
rotate_api_key-resolves bcrypt m id key db owner now done short unused named owned =
    rotated (rotate_api_key-Ends bcrypt m id key db)
  where
    rotated :
        Ends db
          (with_rotated id m.now (key_row bcrypt m.key_id id "rotated" m.salt key m.now) db)
          m.committing
          (rotate_api_key bcrypt m id key db)
        → (get_tenant_by_api_key bcrypt
            (undisturbed now)
            key
            (rotate_api_key bcrypt m id key db).1).0
          ≡ some (scan_tenant owner)
    rotated (unchanged e same) = absurd (false≢true (sym e ∙ done))
    rotated (changed same e) = rw same (
        resolves bcrypt now key _ _ owner
          (new_row_found bcrypt (map (revoke id m.now) db.api_keys) m.key_id id "rotated" m.salt key
            m.now short (revoke-IsUnused bcrypt key id m.now db.api_keys unused))
          (not_empty id named) owned)
