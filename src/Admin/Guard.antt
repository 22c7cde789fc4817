-- ===== src/Admin/Guard.antt =====
-- Who may change what through the admin service.
use Prim.Native.String.{len}
use chainmesh.Base.{
  ℕ, ◌≤◌, ◌≡◌, ◌≢◌, refl, sym, ◌∙◌, String, Bool, true, false, Option, none, some, ◌==◌, arith,
  if◌then◌else◌,
}
use mathlib.Core.Bool.{false≢true}
use chainmesh.ApiKey.Shape.{len-generate_api_key}
use chainmesh.Model.{Tenant, AuditLog}
use chainmesh.Redis.{Delivery, delivered, refused, lost}
use chainmesh.Store.Statements.{exec}
use chainmesh.Store.{Database}
use chainmesh.Store.Keys.{find_tenant, get_tenant_by_api_key}
use chainmesh.Store.Keys.Resolve.{undisturbed, lookup_same}
use chainmesh.Store.Tenants.{TenantData, create_tenant_with_key}
use chainmesh.Store.Tenants.Rotation.{IsUnused, create_tenant_with_key-resolves}
use chainmesh.Store.Audit.{record_audit_log}
use chainmesh.Admin.{
  Route, health, tenants, tenant, put_tenant, delete_tenant_by_id, rotate_key, tenant_usage,
  networks, create_network, network, put_network, delete_network, stats, audit_logs, blocks, error,
  Answer, World, handle, new_tenant, created, generated_key, post_tenant, after_creation,
  bad_request, creation_log, create_tenant,
}

-- The routes whose handlers run a statement that writes.
abbrev pub writes : Route → Bool
writes (create_tenant d) = true
writes (delete_tenant_by_id id) = true
writes (rotate_key id) = true
writes (create_network cfg) = true
writes (delete_network id) = true
writes _ = false

-- A request of any other route leaves the database as it is. The two PUT routes are among them, which
-- answer that the row was updated.
pub handle-reads :
    (w : World) (r : Route) (db : Database) → writes r ≡ false → (handle w r db).1 ≡ db
unfolding handle
handle-reads w health db h = refl
handle-reads w tenants db h = refl
handle-reads w (create_tenant d) db h = absurd (false≢true (sym h))
handle-reads w (tenant id) db h = refl
handle-reads w (put_tenant id) db h = refl
handle-reads w (delete_tenant_by_id id) db h = absurd (false≢true (sym h))
handle-reads w (rotate_key id) db h = absurd (false≢true (sym h))
handle-reads w (tenant_usage id day) db h = refl
handle-reads w networks db h = refl
handle-reads w (create_network cfg) db h = absurd (false≢true (sym h))
handle-reads w (network id) db h = refl
handle-reads w (put_network id) db h = refl
handle-reads w (delete_network id) db h = absurd (false≢true (sym h))
handle-reads w (stats range) db h = refl
handle-reads w blocks db h = refl
handle-reads w (audit_logs limit) db h = refl

abbrev pub forbidden : Answer
forbidden = record { status = 403; body = error "forbidden" }

-- What an audit log leaves.
audited :
    (trip : Delivery) (l : AuditLog) (db : Database)
    → ((record_audit_log trip l db).1.api_keys ≡ db.api_keys)
      × ((record_audit_log trip l db).1.tenants ≡ db.tenants)
unfolding record_audit_log exec
audited delivered l db = (refl, refl)
audited refused l db = (refl, refl)
audited lost l db = (refl, refl)

-- If a creation is answered 201, it answers a tenant and the generated key, and a lookup of the key right
-- after it gives that tenant: if no live key that the lookup would try
-- matches it, and the server's new id is not empty and not in use. The audit log may be lost.
pub post_tenant-resolves :
    (w : World) (d : TenantData) (db : Database) (now : ℕ)
    → (post_tenant w (some d) db).0.status ≡ 201
    → IsUnused w.bcrypt (generated_key w) db.api_keys
    → w.making.tenant_id ≢ ""
    → find_tenant w.making.tenant_id db.tenants ≡ none
    → (t : Tenant) × ((post_tenant w (some d) db).0 ≡ created (new_tenant t (generated_key w)))
      × ((get_tenant_by_api_key w.bcrypt
            (undisturbed now)
            (generated_key w)
            (post_tenant w (some d) db).1).0
          ≡ some t)
unfolding post_tenant
post_tenant-resolves w d db now answered unused named new = by_name (d.name == "") answered
  where
    short : len (generated_key w) ≤ 72
    short = omega (arith, len-generate_api_key w.random)

    made : Option Tenant × Database
    made = create_tenant_with_key w.bcrypt w.making d (generated_key w) db

    answer_of : Bool → Answer × Database
    answer_of b = if b then (bad_request "name is required", db) else after_creation w made.0 made.1

    by_tenant :
        (o : Option Tenant) (db' : Database)
        → ((s : Tenant)
            → o ≡ some s
            → (get_tenant_by_api_key w.bcrypt (undisturbed now) (generated_key w) db').0 ≡ some s)
        → (after_creation w o db').0.status ≡ 201
        → (t : Tenant) × ((after_creation w o db').0 ≡ created (new_tenant t (generated_key w)))
          × ((get_tenant_by_api_key w.bcrypt
                (undisturbed now)
                (generated_key w)
                (after_creation w o db').1).0
              ≡ some t)
    by_tenant none db' works h = absurd (omega (arith, h))
    by_tenant (some s) db' works h =
        let (k, t) = audited w.audit_trip (creation_log w s) db' in
        (s, refl, lookup_same w.bcrypt now (generated_key w) _ db' k t ∙ works s refl)

    by_name :
        (b : Bool)
        → (answer_of b).0.status ≡ 201
        → (t : Tenant) × ((answer_of b).0 ≡ created (new_tenant t (generated_key w)))
          × ((get_tenant_by_api_key w.bcrypt (undisturbed now) (generated_key w) (answer_of b).1).0
              ≡ some t)
    by_name true h = absurd (omega (arith, h))
    by_name false h =
        by_tenant _ _
          (λ s e.
            create_tenant_with_key-resolves w.bcrypt w.making d (generated_key w) db s now e short
              unused named new)
          h
