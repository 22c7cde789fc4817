-- ===== src/System/Issue.antt =====
-- A key that the admin service gives out, at the gateway.
use Prim.Native.String.{◌++◌}
use mathlib.Core.List.{Memᴰ}
use mathlib.Core.Option.{some-injective}
use text.Mathlib.TextPositions.{starts_with-append, len-append, slice-append_right}
use chainmesh.Base.{
  ℕ, ◌≤◌, ◌<◌, ◌≡◌, ◌≢◌, sym, ap, ◌∙◌, true, false, String, none, some, List, [], ◌∷◌, inl, inr,
  Bool-cases, arith, All, ltb, if◌then◌else◌,
}
use chainmesh.Base.Members.{All-mem}
use chainmesh.Model.{Tenant}
use chainmesh.Auth.{Resolver, Arrival, Outcome, next, bearer, new_tenant_cache}
use chainmesh.Auth.Staleness.{handle_all, Justified, AllJustified, handle_all-AllJustified}
use chainmesh.Store.{Database}
use chainmesh.Store.Keys.{find_tenant, get_tenant_by_api_key}
use chainmesh.Store.Keys.Resolve.{undisturbed}
use chainmesh.Store.Tenants.{TenantData}
use chainmesh.Store.Tenants.Rotation.{IsUnused}
use chainmesh.Admin.{World, created, new_tenant, generated_key, post_tenant}
use chainmesh.Admin.Guard.{post_tenant-resolves}

-- The middleware takes back out of the header what a client puts into it.
pub bearer-append : (key : String) → bearer ("Bearer " ++ key) ≡ some key
unfolding bearer
bearer-append key =
    rw (starts_with-append "Bearer " key, len-append "Bearer " key)
      (ap some (slice-append_right "Bearer " key))

module _ (db : Resolver) (ttl : ℕ) (key : String) (tenant : Tenant) (since : ℕ)
    (unknown : (t : ℕ) → t < since → db t key ≡ none)
    (known : (t : ℕ) → since ≤ t → db t key ≡ some tenant) where
  -- A request with the key from then on is passed on with the tenant.
  abbrev IsServed : Arrival × Outcome → Type 0
  IsServed (a, o) = bearer a.authorization ≡ some key → since ≤ a.resolved → o ≡ next tenant

  answered : (t : ℕ) (k : String) (other : Tenant) → k ≡ key → db t k ≡ some other → other ≡ tenant
  answered t k other same e = elim (Bool-cases (ltb t since)) [
    | inl early ↦
        let h : none ≡ some other = sym (ap (db t) same ∙ unknown t (ground arith)) ∙ e in
        absurd (ground arith)
    | inr later ↦ some-injective _ _ (sym e ∙ (ap (db t) same ∙ known t (ground arith)))
  ]

  Justified-IsServed :
      (past : List Arrival) (a : Arrival) (o : Outcome)
      → Justified db ttl past a o
      → IsServed (a, o)
  Justified-IsServed past a _ (Justified.no_key e) b r =
      let h : none ≡ some key = sym e ∙ b in absurd (ground arith)
  Justified-IsServed past a _ (Justified.refused {key = k} e no_answer) b r =
      let same : k ≡ key = some-injective _ _ (sym e ∙ b) in
      let h : none ≡ some tenant = sym no_answer ∙ (ap (db a.resolved) same ∙ known a.resolved r) in
      absurd (ground arith)
  Justified-IsServed past a _ (Justified.fresh {key = k} {tenant = t} e answer) b r =
      ap next (answered a.resolved k t (some-injective _ _ (sym e ∙ b)) answer)
  Justified-IsServed past a _ (Justified.remembered {key = k} {tenant = t} e o le) b r =
      ap next (answered o.source.resolved k t (some-injective _ _ (sym e ∙ b)) o.answer)

  all-IsServed :
      (past : List Arrival) (rs : List (Arrival × Outcome))
      → AllJustified db ttl past rs
      → All IsServed rs
  all-IsServed past [] j = tt
  all-IsServed past ((a, o) ∷ rs) j =
      (Justified-IsServed past a o j.0, all-IsServed (a ∷ past) rs j.1)

  served :
      (rs : List Arrival) (a : Arrival) (o : Outcome)
      → Memᴰ (a, o) (handle_all db (some (new_tenant_cache ttl)) rs)
      → IsServed (a, o)
  served rs a o m = All-mem IsServed _ (all-IsServed [] _ (handle_all-AllJustified db ttl rs)) m

-- What the gateway gets for a key: before a time anything, and from then on what GetTenantByAPIKey answers
-- from a database, in a lookup that loses nothing.
unfoldable pub resolver_from : World → Resolver → ℕ → Database → Resolver
resolver_from w before since db t key =
    if ltb t since then before t key else (get_tenant_by_api_key w.bcrypt (undisturbed t) key db).0

same_tenant :
    (s t : Tenant) (key : String) → created (new_tenant s key) ≡ created (new_tenant t key) → s ≡ t
same_tenant s t key e = ground arith

-- If a creation of a tenant is answered 201, then a gateway whose cache starts empty passes on every request
-- with the key of the answer, from the creation on, with the tenant of the answer, as long as its lookups
-- find the database as the creation left it: if no live key that the lookup would try matches the key, it
-- resolved to nothing before, and the server's new id is not empty and not in use.
pub issued_key_works :
    (w : World) (d : TenantData) (db : Database) (before : Resolver) (since ttl : ℕ)
    → (post_tenant w (some d) db).0.status ≡ 201
    → IsUnused w.bcrypt (generated_key w) db.api_keys
    → w.making.tenant_id ≢ ""
    → find_tenant w.making.tenant_id db.tenants ≡ none
    → ((t : ℕ) → t < since → before t (generated_key w) ≡ none)
    → (rs : List Arrival) (a : Arrival) (o : Outcome)
    → Memᴰ
        (a, o)
        (handle_all
          (resolver_from w before since (post_tenant w (some d) db).1)
          (some (new_tenant_cache ttl))
          rs)
    → a.authorization ≡ "Bearer " ++ generated_key w
    → since ≤ a.resolved
    → (t : Tenant) × ((post_tenant w (some d) db).0 ≡ created (new_tenant t (generated_key w)))
      × (o ≡ next t)
unfolding resolver_from
issued_key_works w d db before since ttl done unused named new unknown rs a o m header r =
    let (t, answer, found) = post_tenant-resolves w d db since done unused named new in
    (
      t,
      answer,
      served resolver ttl (generated_key w) t since none_before (some_after t answer) rs a o m
          (ap bearer header ∙ bearer-append (generated_key w)) r,
    )
  where
    resolver : Resolver
    resolver = resolver_from w before since (post_tenant w (some d) db).1

    none_before : (t : ℕ) → t < since → resolver t (generated_key w) ≡ none
    none_before t h = let e : ltb t since ≡ true = ground arith in rw e (unknown t h)

    some_after :
        (tenant : Tenant)
        → (post_tenant w (some d) db).0 ≡ created (new_tenant tenant (generated_key w))
        → (t : ℕ) → since ≤ t
        → resolver t (generated_key w) ≡ some tenant
    some_after tenant answer t h =
        let (t', answer', found) = post_tenant-resolves w d db t done unused named new in
        let e : ltb t since ≡ false = ground arith in
        rw e (found ∙ ap some (same_tenant t' tenant _ (sym answer' ∙ answer)))
