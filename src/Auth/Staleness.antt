-- ===== src/Auth/Staleness.antt =====
-- Where the tenant of a served request comes from.
use mathlib.Core.List.{Memᴰ}
use mathlib.Core.Option.{some-injective}
use mathlib.Core.Path.{subst}
use chainmesh.Base.{
  ℕ, ◌+◌, ◌≤◌, ◌≡◌, ◌≢◌, refl, sym, ap, ◌∙◌, String, Option, none, some, List, [], ◌∷◌, arith, ltb,
  inl, inr, ◌==◌, eq_iff, Bool-cases, Option-cases,
}
use chainmesh.Base.Dict.{lookup, lookup-insert}
use chainmesh.Model.{Tenant}
use chainmesh.Auth.{
  CachedTenant, TenantCache, new_tenant_cache, get, set, Resolver, Arrival, Outcome, unauthorized,
  next, bearer, auth, unexpired,
}

-- Requests in the order in which they are handled, newest last; the history has the newest first.
unfoldable pub handle_all : Resolver → Option TenantCache → List Arrival → List (Arrival × Outcome)
handle_all db cache [] = []
handle_all db cache (a ∷ rest) =
    let (o, cache') = auth db cache a in (a, o) ∷ handle_all db cache' rest

module _ (db : Resolver) (ttl : ℕ) where
  -- An earlier request of the key was resolved to this tenant, and the entry that it stored lives
  -- until `expires`.
  pub record Origin (past : List Arrival) (key : String) (tenant : Tenant) (expires : ℕ)
      : Type 0 where
    pub source : Arrival
    pub listed : Memᴰ source past
    pub presented : bearer source.authorization ≡ some key
    pub answer : db source.resolved key ≡ some tenant
    pub life : expires ≡ source.stored + ttl

  -- Every entry of the cache has an origin.
  pub record IsGenuine (past : List Arrival) (cache : TenantCache) : Type 0 where
    pub lasting : cache.ttl ≡ ttl
    pub origin :
        (key : String) (item : CachedTenant)
        → lookup key cache.items ≡ some item
        → Origin past key item.tenant item.expires_at

  -- The cache that a request leaves; the middleware may run without one.
  abbrev pub Genuine : List Arrival → Option TenantCache → Type 0
  Genuine past none = Unit
  Genuine past (some cache) = IsGenuine past cache

  Origin-later :
      {past : List Arrival} {key : String} {tenant : Tenant} {expires : ℕ} (a : Arrival)
      → Origin past key tenant expires
      → Origin (a ∷ past) key tenant expires
  Origin-later a o = record {
    source = o.source;
    listed = Memᴰ.tail o.listed;
    presented = o.presented;
    answer = o.answer;
    life = o.life;
  }

  IsGenuine-later :
      {past : List Arrival} {cache : TenantCache} (a : Arrival)
      → IsGenuine past cache
      → IsGenuine (a ∷ past) cache
  IsGenuine-later a g = record {
    lasting = g.lasting;
    origin = λ key item e. Origin-later a (g.origin key item e);
  }

  set-IsGenuine :
      (past : List Arrival) (cache : TenantCache) (a : Arrival) (key : String) (tenant : Tenant)
      → IsGenuine past cache
      → bearer a.authorization ≡ some key
      → db a.resolved key ≡ some tenant
      → IsGenuine (a ∷ past) (set cache a.stored key tenant)
  unfolding set
  set-IsGenuine past cache a key tenant g p e = record {
    lasting = g.lasting;
    origin = λ j item found. elim (Bool-cases (key == j)) [
      | inl same ↦
          let hit : some (record { tenant = tenant; expires_at = a.stored + cache.ttl })
              ≡ some item =
            rw (lookup-insert, same) at found in
          let eq : key ≡ j = (eq_iff key j).0 same in
          record {
            source = a;
            listed = Memᴰ.head refl;
            presented = p ∙ ap some eq;
            answer = sym (ap (db a.resolved) eq) ∙ (e ∙ ground arith);
            life = ground arith;
          }
      | inr other ↦ Origin-later a (g.origin j item (rw (lookup-insert, other) at found))
    ];
  }

  -- What a decision rests on. A tenant is served on an answer to this very request, or on an earlier
  -- answer for the same key, stored at most the cache's life before; a refusal has no key, or a
  -- key that the resolver refuses now.
  pub data Justified (past : List Arrival) (a : Arrival) : Outcome → Type 0 where
    no_key : bearer a.authorization ≡ none → Justified past a unauthorized
    refused :
        {key : String}
        → bearer a.authorization ≡ some key
        → db a.resolved key ≡ none
        → Justified past a unauthorized
    fresh :
        {key : String} {tenant : Tenant}
        → bearer a.authorization ≡ some key
        → db a.resolved key ≡ some tenant
        → Justified past a (next tenant)
    remembered :
        {key : String} {tenant : Tenant} {expires : ℕ}
        → bearer a.authorization ≡ some key
        → Origin past key tenant expires
        → a.now ≤ expires
        → Justified past a (next tenant)

  get-Origin :
      (past : List Arrival) (cache : TenantCache) (now : ℕ) (key : String) (tenant : Tenant)
      → IsGenuine past cache
      → get cache now key ≡ some tenant
      → (expires : ℕ) × Origin past key tenant expires × (now ≤ expires)
  unfolding get
  get-Origin past cache now key tenant g e = elim (Option-cases (lookup key cache.items)) [
    | inl missing ↦ let h : none ≡ some tenant = rw (missing, unexpired) at e in cc
    | inr (item, found) ↦ elim (Bool-cases (ltb item.expires_at now)) [
      | inl late ↦ let h : none ≡ some tenant = rw (found, unexpired, late) at e in cc
      | inr timely ↦
          let same : some item.tenant ≡ some tenant = rw (found, unexpired, timely) at e in
          (
            item.expires_at,
            subst (λ t. Origin past key t item.expires_at) (some-injective _ _ same)
                (g.origin key item found),
            ground arith,
          )
    ]
  ]

  abbrev Step : List Arrival → Arrival → Outcome × Option TenantCache → Type 0
  Step past a p = Justified past a p.0 × Genuine (a ∷ past) p.1

  auth-Step :
      (past : List Arrival) (cache : TenantCache) (a : Arrival)
      → IsGenuine past cache
      → Step past a (auth db (some cache) a)
  unfolding auth
  auth-Step past cache a g = elim (Option-cases (bearer a.authorization)) [
    | inl e ↦ rw (e, auth) (Justified.no_key e, IsGenuine-later a g)
    | inr (key, e) ↦ elim (Option-cases (get cache a.now key)) [
      | inr (tenant, hit) ↦
          let (expires, o, le) = get-Origin past cache a.now key tenant g hit in
          rw (e, hit, auth) (Justified.remembered e o le, IsGenuine-later a g)
      | inl miss ↦ elim (Option-cases (db a.resolved key)) [
        | inl no_answer ↦
            rw (e, miss, no_answer, auth) (Justified.refused e no_answer, IsGenuine-later a g)
        | inr (tenant, answer) ↦
            rw (e, miss, answer, auth)
              (Justified.fresh e answer, set-IsGenuine past cache a key tenant g e answer)
      ]
    ]
  ]

  -- Every decision of a run is justified by the requests before it.
  abbrev pub AllJustified : List Arrival → List (Arrival × Outcome) → Type 0
  AllJustified past [] = Unit
  AllJustified past ((a, o) ∷ rest) = Justified past a o × AllJustified (a ∷ past) rest

  auth-ne-none : (cache : TenantCache) (a : Arrival) → (auth db (some cache) a).1 ≢ none
  unfolding auth
  auth-ne-none cache a = ground arith

  auth-some :
      (cache : TenantCache) (a : Arrival)
      → (c : TenantCache) × ((auth db (some cache) a).1 ≡ some c)
  auth-some cache a = elim (Option-cases (auth db (some cache) a).1) [
    | inl e ↦ absurd (auth-ne-none cache a e)
    | inr h ↦ h
  ]

  run-AllJustified :
      (past : List Arrival) (cache : TenantCache) (rs : List Arrival)
      → IsGenuine past cache
      → AllJustified past (handle_all db (some cache) rs)
  unfolding handle_all
  run-AllJustified past cache [] g = tt
  run-AllJustified past cache (a ∷ rs) g =
      let step = auth-Step past cache a g in
      let (c, e) = auth-some cache a in
      let g' : IsGenuine (a ∷ past) c = rw e at step.1 in
      (step.0, rw e (run-AllJustified (a ∷ past) c rs g'))

  -- From an empty cache, every request that is served has a tenant that the resolver gave for its
  -- key, now or for an earlier request within the cache's life, and every request that is refused
  -- has no key or one that the resolver refuses now.
  pub handle_all-AllJustified :
      (rs : List Arrival) → AllJustified [] (handle_all db (some (new_tenant_cache ttl)) rs)
  unfolding new_tenant_cache
  handle_all-AllJustified rs =
      run-AllJustified [] (record { items = []; ttl = ttl }) rs
        (record { lasting = refl; origin = λ key item e. unfold lookup in cc })
