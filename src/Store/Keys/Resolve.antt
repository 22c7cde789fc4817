-- ===== src/Store/Keys/Resolve.antt =====
-- What a key resolves to: the owner of a live row whose hash it matches.
use mathlib.Core.List.{Memᴰ}
use mathlib.Core.Option.{some-injective}
use mathlib.Core.Path.{subst}
use chainmesh.Base.{
  ℕ, zero, suc, ◌≡◌, refl, sym, ap, ◌∙◌, String, Bool, true, false, ◌&&◌, Option, none, some, List,
  [], ◌∷◌, keep, ◌==◌, eq_iff, arith, inl, inr, Bool-cases, Option-cases,
}
use chainmesh.Base.Members.{mem_keep}
use chainmesh.Model.{Tenant}
use chainmesh.Redis.{Delivery, delivered, refused, lost}
use chainmesh.Store.{Database, TenantRow, KeyRow}
use chainmesh.Store.Statements.{exec, query_row, Reading, failed, complete, cut, query, first}
use chainmesh.Store.Keys.{
  Bcrypt, api_key_prefix, scan_tenant, find_tenant, get_tenant_by_id, is_live, is_candidate,
  first_match, touch_key, Lookup, after_match, after_candidates, get_tenant_by_api_key,
}

none_ne : {A : Type 0} {x : A} → none ≡ some x → ⊥
none_ne h = ground arith

pub mem_first : {A : Type 0} (n : ℕ) (xs : List A) {x : A} → Memᴰ x (first n xs) → Memᴰ x xs
mem_first zero xs m = elim m [ ]
mem_first (suc n) [] m = elim m [ ]
mem_first (suc n) (y ∷ ys) (Memᴰ.head e) = Memᴰ.head e
mem_first (suc n) (y ∷ ys) (Memᴰ.tail m) = Memᴰ.tail (mem_first n ys m)

-- What arrives of a query is part of its result.
pub mem_query :
    {A : Type 0} (r : Reading) (xs : List A) {ys : List A} {x : A}
    → query r xs ≡ some ys
    → Memᴰ x ys
    → Memᴰ x xs
unfolding query
mem_query failed xs e m = absurd (none_ne e)
mem_query complete xs {x = x} e m = subst (Memᴰ x) (sym (some-injective _ _ e)) m
mem_query (cut n) xs {x = x} e m = mem_first n xs (subst (Memᴰ x) (sym (some-injective _ _ e)) m)

-- The loop ends at a row that the key matches.
pub first_match-mem :
    (bcrypt : Bcrypt) (key : String) (rows : List KeyRow) {row : KeyRow}
    → first_match bcrypt key rows ≡ some row
    → Memᴰ row rows × (bcrypt.compare row.key_hash key ≡ true)
unfolding first_match
first_match-mem bcrypt key [] e = absurd (none_ne e)
first_match-mem bcrypt key (r ∷ rs) {row} e = elim (Bool-cases (bcrypt.compare r.key_hash key)) [
  | inl yes_ ↦
      let same : r ≡ row = some-injective _ _ (rw (yes_, first_match) at e) in
      (Memᴰ.head (sym same), subst (λ x. bcrypt.compare x.key_hash key ≡ true) same yes_)
  | inr no_ ↦
      let h = first_match-mem bcrypt key rs (rw (no_, first_match) at e) in (Memᴰ.tail h.0, h.1)
]

pub find_tenant-mem :
    (id : String) (rows : List TenantRow) {row : TenantRow}
    → find_tenant id rows ≡ some row
    → Memᴰ row rows × (row.id ≡ id)
find_tenant-mem id [] e = absurd (none_ne e)
find_tenant-mem id (r ∷ rs) {row} e = elim (Bool-cases (r.id == id)) [
  | inl same ↦
      let h : r ≡ row = some-injective _ _ (rw (same, find_tenant) at e) in
      (Memᴰ.head (sym h), ap (λ x. x.id) (sym h) ∙ (eq_iff r.id id).0 same)
  | inr other ↦ let h = find_tenant-mem id rs (rw (other, find_tenant) at e) in (Memᴰ.tail h.0, h.1)
]

-- A tenant that a key stands for.
pub record IsAuthorized (bcrypt : Bcrypt) (key : String) (db : Database) (t : Tenant) : Type 0 where
  pub row : KeyRow
  pub listed : Memᴰ row db.api_keys
  pub live : is_live row ≡ true
  pub prefix : row.key_prefix ≡ api_key_prefix key
  pub verified : bcrypt.compare row.key_hash key ≡ true
  pub owner : TenantRow
  pub owner_listed : Memᴰ owner db.tenants
  pub owned : owner.id ≡ row.tenant_id
  pub scanned : t ≡ scan_tenant owner

-- The tenants are left alone.
exec_touch-tenants :
    (trip : Delivery) (id : String) (now : ℕ) (db : Database)
    → (exec trip (touch_key id now) db).1.tenants ≡ db.tenants
unfolding exec
exec_touch-tenants delivered id now db = refl
exec_touch-tenants refused id now db = refl
exec_touch-tenants lost id now db = refl

pub get_tenant_by_id-mem :
    (trip : Delivery) (id : String) (db : Database) {t : Tenant}
    → get_tenant_by_id trip id db ≡ some t
    → (row : TenantRow) × Memᴰ row db.tenants × (row.id ≡ id) × (t ≡ scan_tenant row)
unfolding get_tenant_by_id query_row
get_tenant_by_id-mem refused id db e = absurd (none_ne e)
get_tenant_by_id-mem lost id db e = absurd (none_ne e)
get_tenant_by_id-mem delivered id db {t} e = elim (Option-cases (find_tenant id db.tenants)) [
  | inl n ↦ absurd (none_ne (rw (n, get_tenant_by_id) at e))
  | inr (row, n) ↦
      let h = find_tenant-mem id db.tenants n in
      let e' : some (scan_tenant row) ≡ some t = rw (n, get_tenant_by_id) at e in
      (row, h.0, h.1, sym (some-injective _ _ e'))
]

and-true : (a b : Bool) → a && b ≡ true → (a ≡ true) × (b ≡ true)
and-true a b h = ground arith

after_match-IsAuthorized :
    (bcrypt : Bcrypt) (trips : Lookup) (key : String) (db : Database) (found : Option KeyRow)
    {t : Tenant}
    → ((row : KeyRow)
        → found ≡ some row
        → Memᴰ row db.api_keys
          × (is_candidate (api_key_prefix key) row ≡ true)
          × (bcrypt.compare row.key_hash key ≡ true))
    → (after_match trips found db).0 ≡ some t
    → IsAuthorized bcrypt key db t
unfolding after_match
after_match-IsAuthorized bcrypt trips key db none h e = absurd (none_ne e)
after_match-IsAuthorized bcrypt trips key db (some row) {t} h e =
    elim (Bool-cases (row.tenant_id == "")) [
      | inl empty ↦ absurd (none_ne (rw (empty, after_match) at e))
      | inr full ↦
          let (listed, candidate, verified) = h row refl in
          let (prefix, live) = and-true _ _ candidate in
          let e' : get_tenant_by_id trips.getting row.tenant_id
                (exec trips.touching (touch_key row.id trips.now) db).1
              ≡ some t =
            rw (full, after_match) at e in
          let (owner, there, owned, scanned) =
            get_tenant_by_id-mem trips.getting row.tenant_id _ e' in
          record {
            row = row;
            listed = listed;
            live = live;
            prefix = (eq_iff _ _).0 prefix;
            verified = verified;
            owner = owner;
            owner_listed =
                subst (Memᴰ owner) (exec_touch-tenants trips.touching row.id trips.now db) there;
            owned = owned;
            scanned = scanned;
          }
    ]

-- GetTenantByAPIKey answers with a tenant only if there is a live row of that tenant with the key's
-- prefix, whose hash the key matches, whatever part of the rows arrives and whatever trips are lost.
pub get_tenant_by_api_key-IsAuthorized :
    (bcrypt : Bcrypt) (trips : Lookup) (key : String) (db : Database) (t : Tenant)
    → (get_tenant_by_api_key bcrypt trips key db).0 ≡ some t
    → IsAuthorized bcrypt key db t
unfolding get_tenant_by_api_key
get_tenant_by_api_key-IsAuthorized bcrypt trips key db t e =
    let candidates = keep (is_candidate (api_key_prefix key)) db.api_keys in
    elim (Option-cases (query trips.reading candidates)) [
      | inl n ↦ absurd (none_ne (rw (n, get_tenant_by_api_key, after_candidates) at e))
      | inr (rows, n) ↦
          after_match-IsAuthorized bcrypt trips key db (first_match bcrypt key rows)
            (λ row found.
              let (listed, verified) = first_match-mem bcrypt key rows found in
              let (there, candidate) =
                mem_keep _ db.api_keys (mem_query trips.reading candidates n listed) in
              (there, candidate, verified))
            (rw (n, get_tenant_by_api_key, after_candidates) at e)
    ]

-- A lookup that loses nothing.
abbrev pub undisturbed : ℕ → Lookup
undisturbed now = record {
  reading = complete;
  touching = delivered;
  getting = delivered;
  now = now;
}

-- What a lookup that loses nothing answers, once the row is found.
pub resolves :
    (bcrypt : Bcrypt) (now : ℕ) (key : String) (db : Database) (row : KeyRow) (owner : TenantRow)
    → first_match bcrypt key (keep (is_candidate (api_key_prefix key)) db.api_keys) ≡ some row
    → (row.tenant_id == "") ≡ false
    → find_tenant row.tenant_id db.tenants ≡ some owner
    → (get_tenant_by_api_key bcrypt (undisturbed now) key db).0 ≡ some (scan_tenant owner)
unfolding get_tenant_by_api_key query after_candidates after_match get_tenant_by_id exec query_row
resolves bcrypt now key db row owner found named owned = rw (found, after_match, named, owned) refl

-- A lookup reads the keys and the tenants only.
pub lookup_same :
    (bcrypt : Bcrypt) (now : ℕ) (key : String) (a b : Database)
    → a.api_keys ≡ b.api_keys
    → a.tenants ≡ b.tenants
    → (get_tenant_by_api_key bcrypt (undisturbed now) key a).0
      ≡ (get_tenant_by_api_key bcrypt (undisturbed now) key b).0
unfolding get_tenant_by_api_key query after_candidates after_match exec get_tenant_by_id query_row
lookup_same bcrypt now key a b k t =
    ap
      (λ ks.
        (after_match (undisturbed now)
          (first_match bcrypt key (keep (is_candidate (api_key_prefix key)) ks)) a).0)
      k
    ∙ by_match (first_match bcrypt key (keep (is_candidate (api_key_prefix key)) b.api_keys))
  where
    by_match :
        (o : Option KeyRow)
        → (after_match (undisturbed now) o a).0 ≡ (after_match (undisturbed now) o b).0
    by_match none = refl
    by_match (some row) = elim (Bool-cases (row.tenant_id == "")) [
      | inl e ↦ rw e refl
      | inr e ↦ rw e (rw t refl)
    ]
