-- ===== src/Store/Tenants/Atomic.antt =====
-- Creating a tenant and rotating its key are all or nothing.
use chainmesh.Base.{
  ℕ, ◌≡◌, refl, String, Bool, true, false, Option, none, some, [], ◌∷◌, ◌++◌, map, arith, inl, inr,
  ◌⊎◌, if◌then◌else◌,
}
use chainmesh.Redis.{Delivery, delivered, refused, lost}
use chainmesh.Store.{Database, TenantRow, KeyRow}
use chainmesh.Store.Statements.{Statement, in_transaction, commit, ◌>>=◌}
use chainmesh.Store.Keys.{Bcrypt, scan_tenant}
use chainmesh.Store.Tenants.{
  insert_tenant, insert_key, key_row, TenantData, Making, tenant_row, finish, begin,
  create_tenant_with_key, revoke, revoke_keys, rotate_api_key,
}

-- How a transaction ends: with nothing changed and an error, or with the changes made, and then without an
-- error if the reply to Commit has arrived, and with one if it was lost.
pub data Ends (db db' : Database) (trip : Delivery) : Bool × Database → Type 0 where
  unchanged : {p : Bool × Database} → p.0 ≡ false → p.1 ≡ db → Ends db db' trip p
  changed :
      {p : Bool × Database}
      → p.1 ≡ db'
      → ((p.0 ≡ true) × (trip ≡ delivered)) ⊎ ((p.0 ≡ false) × (trip ≡ lost))
      → Ends db db' trip p

finish-Ends :
    (trip : Delivery) (db : Database) (made : Option Database) (db' : Database)
    → (made ≡ none) ⊎ (made ≡ some db')
    → Ends db db' trip (finish trip db made)
unfolding commit
finish-Ends trip db none db' h = Ends.unchanged refl refl
finish-Ends delivered db (some d) db' (inr e) = Ends.changed (ground arith) (inl (refl, refl))
finish-Ends refused db (some d) db' (inr e) = Ends.unchanged refl refl
finish-Ends lost db (some d) db' (inr e) = Ends.changed (ground arith) (inr (refl, refl))
finish-Ends trip db (some d) db' (inl e) = absurd (ground arith)

in_transaction-cases :
    (trip : Delivery) (s : Statement) (db : Database)
    → (in_transaction trip s db ≡ none) ⊎ (in_transaction trip s db ≡ s db)
unfolding in_transaction
in_transaction-cases delivered s db = inr refl
in_transaction-cases refused s db = inl refl
in_transaction-cases lost s db = inl refl

-- Two statements after Begin.
two_statements :
    (m : Making) (s t : Statement) (db db₁ db₂ : Database)
    → (s db ≡ none) ⊎ (s db ≡ some db₁)
    → (t db₁ ≡ none) ⊎ (t db₁ ≡ some db₂)
    → ((in_transaction m.beginning begin db >>= λ d₁.
          in_transaction m.first s d₁ >>= λ d₂. in_transaction m.second t d₂)
        ≡ none)
      ⊎ ((in_transaction m.beginning begin db >>= λ d₁.
            in_transaction m.first s d₁ >>= λ d₂. in_transaction m.second t d₂)
          ≡ some db₂)
two_statements m s t db db₁ db₂ hs ht = elim (in_transaction-cases m.beginning begin db) [
  | inl e ↦ inl (rw e refl)
  | inr e ↦ elim (in_transaction-cases m.first s db) [
    | inl f ↦ inl (rw (e, f) refl)
    | inr f ↦ elim hs [
      | inl n ↦ inl (rw (e, f, n) refl)
      | inr y ↦ elim (in_transaction-cases m.second t db₁) [
        | inl g ↦ inl (rw (e, f, y, g) refl)
        | inr g ↦ elim ht [
          | inl n ↦ inl (rw (e, f, y, g, n) refl)
          | inr z ↦ inr (rw (e, f, y, g, z) refl)
        ]
      ]
    ]
  ]
]

guarded :
    {A : Type 0} (b : Bool) (x : A)
    → ((if b then none else some x) ≡ none) ⊎ ((if b then none else some x) ≡ some x)
guarded true x = inl refl
guarded false x = inr refl

-- The database with a new tenant and its key.
abbrev pub with_tenant : TenantRow → KeyRow → Database → Database
with_tenant t k db = record db {
  tenants = db.tenants ++ (t ∷ []);
  api_keys = db.api_keys ++ (k ∷ []);
}

-- CreateTenantWithKey stores both the tenant and its key, or neither. It returns the tenant exactly
-- if both are stored and Commit's reply has arrived.
pub create_tenant_with_key-Ends :
    (bcrypt : Bcrypt) (m : Making) (d : TenantData) (key : String) (db : Database)
    → (ok : Bool) × ((create_tenant_with_key bcrypt m d key db).0
        ≡ (if ok then some (scan_tenant (tenant_row d m)) else none))
      × Ends db
          (with_tenant
            (tenant_row d m)
            (key_row bcrypt m.key_id m.tenant_id "default" m.salt key m.now)
            db)
          m.committing
          (ok, (create_tenant_with_key bcrypt m d key db).1)
unfolding create_tenant_with_key
create_tenant_with_key-Ends bcrypt m d key db =
    let row = tenant_row d m in
    let k = key_row bcrypt m.key_id row.id "default" m.salt key m.now in
    (
      _,
      refl,
      finish-Ends m.committing db _ _
          (two_statements m (insert_tenant row) (insert_key k) db _ _ (guarded _ _) (guarded _ _)),
    )

-- The database with a tenant's keys revoked and a new one added.
abbrev pub with_rotated : String → ℕ → KeyRow → Database → Database
with_rotated id now k db = record db { api_keys = map (revoke id now) db.api_keys ++ (k ∷ []) }

-- RotateAPIKey revokes the old keys and stores the new one, or does neither. It succeeds exactly if
-- both are done and Commit's reply has arrived.
pub rotate_api_key-Ends :
    (bcrypt : Bcrypt) (m : Making) (id key : String) (db : Database)
    → Ends db
        (with_rotated id m.now (key_row bcrypt m.key_id id "rotated" m.salt key m.now) db)
        m.committing
        (rotate_api_key bcrypt m id key db)
unfolding rotate_api_key
rotate_api_key-Ends bcrypt m id key db =
    let k = key_row bcrypt m.key_id id "rotated" m.salt key m.now in
    finish-Ends m.committing db _ _
      (two_statements m (revoke_keys id m.now) (insert_key k) db _ _ (inr refl) (guarded _ _))
