-- ===== src/Store/Records/Totals.antt =====
-- What the usage table counts: each key has at most one row, and its row has the sum of what was
-- recorded under the key.
use chainmesh.Base.{
  ℕ, ◌+◌, ◌≡◌, refl, ap, Bool, true, false, ◌&&◌, List, [], ◌∷◌, eq_iff, arith, inl, inr,
  Bool-cases, if◌then◌else◌,
}
use chainmesh.Model.{Usage}
use chainmesh.Redis.{Delivery, delivered, refused, lost}
use chainmesh.Store.{Database}
use chainmesh.Store.Statements.{exec}
use chainmesh.Store.Tenants.{names_tenant}
use chainmesh.Store.Records.{same_key, upsert, upsert_usage, record_usage}

-- The requests that the table counts under a key, and the bytes.
abbrev pub counted : Usage → List Usage → ℕ
counted k [] = 0
counted k (row ∷ rows) = (if same_key k row then row.count else 0) + counted k rows

abbrev pub bytes_counted : Usage → List Usage → ℕ
bytes_counted k [] = 0
bytes_counted k (row ∷ rows) = (if same_key k row then row.bytes_in else 0) + bytes_counted k rows

-- Keys are compared field by field.
same_key_trans : (k u row : Usage) → same_key u row ≡ true → same_key k row ≡ same_key k u
same_key_trans k u row h = ground (
  arith,
  eq_iff row.tenant_id u.tenant_id,
  eq_iff row.method u.method,
  eq_iff row.tenant_id k.tenant_id,
  eq_iff row.method k.method,
  eq_iff u.tenant_id k.tenant_id,
  eq_iff u.method k.method,
)

pub counted-upsert :
    (k u : Usage) (rows : List Usage)
    → counted k (upsert u rows) ≡ counted k rows + (if same_key k u then u.count else 0)
unfolding upsert
counted-upsert k u [] = omega arith
counted-upsert k u (row ∷ rows) = elim (Bool-cases (same_key u row)) [
  | inl same ↦
      let e = same_key_trans k u row same in
      rw same (rw e (add_in (same_key k u) row.count u.count (counted k rows)))
  | inr other ↦ let ih = counted-upsert k u rows in rw other (omega (arith, ih))
]
  where
    add_in :
        (b : Bool) (x y z : ℕ)
        → (if b then x + y else 0) + z ≡ (if b then x else 0) + z + (if b then y else 0)
    add_in b x y z = ground arith

bytes_counted-upsert :
    (k u : Usage) (rows : List Usage)
    → bytes_counted k (upsert u rows)
      ≡ bytes_counted k rows + (if same_key k u then u.bytes_in else 0)
unfolding upsert
bytes_counted-upsert k u [] = omega arith
bytes_counted-upsert k u (row ∷ rows) = elim (Bool-cases (same_key u row)) [
  | inl same ↦
      let e = same_key_trans k u row same in
      rw same (rw e (add_in (same_key k u) row.bytes_in u.bytes_in (bytes_counted k rows)))
  | inr other ↦ let ih = bytes_counted-upsert k u rows in rw other (omega (arith, ih))
]
  where
    add_in :
        (b : Bool) (x y z : ℕ)
        → (if b then x + y else 0) + z ≡ (if b then x else 0) + z + (if b then y else 0)
    add_in b x y z = ground arith

-- A statement that reached the server and whose tenant exists.
abbrev pub takes_effect : Delivery → Usage → Database → Bool
takes_effect delivered u db = names_tenant u.tenant_id db
takes_effect refused u db = false
takes_effect lost u db = names_tenant u.tenant_id db

abbrev pub after_usage : Delivery → Usage → Database → List Usage
after_usage trip u db = if takes_effect trip u db then upsert u db.usage else db.usage

pub record_usage-usage :
    (trip : Delivery) (u : Usage) (db : Database)
    → ((record_usage trip u db).1.usage ≡ after_usage trip u db)
      × ((record_usage trip u db).1.tenants ≡ db.tenants)
unfolding record_usage exec upsert_usage
record_usage-usage refused u db = (refl, refl)
record_usage-usage delivered u db = elim (Bool-cases (names_tenant u.tenant_id db)) [
  | inl e ↦ rw e (refl, refl)
  | inr e ↦ rw e (refl, refl)
]
record_usage-usage lost u db = elim (Bool-cases (names_tenant u.tenant_id db)) [
  | inl e ↦ rw e (refl, refl)
  | inr e ↦ rw e (refl, refl)
]

-- RecordUsage once after another, each with the fate of its trip.
unfoldable pub record_all : List (Delivery × Usage) → Database → Database
record_all [] db = db
record_all ((trip, u) ∷ rest) db = record_all rest (record_usage trip u db).1

-- The requests and the bytes that are to be counted under a key.
abbrev pub due : Usage → List (Delivery × Usage) → Database → ℕ
due k [] db = 0
due k ((trip, u) ∷ rest) db =
    (if takes_effect trip u db && same_key k u then u.count else 0) + due k rest db

abbrev pub bytes_due : Usage → List (Delivery × Usage) → Database → ℕ
bytes_due k [] db = 0
bytes_due k ((trip, u) ∷ rest) db =
    (if takes_effect trip u db && same_key k u then u.bytes_in else 0) + bytes_due k rest db

pub takes_effect_same :
    (trip : Delivery) (u : Usage) (a b : Database)
    → a.tenants ≡ b.tenants
    → takes_effect trip u a ≡ takes_effect trip u b
takes_effect_same delivered u a b e = rw e refl
takes_effect_same refused u a b e = refl
takes_effect_same lost u a b e = rw e refl

due_same :
    (k : Usage) (rs : List (Delivery × Usage)) (a b : Database)
    → a.tenants ≡ b.tenants
    → (due k rs a ≡ due k rs b) × (bytes_due k rs a ≡ bytes_due k rs b)
due_same k [] a b e = (refl, refl)
due_same k ((trip, u) ∷ rest) a b e =
    let ih = due_same k rest a b e in
    let same = takes_effect_same trip u a b e in
    (rw same (omega (arith, ih.0)), rw same (omega (arith, ih.1)))

pub one_counted :
    (k u : Usage) (trip : Delivery) (db : Database)
    → (counted k (after_usage trip u db)
        ≡ counted k db.usage + (if takes_effect trip u db && same_key k u then u.count else 0))
      × (bytes_counted k (after_usage trip u db)
          ≡ bytes_counted k db.usage
            + (if takes_effect trip u db && same_key k u then u.bytes_in else 0))
one_counted k u trip db = elim (Bool-cases (takes_effect trip u db)) [
  | inl e ↦ rw e (counted-upsert k u db.usage, bytes_counted-upsert k u db.usage)
  | inr e ↦ rw e (omega arith, omega arith)
]

-- Over any sequence of recordings the table counts, under each key, the requests and the bytes of
-- exactly those that reached the server and whose tenant exists.
pub record_all-counted :
    (k : Usage) (rs : List (Delivery × Usage)) (db : Database)
    → (counted k (record_all rs db).usage ≡ counted k db.usage + due k rs db)
      × (bytes_counted k (record_all rs db).usage ≡ bytes_counted k db.usage + bytes_due k rs db)
unfolding record_all
record_all-counted k [] db = (omega arith, omega arith)
record_all-counted k ((trip, u) ∷ rest) db =
    let (usage, tenants) = record_usage-usage trip u db in
    let ih = record_all-counted k rest (record_usage trip u db).1 in
    let same = due_same k rest (record_usage trip u db).1 db tenants in
    let here = one_counted k u trip db in
    let c = ap (counted k) usage in
    let d = ap (bytes_counted k) usage in
    (omega (arith, ih.0, same.0, here.0, c), omega (arith, ih.1, same.1, here.1, d))
