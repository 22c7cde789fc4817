-- ===== src/Store/Records/Unique.antt =====
-- The primary key of the usage table: no two rows have the same tenant, method and period.
use chainmesh.Base.{
  ◌≤◌, ◌≡◌, refl, true, false, List, [], ◌∷◌, eq_iff, arith, tally, inl, inr, Bool-cases,
}
use chainmesh.Model.{Usage}
use chainmesh.Redis.{Delivery}
use chainmesh.Store.{Database}
use chainmesh.Store.Records.{same_key, upsert, record_usage}
use chainmesh.Store.Records.Totals.{takes_effect, after_usage, record_usage-usage, record_all}

abbrev pub IsKeyed : List Usage → Type 0
IsKeyed rows = (k : Usage) → tally (same_key k) rows ≤ 1

tally-upsert_other :
    (k u : Usage) (rows : List Usage)
    → same_key k u ≡ false
    → tally (same_key k) (upsert u rows) ≡ tally (same_key k) rows
unfolding upsert
tally-upsert_other k u [] h = rw h refl
tally-upsert_other k u (row ∷ rows) h = elim (Bool-cases (same_key u row)) [
  | inl same ↦ rw same refl
  | inr other ↦ let ih = tally-upsert_other k u rows h in rw other (omega (arith, ih))
]

-- A row of another key than u is of another key than all that are u's.
other_row :
    (k u row : Usage) → same_key k u ≡ true → same_key u row ≡ false → same_key k row ≡ false
other_row k u row h g = ground (
  arith,
  eq_iff row.tenant_id u.tenant_id,
  eq_iff row.method u.method,
  eq_iff row.tenant_id k.tenant_id,
  eq_iff row.method k.method,
  eq_iff u.tenant_id k.tenant_id,
  eq_iff u.method k.method,
)

tally-upsert_same :
    (k u : Usage) (rows : List Usage)
    → same_key k u ≡ true
    → tally (same_key k) rows ≤ 1
    → tally (same_key k) (upsert u rows) ≤ 1
unfolding upsert
tally-upsert_same k u [] h le = rw h (omega arith)
tally-upsert_same k u (row ∷ rows) h le = elim (Bool-cases (same_key u row)) [
  | inl same ↦ rw same le
  | inr other ↦
      let out = other_row k u row h other in
      let le' : tally (same_key k) rows ≤ 1 = omega (arith, le) in
      let ih = tally-upsert_same k u rows h le' in rw other (rw out (omega (arith, ih)))
]

upsert-IsKeyed : (u : Usage) (rows : List Usage) → IsKeyed rows → IsKeyed (upsert u rows)
upsert-IsKeyed u rows h k = elim (Bool-cases (same_key k u)) [
  | inl same ↦ tally-upsert_same k u rows same (h k)
  | inr other ↦ rw (tally-upsert_other k u rows other) (h k)
]

after_usage-IsKeyed :
    (trip : Delivery) (u : Usage) (db : Database)
    → IsKeyed db.usage
    → IsKeyed (after_usage trip u db)
after_usage-IsKeyed trip u db h = elim (Bool-cases (takes_effect trip u db)) [
  | inl e ↦ rw e (upsert-IsKeyed u db.usage h)
  | inr e ↦ rw e h
]

-- Recording keeps the primary key of the usage table.
pub record_all-IsKeyed :
    (rs : List (Delivery × Usage)) (db : Database)
    → IsKeyed db.usage
    → IsKeyed (record_all rs db).usage
unfolding record_all
record_all-IsKeyed [] db h = h
record_all-IsKeyed ((trip, u) ∷ rest) db h =
    let (usage, tenants) = record_usage-usage trip u db in
    record_all-IsKeyed rest (record_usage trip u db).1 (rw usage (after_usage-IsKeyed trip u db h))
