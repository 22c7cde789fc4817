-- ===== src/Store/Keys/Touched.antt =====
-- What a lookup of a key leaves: the table of keys with a row's last use set, and all else as it was.
use chainmesh.Base.{
  ℕ, ◌≡◌, ◌⊎◌, inl, inr, refl, String, Bool-cases, Option, none, some, List, map, ◌==◌,
}
use chainmesh.Redis.{Delivery, delivered, refused, lost}
use chainmesh.Store.{Database, KeyRow}
use chainmesh.Store.Statements.{exec}
use chainmesh.Store.Keys.{
  Bcrypt, Lookup, touch, touch_key, after_match, after_candidates, get_tenant_by_api_key,
}

-- The database with other keys.
abbrev pub with_keys : List KeyRow → Database → Database
with_keys keys db = record db { api_keys = keys }

-- Nothing, or the last use of the rows with an id.
abbrev pub Touched : Database → Database → Type 0
Touched db db' =
    (db' ≡ db) ⊎ ((id : String) × (now : ℕ) × (db' ≡ with_keys (map (touch id now) db.api_keys) db))

exec-Touched :
    (trip : Delivery) (id : String) (now : ℕ) (db : Database)
    → Touched db (exec trip (touch_key id now) db).1
unfolding exec
exec-Touched delivered id now db = inr (id, now, refl)
exec-Touched refused id now db = inl refl
exec-Touched lost id now db = inr (id, now, refl)

after_match-Touched :
    (trips : Lookup) (o : Option KeyRow) (db : Database) → Touched db (after_match trips o db).1
unfolding after_match
after_match-Touched trips none db = inl refl
after_match-Touched trips (some row) db = elim (Bool-cases (row.tenant_id == "")) [
  | inl e ↦ rw e (inl refl)
  | inr e ↦ rw e (exec-Touched trips.touching row.id trips.now db)
]

after_candidates-Touched :
    (bcrypt : Bcrypt) (trips : Lookup) (key : String) (o : Option (List KeyRow)) (db : Database)
    → Touched db (after_candidates bcrypt trips key o db).1
unfolding after_candidates
after_candidates-Touched bcrypt trips key none db = inl refl
after_candidates-Touched bcrypt trips key (some rows) db = after_match-Touched trips _ db

pub get_tenant_by_api_key-Touched :
    (bcrypt : Bcrypt) (trips : Lookup) (key : String) (db : Database)
    → Touched db (get_tenant_by_api_key bcrypt trips key db).1
unfolding get_tenant_by_api_key
get_tenant_by_api_key-Touched bcrypt trips key db = after_candidates-Touched bcrypt trips key _ db
