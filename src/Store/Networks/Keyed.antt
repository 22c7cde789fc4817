-- ===== src/Store/Networks/Keyed.antt =====
-- The primary key of the networks, and what it means for the list that the manager reads.
use mathlib.Core.List.Perm
use chainmesh.Base.{
  ℕ, ◌≡◌, refl, ap, String, Bool, false, not, some, List, [], ◌∷◌, ◌++◌, map, contains, ◌==◌,
  eq_iff, arith, inl, inr, Bool-cases,
}
use chainmesh.Base.Order.{OrderBy}
use chainmesh.Base.Unique.{Unique, Unique-perm, Unique-append_last, Unique-keep}
use chainmesh.Model.{BlockchainConfig}
use chainmesh.Redis.{Delivery, delivered, refused, lost}
use chainmesh.Store.{Database}
use chainmesh.Store.Statements.{exec, or_else}
use chainmesh.Store.Tenants.{names_config}
use chainmesh.Store.Networks.{
  insert_config, save_blockchain_config, change_config, update_blockchain_config, Trips,
  delete_blockchain_config,
}
use chainmesh.Store.Networks.Deletion
use chainmesh.Store.Networks.Deletion.{delete_blockchain_config-Ends}
use chainmesh.Manager.{desired}
use chainmesh.Manager.Reload.{Distinct}

abbrev pub ids : List BlockchainConfig → List String
ids rows = map (λ c. c.id) rows

-- No two networks have the same ID.
abbrev pub IsKeyed : Database → Type 0
IsKeyed db = Unique (ids db.configs)

ids-append :
    (rows : List BlockchainConfig) (row : BlockchainConfig)
    → ids (rows ++ (row ∷ [])) ≡ ids rows ++ (row.id ∷ [])
ids-append [] row = refl
ids-append (r ∷ rows) row = ap (λ ss. r.id ∷ ss) (ids-append rows row)

inserted-IsKeyed :
    (row : BlockchainConfig) (db : Database)
    → IsKeyed db
    → IsKeyed (or_else (insert_config row db) db).1
inserted-IsKeyed row db k = elim (Bool-cases (names_config (some row.id) db)) [
  | inl taken ↦ rw taken k
  | inr free ↦
      rw free (rw (ids-append db.configs row) (Unique-append_last row.id (ids db.configs) k free))
]

pub save_blockchain_config-IsKeyed :
    (trip : Delivery) (id : String) (now : ℕ) (cfg : BlockchainConfig) (db : Database)
    → IsKeyed db
    → IsKeyed (save_blockchain_config trip id now cfg db).1
unfolding save_blockchain_config exec
save_blockchain_config-IsKeyed delivered id now cfg db k = inserted-IsKeyed _ db k
save_blockchain_config-IsKeyed refused id now cfg db k = k
save_blockchain_config-IsKeyed lost id now cfg db k = inserted-IsKeyed _ db k

changed_ids :
    (now : ℕ) (cfg : BlockchainConfig) (rows : List BlockchainConfig)
    → ids (map (change_config now cfg) rows) ≡ ids rows
changed_ids now cfg [] = refl
changed_ids now cfg (r ∷ rows) = elim (Bool-cases (r.id == cfg.id)) [
  | inl e ↦ let same = (eq_iff r.id cfg.id).0 e in rw (e, changed_ids now cfg rows, same) refl
  | inr e ↦ rw (e, changed_ids now cfg rows) refl
]

pub update_blockchain_config-IsKeyed :
    (trip : Delivery) (now : ℕ) (cfg : BlockchainConfig) (db : Database)
    → IsKeyed db
    → IsKeyed (update_blockchain_config trip now cfg db).1
unfolding update_blockchain_config exec
update_blockchain_config-IsKeyed delivered now cfg db k = rw (changed_ids now cfg db.configs) k
update_blockchain_config-IsKeyed refused now cfg db k = k
update_blockchain_config-IsKeyed lost now cfg db k = rw (changed_ids now cfg db.configs) k

pub delete_blockchain_config-IsKeyed :
    (trips : Trips) (id : String) (db : Database)
    → IsKeyed db
    → IsKeyed (delete_blockchain_config trips id db).1
delete_blockchain_config-IsKeyed trips id db k =
    by_end (delete_blockchain_config trips id db) (delete_blockchain_config-Ends trips id db)
  where
    by_end : (p : Bool × Database) → Deletion.Ends id db p → IsKeyed p.1
    by_end _ Deletion.kept = k
    by_end _ (Deletion.removed ok db' a b c d f g) =
        rw f (Unique-keep (λ (c : BlockchainConfig). c.id) (λ c. not (c.id == id)) db.configs k)

-- The enabled ones among networks with different IDs have different IDs.
desired-contains-ids :
    (s : String) (rows : List BlockchainConfig)
    → contains s (ids rows) ≡ false
    → contains s (desired rows) ≡ false
unfolding desired
desired-contains-ids s [] h = refl
desired-contains-ids s (r ∷ rows) h =
    let ih = desired-contains-ids s rows (ground arith) in
    elim (Bool-cases r.enabled) [
      | inl e ↦ rw (e, desired) (ground arith)
      | inr e ↦ rw (e, desired) ih
    ]

pub ids-Distinct : (rows : List BlockchainConfig) → Unique (ids rows) → Distinct rows
unfolding Distinct
ids-Distinct [] u = tt
ids-Distinct (r ∷ rows) (h, u) = (inr (desired-contains-ids r.id rows h), ids-Distinct rows u)

-- The database lists them in the order of their names.
pub listed-Distinct :
    (order : OrderBy) (db : Database)
    → IsKeyed db
    → Distinct (order.alphabetic (λ c. c.name) db.configs)
listed-Distinct order db k = ids-Distinct _ (
    Unique-perm (ids db.configs) _
      (Perm.map (λ (c : BlockchainConfig). c.id)
        (Perm.symm (order.alphabetic_perm (λ (c : BlockchainConfig). c.name) db.configs)))
      k)
