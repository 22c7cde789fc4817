-- ===== src/Store/Networks/Deletion.antt =====
-- What DeleteBlockchainConfig does to the references to a network.
use mathlib.Core.Option.{some-injective}
use chainmesh.Base.{
  arith, ◌≢◌, eq_iff, ◌⊎◌, ◌≡◌, refl, ap, String, Bool, true, false, not, Option, none, some, List,
  [], ◌∷◌, map, keep, contains, ◌==◌, inl, inr, Bool-cases,
}
use chainmesh.Model.{BlockchainConfig}
use chainmesh.Redis.{Delivery, delivered, refused, lost}
use chainmesh.Store.{Database, TenantRow}
use chainmesh.Store.Statements.{in_transaction, commit}
use chainmesh.Store.Tenants.{names_config, finish}
use chainmesh.Store.Networks.{
  without, forget, has_blocks, delete_config, Trips, delete_blockchain_config,
}

-- The same references to networks but those to the network, which are gone.
abbrev pub Unlinked : String → Option String → Option String → Type 0
Unlinked id n n' = ((n ≡ some id) × (n' ≡ none)) ⊎ ((n ≢ some id) × (n' ≡ n))

-- Tenants one for one, each as it was but for a reference to the network.
abbrev pub AllUnlinked : String → List TenantRow → List TenantRow → Type 0
AllUnlinked id [] [] = Unit
AllUnlinked id (t ∷ ts) [] = ⊥
AllUnlinked id [] (t' ∷ ts') = ⊥
AllUnlinked id (t ∷ ts) (t' ∷ ts') =
    ((t' ≡ record t { network_id = t'.network_id }) × Unlinked id t.network_id t'.network_id)
    × AllUnlinked id ts ts'

-- Nothing was done, or the network is gone, and it alone, with every reference of a tenant to it, and it had
-- no block. Without an error the network is gone.
pub data Ends (id : String) (db : Database) : Bool × Database → Type 0 where
  kept : Ends id db (false, db)
  removed :
      (ok : Bool) (db' : Database)
      → has_blocks id db.blocks ≡ false
      → names_config (some id) db' ≡ false
      → AllUnlinked id db.tenants db'.tenants
      → db'.blocks ≡ db.blocks
      → db'.configs ≡ keep (λ c. not (c.id == id)) db.configs
      → db'.api_keys ≡ db.api_keys
      → Ends id db (ok, db')

without-Unlinked : (id : String) (n : Option String) → Unlinked id n (without id n)
without-Unlinked id none = inr (λ e. ground arith, refl)
without-Unlinked id (some n) = elim (Bool-cases (n == id)) [
  | inl e ↦ rw e (inl (ap some ((eq_iff n id).0 e), refl))
  | inr e ↦ rw e (inr (λ k. ground (arith, (eq_iff n id).1 (some-injective _ _ k)), refl))
]

forgotten : (id : String) (ts : List TenantRow) → AllUnlinked id ts (map (forget id) ts)
forgotten id [] = tt
forgotten id (t ∷ ts) = ((refl, without-Unlinked id t.network_id), forgotten id ts)

gone :
    (id : String) (cs : List BlockchainConfig)
    → contains id (map (λ c. c.id) (keep (λ c. not (c.id == id)) cs)) ≡ false
gone id [] = refl
gone id (c ∷ cs) = elim (Bool-cases (c.id == id)) [
  | inl e ↦ rw e (gone id cs)
  | inr e ↦ rw e (rw e (gone id cs))
]

-- The last two round trips.
last_trips :
    (t c : Delivery) (id : String) (db : Database)
    → has_blocks id db.blocks ≡ false
    → Ends id db (
        finish c db (
          in_transaction t (delete_config id) (record db { tenants = map (forget id) db.tenants })))
unfolding in_transaction commit
last_trips refused c id db h = kept
last_trips lost c id db h = kept
last_trips delivered refused id db h = kept
last_trips delivered delivered id db h =
    removed true _ h (gone id db.configs) (forgotten id db.tenants) refl refl refl
last_trips delivered lost id db h =
    removed false _ h (gone id db.configs) (forgotten id db.tenants) refl refl refl

-- DeleteBlockchainConfig either leaves the database as it is and gives an error, or removes the network
-- and every tenant's reference to it, keeping the other networks, the API keys, the blocks and each tenant
-- with all else of it, a reference to another network included, and then the network had no block. It
-- gives no error only in the second case.
pub delete_blockchain_config-Ends :
    (trips : Trips) (id : String) (db : Database)
    → Ends id db (delete_blockchain_config trips id db)
unfolding delete_blockchain_config in_transaction commit
delete_blockchain_config-Ends trips id db =
    by_trips trips.beginning trips.first trips.second trips.third trips.committing
  where
    by_trips :
        (b f s t c : Delivery)
        → Ends id db (
            delete_blockchain_config
              (record { beginning = b; first = f; second = s; third = t; committing = c })
              id
              db)
    by_trips refused f s t c = kept
    by_trips lost f s t c = kept
    by_trips delivered refused s t c = kept
    by_trips delivered lost s t c = kept
    by_trips delivered delivered refused t c = kept
    by_trips delivered delivered lost t c = kept
    by_trips delivered delivered delivered t c = elim (Bool-cases (has_blocks id db.blocks)) [
      | inl e ↦ rw e kept
      | inr e ↦ rw e (last_trips t c id db e)
    ]
