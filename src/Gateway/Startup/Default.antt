-- ===== src/Gateway/Startup/Default.antt =====
-- The default network after the start of the gateway.
use mathlib.Core.List.{Mem, Memᴰ, not-mem-nil}
use mathlib.Core.List.Perm
use mathlib.Core.List.Memᴰ
use mathlib.Core.Logic.{∥∥₁_map, ∥∥₁_elim}
use mathlib.Core.Bool.{false≢true}
use mathlib.Core.Option.{some-injective}
use chainmesh.Base.{
  ℕ, ◌≡◌, ◌≢◌, refl, sym, ◌∙◌, String, Bool, true, false, Option, none, some, List, [], ◌∷◌, keep,
  ◌==◌, inl, inr, Bool-cases, Option-cases, arith,
}
use chainmesh.Base.Members.{mem_keep, keep-mem}
use chainmesh.Base.Dict.{lookup}
use chainmesh.Base.Order.{OrderBy}
use chainmesh.Base.Latest.{top}
use chainmesh.Model.{BlockchainConfig, Tenant}
use chainmesh.Redis.{Delivery, delivered, refused, lost}
use chainmesh.Client.{Client}
use chainmesh.Store.{Database}
use chainmesh.Store.Statements.{exec, query_row, query, complete}
use chainmesh.Store.Tenants.{names_config}
use chainmesh.Store.Networks.{
  list_blockchain_configs, get_default_blockchain_config, save_blockchain_config,
}
use chainmesh.Store.Networks.Keyed.{IsKeyed, save_blockchain_config-IsKeyed, listed-Distinct}
use chainmesh.Proxy.{network_of}
use chainmesh.Manager.{Manager, new_manager, reload, get}
use chainmesh.Manager.Reload.{IsCurrent}
use chainmesh.Manager.Current.{reload-IsCurrent}
use chainmesh.Gateway.Startup.{
  Env, Seeding, seed_config, is_some, save_default, seed_default_config, start_gateway,
}

none_ne : {A : Type 0} {x : A} → none ≡ some x → ⊥
none_ne h = ground arith

top-mem : {A : Type 0} (xs : List A) {a : A} → top xs ≡ some a → Mem a xs
top-mem [] h = absurd (none_ne h)
top-mem (x ∷ xs) h = ∣ Memᴰ.head (sym (some-injective _ _ h)) ∣₁

abbrev enabled_rows : OrderBy → Database → List BlockchainConfig
enabled_rows order db =
    order.ascending (λ (c : BlockchainConfig). c.created_at) (keep (λ c. c.enabled) db.configs)

-- The default network is an enabled row.
default-mem :
    (order : OrderBy) (db : Database) (c : BlockchainConfig)
    → top (enabled_rows order db) ≡ some c
    → Mem c (keep (λ (r : BlockchainConfig). r.enabled) db.configs)
default-mem order db c h =
    (Perm.mem_iff (order.ascending_perm _ _)).0 (top-mem (enabled_rows order db) h)

-- There is a default network as soon as a row is enabled.
default-some :
    (order : OrderBy) (db : Database) (row : BlockchainConfig)
    → Memᴰ row db.configs
    → row.enabled ≡ true
    → (c : BlockchainConfig) × (top (enabled_rows order db) ≡ some c)
default-some order db row m on = elim (Option-cases (top (enabled_rows order db))) [
  | inr found ↦ found
  | inl e ↦ absurd (
      none_there (enabled_rows order db) e (
        (Perm.mem_iff (order.ascending_perm _ _)).1 ∣ keep-mem (λ c. c.enabled) db.configs m on ∣₁))
]
  where
    none_there : (xs : List BlockchainConfig) → top xs ≡ none → Mem row xs → ⊥
    none_there [] e m = not-mem-nil m
    none_there (x ∷ xs) e m = let e' : some x ≡ none = e in ground arith

-- A network that is saved without an error is a row.
saved-mem :
    (trip : Delivery) (id : String) (now : ℕ) (cfg : BlockchainConfig) (db : Database)
    → is_some (save_blockchain_config trip id now cfg db).0 ≡ true
    → Memᴰ
        (record cfg { id = id; created_at = now; updated_at = now })
        (save_blockchain_config trip id now cfg db).1.configs
unfolding save_blockchain_config exec
saved-mem refused id now cfg db h = absurd (false≢true h)
saved-mem lost id now cfg db h = absurd (false≢true h)
saved-mem delivered id now cfg db h = elim (Bool-cases (names_config (some id) db)) [
  | inl taken ↦ let h' : false ≡ true = rw taken at h in absurd (false≢true h')
  | inr free ↦ rw free (Memᴰ.append_right db.configs (Memᴰ.head refl))
]

-- Where seedDefaultConfig ends.
abbrev pub ended : Env → Seeding → Database → Option BlockchainConfig → Bool × Database
ended env s db o = elim o [ some cfg ↦ (true, db) | none ↦ save_default env s db ]

got_top :
    (order : OrderBy) (trip : Delivery) (db : Database) (c : BlockchainConfig)
    → get_default_blockchain_config order trip db ≡ some c
    → top (enabled_rows order db) ≡ some c
unfolding get_default_blockchain_config query_row
got_top order delivered db c e = e
got_top order refused db c e = absurd (none_ne e)
got_top order lost db c e = absurd (none_ne e)

saved_default :
    (env : Env) (s : Seeding) (db : Database)
    → (save_default env s db).0 ≡ true
    → (c : BlockchainConfig) × (top (enabled_rows s.order (save_default env s db).1) ≡ some c)
unfolding save_default seed_config
saved_default env s db h = elim (Bool-cases (env "RPC_ENDPOINT_1" == "")) [
  | inl unset ↦ let h' : false ≡ true = rw unset at h in absurd (false≢true h')
  | inr set_ ↦ rw set_ (
      default-some s.order
        (save_blockchain_config s.saving s.network_id s.now (seed_config env) db).1 _
        (saved-mem s.saving s.network_id s.now (seed_config env) db (rw set_ at h)) refl)
]

-- After a seeding without an error there is a default network.
seeded :
    (env : Env) (s : Seeding) (db : Database) (o : Option BlockchainConfig)
    → get_default_blockchain_config s.order s.getting db ≡ o
    → (ended env s db o).0 ≡ true
    → (c : BlockchainConfig) × (top (enabled_rows s.order (ended env s db o).1) ≡ some c)
seeded env s db (some c) e h = (c, got_top s.order s.getting db c e)
seeded env s db none e h = saved_default env s db h

ended-IsKeyed :
    (env : Env) (s : Seeding) (db : Database) (o : Option BlockchainConfig)
    → IsKeyed db
    → IsKeyed (ended env s db o).1
unfolding save_default
ended-IsKeyed env s db (some c) k = k
ended-IsKeyed env s db none k = elim (Bool-cases (env "RPC_ENDPOINT_1" == "")) [
  | inl unset ↦ rw unset k
  | inr set_ ↦
      rw set_ (save_blockchain_config-IsKeyed s.saving s.network_id s.now (seed_config env) db k)
]

current-get : (c : BlockchainConfig) (m : Manager) → IsCurrent c new_manager m → get m c.id ≢ none
unfolding get new_manager lookup
current-get c m current e = elim current.client [
  | inl (old, same) ↦ none_ne old
  | inr new ↦ none_ne (sym e ∙ new)
]

-- The manager has a client for every enabled network.
started-get :
    (order : OrderBy) (db : Database) (c : BlockchainConfig)
    → IsKeyed db
    → Mem c (keep (λ (r : BlockchainConfig). r.enabled) db.configs)
    → (client : Client) × (get
          (reload (list_blockchain_configs order complete db) new_manager).1
          c.id
        ≡ some client)
unfolding list_blockchain_configs query
started-get order db c k m =
    let rows = order.alphabetic (λ (c : BlockchainConfig). c.name) db.configs in
    let listed : Mem c rows =
      (Perm.mem_iff (order.alphabetic_perm _ _)).1
        (∥∥₁_map m (λ d. (mem_keep (λ (r : BlockchainConfig). r.enabled) db.configs d).0)) in
    elim (Option-cases (get (reload (some rows) new_manager).1 c.id)) [
      | inr found ↦ found
      | inl missing ↦ absurd (
          ∥∥₁_elim listed (λ x y. absurd x)
            (λ d.
              current-get c _
                (reload-IsCurrent rows new_manager c (listed-Distinct order db k) d (enabled_of m))
                missing))
    ]
  where
    enabled_of : Mem c (keep (λ (r : BlockchainConfig). r.enabled) db.configs) → c.enabled ≡ true
    enabled_of m = elim (Bool-cases c.enabled) [
      | inl e ↦ e
      | inr e ↦ absurd (
          ∥∥₁_elim m (λ x y. absurd x)
            (λ d.
              false≢true (sym e ∙ (mem_keep (λ (r : BlockchainConfig). r.enabled) db.configs d).1)))
    ]

-- If the seeding gives no error and the list of networks, which have different IDs, arrives whole, then the
-- gateway starts, and a tenant without a network of its own is served: the proxy finds the default network for
-- it in the database as the start left it, when its query arrives, and the manager has a client for that.
pub start_gateway-serves :
    (env : Env) (s : Seeding) (db : Database) (t : Tenant)
    → IsKeyed db
    → (seed_default_config env s db).0 ≡ true
    → t.network_id ≡ ""
    → (m : Manager) × (id : String) × (client : Client) × ((start_gateway env s complete db).0
        ≡ some m)
      × (network_of t
            (get_default_blockchain_config s.order delivered (start_gateway env s complete db).1)
          ≡ some id)
      × (get m id ≡ some client)
unfolding start_gateway seed_default_config get_default_blockchain_config query_row network_of
    reload list_blockchain_configs query
start_gateway-serves env s db t k h none_own =
    let got = get_default_blockchain_config s.order s.getting db in
    let (c, first) = seeded env s db got refl h in
    let db' = (ended env s db got).1 in
    let (client, served) =
      started-get s.order db' c (ended-IsKeyed env s db got k) (default-mem s.order db' c first) in
    (
      (reload (list_blockchain_configs s.order complete db') new_manager).1,
      c.id,
      client,
      refl,
      rw (none_own, first) refl,
      served,
    )
