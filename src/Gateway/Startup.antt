-- ===== src/Gateway/Startup.antt =====
-- backend/gateway/main.go: what main does with the database before it serves. The environment is a
-- parameter; a variable that is not set is "". The telemetry recorder and the refresher start empty.
pub mod Default
use mathlib.Core.List.{Mem, Memᴰ, Perm}
use mathlib.Core.List.Perm
use mathlib.Core.Logic.{∥∥₁_map, ∥∥₁_elim}
use mathlib.Core.Bool.{false≢true}
use chainmesh.Base.{
  ℕ, ◌≡◌, ◌≢◌, refl, sym, ap, ◌∙◌, String, Bool, true, false, not, Option, none, some, List, [],
  ◌∷◌, ◌++◌, keep, ◌==◌, inl, inr, Bool-cases, Option-cases, arith, if◌then◌else◌,
}
use chainmesh.Base.Order.{OrderBy}
use chainmesh.Base.Latest.{top}
use chainmesh.Model.{BlockchainConfig}
use chainmesh.Redis.{Delivery, delivered, refused, lost}
use chainmesh.Store.{Database}
use chainmesh.Store.Statements.{Reading}
use chainmesh.Store.Networks.{
  list_blockchain_configs, get_default_blockchain_config, save_blockchain_config,
}
use chainmesh.Manager.{Manager, new_manager, reload}

abbrev pub Env : Type 0
Env = String → String

-- What seedDefaultConfig saves.
unfoldable pub seed_config : Env → BlockchainConfig
seed_config env = record {
  id = "";
  name = "default";
  rpc_endpoint_1 = env "RPC_ENDPOINT_1";
  rpc_endpoint_2 = env "RPC_ENDPOINT_2";
  chain_id = "";
  enabled = true;
  created_at = 0;
  updated_at = 0;
}

-- The fates of its two statements, and the ID and the time that the server makes up.
pub record Seeding : Type 1 where
  pub order : OrderBy
  pub getting : Delivery
  pub saving : Delivery
  pub network_id : String
  pub now : ℕ

abbrev pub is_some : {A : Type 0} → Option A → Bool
is_some none = false
is_some (some a) = true

-- The end of seedDefaultConfig, once no default was got.
unfoldable pub save_default : Env → Seeding → Database → Bool × Database
save_default env s db =
    if env "RPC_ENDPOINT_1" == ""
    then (false, db)
    else let (saved, db') =
        save_blockchain_config s.saving s.network_id s.now (seed_config env) db in
      (is_some saved, db')

-- seedDefaultConfig: is there no error, and the database after it
unfoldable pub seed_default_config : Env → Seeding → Database → Bool × Database
seed_default_config env s db = elim (get_default_blockchain_config s.order s.getting db) [
  | some cfg ↦ (true, db)
  | none ↦ save_default env s db
]

-- main, from the seeding to the start of the manager. An error of the first is only logged, one of the second
-- ends the process, which is none.
unfoldable pub start_gateway : Env → Seeding → Reading → Database → Option Manager × Database
start_gateway env s reading db =
    let db' = (seed_default_config env s db).1 in
    let (started, m) = reload (list_blockchain_configs s.order reading db') new_manager in
    (if started then some m else none, db')
