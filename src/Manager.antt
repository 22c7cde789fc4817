-- ===== src/Manager.antt =====
-- backend/gateway/manager.go: the clients of the enabled networks. Each reload is one step, under the
-- manager's lock; the ticker of `loop` decides only when it comes. The database's list is a parameter
-- of it. The logger is not modelled.
pub mod Reload
pub mod Sweep
pub mod Current
pub mod Goroutines
pub mod Matched
use Prim.Native.String.{◌++◌}
use chainmesh.Base.{
  ℕ, ◌*◌, ◌+◌, ◌-◌, String, Bool, true, false, not, Option, none, some, List, [], ◌∷◌, ◌==◌, map,
  contains, if◌then◌else◌,
}
use chainmesh.Base.Dict.{Dict, lookup, insert, delete}
use chainmesh.Clock.{second}
use chainmesh.Model.{BlockchainConfig}
use chainmesh.Client.{
  Client, EndpointHealth, new, set_network_id, start_health_checks, stop_health_checks,
  healthy_endpoints,
}

-- `goroutines` counts the health-check goroutines of the process that run.
pub record Manager : Type 0 where
  pub clients : Dict Client
  pub sigs : Dict String
  pub goroutines : ℕ
  pub health_done : Bool

unfoldable pub new_manager : Manager
new_manager = record { clients = []; sigs = []; goroutines = 0; health_done = false }

abbrev pub bool_text : Bool → String
bool_text true = "true"
bool_text false = "false"

-- configSignature
unfoldable pub config_signature : BlockchainConfig → String
config_signature cfg =
    cfg.rpc_endpoint_1 ++ ("|" ++ (cfg.rpc_endpoint_2 ++ ("|" ++ bool_text cfg.enabled)))

abbrev pub endpoints_of : BlockchainConfig → List String
endpoints_of cfg =
    cfg.rpc_endpoint_1 ∷ (if cfg.rpc_endpoint_2 == "" then [] else cfg.rpc_endpoint_2 ∷ [])

-- The new client of a network.
unfoldable pub ready : BlockchainConfig → Client
ready cfg = start_health_checks (set_network_id (new (endpoints_of cfg)) cfg.id) (10 * second)

-- The goroutine of a client.
abbrev pub runs : Client → ℕ
runs c = if c.checking then 1 else 0

-- The goroutines that are left of n after StopHealthChecks of one client.
unfoldable pub stopped : Client → ℕ → ℕ
stopped c n = n + runs (stop_health_checks c) - runs c

-- if old, ok := m.clients[cfg.ID]; ok { old.StopHealthChecks() }
unfoldable pub stop_old : Option Client → ℕ → ℕ
stop_old none n = n
stop_old (some c) n = stopped c n

unfoldable pub install : BlockchainConfig → Manager → Manager
install cfg m = record m {
  clients = insert cfg.id (ready cfg) m.clients;
  sigs = insert cfg.id (config_signature cfg) m.sigs;
  goroutines = stop_old (lookup cfg.id m.clients) m.goroutines + runs (ready cfg);
}

-- exists && oldSig == sig
unfoldable pub same_signature : Option String → String → Bool
same_signature none sig = false
same_signature (some old) sig = old == sig

-- One round of the loop over the configurations.
unfoldable pub apply_config : BlockchainConfig → Manager → Manager
apply_config cfg m =
    if not cfg.enabled
    then m
    else if same_signature (lookup cfg.id m.sigs) (config_signature cfg)
    then m
    else install cfg m

unfoldable pub apply_configs : List BlockchainConfig → Manager → Manager
apply_configs [] m = m
apply_configs (cfg ∷ cfgs) m = apply_configs cfgs (apply_config cfg m)

-- The keys of `desired`.
unfoldable pub desired : List BlockchainConfig → List String
desired [] = []
desired (cfg ∷ cfgs) = let rest = desired cfgs in if cfg.enabled then cfg.id ∷ rest else rest

unfoldable pub remove : String → Manager → Manager
remove id m = record m {
  clients = delete id m.clients;
  sigs = delete id m.sigs;
  goroutines = stop_old (lookup id m.clients) m.goroutines;
}

-- The loop over the map, with its keys as they were at its start.
unfoldable pub sweep : List String → List String → Manager → Manager
sweep wanted [] m = m
sweep wanted (id ∷ ids) m = sweep wanted ids (if contains id wanted then m else remove id m)

abbrev pub keys : Dict Client → List String
keys m = map (λ e. e.0) m

-- reload: an error of the database is returned with nothing changed.
unfoldable pub reload : Option (List BlockchainConfig) → Manager → Bool × Manager
reload none m = (false, m)
reload (some cfgs) m =
    let applied = apply_configs cfgs m in
    (true, sweep (desired cfgs) (keys applied.clients) applied)

-- Manager.Get
unfoldable pub get : Manager → String → Option Client
get m id = lookup id m.clients

-- Manager.Health, in the order in which it ranges over the map
unfoldable pub health : Manager → List (String × List EndpointHealth)
health m = map (λ e. (e.0, healthy_endpoints e.1)) m.clients

stop_all : List (String × Client) → ℕ → ℕ
stop_all [] n = n
stop_all (e ∷ es) n = stop_all es (stopped e.1 n)

-- Manager.Stop
unfoldable pub stop : Manager → Manager
unfolding stop_all
stop m = record {
  clients = [];
  sigs = [];
  goroutines = stop_all m.clients m.goroutines;
  health_done = true;
}
