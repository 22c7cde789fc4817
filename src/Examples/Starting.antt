-- ===== src/Examples/Starting.antt =====
-- A gateway that starts with an empty database and one endpoint, and the endpoints that it shows.
use chainmesh.Base.{none, Option, ◌≡◌, refl, true, String, some, List, [], ◌∷◌, ◌==◌, if◌then◌else◌}
use chainmesh.Base.Dict.{lookup, insert}
use chainmesh.Base.Order.{insertion_order}
use chainmesh.Base.Sorting.{sort_by}
use chainmesh.Model.{BlockchainConfig, Tenant}
use chainmesh.Redis.{delivered}
use chainmesh.Client.{Client, new, healthy_endpoints}
use chainmesh.Store.Statements.{exec, query_row, complete}
use chainmesh.Store.Networks.{get_default_blockchain_config, save_blockchain_config}
use chainmesh.Manager.{Manager, new_manager, get, health}
use chainmesh.Proxy.{network_of}
use chainmesh.Gateway.Nodes.{Hosts, Each, AlikeNetworks, health_nodes, health_nodes-hides}
use chainmesh.Gateway.Startup.{
  Env, Seeding, seed_config, save_default, seed_default_config, start_gateway,
}
use chainmesh.Gateway.Startup.Default.{start_gateway-serves}
use chainmesh.System.{Operation, saves_network, deletes_tenant}
use chainmesh.Examples.Accounts.{db}
use chainmesh.Examples.Networks.{network}
use chainmesh.Examples.Tenants.{tenant}

abbrev env : Env
env name = if name == "RPC_ENDPOINT_1" then "http://a/secret" else ""

abbrev seeding : Seeding
seeding = record {
  order = insertion_order;
  getting = delivered;
  saving = delivered;
  network_id = "n1";
  now = 5;
}

abbrev own_none : Tenant
own_none = record tenant { network_id = "" }

seeded : (seed_default_config env seeding db).0 ≡ true
unfolding sort_by seed_default_config save_default seed_config get_default_blockchain_config
    query_row save_blockchain_config exec
seeded = refl

start_gateway-serves_example :
    (m : Manager) × (id : String) × (client : Client) × ((start_gateway env seeding complete db).0
      ≡ some m)
    × (network_of own_none (
          get_default_blockchain_config insertion_order delivered
            (start_gateway env seeding complete db).1)
        ≡ some id)
    × (get m id ≡ some client)
start_gateway-serves_example = start_gateway-serves env seeding db own_none tt seeded refl

-- A network is saved, and then a tenant is deleted.
abbrev operations : List Operation
operations = saves_network delivered "eth" 5 (network "" true) ∷ deletes_tenant delivered "t9" ∷ []

abbrev saved : BlockchainConfig
saved = record (network "" true) { id = "eth"; created_at = 5; updated_at = 5 }

-- The network was there, was taken out, and is there again.
abbrev earlier : List (Option (List BlockchainConfig))
earlier = some (saved ∷ []) ∷ none ∷ some [] ∷ []

-- Every endpoint is on one host.
abbrev one_host : Hosts
one_host url = some "a"

abbrev shown : String → Manager
shown endpoint = record new_manager { clients = ("eth", new (endpoint ∷ [])) ∷ [] }

alike : Each (AlikeNetworks one_host) (health (shown "http://a/1")) (health (shown "http://a/2"))
unfolding health healthy_endpoints new new_manager lookup insert
alike = (
  (
    refl,
    (
      record {
        same_host = refl;
        same_healthy = refl;
        same_latency = refl;
        same_check = refl;
        same_fails = refl;
        same_requests = refl;
        same_failures = refl;
      },
      tt,
    ),
  ),
  tt,
)

health_nodes-hides_example :
    health_nodes one_host (shown "http://a/1") ≡ health_nodes one_host (shown "http://a/2")
health_nodes-hides_example =
    health_nodes-hides one_host (shown "http://a/1") (shown "http://a/2") alike
