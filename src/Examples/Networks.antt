-- ===== src/Examples/Networks.antt =====
-- A manager that reloads a list with one enabled network and one that is disabled.
use chainmesh.Base.{Option, refl, Bool, true, false, String, none, some, List, [], ◌∷◌, inl, inr}
use chainmesh.Model.{BlockchainConfig}
use chainmesh.Manager.{new_manager, desired}
use chainmesh.Manager.Reload.{Distinct}
use chainmesh.Manager.Goroutines.{IsManaged, reloads, reloads-IsManaged}

abbrev pub network : String → Bool → BlockchainConfig
network id enabled = record {
  id = id;
  name = id;
  rpc_endpoint_1 = "http://a";
  rpc_endpoint_2 = "http://b";
  chain_id = "0x1";
  enabled = enabled;
  created_at = 0;
  updated_at = 0;
}

abbrev networks : List BlockchainConfig
networks = network "eth" true ∷ network "old" false ∷ []

distinct : Distinct networks
unfolding Distinct desired
distinct = (inr refl, (inl refl, tt))

-- The network is taken out by the second list, and the database fails the third time.
abbrev lists : List (Option (List BlockchainConfig))
lists = some networks ∷ some [] ∷ none ∷ []

reloads-IsManaged_example : IsManaged (reloads lists new_manager)
reloads-IsManaged_example = reloads-IsManaged lists
