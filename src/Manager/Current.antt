-- ===== src/Manager/Current.antt =====
-- What a reload promises.
use mathlib.Core.List.{Memᴰ}
use chainmesh.Base.{◌≡◌, String, true, false, none, some, List, contains}
use chainmesh.Model.{BlockchainConfig}
use chainmesh.Manager.{Manager, apply_configs, desired, keys, reload, get}
use chainmesh.Manager.Reload.{
  IsCurrent, IsCurrent-same, Distinct, desired-contains, apply_configs-IsCurrent,
}
use chainmesh.Manager.Sweep.{sweep_wanted, sweep_unwanted}

-- After a reload with a list whose enabled configurations have different IDs, each enabled one has its
-- signature and its client: the one that it had, if its signature is as before, and else a new one
-- for its endpoints.
pub reload-IsCurrent :
    (cfgs : List BlockchainConfig) (m : Manager) (cfg : BlockchainConfig)
    → Distinct cfgs
    → Memᴰ cfg cfgs
    → cfg.enabled ≡ true
    → IsCurrent cfg m (reload (some cfgs) m).1
unfolding reload
reload-IsCurrent cfgs m cfg d mem on = IsCurrent-same (apply_configs-IsCurrent cfgs m d mem on) (
    sweep_wanted (desired cfgs) (keys (apply_configs cfgs m).clients) cfg.id (apply_configs cfgs m)
      (desired-contains cfgs mem on))

-- After a reload, a network that no enabled configuration names has no client.
pub reload-removed :
    (cfgs : List BlockchainConfig) (m : Manager) (id : String)
    → contains id (desired cfgs) ≡ false
    → get (reload (some cfgs) m).1 id ≡ none
unfolding reload get
reload-removed cfgs m id h = sweep_unwanted (desired cfgs) id (apply_configs cfgs m) h
