-- ===== src/Manager/Matched.antt =====
-- The manager's two maps have the same keys, so that no signature hides a missing client.
use chainmesh.Base.{
  ◌≡◌, ◌∙◌, refl, String, Bool, true, false, Option, none, some, List, [], ◌∷◌, ◌==◌, arith, inl,
  inr, ◌⊎◌, Bool-cases, Option-cases, contains, if◌then◌else◌,
}
use mathlib.Core.List.{Memᴰ}
use chainmesh.Base.Dict.{lookup, lookup-insert, lookup-delete}
use chainmesh.Model.{BlockchainConfig}
use chainmesh.Client.{Client}
use chainmesh.Manager.{
  Manager, new_manager, config_signature, ready, install, apply_config, apply_configs, desired,
  remove, sweep, keys, reload,
}
use chainmesh.Manager.Reload.{IsCurrent, Distinct}
use chainmesh.Manager.Current.{reload-IsCurrent}
use chainmesh.Manager.Goroutines.{reloads}

-- A network without a client has no signature.
abbrev pub Matched : Manager → Type 0
Matched m = (id : String) → lookup id m.clients ≡ none → lookup id m.sigs ≡ none

install-Matched : (cfg : BlockchainConfig) (m : Manager) → Matched m → Matched (install cfg m)
unfolding install
install-Matched cfg m h id e = elim (Bool-cases (cfg.id == id)) [
  | inl same ↦ absurd (some_ne (rw (lookup-insert, same) at e))
  | inr other ↦ rw (lookup-insert, other) (h id (rw (lookup-insert, other) at e))
]
  where
    some_ne : some (ready cfg) ≡ none → ⊥
    some_ne k = ground arith

remove-Matched : (gone : String) (m : Manager) → Matched m → Matched (remove gone m)
unfolding remove
remove-Matched gone m h id e = elim (Bool-cases (gone == id)) [
  | inl same ↦ rw (lookup-delete, same) refl
  | inr other ↦ rw (lookup-delete, other) (h id (rw (lookup-delete, other) at e))
]

either-Matched : (b : Bool) (x y : Manager) → Matched x → Matched y → Matched (if b then x else y)
either-Matched true x y h k = h
either-Matched false x y h k = k

apply_configs-Matched :
    (cfgs : List BlockchainConfig) (m : Manager) → Matched m → Matched (apply_configs cfgs m)
unfolding apply_configs apply_config
apply_configs-Matched [] m h = h
apply_configs-Matched (cfg ∷ cfgs) m h =
    apply_configs-Matched cfgs (apply_config cfg m)
      (either-Matched _ m _ h (either-Matched _ m _ h (install-Matched cfg m h)))

sweep-Matched : (wanted ids : List String) (m : Manager) → Matched m → Matched (sweep wanted ids m)
unfolding sweep
sweep-Matched wanted [] m h = h
sweep-Matched wanted (id ∷ ids) m h =
    sweep-Matched wanted ids _ (either-Matched (contains id wanted) m _ h (remove-Matched id m h))

reload-Matched :
    (list : Option (List BlockchainConfig)) (m : Manager) → Matched m → Matched (reload list m).1
unfolding reload
reload-Matched none m h = h
reload-Matched (some cfgs) m h =
    sweep-Matched (desired cfgs) (keys (apply_configs cfgs m).clients) (apply_configs cfgs m)
      (apply_configs-Matched cfgs m h)

reloads_keep :
    (lists : List (Option (List BlockchainConfig))) (m : Manager)
    → Matched m
    → Matched (reloads lists m)
unfolding reloads
reloads_keep [] m h = h
reloads_keep (list ∷ lists) m h = reloads_keep lists (reload list m).1 (reload-Matched list m h)

pub reloads-Matched :
    (lists : List (Option (List BlockchainConfig))) → Matched (reloads lists new_manager)
unfolding new_manager lookup
reloads-Matched lists = reloads_keep lists _ (λ id h. refl)

-- The network of a configuration has its signature and a client: the one that it had under the same
-- signature, or else a new one.
pub record IsServed (cfg : BlockchainConfig) (m m' : Manager) : Type 0 where
  pub sig : lookup cfg.id m'.sigs ≡ some (config_signature cfg)
  pub client : Client
  pub held : lookup cfg.id m'.clients ≡ some client
  pub origin :
      ((lookup cfg.id m.sigs ≡ some (config_signature cfg))
        × (lookup cfg.id m.clients ≡ some client))
      ⊎ (client ≡ ready cfg)

current-IsServed :
    (cfg : BlockchainConfig) (m m' : Manager) → Matched m → IsCurrent cfg m m' → IsServed cfg m m'
current-IsServed cfg m m' h c = elim c.client [
  | inr new ↦ record { sig = c.sig; client = ready cfg; held = new; origin = inr refl }
  | inl (same, kept) ↦ elim (Option-cases (lookup cfg.id m.clients)) [
    | inl missing ↦ absurd (none_ne (rw (h cfg.id missing) at same))
    | inr (client, e) ↦ record {
      sig = c.sig;
      client = client;
      held = kept ∙ e;
      origin = inl (same, e);
    }
  ]
]
  where
    none_ne : {s : String} → none ≡ some s → ⊥
    none_ne k = ground arith

-- After any reloads of a new manager, a reload with a list whose enabled configurations have different IDs
-- leaves each enabled one with its signature and a client.
pub reload-IsServed :
    (lists : List (Option (List BlockchainConfig))) (cfgs : List BlockchainConfig)
    (cfg : BlockchainConfig)
    → Distinct cfgs
    → Memᴰ cfg cfgs
    → cfg.enabled ≡ true
    → IsServed cfg (reloads lists new_manager) (reload (some cfgs) (reloads lists new_manager)).1
reload-IsServed lists cfgs cfg d mem on =
    current-IsServed cfg _ _ (reloads-Matched lists) (reload-IsCurrent cfgs _ cfg d mem on)
