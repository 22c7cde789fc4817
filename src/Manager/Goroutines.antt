-- ===== src/Manager/Goroutines.antt =====
-- The health-check goroutines of the manager's clients: one for each client in the map, and no other.
use mathlib.Core.Option.{some-injective}
use mathlib.Core.Path.{subst}
use chainmesh.Base.{
  ℕ, suc, ◌+◌, ◌≡◌, refl, sym, ap, ◌∙◌, String, Bool, true, false, Option, none, some, List, [],
  ◌∷◌, ◌==◌, eq_iff, All, inl, inr, Bool-cases, Option-cases, contains, length, arith,
  if◌then◌else◌,
}
use chainmesh.Base.Dict.{Dict, lookup, insert, delete, lookup-insert, lookup-delete}
use chainmesh.Model.{BlockchainConfig}
use chainmesh.Client.{Client, start_health_checks, stop_health_checks}
use chainmesh.Manager.{
  Manager, new_manager, ready, stopped, stop_old, install, apply_config, apply_configs, desired,
  remove, sweep, keys, reload, stop_all, stop,
}

-- A client whose goroutine runs, and whose cancel function is set.
abbrev pub IsRunning : Client → Type 0
IsRunning c = (c.checking ≡ true) × (c.check_cancel ≡ true)

-- No key comes twice.
abbrev Keyed : Dict Client → Type 0
Keyed [] = Unit
Keyed ((k, c) ∷ m) = (lookup k m ≡ none) × Keyed m

-- Every client in the map runs, and there are as many goroutines as clients in the map.
pub record IsManaged (m : Manager) : Type 0 where
  pub running : All (λ e. IsRunning e.1) m.clients
  pub keyed : Keyed m.clients
  pub counted : m.goroutines ≡ length m.clients

insert-Keyed : (key : String) (c : Client) (m : Dict Client) → Keyed m → Keyed (insert key c m)
unfolding insert lookup
insert-Keyed key c [] h = (refl, tt)
insert-Keyed key c ((at, held) ∷ rest) (h, hs) = elim (Bool-cases (at == key)) [
  | inl e ↦ let same = (eq_iff at key).0 e in rw e (rw (← same) h, hs)
  | inr e ↦
      let other : (key == at) ≡ false = ground (arith, eq_iff at key, eq_iff key at) in
      rw e (rw (lookup-insert, other) h, insert-Keyed key c rest hs)
]

delete-Keyed : (key : String) (m : Dict Client) → Keyed m → Keyed (delete key m)
unfolding delete
delete-Keyed key [] h = tt
delete-Keyed key ((at, held) ∷ rest) (h, hs) = elim (Bool-cases (at == key)) [
  | inl e ↦ rw e (delete-Keyed key rest hs)
  | inr e ↦
      let gone : lookup at (delete key rest) ≡ none = ground (arith, lookup-delete key at rest) in
      rw e (gone, delete-Keyed key rest hs)
]

-- How many entries an insertion and a deletion leave.
size_inserted : Option Client → ℕ → ℕ
size_inserted none n = suc n
size_inserted (some c) n = n

length-insert :
    (key : String) (c : Client) (m : Dict Client)
    → length (insert key c m) ≡ size_inserted (lookup key m) (length m)
unfolding insert lookup size_inserted
length-insert key c [] = refl
length-insert key c ((at, held) ∷ rest) = elim (Bool-cases (at == key)) [
  | inl e ↦ rw e refl
  | inr e ↦
      let ih = length-insert key c rest in
      elim (Option-cases (lookup key rest)) [
        | inl n ↦ let ih' = rw n at ih in rw (e, n) (ground arith)
        | inr (d, n) ↦ let ih' = rw n at ih in rw (e, n) (ground arith)
      ]
]

delete-none : (key : String) (m : Dict Client) → lookup key m ≡ none → delete key m ≡ m
unfolding delete lookup
delete-none key [] h = refl
delete-none key ((at, held) ∷ rest) h = elim (Bool-cases (at == key)) [
  | inl e ↦ absurd (some_ne (rw e at h))
  | inr e ↦ rw e (rw (delete-none key rest (rw e at h)) refl)
]
  where
    some_ne : {c : Client} → some c ≡ none → ⊥
    some_ne k = ground arith

length-delete :
    (key : String) (m : Dict Client) (c : Client)
    → Keyed m
    → lookup key m ≡ some c
    → length m ≡ suc (length (delete key m))
unfolding delete lookup
length-delete key [] c k h = absurd (ground arith)
length-delete key ((at, held) ∷ rest) c (free, k) h = elim (Bool-cases (at == key)) [
  | inl e ↦
      let gone : lookup key rest ≡ none = rw (← (eq_iff at key).0 e) free in
      rw e (rw (delete-none key rest gone) refl)
  | inr e ↦ let ih = length-delete key rest c k (rw e at h) in rw e (ground arith)
]

module _ (P : Client → Type 0) where
  All-insert :
      (key : String) (c : Client) (m : Dict Client)
      → P c
      → All (λ e. P e.1) m
      → All (λ e. P e.1) (insert key c m)
  unfolding insert
  All-insert key c [] p h = (p, tt)
  All-insert key c ((at, held) ∷ rest) p (h, hs) = elim (Bool-cases (at == key)) [
    | inl e ↦ rw e (p, hs)
    | inr e ↦ rw e (h, All-insert key c rest p hs)
  ]

  All-delete :
      (key : String) (m : Dict Client) → All (λ e. P e.1) m → All (λ e. P e.1) (delete key m)
  unfolding delete
  All-delete key [] h = tt
  All-delete key ((at, held) ∷ rest) (h, hs) = elim (Bool-cases (at == key)) [
    | inl e ↦ rw e (All-delete key rest hs)
    | inr e ↦ rw e (h, All-delete key rest hs)
  ]

lookup-IsRunning :
    (key : String) (m : Dict Client) (c : Client)
    → All (λ e. IsRunning e.1) m
    → lookup key m ≡ some c
    → IsRunning c
unfolding lookup
lookup-IsRunning key [] c h e = absurd (ground arith)
lookup-IsRunning key ((at, held) ∷ rest) c (h, hs) e = elim (Bool-cases (at == key)) [
  | inl same ↦ let e' : held ≡ c = some-injective _ _ (rw same at e) in subst IsRunning e' h
  | inr other ↦ lookup-IsRunning key rest c hs (rw other at e)
]

-- A stop ends the goroutine of a client that runs.
stopped-IsRunning : (c : Client) (n : ℕ) → IsRunning c → stopped c (suc n) ≡ n
unfolding stopped stop_health_checks
stopped-IsRunning c n (on, set) = rw (set, on) (ground arith)

ready-IsRunning : (cfg : BlockchainConfig) → IsRunning (ready cfg)
unfolding ready start_health_checks
ready-IsRunning cfg = (refl, refl)

-- One goroutine ends for the client that was there, and one begins.
runs_after :
    (o : Option Client) (new : Client) (n : ℕ)
    → new.checking ≡ true
    → ((c : Client) → o ≡ some c → IsRunning c × ((k : ℕ) × (n ≡ suc k)))
    → stop_old o n + (if new.checking then 1 else 0) ≡ size_inserted o n
unfolding stop_old size_inserted
runs_after none new n on held = rw on (omega arith)
runs_after (some c) new n on held =
    let (runs_, (k, e)) = held c refl in rw (on, e, stopped-IsRunning c k runs_) (omega arith)

install-counted :
    (cfg : BlockchainConfig) (m : Manager)
    → IsManaged m
    → (install cfg m).goroutines ≡ length (install cfg m).clients
unfolding install
install-counted cfg m h =
    runs_after (lookup cfg.id m.clients) (ready cfg) m.goroutines (ready-IsRunning cfg).0 (λ c e. (
      lookup-IsRunning cfg.id m.clients c h.running e,
      (_, h.counted ∙ length-delete cfg.id m.clients c h.keyed e),
    ))
    ∙ (ap (size_inserted (lookup cfg.id m.clients)) h.counted
        ∙ sym (length-insert cfg.id (ready cfg) m.clients))

install-IsManaged : (cfg : BlockchainConfig) (m : Manager) → IsManaged m → IsManaged (install cfg m)
unfolding install
install-IsManaged cfg m h = record {
  running = All-insert IsRunning cfg.id (ready cfg) m.clients (ready-IsRunning cfg) h.running;
  keyed = insert-Keyed cfg.id (ready cfg) m.clients h.keyed;
  counted = install-counted cfg m h;
}

either-IsManaged :
    (b : Bool) (x y : Manager) → IsManaged x → IsManaged y → IsManaged (if b then x else y)
either-IsManaged true x y h k = h
either-IsManaged false x y h k = k

apply_configs-IsManaged :
    (cfgs : List BlockchainConfig) (m : Manager) → IsManaged m → IsManaged (apply_configs cfgs m)
unfolding apply_configs apply_config
apply_configs-IsManaged [] m h = h
apply_configs-IsManaged (cfg ∷ cfgs) m h =
    apply_configs-IsManaged cfgs (apply_config cfg m)
      (either-IsManaged _ m _ h (either-IsManaged _ m _ h (install-IsManaged cfg m h)))

remove-counted :
    (id : String) (m : Manager)
    → IsManaged m
    → (remove id m).goroutines ≡ length (remove id m).clients
unfolding remove stop_old
remove-counted id m h = elim (Option-cases (lookup id m.clients)) [
  | inl e ↦ rw (e, delete-none id m.clients e) h.counted
  | inr (c, e) ↦
      let less = length-delete id m.clients c h.keyed e in
      let runs_ = lookup-IsRunning id m.clients c h.running e in
      rw (e, h.counted, less) (stopped-IsRunning c _ runs_)
]

remove-IsManaged : (id : String) (m : Manager) → IsManaged m → IsManaged (remove id m)
unfolding remove
remove-IsManaged id m h = record {
  running = All-delete IsRunning id m.clients h.running;
  keyed = delete-Keyed id m.clients h.keyed;
  counted = remove-counted id m h;
}

sweep-IsManaged :
    (wanted ids : List String) (m : Manager) → IsManaged m → IsManaged (sweep wanted ids m)
unfolding sweep
sweep-IsManaged wanted [] m h = h
sweep-IsManaged wanted (id ∷ ids) m h =
    sweep-IsManaged wanted ids _
      (either-IsManaged (contains id wanted) m _ h (remove-IsManaged id m h))

reload-IsManaged :
    (list : Option (List BlockchainConfig)) (m : Manager)
    → IsManaged m
    → IsManaged (reload list m).1
unfolding reload
reload-IsManaged none m h = h
reload-IsManaged (some cfgs) m h =
    sweep-IsManaged (desired cfgs) (keys (apply_configs cfgs m).clients) (apply_configs cfgs m)
      (apply_configs-IsManaged cfgs m h)

-- The reloads of `Start` and `loop`, each with what the database answers.
unfoldable pub reloads : List (Option (List BlockchainConfig)) → Manager → Manager
reloads [] m = m
reloads (list ∷ lists) m = reloads lists (reload list m).1

reloads_keep :
    (lists : List (Option (List BlockchainConfig))) (m : Manager)
    → IsManaged m
    → IsManaged (reloads lists m)
unfolding reloads
reloads_keep [] m h = h
reloads_keep (list ∷ lists) m h = reloads_keep lists (reload list m).1 (reload-IsManaged list m h)

-- After any reloads of a new manager, failed ones included, the health checks of every client in the
-- map run, and the process has exactly as many health-check goroutines as the map has clients: those
-- of the clients that were replaced or removed have ended. No network has two clients.
pub reloads-IsManaged :
    (lists : List (Option (List BlockchainConfig))) → IsManaged (reloads lists new_manager)
unfolding new_manager
reloads-IsManaged lists = reloads_keep lists _ (record { running = tt; keyed = tt; counted = refl })

stop_all-zero :
    (es : List (String × Client)) → All (λ e. IsRunning e.1) es → stop_all es (length es) ≡ 0
unfolding stop_all
stop_all-zero [] h = refl
stop_all-zero (e ∷ es) (h, hs) = rw (stopped-IsRunning e.1 (length es) h) (stop_all-zero es hs)

-- After Stop, whatever the reloads before it, no client is left in the map and no health-check goroutine
-- runs.
pub stop-ends :
    (lists : List (Option (List BlockchainConfig)))
    → ((stop (reloads lists new_manager)).clients ≡ [])
      × ((stop (reloads lists new_manager)).goroutines ≡ 0)
unfolding stop
stop-ends lists =
    let h = reloads-IsManaged lists in (refl, rw h.counted (stop_all-zero _ h.running))
