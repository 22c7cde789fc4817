-- ===== src/Manager/Reload.antt =====
-- What the loop over the configurations leaves under each network's key.
use mathlib.Core.List.{Memᴰ}
use mathlib.Core.Path.{subst}
use mathlib.Core.Bool.{false≢true}
use chainmesh.Base.{
  ◌≡◌, refl, sym, ap, ◌∙◌, String, Bool, true, false, not, ◌||◌, Option, none, some, List, [], ◌∷◌,
  ◌==◌, eq_iff, eq_refl, arith, contains, if◌then◌else◌, inl, inr, ◌⊎◌, Bool-cases,
}
use chainmesh.Base.Dict.{lookup, lookup-insert, lookup-insert_self}
use chainmesh.Model.{BlockchainConfig}
use chainmesh.Manager.{
  Manager, config_signature, ready, install, same_signature, apply_config, apply_configs, desired,
}

-- The two maps agree at a key.
pub record SameAt (j : String) (m m' : Manager) : Type 0 where
  pub clients : lookup j m'.clients ≡ lookup j m.clients
  pub sigs : lookup j m'.sigs ≡ lookup j m.sigs

pub SameAt-trans : {j : String} {a b c : Manager} → SameAt j a b → SameAt j b c → SameAt j a c
SameAt-trans h k = record { clients = k.clients ∙ h.clients; sigs = k.sigs ∙ h.sigs }

pub SameAt-refl : {j : String} {m : Manager} → SameAt j m m
SameAt-refl = record { clients = refl; sigs = refl }

install_other :
    (cfg : BlockchainConfig) (j : String) (m : Manager)
    → (cfg.id == j) ≡ false
    → SameAt j m (install cfg m)
unfolding install
install_other cfg j m h = record {
  clients = rw (lookup-insert, h) refl;
  sigs = rw (lookup-insert, h) refl;
}

pick_old :
    {A : Type 0} (on same : Bool) (m n : A)
    → (on ≡ false) ⊎ (same ≡ true)
    → (if not on then m else if same then m else n) ≡ m
pick_old false same m n h = refl
pick_old true true m n h = refl
pick_old true false m n (inl h) = absurd (ground arith)
pick_old true false m n (inr h) = absurd (ground arith)

pick_new :
    {A : Type 0} (on same : Bool) (m n : A)
    → on ≡ true
    → same ≡ false
    → (if not on then m else if same then m else n) ≡ n
pick_new false same m n h k = absurd (ground arith)
pick_new true true m n h k = absurd (ground arith)
pick_new true false m n h k = refl

abbrev unchanged : BlockchainConfig → Manager → Bool
unchanged cfg m = same_signature (lookup cfg.id m.sigs) (config_signature cfg)

-- A configuration is skipped if it is disabled or has the signature of the last time.
apply_config_old :
    (cfg : BlockchainConfig) (m : Manager)
    → (cfg.enabled ≡ false) ⊎ (unchanged cfg m ≡ true)
    → apply_config cfg m ≡ m
unfolding apply_config
apply_config_old cfg m h = pick_old cfg.enabled (unchanged cfg m) m (install cfg m) h

apply_config_new :
    (cfg : BlockchainConfig) (m : Manager)
    → cfg.enabled ≡ true
    → unchanged cfg m ≡ false
    → apply_config cfg m ≡ install cfg m
unfolding apply_config
apply_config_new cfg m h k = pick_new cfg.enabled (unchanged cfg m) m (install cfg m) h k

apply_config_other :
    (cfg : BlockchainConfig) (j : String) (m : Manager)
    → (cfg.enabled ≡ false) ⊎ ((cfg.id == j) ≡ false)
    → SameAt j m (apply_config cfg m)
apply_config_other cfg j m (inl off) = rw (apply_config_old cfg m (inl off)) SameAt-refl
apply_config_other cfg j m (inr other) = elim (Bool-cases cfg.enabled) [
  | inr off ↦ rw (apply_config_old cfg m (inl off)) SameAt-refl
  | inl on ↦ elim (Bool-cases (unchanged cfg m)) [
    | inl same ↦ rw (apply_config_old cfg m (inr same)) SameAt-refl
    | inr new ↦ rw (apply_config_new cfg m on new) (install_other cfg j m other)
  ]
]

-- A network that no enabled configuration names is left alone.
pub apply_configs_other :
    (cfgs : List BlockchainConfig) (j : String) (m : Manager)
    → contains j (desired cfgs) ≡ false
    → SameAt j m (apply_configs cfgs m)
unfolding apply_configs desired
apply_configs_other [] j m h = SameAt-refl
apply_configs_other (cfg ∷ cfgs) j m h = elim (Bool-cases cfg.enabled) [
  | inr off ↦
      SameAt-trans (apply_config_other cfg j m (inl off))
        (apply_configs_other cfgs j (apply_config cfg m) (rw (off, desired) at h))
  | inl on ↦
      let h' : cfg.id == j || contains j (desired cfgs) ≡ false = rw (on, desired) at h in
      SameAt-trans (apply_config_other cfg j m (inr (ground arith)))
        (apply_configs_other cfgs j (apply_config cfg m) (ground arith))
]

-- The network of a configuration has its signature, and the client that it had under the same
-- signature, or else a new one.
pub record IsCurrent (cfg : BlockchainConfig) (m m' : Manager) : Type 0 where
  pub sig : lookup cfg.id m'.sigs ≡ some (config_signature cfg)
  pub client :
      ((lookup cfg.id m.sigs ≡ some (config_signature cfg))
        × (lookup cfg.id m'.clients ≡ lookup cfg.id m.clients))
      ⊎ (lookup cfg.id m'.clients ≡ some (ready cfg))

same_signature-eq : (o : Option String) (sig : String) → same_signature o sig ≡ true → o ≡ some sig
unfolding same_signature
same_signature-eq none sig h = absurd (ground arith)
same_signature-eq (some old) sig h = ap some ((eq_iff old sig).0 h)

install-IsCurrent : (cfg : BlockchainConfig) (m : Manager) → IsCurrent cfg m (install cfg m)
unfolding install
install-IsCurrent cfg m = record {
  sig = lookup-insert_self cfg.id (config_signature cfg) m.sigs;
  client = inr (lookup-insert_self cfg.id (ready cfg) m.clients);
}

apply_config-IsCurrent :
    (cfg : BlockchainConfig) (m : Manager)
    → cfg.enabled ≡ true
    → IsCurrent cfg m (apply_config cfg m)
apply_config-IsCurrent cfg m on = elim (Bool-cases (unchanged cfg m)) [
  | inl same ↦
      let e = same_signature-eq (lookup cfg.id m.sigs) (config_signature cfg) same in
      rw (apply_config_old cfg m (inr same)) (record { sig = e; client = inl (e, refl) })
  | inr new ↦ rw (apply_config_new cfg m on new) (install-IsCurrent cfg m)
]

pub IsCurrent-same :
    {cfg : BlockchainConfig} {a b c : Manager}
    → IsCurrent cfg a b
    → SameAt cfg.id b c
    → IsCurrent cfg a c
IsCurrent-same h s = record {
  sig = s.sigs ∙ h.sig;
  client = elim h.client [ inl (e, k) ↦ inl (e, s.clients ∙ k) | inr k ↦ inr (s.clients ∙ k) ];
}

IsCurrent-after :
    {cfg : BlockchainConfig} {a b c : Manager}
    → SameAt cfg.id a b
    → IsCurrent cfg b c
    → IsCurrent cfg a c
IsCurrent-after s h = record {
  sig = h.sig;
  client = elim h.client [ inl (e, k) ↦ inl (sym s.sigs ∙ e, k ∙ s.clients) | inr k ↦ inr k ];
}

-- No two enabled configurations have the same ID.
unfoldable pub Distinct : List BlockchainConfig → Type 0
Distinct [] = Unit
Distinct (cfg ∷ cfgs) =
    ((cfg.enabled ≡ false) ⊎ (contains cfg.id (desired cfgs) ≡ false)) × Distinct cfgs

-- An enabled configuration is among the wanted ones.
pub desired-contains :
    (cfgs : List BlockchainConfig) {cfg : BlockchainConfig}
    → Memᴰ cfg cfgs
    → cfg.enabled ≡ true
    → contains cfg.id (desired cfgs) ≡ true
unfolding desired
desired-contains [] m on = elim m [ ]
desired-contains (c ∷ cs) {cfg} (Memᴰ.head e) on =
    let here : c.enabled ≡ true = subst (λ x. x.enabled ≡ true) e on in
    rw (here, desired, e, eq_refl) refl
desired-contains (c ∷ cs) {cfg} (Memᴰ.tail m) on = let ih = desired-contains cs m on in ground arith

-- A network that another configuration does not name: it is disabled, or comes before.
apart :
    (a b : String) (js : List String)
    → contains a js ≡ false
    → contains b js ≡ true
    → (a == b) ≡ false
apart a b js h k = elim (Bool-cases (a == b)) [
  | inr e ↦ e
  | inl e ↦
      let same : a ≡ b = (eq_iff a b).0 e in
      absurd (false≢true (sym h ∙ (ap (λ x. contains x js) same ∙ k)))
]

pub apply_configs-IsCurrent :
    (cfgs : List BlockchainConfig) (m : Manager) {cfg : BlockchainConfig}
    → Distinct cfgs
    → Memᴰ cfg cfgs
    → cfg.enabled ≡ true
    → IsCurrent cfg m (apply_configs cfgs m)
unfolding apply_configs Distinct
apply_configs-IsCurrent [] m d mem on = elim mem [ ]
apply_configs-IsCurrent (c ∷ cs) m {cfg} (d, ds) (Memᴰ.head e) on =
    subst (λ x. IsCurrent x m (apply_configs cs (apply_config c m))) (sym e)
      (IsCurrent-same (apply_config-IsCurrent c m here)
        (apply_configs_other cs c.id (apply_config c m) (later_other d)))
  where
    here : c.enabled ≡ true
    here = subst (λ x. x.enabled ≡ true) e on

    later_other :
        (c.enabled ≡ false) ⊎ (contains c.id (desired cs) ≡ false)
        → contains c.id (desired cs) ≡ false
    later_other (inl off) = absurd (false≢true (sym off ∙ here))
    later_other (inr other) = other
apply_configs-IsCurrent (c ∷ cs) m {cfg} (d, ds) (Memᴰ.tail mem) on =
    IsCurrent-after (apply_config_other c cfg.id m (earlier_other d))
      (apply_configs-IsCurrent cs (apply_config c m) ds mem on)
  where
    earlier_other :
        (c.enabled ≡ false) ⊎ (contains c.id (desired cs) ≡ false)
        → (c.enabled ≡ false) ⊎ ((c.id == cfg.id) ≡ false)
    earlier_other (inl off) = inl off
    earlier_other (inr other) =
        inr (apart c.id cfg.id (desired cs) other (desired-contains cs mem on))
