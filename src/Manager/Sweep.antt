-- ===== src/Manager/Sweep.antt =====
-- The second loop of reload: it takes out the networks that are not wanted, and only those.
use chainmesh.Base.{
  ◌≡◌, refl, sym, ap, ◌∙◌, String, true, false, none, List, [], ◌∷◌, ◌==◌, eq_iff, eq_refl, arith,
  contains, inl, inr, ◌⊎◌, Bool-cases,
}
use mathlib.Core.Bool.{false≢true}
use chainmesh.Base.Dict.{Dict, lookup, lookup-delete}
use chainmesh.Client.{Client}
use chainmesh.Manager.{Manager, remove, sweep, keys}
use chainmesh.Manager.Reload.{SameAt, SameAt-refl, SameAt-trans}

remove_other : (id j : String) (m : Manager) → (id == j) ≡ false → SameAt j m (remove id m)
unfolding remove
remove_other id j m h = record {
  clients = rw (lookup-delete, h) refl;
  sigs = rw (lookup-delete, h) refl;
}

-- A wanted network is left alone.
pub sweep_wanted :
    (wanted ids : List String) (j : String) (m : Manager)
    → contains j wanted ≡ true
    → SameAt j m (sweep wanted ids m)
unfolding sweep
sweep_wanted wanted [] j m h = SameAt-refl
sweep_wanted wanted (id ∷ ids) j m h = elim (Bool-cases (contains id wanted)) [
  | inl keep ↦ rw (keep, sweep) (sweep_wanted wanted ids j m h)
  | inr out ↦
      rw (out, sweep)
        (SameAt-trans (remove_other id j m (differs out))
          (sweep_wanted wanted ids j (remove id m) h))
]
  where
    differs : contains id wanted ≡ false → (id == j) ≡ false
    differs out = elim (Bool-cases (id == j)) [
      | inr e ↦ e
      | inl e ↦
          absurd (false≢true (sym out ∙ (ap (λ x. contains x wanted) ((eq_iff id j).0 e) ∙ h)))
    ]

-- A network without a client stays so.
remove-none :
    (id j : String) (m : Manager)
    → lookup j m.clients ≡ none
    → lookup j (remove id m).clients ≡ none
unfolding remove
remove-none id j m h = elim (Bool-cases (id == j)) [
  | inl e ↦ rw (lookup-delete, e) refl
  | inr e ↦ rw (lookup-delete, e) h
]

remove-removes : (j : String) (m : Manager) → lookup j (remove j m).clients ≡ none
unfolding remove
remove-removes j m = rw (lookup-delete, eq_refl) refl

-- What the loop takes out: a key that it has still to come to, or that has no client.
sweep_removes :
    (wanted ids : List String) (j : String) (m : Manager)
    → contains j wanted ≡ false
    → (contains j ids ≡ true) ⊎ (lookup j m.clients ≡ none)
    → lookup j (sweep wanted ids m).clients ≡ none
unfolding sweep
sweep_removes wanted [] j m h (inl k) = absurd (ground arith)
sweep_removes wanted [] j m h (inr k) = k
sweep_removes wanted (id ∷ ids) j m h k = elim (Bool-cases (id == j)) [
  | inl same ↦
      let e : id ≡ j = (eq_iff id j).0 same in
      let out : contains id wanted ≡ false = ap (λ x. contains x wanted) e ∙ h in
      rw (out, sweep)
        (sweep_removes wanted ids j (remove id m) h
          (inr (ap (λ x. lookup j (remove x m).clients) e ∙ remove-removes j m)))
  | inr other ↦ elim (Bool-cases (contains id wanted)) [
    | inl keep ↦ rw (keep, sweep) (sweep_removes wanted ids j m h (left m other k))
    | inr out ↦
        rw (out, sweep)
          (sweep_removes wanted ids j (remove id m) h
            (elim (left m other k) [ inl c ↦ inl c | inr n ↦ inr (remove-none id j m n) ]))
  ]
]
  where
    left :
        (m : Manager)
        → (id == j) ≡ false
        → (contains j (id ∷ ids) ≡ true) ⊎ (lookup j m.clients ≡ none)
        → (contains j ids ≡ true) ⊎ (lookup j m.clients ≡ none)
    left m other (inl c) = inl (rw other at c)
    left m other (inr n) = inr n

keys_complete : (j : String) (m : Dict Client) → (contains j (keys m) ≡ true) ⊎ (lookup j m ≡ none)
unfolding lookup
keys_complete j [] = inr refl
keys_complete j ((k, c) ∷ m) = elim (Bool-cases (k == j)) [
  | inl same ↦ inl (rw (same) refl)
  | inr other ↦ rw other (keys_complete j m)
]

-- No unwanted network keeps its client.
pub sweep_unwanted :
    (wanted : List String) (j : String) (m : Manager)
    → contains j wanted ≡ false
    → lookup j (sweep wanted (keys m.clients) m).clients ≡ none
sweep_unwanted wanted j m h =
    sweep_removes wanted (keys m.clients) j m h (keys_complete j m.clients)
