-- ===== src/Redis/Texts.antt =====
-- GET and SET of the Redis server, for the response cache.
use mathlib.Core.Option.{some-injective}
use chainmesh.Base.{
  ◌⊎◌, inl, inr, sym, ◌∙◌, Option-cases, ℕ, ◌≡◌, ◌≢◌, String, Option, none, some, arith, eq_iff,
}
use chainmesh.Base.Dict.{Dict, lookup, insert, lookup-insert, lookup-insert_self}

-- A text with the time to live that it was set with, in nanoseconds.
pub record Text : Type 0 where
  pub text : String
  pub life : ℕ

-- `get` is GET: none is a missing key or an error of any kind. `held` is the value that a key has
-- been set to; GET answers nothing else. SET may fail, and then changes nothing.
pub record Texts : Type 1 where
  pub State : Type 0
  pub held : State → String → Option Text
  pub get : ℕ → String → State → Option String
  pub set : ℕ → String → Text → State → State
  pub get_held :
      (t : ℕ) (k : String) (s : State) (v : String)
      → get t k s ≡ some v
      → (life : ℕ) × (held s k ≡ some (record { text = v; life = life }))
  pub set_other :
      (t : ℕ) (k j : String) (v : Text) (s : State) → k ≢ j → held (set t k v s) j ≡ held s j
  pub set_held :
      (t : ℕ) (k : String) (v x : Text) (s : State)
      → held (set t k v s) k ≡ some x
      → (x ≡ v) ⊎ (held s k ≡ some x)

abbrev pub dict_get : String → Dict Text → Option String
dict_get k m = elim (lookup k m) [ none ↦ none | some v ↦ some v.text ]

pub dict_get_held :
    (k : String) (m : Dict Text) (v : String)
    → dict_get k m ≡ some v
    → (life : ℕ) × (lookup k m ≡ some (record { text = v; life = life }))
dict_get_held k m v h = elim (Option-cases (lookup k m)) [
  | inl e ↦ let h' : none ≡ some v = rw (e, dict_get) at h in cc
  | inr (x, e) ↦ let h' : some x.text ≡ some v = rw (e, dict_get) at h in (x.life, ground arith)
]

pub dict_set_other :
    (k j : String) (v : Text) (m : Dict Text) → k ≢ j → lookup j (insert k v m) ≡ lookup j m
dict_set_other k j v m h = rw lookup-insert (ground (arith, eq_iff k j))

pub dict_set_held :
    (k : String) (v x : Text) (m : Dict Text)
    → lookup k (insert k v m) ≡ some x
    → (x ≡ v) ⊎ (lookup k m ≡ some x)
dict_set_held k v x m h = inl (some-injective _ _ (sym h ∙ lookup-insert_self k v m))

-- A map that never forgets has these laws.
abbrev pub dict_texts : Texts
dict_texts = record {
  State = Dict Text;
  held = λ m k. lookup k m;
  get = λ t. dict_get;
  set = λ t. insert;
  get_held = λ t. dict_get_held;
  set_other = λ t. dict_set_other;
  set_held = λ t. dict_set_held;
}
