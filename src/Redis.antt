-- ===== src/Redis.antt =====
-- The Redis server as the gateway uses it: a service, so an interface. Its documented behaviour is
-- a record of laws over what a key holds.
pub mod Instance
pub mod Texts
use chainmesh.Base.{
  ℕ, suc, ◌+◌, ◌*◌, ◌<◌, ◌≡◌, ◌≢◌, String, Bool, true, Option, none, some, ltb, if◌then◌else◌,
}

-- A key that holds a counter: its value, and when it expires.
pub record Counter : Type 0 where
  pub value : ℕ
  pub expires : Option ℕ

-- The part of a key's content that is there at a time.
abbrev pub unexpired : ℕ → Option Counter → Option Counter
unexpired t none = none
unexpired t (some c) = elim c.expires [ none ↦ some c | some e ↦ if ltb t e then some c else none ]

-- What INCR writes: one more than what was there, with its expiry kept; a new key has none.
abbrev pub incremented : Option Counter → Counter
incremented none = record { value = 1; expires = none }
incremented (some c) = record c { value = suc c.value }

-- INCR and EXPIRE at a time of the server's clock, in nanoseconds. `entry` is what a key holds. INCR
-- fails at the largest 64-bit value, and then changes nothing.
pub record Counters : Type 1 where
  pub State : Type 0
  pub entry : State → String → Option Counter
  pub incr : ℕ → String → State → Option ℕ × State
  pub expire : ℕ → String → ℕ → State → State
  pub incr_reply :
      (t : ℕ) (k : String) (s : State) (n : ℕ)
      → (incr t k s).0 ≡ some n
      → (n ≡ (incremented (unexpired t (entry s k))).value)
        × (entry (incr t k s).1 k ≡ some (incremented (unexpired t (entry s k))))
  pub incr_error :
      (t : ℕ) (k j : String) (s : State)
      → (incr t k s).0 ≡ none
      → entry (incr t k s).1 j ≡ entry s j
  pub incr_other : (t : ℕ) (k j : String) (s : State) → k ≢ j → entry (incr t k s).1 j ≡ entry s j
  pub expire_self :
      (t : ℕ) (k : String) (seconds : ℕ) (s : State) (c : Counter)
      → unexpired t (entry s k) ≡ some c
      → entry (expire t k seconds s) k
        ≡ some (record c { expires = some (t + seconds * 1000000000) })
  pub expire_other :
      (t : ℕ) (k j : String) (seconds : ℕ) (s : State)
      → k ≢ j
      → entry (expire t k seconds s) j ≡ entry s j

-- A round trip to the server: the reply arrives, the request does not, or the reply is lost after
-- the server ran the request.
pub data Delivery : Type 0 where
  delivered refused lost : Delivery
