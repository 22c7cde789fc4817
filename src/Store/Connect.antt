-- ===== src/Store/Connect.antt =====
-- The connection loop of New in backend/shared/storage/postgres/db.go. The pool's configuration and the
-- environment variables that it is read from are left out.
use chainmesh.Base.{
  ℕ, zero, suc, ◌+◌, ◌≤◌, ◌≡◌, refl, sym, Bool, true, false, ◌||◌, arith, ltb, if◌then◌else◌, inl,
  inr, Bool-cases,
}
use mathlib.Core.Bool.{false≢true}

-- How an attempt goes: no pool, a pool whose ping fails, or one whose ping arrives.
pub data Attempt : Type 0 where
  no_pool no_ping pinged : Attempt

-- Whether New has got its database, the pools that it has opened and closed, and the seconds that it has
-- slept.
pub record Connecting : Type 0 where
  pub connected : Bool
  pub opened : ℕ
  pub closed : ℕ
  pub slept : ℕ

abbrev pub max_retries : ℕ
max_retries = 10

-- The body of the loop without the sleep.
abbrev attempted : Attempt → Connecting → Connecting
attempted no_pool c = c
attempted no_ping c = record c { opened = suc c.opened; closed = suc c.closed }
attempted pinged c = record c { opened = suc c.opened; connected = true }

abbrev rested : ℕ → Connecting → Connecting
rested i c = if ltb i max_retries then record c { slept = suc c.slept } else c

-- The loop from attempt i on, with the attempts left.
unfoldable pub connect_from : (ℕ → Attempt) → ℕ → ℕ → Connecting → Connecting
connect_from try zero i c = c
connect_from try (suc left) i c =
    let c' = attempted (try i) c in
    let rest = connect_from try left (suc i) (rested i c') in if c'.connected then c' else rest

unfoldable pub connect : (ℕ → Attempt) → Connecting
connect try =
    connect_from try max_retries 1 (record { connected = false; opened = 0; closed = 0; slept = 0 })

abbrev arrives : Attempt → Bool
arrives no_pool = false
arrives no_ping = false
arrives pinged = true

-- Some attempt of `left` ones, from attempt i on, is pinged.
abbrev pub some_pinged : (ℕ → Attempt) → ℕ → ℕ → Bool
some_pinged try zero i = false
some_pinged try (suc left) i = arrives (try i) || some_pinged try left (suc i)

-- Before attempt i.
record Before (i : ℕ) (c : Connecting) : Type 0 where
  pub going : c.connected ≡ false
  pub level : c.opened ≡ c.closed
  pub naps : suc c.slept ≤ i
  pub bound : c.slept ≤ 9

abbrev Ended : Bool → Connecting → Type 0
Ended b c =
    (c.connected ≡ b) × (c.opened ≡ c.closed + (if c.connected then 1 else 0)) × (c.slept ≤ 9)

rested-Before : (i : ℕ) (c : Connecting) → Before i c → Before (suc i) (rested i c)
rested-Before i c b =
    let naps = b.naps in
    let bound = b.bound in
    elim (Bool-cases (ltb i max_retries)) [
      | inl e ↦
          let lt : suc i ≤ 10 = ground arith in
          rw e (record {
            going = b.going;
            level = b.level;
            naps = omega (arith, naps);
            bound = omega (arith, naps, lt);
          })
      | inr e ↦
          rw e
            (record { going = b.going; level = b.level; naps = omega (arith, naps); bound = bound })
    ]

go_on :
    (going later : Bool) (c d : Connecting)
    → going ≡ false
    → Ended later d
    → Ended later (if going then c else d)
go_on true later c d h e = absurd (false≢true (sym h))
go_on false later c d h e = e

by_attempt :
    (a : Attempt) (i : ℕ) (c : Connecting) (later : Bool) (rest : Connecting → Connecting)
    → Before i c
    → ((d : Connecting) → Before (suc i) d → Ended later (rest d))
    → Ended
        (arrives a || later)
        (if (attempted a c).connected then attempted a c else rest (rested i (attempted a c)))
by_attempt pinged i c later rest b ih = let level = b.level in (refl, omega (arith, level), b.bound)
by_attempt no_pool i c later rest b ih =
    go_on c.connected later c _ b.going (ih _ (rested-Before i c b))
by_attempt no_ping i c later rest b ih =
    let level = b.level in
    go_on c.connected later _ _ b.going (
      ih _ (
        rested-Before i _ (record {
          going = b.going;
          level = omega (arith, level);
          naps = b.naps;
          bound = b.bound;
        })))

connect_from-Ended :
    (try : ℕ → Attempt) (left i : ℕ) (c : Connecting)
    → Before i c
    → Ended (some_pinged try left i) (connect_from try left i c)
unfolding connect_from
connect_from-Ended try zero i c b =
    let level = b.level in
    let going = b.going in (going, unconnected c.connected going level, b.bound)
  where
    unconnected :
        (k : Bool) → k ≡ false → c.opened ≡ c.closed → c.opened ≡ c.closed + (if k then 1 else 0)
    unconnected true h e = absurd (false≢true (sym h))
    unconnected false h e = omega (arith, e)
connect_from-Ended try (suc left) i c b =
    by_attempt (try i) i c (some_pinged try left (suc i)) (connect_from try left (suc i)) b
      (λ d h. connect_from-Ended try left (suc i) d h)

-- New gets its database if and only if one of its ten attempts is pinged; it has then closed every pool
-- that it opened but the one it keeps, and without a database every one; and it sleeps nine seconds at most.
pub connect-some_pinged :
    (try : ℕ → Attempt)
    → ((connect try).connected ≡ some_pinged try 10 1)
      × ((connect try).opened ≡ (connect try).closed + (if (connect try).connected then 1 else 0))
      × ((connect try).slept ≤ 9)
unfolding connect
connect-some_pinged try =
    connect_from-Ended try 10 1 _
      (record { going = refl; level = refl; naps = omega arith; bound = omega arith })
