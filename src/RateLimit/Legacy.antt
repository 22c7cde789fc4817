-- ===== src/RateLimit/Legacy.antt =====
-- CheckRateLimit of backend/shared/storage/redis/redis.go, the older limiter, which counts with two commands
-- and not with a script. Incr and Expire are the commands, each in its own round trip.
use Prim.Native.String.{◌++◌}
use mathlib.Core.Option.{some-injective}
use mathlib.Core.Path.{subst}
use chainmesh.Base.{
  ℕ, suc, ◌≤◌, ◌≡◌, refl, sym, ap, ◌∙◌, String, Bool, true, false, Option, none, some, List, [],
  ◌∷◌, arith, All, eqb, leb, inl, inr, Option-cases, if◌then◌else◌,
}
use chainmesh.Base.Int.{ℤ, pos, negsuc}
use chainmesh.Clock.{format_minute}
use chainmesh.Redis.{Counters, Delivery, delivered, refused, lost, incremented, unexpired}

-- A call, with the clocks of the gateway and of the server, and the fates of its round trips.
pub record Call : Type 0 where
  pub tenant : String
  pub quota_rpm : ℤ
  pub now : ℕ
  pub at : ℕ
  pub counting : Delivery
  pub expiring : Delivery

-- int(current) <= quotaRPM
abbrev within : ℕ → ℤ → Bool
within n (pos q) = leb n q
within n (negsuc q) = false

abbrev pub legacy_key : Call → String
legacy_key c = "ratelimit:" ++ (c.tenant ++ (":" ++ format_minute c.now))

module _ (redis : Counters) where
  open redis use {State, entry}

  -- Client.Incr
  abbrev pub incr : Delivery → ℕ → String → State → Option ℕ × State
  incr delivered t k s = redis.incr t k s
  incr refused t k s = (none, s)
  incr lost t k s = (none, (redis.incr t k s).1)

  -- Client.Expire: is there no error?
  abbrev pub expire : Delivery → ℕ → String → ℕ → State → Bool × State
  expire delivered t k seconds s = (true, redis.expire t k seconds s)
  expire refused t k seconds s = (false, s)
  expire lost t k seconds s = (false, redis.expire t k seconds s)

  after_incr : Delivery → Call → Option ℕ × State → Option Bool × State
  after_incr expiring c (none, s) = (none, s)
  after_incr expiring c (some current, s) =
      let (done, s') = expire expiring c.at (legacy_key c) 120 s in
      if eqb current 1
      then (if done then some (within current c.quota_rpm) else none, s')
      else (some (within current c.quota_rpm), s)

  -- CheckRateLimit; none is its error.
  unfoldable pub check_rate_limit : Call → State → Option Bool × State
  unfolding after_incr
  check_rate_limit c s = after_incr c.expiring c (incr c.counting c.at (legacy_key c) s)

  -- The key holds a counter that never expires.
  pub record IsStuck (key : String) (s : State) : Type 0 where
    pub count : ℕ
    pub counted : 1 ≤ count
    pub held : entry s key ≡ some (record { value = count; expires = none })

  incr-IsStuck :
      (t : ℕ) (key : String) (s : State)
      → IsStuck key s
      → IsStuck key (redis.incr t key s).1
        × ((n : ℕ) → (redis.incr t key s).0 ≡ some n → eqb n 1 ≡ false)
  incr-IsStuck t key s k = elim (Option-cases (redis.incr t key s).0) [
    | inl e ↦ (
      record {
        count = k.count;
        counted = k.counted;
        held = redis.incr_error t key key s e ∙ k.held;
      },
      λ n h. absurd (none_some (sym e ∙ h)),
    )
    | inr (n, e) ↦
        let (value, after) = redis.incr_reply t key s n e in
        let now_ : unexpired t (entry s key) ≡ some (record { value = k.count; expires = none }) =
          rw k.held refl in
        (
          record {
            count = suc k.count;
            counted = omega arith;
            held = after ∙ ap (λ o. some (incremented o)) now_;
          },
          λ m h.
              let same = some-injective _ _ (sym e ∙ h) in
              let big = value ∙ ap (λ o. (incremented o).value) now_ in ground (arith, k.counted),
        )
  ]
    where
      none_some : {n : ℕ} → none ≡ some n → ⊥
      none_some h = ground arith

  -- A call leaves it so.
  check_rate_limit-IsStuck :
      (c : Call) (s : State)
      → IsStuck (legacy_key c) s
      → IsStuck (legacy_key c) (check_rate_limit c s).1
  unfolding check_rate_limit
  check_rate_limit-IsStuck c s k = by_trip c.counting
    where
      by_reply :
          (o : Option ℕ) (s' : State)
          → IsStuck (legacy_key c) s'
          → ((n : ℕ) → o ≡ some n → eqb n 1 ≡ false)
          → IsStuck (legacy_key c) (after_incr c.expiring c (o, s')).1
      by_reply none s' k' later = k'
      by_reply (some n) s' k' later = rw (later n refl) k'

      by_trip :
          (trip : Delivery)
          → IsStuck (legacy_key c) (after_incr c.expiring c (incr trip c.at (legacy_key c) s)).1
      by_trip delivered =
          let (k', later) = incr-IsStuck c.at (legacy_key c) s k in
          by_reply (redis.incr c.at (legacy_key c) s).0 (redis.incr c.at (legacy_key c) s).1 k'
            later
      by_trip refused = k
      by_trip lost = (incr-IsStuck c.at (legacy_key c) s k).0

  unfoldable pub check_all : List Call → State → State
  check_all [] s = s
  check_all (c ∷ cs) s = check_all cs (check_rate_limit c s).1

  check_all-IsStuck :
      (key : String) (cs : List Call) (s : State)
      → All (λ c. legacy_key c ≡ key) cs
      → IsStuck key s
      → IsStuck key (check_all cs s)
  unfolding check_all
  check_all-IsStuck key [] s h k = k
  check_all-IsStuck key (c ∷ cs) s (e, h) k = check_all-IsStuck key cs (check_rate_limit c s).1 h (
      subst (λ j. IsStuck j (check_rate_limit c s).1) e
        (check_rate_limit-IsStuck c s (subst (λ j. IsStuck j s) (sym e) k)))

  -- If the first call of a key counts and its EXPIRE does not arrive, the key holds a counter that never
  -- expires, after any further calls of the key.
  pub check_all-refused :
      (c : Call) (cs : List Call) (s : State) (n : ℕ)
      → c.counting ≡ delivered
      → c.expiring ≡ refused
      → unexpired c.at (entry s (legacy_key c)) ≡ none
      → (redis.incr c.at (legacy_key c) s).0 ≡ some n
      → All (λ later. legacy_key later ≡ legacy_key c) cs
      → IsStuck (legacy_key c) (check_all (c ∷ cs) s)
  unfolding check_all check_rate_limit
  check_all-refused c cs s n on off new counted h =
      let (value, after) = redis.incr_reply c.at (legacy_key c) s n counted in
      let one : n ≡ 1 = value ∙ ap (λ o. (incremented o).value) new in
      let first : IsStuck (legacy_key c) (redis.incr c.at (legacy_key c) s).1 = record {
        count = 1;
        counted = omega arith;
        held = after ∙ ap (λ o. some (incremented o)) new;
      } in
      check_all-IsStuck (legacy_key c) cs (check_rate_limit c s).1 h
        (by_trips c.counting c.expiring on off first one)
    where
      by_reply :
          (o : Option ℕ) (s' : State)
          → o ≡ some n
          → n ≡ 1
          → IsStuck (legacy_key c) s'
          → IsStuck (legacy_key c) (after_incr refused c (o, s')).1
      by_reply none s' e one k = k
      by_reply (some m) s' e one k = rw (some-injective _ _ e, one) k

      by_trips :
          (counting expiring : Delivery)
          → counting ≡ delivered
          → expiring ≡ refused
          → IsStuck (legacy_key c) (redis.incr c.at (legacy_key c) s).1
          → n ≡ 1
          → IsStuck (legacy_key c) (after_incr expiring c (incr counting c.at (legacy_key c) s)).1
      by_trips delivered refused on off k one =
          by_reply (redis.incr c.at (legacy_key c) s).0 (redis.incr c.at (legacy_key c) s).1 counted
            one k
      by_trips refused expiring on off k one = absurd (ground arith)
      by_trips lost expiring on off k one = absurd (ground arith)
      by_trips delivered delivered on off k one = absurd (ground arith)
      by_trips delivered lost on off k one = absurd (ground arith)
