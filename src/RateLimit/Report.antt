-- ===== src/RateLimit/Report.antt =====
-- What CheckRateLimits reports to the client: the limit, what remains of it, when it is reset, and
-- when to try again.
use chainmesh.RateLimit.Budget.{eval_limit_other}
use chainmesh.Base.{
  ◌*◌, ◌-◌, ◌%◌, ◌≢◌, ap, ◌∙◌, ℕ, ◌+◌, ◌≤◌, ◌<◌, ◌≡◌, ◌⊎◌, refl, String, false, Option, none, some,
  arith, inl, inr,
}
use chainmesh.Base.Int.{pos, is_pos, pos_part}
use chainmesh.Redis.{Counters, Delivery, delivered, refused, lost, incremented, unexpired}
use chainmesh.Clock.{second, minute, unix, truncate_minute, next_day}
use chainmesh.RateLimit.{
  Limit, rps, rpm, daily, Request, Status, Decision, allowed, rejected, unavailable, key, ttl,
  script, eval, eval_limit, check_daily, check_rpm, check_rate_limits, start, retry_seconds,
  with_remaining, without_minute,
}
use chainmesh.RateLimit.Cases.{check_daily_cases, check_rpm_cases, check_rate_limits_cases}

-- The reset is the next full minute, and what remains is within the limit that is named.
pub record IsReport (r : Request) (st : Status) : Type 0 where
  pub reset_minute : st.reset_unix % 60 ≡ 0
  pub reset_after : unix r.now < st.reset_unix
  pub reset_soon : st.reset_unix ≤ unix r.now + 60
  pub limit : st.limit_minute ≡ r.quota_rpm ⊎ (st.limit_minute ≡ pos 0)
  pub remaining : st.remaining_minute ≤ pos_part st.limit_minute

-- The whole seconds until a moment, and 1 if there is less than one.
abbrev pub IsWait : ℕ → ℕ → ℕ → Type 0
IsWait until reset wait =
    ((until + wait * second ≤ reset) × (reset < until + (wait + 1) * second) × (1 ≤ wait))
    ⊎ ((wait ≡ 1) × (reset < until + second))

wait-pos : (until reset : ℕ) {wait : ℕ} → IsWait until reset wait → 1 ≤ wait
wait-pos until reset (inl h) = h.2
wait-pos until reset (inr h) = rw h.0 (omega arith)

module _ (redis : Counters) (r : Request) (s₀ : redis.State) where
  -- The requests that the limit's counter has, this one included.
  abbrev pub count : Limit → ℕ
  count l = (incremented (unexpired (r.at l) (redis.entry s₀ (key l r.tenant r.now)))).value

  -- No minute quota and none reported, or the quota with what the requests of this minute have left of it.
  abbrev pub MinuteLeft : Status → Type 0
  MinuteLeft st =
      ((is_pos r.quota_rpm ≡ false) × (st.limit_minute ≡ pos 0) × (st.remaining_minute ≡ 0))
      ⊎ ((st.limit_minute ≡ r.quota_rpm) × (st.remaining_minute + count rpm ≡ pos_part r.quota_rpm))

  -- The limit that a rejection names has more requests than its quota, and the client is told to wait until
  -- it is reset: a second, or until the next minute or the next midnight.
  abbrev pub IsMet : Option Limit → Status → Type 0
  IsMet none st = ⊥
  IsMet (some rps) st =
      (pos_part r.quota_rps < count rps)
      × (st.retry_after ≡ 1)
      × (st.limit_minute ≡ r.quota_rpm)
      × (st.remaining_minute ≡ 0)
  IsMet (some rpm) st =
      (pos_part r.quota_rpm < count rpm)
      × IsWait r.until (st.reset_unix * second) st.retry_after
      × (st.limit_minute ≡ r.quota_rpm)
      × (st.remaining_minute ≡ 0)
  IsMet (some daily) st =
      (pos_part r.quota_daily < count daily)
      × ((midnight : ℕ) × (midnight % 86400000000000 ≡ 0)
          × (r.now < midnight)
          × (midnight ≤ r.now + 86400000000000)
          × IsWait r.until midnight st.retry_after)
      × MinuteLeft st

  -- What each decision reports.
  abbrev pub Reported : Decision → Type 0
  Reported (allowed st) =
      IsReport r st × (st.retry_after ≡ 0) × (st.rejected ≡ none) × MinuteLeft st
  Reported (rejected st) = IsReport r st × IsMet st.rejected st
  Reported (unavailable l st) = IsReport r st × (st.retry_after ≡ 0) × (st.rejected ≡ none)

  IsMet-pos : (l : Option Limit) (st : Status) → IsMet l st → 1 ≤ st.retry_after
  IsMet-pos none st h = absurd h
  IsMet-pos (some rps) st h = rw h.1 (omega arith)
  IsMet-pos (some rpm) st h = wait-pos r.until (st.reset_unix * second) h.1
  IsMet-pos (some daily) st h = wait-pos r.until h.1.0 h.1.4

  -- A rejected request waits at least a second.
  pub rejected_waits : (st : Status) → Reported (rejected st) → 1 ≤ st.retry_after
  rejected_waits st h = IsMet-pos st.rejected st h.1

minute_left : (q n : ℕ) → n ≤ q → (q - n) + n ≡ q
minute_left q n h = omega arith

start-IsReport : (r : Request) → IsReport r (start r)
start-IsReport r = record {
  reset_minute = omega arith;
  reset_after = omega arith;
  reset_soon = omega arith;
  limit = inl refl;
  remaining = omega arith;
}

IsWait-rpm :
    (now until : ℕ)
    → IsWait until
        (unix (truncate_minute now + minute) * second)
        (retry_seconds (truncate_minute now + minute) until)
IsWait-rpm now until = ground arith

IsWait-daily : (now until : ℕ) → IsWait until (next_day now) (retry_seconds (next_day now) until)
IsWait-daily now until = ground arith

midnight_lem :
    (now : ℕ)
    → (next_day now % 86400000000000 ≡ 0)
      × (now < next_day now)
      × (next_day now ≤ now + 86400000000000)
midnight_lem now = (omega arith, omega arith, omega arith)

-- A reply is the count.
eval-count :
    (redis : Counters) (d : Delivery) (t : ℕ) (k : String) (seconds : ℕ) (s : redis.State) {n : ℕ}
    → (eval redis d t k seconds s).0 ≡ some n
    → n ≡ (incremented (unexpired t (redis.entry s k))).value
unfolding eval script
eval-count redis delivered t k seconds s {n} e = (redis.incr_reply t k s n e).0
eval-count redis refused t k seconds s e = absurd (ground arith)
eval-count redis lost t k seconds s e = absurd (ground arith)

module _ (redis : Counters) (r : Request) (s₀ : redis.State) where
  open redis use {State, entry}

  -- The counter of a limit is as it was at first.
  abbrev Same : Limit → State → Type 0
  Same l s = entry s (key l r.tenant r.now) ≡ entry s₀ (key l r.tenant r.now)

  eval_limit-count :
      (l : Limit) (s : State) {n : ℕ}
      → Same l s
      → (eval_limit redis l r s).0 ≡ some n
      → n ≡ count redis r s₀ l
  unfolding eval_limit
  eval_limit-count l s same e =
      eval-count redis (r.delivery l) (r.at l) (key l r.tenant r.now) (ttl l) s e
      ∙ ap (λ c. (incremented (unexpired (r.at l) c)).value) same

  after_eval : (l m : Limit) (s : State) → l ≢ m → Same m s → Same m (eval_limit redis l r s).1
  after_eval l m s apart same = eval_limit_other redis r l m r.tenant r.now s apart ∙ same

  abbrev Tells : Decision × State → Type 0
  Tells p = Reported redis r s₀ p.0

  check_daily-Reported :
      (st : Status) (s : State)
      → Reported redis r s₀ (allowed st)
      → Same daily s
      → Tells (check_daily redis r st s)
  check_daily-Reported st s b same =
      let m = midnight_lem r.now in
      check_daily_cases redis r Tells st s (λ _. b) (λ _. (b.0, b.1, b.2))
        (λ n e over. (
          record {
            reset_minute = b.0.reset_minute;
            reset_after = b.0.reset_after;
            reset_soon = b.0.reset_soon;
            limit = b.0.limit;
            remaining = b.0.remaining;
          },
          (
            rw (← eval_limit-count daily s same e) over,
            (next_day r.now, m.0, m.1, m.2, IsWait-daily r.now r.until),
            b.3,
          ),
        ))
        (λ _ _ _. b)

  minute_Reported :
      (n : ℕ)
      → n ≡ count redis r s₀ rpm
      → n ≤ pos_part r.quota_rpm
      → Reported redis r s₀ (allowed (with_remaining r (start r) n))
  minute_Reported n e h = (
    record {
      reset_minute = (start-IsReport r).reset_minute;
      reset_after = (start-IsReport r).reset_after;
      reset_soon = (start-IsReport r).reset_soon;
      limit = inl refl;
      remaining = omega arith;
    },
    refl,
    refl,
    inr (refl, rw (← e) (minute_left (pos_part r.quota_rpm) n h)),
  )

  unlimited_Reported :
      is_pos r.quota_rpm ≡ false → Reported redis r s₀ (allowed (without_minute (start r)))
  unlimited_Reported off = (
    record {
      reset_minute = (start-IsReport r).reset_minute;
      reset_after = (start-IsReport r).reset_after;
      reset_soon = (start-IsReport r).reset_soon;
      limit = inr refl;
      remaining = omega arith;
    },
    refl,
    refl,
    inl (off, refl, refl),
  )

  check_rpm-Reported :
      (s : State) → Same rpm s → Same daily s → Tells (check_rpm redis r (start r) s)
  check_rpm-Reported s same_rpm same_daily =
      check_rpm_cases redis r Tells (start r) s
        (λ off. check_daily-Reported _ s (unlimited_Reported off) same_daily)
        (λ _. (start-IsReport r, refl, refl))
        (λ n e over. (
          record {
            reset_minute = (start-IsReport r).reset_minute;
            reset_after = (start-IsReport r).reset_after;
            reset_soon = (start-IsReport r).reset_soon;
            limit = inl refl;
            remaining = omega arith;
          },
          (
            rw (← eval_limit-count rpm s same_rpm e) over,
            IsWait-rpm r.now r.until,
            refl,
            nothing_left (pos_part r.quota_rpm) n over,
          ),
        ))
        (λ n e h.
          check_daily-Reported _ _ (minute_Reported n (eval_limit-count rpm s same_rpm e) h)
            (after_eval rpm daily s (λ k. cc) same_daily))
    where
      nothing_left : (q n : ℕ) → q < n → q - n ≡ 0
      nothing_left q n h = omega arith

-- Every decision reports as the reset the next full minute. An allowed request has no waiting time, and what
-- remains is the minute quota less the requests that the server has counted in this minute, this one
-- included, or nothing if there is no minute quota. A rejected request names a limit whose counter, this
-- request included, is over its quota; the waiting time is one second for the rate per second, and for
-- the others the whole seconds until the next minute or the next midnight, at least one.
pub check_rate_limits-Reported :
    (redis : Counters) (r : Request) (s : redis.State)
    → Reported redis r s (check_rate_limits redis r s).0
check_rate_limits-Reported redis r s =
    check_rate_limits_cases redis r (Tells redis r s) s
      (λ _. check_rpm-Reported redis r s s refl refl) (λ _. (start-IsReport r, refl, refl))
      (λ n e over. (
        record {
          reset_minute = (start-IsReport r).reset_minute;
          reset_after = (start-IsReport r).reset_after;
          reset_soon = (start-IsReport r).reset_soon;
          limit = inl refl;
          remaining = omega arith;
        },
        (rw (← eval_limit-count redis r s rps s refl e) over, refl, refl, refl),
      ))
      (λ _ _ _.
        check_rpm-Reported redis r s _ (after_eval redis r s rps rpm s (λ k. cc) refl)
          (after_eval redis r s rps daily s (λ k. cc) refl))
