-- ===== src/RateLimit.antt =====
-- CheckRateLimits of backend/shared/storage/redis/redis.go, with the Lua script that it runs. The
-- ways in which a round trip can fail, and the clocks, are part of the request.
pub mod Legacy
pub mod Window
pub mod Cases
pub mod Bound
pub mod Budget
pub mod Report
use Prim.Native.String.{◌++◌}
use chainmesh.Base.{
  ℕ, ◌+◌, ◌-◌, ◌/◌, ◌≡◌, refl, String, Bool, true, false, Option, none, some, ltb, eqb,
  if◌then◌else◌,
}
use chainmesh.Base.Int.{ℤ, pos, negsuc, is_pos, pos_part}
use chainmesh.Base.Decimal.{decimal}
use chainmesh.Clock.{second, minute, unix, truncate_minute, next_day, format_minute, format_day}
use chainmesh.Redis.{Counters, Delivery, delivered, refused, lost}

pub data Limit : Type 0 where
  rps rpm daily : Limit

-- What a call of CheckRateLimits gets. `now` is the gateway's clock, `at` the server's at each
-- script, `until` the clock that time.Until reads, `delivery` the fate of each round trip.
pub record Request : Type 0 where
  pub tenant : String
  pub quota_rps : ℤ
  pub quota_rpm : ℤ
  pub quota_daily : ℤ
  pub now : ℕ
  pub at : Limit → ℕ
  pub delivery : Limit → Delivery
  pub until : ℕ

-- type RateLimitStatus struct
pub record Status : Type 0 where
  pub limit_minute : ℤ
  pub remaining_minute : ℕ
  pub reset_unix : ℕ
  pub retry_after : ℕ
  pub rejected : Option Limit

-- (allowed, status, nil), or (false, status, err)
pub data Decision : Type 0 where
  allowed : Status → Decision
  rejected : Status → Decision
  unavailable : Limit → Status → Decision

unfoldable pub key : Limit → String → ℕ → String
key rps tenant now = "rl:rps:" ++ (tenant ++ (":" ++ decimal (unix now)))
key rpm tenant now = "rl:min:" ++ (tenant ++ (":" ++ format_minute now))
key daily tenant now = "rl:day:" ++ (tenant ++ (":" ++ format_day now))

-- The scripts' TTL arguments, in seconds.
unfoldable pub ttl : Limit → ℕ
ttl rps = 2
ttl rpm = 120
ttl daily = 90000

-- math.Max(1, time.Until(reset).Seconds()), cut to an int
abbrev pub retry_seconds : ℕ → ℕ → ℕ
retry_seconds reset until = let retry = (reset - until) / second in if ltb retry 1 then 1 else retry

abbrev pub start : Request → Status
start r = record {
  limit_minute = r.quota_rpm;
  remaining_minute = 0;
  reset_unix = unix (truncate_minute r.now + minute);
  retry_after = 0;
  rejected = none;
}

-- the assignments to status
abbrev pub reject_rps : Status → Status
reject_rps st = record st { rejected = some rps; retry_after = 1 }

-- remaining := quotaRPM - int(currentMinute), and 0 below 0
abbrev pub with_remaining : Request → Status → ℕ → Status
with_remaining r st n = record st { remaining_minute = pos_part r.quota_rpm - n }

abbrev pub without_minute : Status → Status
without_minute st = record st { limit_minute = pos 0; remaining_minute = 0 }

abbrev pub reject_rpm : Request → Status → Status
reject_rpm r st = record st {
  rejected = some rpm;
  retry_after = retry_seconds (truncate_minute r.now + minute) r.until;
}

abbrev pub reject_daily : Request → Status → Status
reject_daily r st = record st {
  rejected = some daily;
  retry_after = retry_seconds (next_day r.now) r.until;
}

module _ (redis : Counters) where
  open redis use {State}

  -- if current == 1 then EXPIRE
  after_incr : ℕ → String → ℕ → Option ℕ → State → State
  after_incr t k seconds none s = s
  after_incr t k seconds (some n) s = if eqb n 1 then redis.expire t k seconds s else s

  -- atomicIncrExpireScript
  unfoldable pub script : ℕ → String → ℕ → State → Option ℕ × State
  unfolding after_incr
  script t k seconds s =
      let (reply, s') = redis.incr t k s in (reply, after_incr t k seconds reply s')

  -- c.client.Eval(...).Int64()
  unfoldable pub eval : Delivery → ℕ → String → ℕ → State → Option ℕ × State
  eval delivered t k seconds s = script t k seconds s
  eval refused t k seconds s = (none, s)
  eval lost t k seconds s = (none, (script t k seconds s).1)

  unfoldable pub eval_limit : Limit → Request → State → Option ℕ × State
  unfolding key ttl
  eval_limit l r s = eval (r.delivery l) (r.at l) (key l r.tenant r.now) (ttl l) s

  -- the daily part
  decide_daily : Request → Status → Option ℕ → State → Decision × State
  decide_daily r status none s = (unavailable daily status, s)
  decide_daily r status (some n) s =
      if ltb (pos_part r.quota_daily) n
      then (rejected (reject_daily r status), s)
      else (allowed status, s)

  unfoldable pub check_daily : Request → Status → State → Decision × State
  unfolding decide_daily
  check_daily r status s =
      if is_pos r.quota_daily
      then (let (reply, s') = eval_limit daily r s in decide_daily r status reply s')
      else (allowed status, s)

  -- the per-minute part
  decide_rpm : Request → Status → Option ℕ → State → Decision × State
  decide_rpm r status none s = (unavailable rpm status, s)
  decide_rpm r status (some n) s =
      let status' = with_remaining r status n in
      if ltb (pos_part r.quota_rpm) n
      then (rejected (reject_rpm r status'), s)
      else check_daily r status' s

  unfoldable pub check_rpm : Request → Status → State → Decision × State
  unfolding decide_rpm
  check_rpm r status s =
      if is_pos r.quota_rpm
      then (let (reply, s') = eval_limit rpm r s in decide_rpm r status reply s')
      else check_daily r (without_minute status) s

  -- the per-second part
  decide_rps : Request → Status → Option ℕ → State → Decision × State
  decide_rps r status none s = (unavailable rps status, s)
  decide_rps r status (some n) s =
      if ltb (pos_part r.quota_rps) n
      then (rejected (reject_rps status), s)
      else check_rpm r status s

  unfoldable pub check_rate_limits : Request → State → Decision × State
  unfolding decide_rps
  check_rate_limits r s =
      if is_pos r.quota_rps
      then (let (reply, s') = eval_limit rps r s in decide_rps r (start r) reply s')
      else check_rpm r (start r) s
