-- ===== src/RateLimit/Budget.antt =====
-- Which budgets a rejected request uses up.
use chainmesh.Base.{ℕ, ◌≡◌, ◌≢◌, refl, ◌∙◌, String, Option, none, some}
use chainmesh.Redis.{Counters}
use chainmesh.RateLimit.{
  Limit, rps, rpm, daily, Request, Status, Decision, allowed, rejected, unavailable, key, ttl,
  eval_limit, check_daily, check_rpm, check_rate_limits,
}
use chainmesh.RateLimit.Cases.{check_daily_cases, check_rpm_cases, check_rate_limits_cases}
use chainmesh.RateLimit.Window.{key_ne, eval_other}

-- The limit that a request was rejected for.
abbrev pub rejected_for : Decision → Option Limit
rejected_for (allowed st) = none
rejected_for (rejected st) = st.rejected
rejected_for (unavailable l st) = none

abbrev pub status_of : Decision → Status
status_of (allowed st) = st
status_of (rejected st) = st
status_of (unavailable l st) = st

module _ (redis : Counters) (r : Request) where
  open redis use {State, entry}

  pub eval_limit_other :
      (l m : Limit) (t : String) (moment : ℕ) (s : State)
      → l ≢ m
      → entry (eval_limit redis l r s).1 (key m t moment) ≡ entry s (key m t moment)
  unfolding eval_limit
  eval_limit_other l m t moment s h =
      eval_other redis (r.delivery l) (r.at l) (key l r.tenant r.now) (key m t moment) (ttl l) s
        (key_ne l m r.tenant t r.now moment h)

-- What a rejection leaves alone, from one state of the server to another.
abbrev pub Spared : (redis : Counters) → Option Limit → redis.State → redis.State → Type 0
Spared redis none s s' = Unit
Spared redis (some rps) s s' =
    (t : String) (moment : ℕ)
    → (redis.entry s' (key rpm t moment) ≡ redis.entry s (key rpm t moment))
      × (redis.entry s' (key daily t moment) ≡ redis.entry s (key daily t moment))
Spared redis (some rpm) s s' =
    (t : String) (moment : ℕ)
    → redis.entry s' (key daily t moment) ≡ redis.entry s (key daily t moment)
Spared redis (some daily) s s' = Unit

module _ (redis : Counters) (r : Request) (s₀ : redis.State) where
  open redis use {State, entry}

  abbrev Spares : Decision × State → Type 0
  Spares p = Spared redis (rejected_for p.0) s₀ p.1

  check_daily-Spares : (st : Status) (s : State) → Spares (check_daily redis r st s)
  check_daily-Spares st s =
      check_daily_cases redis r Spares st s (λ _. tt) (λ _. tt) (λ _ _ _. tt) (λ _ _ _. tt)

  check_rpm-Spares :
      (st : Status) (s : State)
      → ((t : String) (moment : ℕ) → entry s (key daily t moment) ≡ entry s₀ (key daily t moment))
      → Spares (check_rpm redis r st s)
  check_rpm-Spares st s same =
      check_rpm_cases redis r Spares st s (λ _. check_daily-Spares _ s) (λ _. tt)
        (λ _ _ _ t moment. eval_limit_other redis r rpm daily t moment s (λ e. cc) ∙ same t moment)
        (λ _ _ _. check_daily-Spares _ _)

-- A request rejected for its rate per second uses up nothing of any minute's or day's budget, of any
-- tenant, and one rejected for its rate per minute uses up nothing of any day's budget.
pub check_rate_limits-Spared :
    (redis : Counters) (r : Request) (s : redis.State)
    → Spared redis (rejected_for (check_rate_limits redis r s).0) s (check_rate_limits redis r s).1
check_rate_limits-Spared redis r s =
    check_rate_limits_cases redis r (Spares redis r s) s
      (λ _. check_rpm-Spares redis r s _ s (λ _ _. refl)) (λ _. tt)
      (λ _ _ _ t moment. (
        eval_limit_other redis r rps rpm t moment s (λ e. cc),
        eval_limit_other redis r rps daily t moment s (λ e. cc),
      ))
      (λ _ _ _.
        check_rpm-Spares redis r s _ _
          (λ t moment. eval_limit_other redis r rps daily t moment s (λ e. cc)))
