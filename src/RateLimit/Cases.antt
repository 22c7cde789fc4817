-- ===== src/RateLimit/Cases.antt =====
-- One rule for each part of CheckRateLimits: what holds of its outcome, from what holds on each of
-- its branches.
use chainmesh.Base.{
  ℕ, ◌≤◌, ◌<◌, ◌≡◌, false, none, some, arith, ltb, ltb→lt, inl, inr, Bool-cases, Option-cases,
}
use chainmesh.Base.Int.{is_pos, pos_part}
use chainmesh.Redis.{Counters}
use chainmesh.RateLimit.{
  Request, Status, Decision, rps, rpm, daily, allowed, rejected, unavailable, eval_limit,
  check_daily, check_rpm, check_rate_limits, start, reject_rps, reject_rpm, reject_daily,
  with_remaining, without_minute,
}

not_over : (a n : ℕ) → ltb a n ≡ false → n ≤ a
not_over a n h = ground arith

module _ (redis : Counters) (r : Request) (Q : Decision × redis.State → Type 0) where
  open redis use {State}

  pub check_daily_cases :
      (st : Status) (s : State)
      → (is_pos r.quota_daily ≡ false → Q (allowed st, s))
      → ((eval_limit redis daily r s).0 ≡ none
          → Q (unavailable daily st, (eval_limit redis daily r s).1))
      → ((n : ℕ)
          → (eval_limit redis daily r s).0 ≡ some n
          → pos_part r.quota_daily < n
          → Q (rejected (reject_daily r st), (eval_limit redis daily r s).1))
      → ((n : ℕ)
          → (eval_limit redis daily r s).0 ≡ some n
          → n ≤ pos_part r.quota_daily
          → Q (allowed st, (eval_limit redis daily r s).1))
      → Q (check_daily redis r st s)
  unfolding check_daily
  check_daily_cases st s off fail over under = elim (Bool-cases (is_pos r.quota_daily)) [
    | inr e ↦ rw (e, check_daily) (off e)
    | inl on ↦ elim (Option-cases (eval_limit redis daily r s).0) [
      | inl e ↦ rw (on, e, check_daily) (fail e)
      | inr (n, e) ↦ elim (Bool-cases (ltb (pos_part r.quota_daily) n)) [
        | inl b ↦ rw (on, e, b, check_daily) (over n e (ltb→lt _ _ b))
        | inr b ↦ rw (on, e, b, check_daily) (under n e (not_over _ _ b))
      ]
    ]
  ]

  pub check_rpm_cases :
      (st : Status) (s : State)
      → (is_pos r.quota_rpm ≡ false → Q (check_daily redis r (without_minute st) s))
      → ((eval_limit redis rpm r s).0 ≡ none → Q (unavailable rpm st, (eval_limit redis rpm r s).1))
      → ((n : ℕ)
          → (eval_limit redis rpm r s).0 ≡ some n
          → pos_part r.quota_rpm < n
          → Q (rejected (reject_rpm r (with_remaining r st n)), (eval_limit redis rpm r s).1))
      → ((n : ℕ)
          → (eval_limit redis rpm r s).0 ≡ some n
          → n ≤ pos_part r.quota_rpm
          → Q (check_daily redis r (with_remaining r st n) (eval_limit redis rpm r s).1))
      → Q (check_rpm redis r st s)
  unfolding check_rpm
  check_rpm_cases st s off fail over under = elim (Bool-cases (is_pos r.quota_rpm)) [
    | inr e ↦ rw (e, check_rpm) (off e)
    | inl on ↦ elim (Option-cases (eval_limit redis rpm r s).0) [
      | inl e ↦ rw (on, e, check_rpm) (fail e)
      | inr (n, e) ↦ elim (Bool-cases (ltb (pos_part r.quota_rpm) n)) [
        | inl b ↦ rw (on, e, b, check_rpm) (over n e (ltb→lt _ _ b))
        | inr b ↦ rw (on, e, b, check_rpm) (under n e (not_over _ _ b))
      ]
    ]
  ]

  pub check_rate_limits_cases :
      (s : State)
      → (is_pos r.quota_rps ≡ false → Q (check_rpm redis r (start r) s))
      → ((eval_limit redis rps r s).0 ≡ none
          → Q (unavailable rps (start r), (eval_limit redis rps r s).1))
      → ((n : ℕ)
          → (eval_limit redis rps r s).0 ≡ some n
          → pos_part r.quota_rps < n
          → Q (rejected (reject_rps (start r)), (eval_limit redis rps r s).1))
      → ((n : ℕ)
          → (eval_limit redis rps r s).0 ≡ some n
          → n ≤ pos_part r.quota_rps
          → Q (check_rpm redis r (start r) (eval_limit redis rps r s).1))
      → Q (check_rate_limits redis r s)
  unfolding check_rate_limits
  check_rate_limits_cases s off fail over under = elim (Bool-cases (is_pos r.quota_rps)) [
    | inr e ↦ rw (e, check_rate_limits) (off e)
    | inl on ↦ elim (Option-cases (eval_limit redis rps r s).0) [
      | inl e ↦ rw (on, e, check_rate_limits) (fail e)
      | inr (n, e) ↦ elim (Bool-cases (ltb (pos_part r.quota_rps) n)) [
        | inl b ↦ rw (on, e, b, check_rate_limits) (over n e (ltb→lt _ _ b))
        | inr b ↦ rw (on, e, b, check_rate_limits) (under n e (not_over _ _ b))
      ]
    ]
  ]
