-- ===== src/RateLimit/Bound.antt =====
-- No window lets more requests through than its quota.
use mathlib.Core.Bool.{false≢true}
use chainmesh.Base.{
  ℕ, suc, ◌+◌, ◌*◌, ◌≤◌, ◌<◌, ◌≡◌, refl, sym, ◌∙◌, String, Bool, true, false, ◌&&◌, Option, none,
  some, List, [], ◌∷◌, arith, lt→ltb, ◌≢◌, All, tally, eq_iff, ◌==◌, inl, inr, Bool-cases,
}
use chainmesh.Base.Int.{ℤ, pos, is_pos, pos_part}
use chainmesh.Redis.{Counter, Counters}
use chainmesh.RateLimit.{
  Limit, rps, rpm, daily, Request, Status, Decision, allowed, key, ttl, eval_limit, check_daily,
  check_rpm, check_rate_limits,
}
use chainmesh.RateLimit.Cases.{check_daily_cases, check_rpm_cases, check_rate_limits_cases}
use chainmesh.RateLimit.Window.{
  Counted, Counted-mono, After, InWindow, eval_limit-After, eval_limit-Counted,
}

abbrev pub is_allowed : Decision → Bool
is_allowed (allowed st) = true
is_allowed _ = false

module _ (redis : Counters) (l : Limit) (tenant : String) (moment from q : ℕ) where
  open redis use {State, entry}

  abbrev window : String
  window = key l tenant moment

  abbrev end : ℕ
  end = from + ttl l * 1000000000

  -- A request that is let through was counted, within the quota.
  abbrev Hit : ℕ → Decision × State → Type 0
  Hit a p = is_allowed p.0 ≡ true → (a < q) × Counted end (suc a) (entry p.1 window)

  within :
      (a n : ℕ) (o : Option Counter)
      → n ≤ q
      → After end a (some n) o
      → (a < q) × Counted end (suc a) o
  within a n o h f = (omega arith, Counted-mono end n (suc a) o (omega arith) f.1)

  module _ (r : Request) (w : InWindow l window from q r) where
    -- Every part keeps the count.
    Keeps : ℕ → Decision × State → Type 0
    Keeps a p = Counted end a (entry p.1 window)

    evaluated :
        (m : Limit) (s : State) (a : ℕ)
        → Counted end a (entry s window)
        → Counted end a (entry (eval_limit redis m r s).1 window)
    evaluated m s a c = eval_limit-Counted redis l tenant moment from q m r s a w c

    check_daily-Counted :
        (st : Status) (s : State) (a : ℕ)
        → Counted end a (entry s window)
        → Keeps a (check_daily redis r st s)
    unfolding Keeps
    check_daily-Counted st s a c =
        let c' = evaluated daily s a c in
        check_daily_cases redis r (Keeps a) st s (λ _. c) (λ _. c') (λ _ _ _. c') (λ _ _ _. c')

    check_rpm-Counted :
        (st : Status) (s : State) (a : ℕ)
        → Counted end a (entry s window)
        → Keeps a (check_rpm redis r st s)
    unfolding Keeps
    check_rpm-Counted st s a c =
        let c' = evaluated rpm s a c in
        check_rpm_cases redis r (Keeps a) st s (λ _. check_daily-Counted _ s a c) (λ _. c')
          (λ _ _ _. c') (λ n _ _. check_daily-Counted _ _ a c')

    check_rate_limits-Counted :
        (s : State) (a : ℕ) → Counted end a (entry s window) → Keeps a (check_rate_limits redis r s)
    unfolding Keeps
    check_rate_limits-Counted s a c =
        let c' = evaluated rps s a c in
        check_rate_limits_cases redis r (Keeps a) s (λ _. check_rpm-Counted _ s a c) (λ _. c')
          (λ _ _ _. c') (λ n _ _. check_rpm-Counted _ _ a c')

    -- A hit in a later part is a hit of the whole.
    through_rpm :
        (a : ℕ)
        → ((st : Status) (s : State)
            → Counted end a (entry s window)
            → Hit a (check_daily redis r st s))
        → (st : Status) (s : State) → Counted end a (entry s window)
        → Hit a (check_rpm redis r st s)
    through_rpm a later st s c =
        check_rpm_cases redis r (Hit a) st s (λ _. later _ s c) (λ _ e. cc) (λ _ _ _ e. cc)
          (λ n _ _. later _ _ (evaluated rpm s a c))

    through_rps :
        (a : ℕ)
        → ((st : Status) (s : State)
            → Counted end a (entry s window)
            → Hit a (check_rpm redis r st s))
        → (s : State) → Counted end a (entry s window)
        → Hit a (check_rate_limits redis r s)
    through_rps a later s c =
        check_rate_limits_cases redis r (Hit a) s (λ _. later _ s c) (λ _ e. cc) (λ _ _ _ e. cc)
          (λ n _ _. later _ _ (evaluated rps s a c))

pos-on : (z : ℤ) (q : ℕ) → z ≡ pos q → 0 < q → is_pos z ≢ false
pos-on z q e h off = false≢true (sym (rw e at off) ∙ lt→ltb 0 q h)

part-eq : (z : ℤ) (q n : ℕ) → z ≡ pos q → n ≤ pos_part z → n ≤ q
part-eq z q n e h = rw e at h

module _ (redis : Counters) (tenant : String) (moment from q : ℕ) (r : Request)
    (some_quota : 0 < q) where
  open redis use {State, entry}

  -- Each limit's own part lets a request of the window through only if it was counted.
  daily-Hit :
      (w : InWindow daily (key daily tenant moment) from q r)
      → key daily r.tenant r.now ≡ key daily tenant moment
      → (a : ℕ) (st : Status) (s : State)
      → Counted (from + ttl daily * 1000000000) a (entry s (key daily tenant moment))
      → Hit redis daily tenant moment from q a (check_daily redis r st s)
  daily-Hit w k a st s c =
      check_daily_cases redis r (Hit redis daily tenant moment from q a) st s
        (λ off. absurd (pos-on r.quota_daily q (w k).2 some_quota off)) (λ _ e. cc) (λ _ _ _ e. cc)
        (λ n e le _.
          within redis daily tenant moment from q a n _ (part-eq r.quota_daily q n (w k).2 le)
            (rw e at (eval_limit-After redis daily tenant moment from q r s a w k c)))

  rpm-Hit :
      (w : InWindow rpm (key rpm tenant moment) from q r)
      → key rpm r.tenant r.now ≡ key rpm tenant moment
      → (a : ℕ) (st : Status) (s : State)
      → Counted (from + ttl rpm * 1000000000) a (entry s (key rpm tenant moment))
      → Hit redis rpm tenant moment from q a (check_rpm redis r st s)
  rpm-Hit w k a st s c =
      check_rpm_cases redis r (Hit redis rpm tenant moment from q a) st s
        (λ off. absurd (pos-on r.quota_rpm q (w k).2 some_quota off)) (λ _ e. cc) (λ _ _ _ e. cc)
        (λ n e le _.
          let counted = rw e at (eval_limit-After redis rpm tenant moment from q r s a w k c) in
          within redis rpm tenant moment from q a n _ (part-eq r.quota_rpm q n (w k).2 le) (
            counted.0,
            unfold Keeps in check_daily-Counted redis rpm tenant moment from q r w _ _ n counted.1,
          ))

  rps-Hit :
      (w : InWindow rps (key rps tenant moment) from q r)
      → key rps r.tenant r.now ≡ key rps tenant moment
      → (a : ℕ) (s : State)
      → Counted (from + ttl rps * 1000000000) a (entry s (key rps tenant moment))
      → Hit redis rps tenant moment from q a (check_rate_limits redis r s)
  rps-Hit w k a s c =
      check_rate_limits_cases redis r (Hit redis rps tenant moment from q a) s
        (λ off. absurd (pos-on r.quota_rps q (w k).2 some_quota off)) (λ _ e. cc) (λ _ _ _ e. cc)
        (λ n e le _.
          let counted = rw e at (eval_limit-After redis rps tenant moment from q r s a w k c) in
          within redis rps tenant moment from q a n _ (part-eq r.quota_rps q n (w k).2 le) (
            counted.0,
            unfold Keeps in check_rpm-Counted redis rps tenant moment from q r w _ _ n counted.1,
          ))

-- So does CheckRateLimits as a whole.
check_rate_limits-Hit :
    (redis : Counters) (l : Limit) (tenant : String) (moment from q : ℕ) (r : Request)
    → 0 < q
    → InWindow l (key l tenant moment) from q r
    → key l r.tenant r.now ≡ key l tenant moment
    → (a : ℕ) (s : redis.State)
    → Counted (from + ttl l * 1000000000) a (redis.entry s (key l tenant moment))
    → Hit redis l tenant moment from q a (check_rate_limits redis r s)
check_rate_limits-Hit redis rps tenant moment from q r h w k a s c =
    rps-Hit redis tenant moment from q r h w k a s c
check_rate_limits-Hit redis rpm tenant moment from q r h w k a s c =
    through_rps redis rpm tenant moment from q r w a (rpm-Hit redis tenant moment from q r h w k a)
      s c
check_rate_limits-Hit redis daily tenant moment from q r h w k a s c =
    through_rps redis daily tenant moment from q r w a
      (through_rpm redis daily tenant moment from q r w a
        (daily-Hit redis tenant moment from q r h w k a))
      s c

-- A sequence of calls, from all gateways and tenants, each with its decision.
unfoldable pub serve : (redis : Counters) → List Request → redis.State → List (Request × Decision)
serve redis [] s = []
serve redis (r ∷ rs) s = let (d, s') = check_rate_limits redis r s in (r, d) ∷ serve redis rs s'

-- A call that was let through in a window.
abbrev pub let_through : Limit → String → Request × Decision → Bool
let_through l k (r, d) = is_allowed d && key l r.tenant r.now == k

and-true : (a b : Bool) → a && b ≡ true → (a ≡ true) × (b ≡ true)
and-true a b h = ground arith

module _ (redis : Counters) (l : Limit) (tenant : String) (moment from q : ℕ)
    (some_quota : 0 < q) where
  open redis use {State, entry}

  serve-le :
      (rs : List Request) (s : State) (a : ℕ)
      → a ≤ q
      → All (InWindow l (key l tenant moment) from q) rs
      → Counted (from + ttl l * 1000000000) a (entry s (key l tenant moment))
      → a + tally (let_through l (key l tenant moment)) (serve redis rs s) ≤ q
  unfolding serve
  serve-le [] s a h ws c = omega arith
  serve-le (r ∷ rs) s a h (w, ws) c =
      let k = key l tenant moment in
      let p = check_rate_limits redis r s in
      elim (Bool-cases (let_through l k (r, p.0))) [
        | inr held ↦
            let ih =
              serve-le rs p.1 a h ws (
                unfold Keeps in check_rate_limits-Counted redis l tenant moment from q r w s a c) in
            rw held (omega (arith, ih))
        | inl through ↦
            let (ok, mine) = and-true _ _ through in
            let (below, counted) =
              check_rate_limits-Hit redis l tenant moment from q r some_quota w
                ((eq_iff _ _).0 mine) a s c ok in
            let ih = serve-le rs p.1 (suc a) below ws counted in rw through (omega (arith, ih))
      ]

  -- Of all the calls, those that are let through in one window of a limit are at most the quota,
  -- if the server's clock runs the scripts of that window within the life of its key, if these
  -- calls come with the same positive quota, and if the key is new.
  pub serve_within_quota :
      (rs : List Request) (s : State)
      → All (InWindow l (key l tenant moment) from q) rs
      → entry s (key l tenant moment) ≡ none
      → tally (let_through l (key l tenant moment)) (serve redis rs s) ≤ q
  serve_within_quota rs s ws new =
      let all = serve-le rs s 0 (omega arith) ws (rw new refl) in omega (arith, all)
