-- ===== src/Examples/Limits.antt =====
-- Three calls of one second under a quota of two.
use chainmesh.Base.{ℕ, ◌≤◌, ◌≡◌, refl, some, List, [], ◌∷◌, arith, tally, All}
use chainmesh.Base.Decimal.{decimal}
use chainmesh.Base.Int.{pos}
use chainmesh.Redis.{Counter, Delivery, delivered, refused}
use chainmesh.Base.Dict.{Dict, lookup}
use chainmesh.RateLimit.Legacy.{Call, legacy_key, IsStuck, check_all, check_all-refused}
use chainmesh.Redis.Instance.{incr, dict_counters}
use chainmesh.RateLimit.{rps, Request, key, ttl, eval, eval_limit, script, check_rate_limits}
use chainmesh.RateLimit.Window.{InWindow}
use chainmesh.RateLimit.Bound.{serve, let_through, serve_within_quota}
use chainmesh.RateLimit.Budget.{Spared, rejected_for, check_rate_limits-Spared}
use chainmesh.RateLimit.Report.{Reported, check_rate_limits-Reported}

abbrev request : ℕ → Request
request now = record {
  tenant = "t1";
  quota_rps = pos 2;
  quota_rpm = pos 60;
  quota_daily = pos 0;
  now = now;
  at = λ l. now;
  delivery = λ l. delivered;
  until = now;
}

abbrev requests : List Request
requests = request 1000000001 ∷ request 1000000002 ∷ request 1000000003 ∷ []

in_window : All (InWindow rps (key rps "t1" 1000000000) 1000000000 2) requests
unfolding ttl
in_window = (
  λ e. (omega arith, omega arith, refl),
  (λ e. (omega arith, omega arith, refl), (λ e. (omega arith, omega arith, refl), tt)),
)

serve_within_quota_example :
    tally (let_through rps (key rps "t1" 1000000000)) (serve dict_counters requests []) ≤ 2
serve_within_quota_example =
    serve_within_quota dict_counters rps "t1" 1000000000 1000000000 2 (omega arith) requests []
      in_window (unfold lookup in refl)

-- Two requests of this second have been counted.
abbrev used_up : Dict Counter
used_up = (key rps "t1" 1000000003, record { value = 2; expires = some 9000000000 }) ∷ []

third_rejected :
    rejected_for (check_rate_limits dict_counters (request 1000000003) used_up).0 ≡ some rps
unfolding check_rate_limits eval_limit eval script incr lookup decimal
third_rejected = refl

check_rate_limits-Spared_example :
    Spared dict_counters
      (rejected_for (check_rate_limits dict_counters (request 1000000003) used_up).0)
      used_up
      (check_rate_limits dict_counters (request 1000000003) used_up).1
check_rate_limits-Spared_example =
    check_rate_limits-Spared dict_counters (request 1000000003) used_up

check_rate_limits-Reported_example :
    Reported dict_counters
      (request 1000000003)
      used_up
      (check_rate_limits dict_counters (request 1000000003) used_up).0
check_rate_limits-Reported_example =
    check_rate_limits-Reported dict_counters (request 1000000003) used_up

-- The first call of the older limiter loses its EXPIRE, and a second one comes a minute of the server's
-- clock later with the same minute of the gateway's.
abbrev legacy : Delivery → ℕ → Call
legacy expiring at = record {
  tenant = "t1";
  quota_rpm = pos 1;
  now = 5;
  at = at;
  counting = delivered;
  expiring = expiring;
}

counts_one : (dict_counters.incr 5 (legacy_key (legacy refused 5)) []).0 ≡ some 1
unfolding incr lookup
counts_one = refl

check_all-refused_example :
    IsStuck dict_counters
      (legacy_key (legacy refused 5))
      (check_all dict_counters (legacy refused 5 ∷ legacy delivered 60000000005 ∷ []) [])
check_all-refused_example =
    check_all-refused dict_counters (legacy refused 5) (legacy delivered 60000000005 ∷ []) [] 1 refl
      refl (unfold lookup in refl) counts_one (refl, tt)
