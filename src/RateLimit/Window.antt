-- ===== src/RateLimit/Window.antt =====
-- The counter of one window: as long as the window's key lives, its value is at least the number of
-- requests that were let through.
use Prim.Native.String.{◌++◌, count}
use text.Mathlib.TextLemmas.{append_inj}
use mathlib.Core.Path.{subst}
use mathlib.Core.Bool.{false≢true}
use chainmesh.Base.{
  ℕ, ◌+◌, ◌*◌, ◌≤◌, ◌<◌, ◌≡◌, ◌≢◌, refl, sym, ap, ◌∙◌, String, Option, none, some, arith, eqb,
  eq_iff, ◌==◌, inl, inr, Bool-cases, Option-cases,
}
use chainmesh.Redis.{Counter, Counters, unexpired, incremented, Delivery, delivered, refused, lost}
use chainmesh.Base.Int.{ℤ, pos}
use chainmesh.RateLimit.{Limit, rps, rpm, daily, Request, key, ttl, script, eval, eval_limit}

-- An expiry that is not before the bound.
abbrev Lasts : ℕ → Option ℕ → Type 0
Lasts bound none = Unit
Lasts bound (some e) = bound ≤ e

-- The key holds at least `a`, and holds it until `bound`.
abbrev pub Counted : ℕ → ℕ → Option Counter → Type 0
Counted bound a none = a ≡ 0
Counted bound a (some c) = (a ≤ c.value) × Lasts bound c.expires

pub Counted-mono :
    (bound a b : ℕ) (o : Option Counter) → b ≤ a → Counted bound a o → Counted bound b o
Counted-mono bound a b none h c = omega arith
Counted-mono bound a b (some x) h c = (omega arith, c.1)

unexpired-Counted :
    (bound t a : ℕ) (o : Option Counter) → t < bound → Counted bound a o → unexpired t o ≡ o
unexpired-Counted bound t a none h c = refl
unexpired-Counted bound t a (some x) h c = ground arith

-- What a script leaves: with no reply nothing is lost, and a reply counts this request too.
abbrev pub After : ℕ → ℕ → Option ℕ → Option Counter → Type 0
After bound a none o = Counted bound a o
After bound a (some n) o = (a < n) × Counted bound n o

incremented-After :
    (bound a : ℕ) (o : Option Counter)
    → Counted bound a o
    → After bound a (some (incremented o).value) (some (incremented o))
incremented-After bound a none c = (omega arith, (omega arith, tt))
incremented-After bound a (some x) c = (omega arith, (omega arith, c.1))

module _ (redis : Counters) where
  open redis use {State, entry, incr, expire}

  incr-After :
      (t : ℕ) (k : String) (s : State) (bound a : ℕ)
      → t < bound
      → Counted bound a (entry s k)
      → After bound a (incr t k s).0 (entry (incr t k s).1 k)
  incr-After t k s bound a h c = elim (Option-cases (incr t k s).0) [
    | inl e ↦ rw (e, redis.incr_error t k k s e) c
    | inr (n, e) ↦
        let (reply, now) = redis.incr_reply t k s n e in
        let same = unexpired-Counted bound t a (entry s k) h c in
        rw (e, reply, now, same) (incremented-After bound a (entry s k) c)
  ]

  -- A new expiry that is not before the bound keeps the count.
  expire-Counted :
      (t : ℕ) (k : String) (seconds : ℕ) (s : State) (bound n : ℕ) (o : Option Counter)
      → t < bound
      → bound ≤ t + seconds * 1000000000
      → 0 < n
      → entry s k ≡ o
      → Counted bound n o
      → Counted bound n (entry (expire t k seconds s) k)
  expire-Counted t k seconds s bound n none h b p e c = absurd (omega arith)
  expire-Counted t k seconds s bound n (some x) h b p e c =
      let there = ap (unexpired t) e ∙ unexpired-Counted bound t n (some x) h c in
      rw (redis.expire_self t k seconds s x there) (c.0, b)

  script-After :
      (t : ℕ) (k : String) (seconds : ℕ) (s : State) (bound a : ℕ)
      → t < bound
      → bound ≤ t + seconds * 1000000000
      → Counted bound a (entry s k)
      → After bound a (script redis t k seconds s).0 (entry (script redis t k seconds s).1 k)
  unfolding script
  script-After t k seconds s bound a h b c = elim (Option-cases (incr t k s).0) [
    | inl e ↦ let i = incr-After t k s bound a h c in rw (e, script) (rw e at i)
    | inr (n, e) ↦
        let i = rw e at (incr-After t k s bound a h c) in
        elim (Bool-cases (eqb n 1)) [
          | inl one ↦
              rw (e, one)
                (
                  i.0,
                  expire-Counted t k seconds (incr t k s).1 bound n _ h b (omega arith) refl i.1,
                )
          | inr more ↦ rw (e, more) i
        ]
  ]

  script_other :
      (t : ℕ) (k j : String) (seconds : ℕ) (s : State)
      → k ≢ j
      → entry (script redis t k seconds s).1 j ≡ entry s j
  unfolding script
  script_other t k j seconds s h = elim (Option-cases (incr t k s).0) [
    | inl e ↦ rw (e, script) (redis.incr_other t k j s h)
    | inr (n, e) ↦ elim (Bool-cases (eqb n 1)) [
      | inl one ↦
          rw (e, one)
            (redis.expire_other t k j seconds (incr t k s).1 h ∙ redis.incr_other t k j s h)
      | inr more ↦ rw (e, more) (redis.incr_other t k j s h)
    ]
  ]

  After-Counted :
      (bound a : ℕ) (r : Option ℕ) (o : Option Counter) → After bound a r o → Counted bound a o
  After-Counted bound a none o h = h
  After-Counted bound a (some n) o h = Counted-mono bound n a o (omega arith) h.1

  -- Also when the reply is lost, the count is not.
  pub eval-After :
      (d : Delivery) (t : ℕ) (k : String) (seconds : ℕ) (s : State) (bound a : ℕ)
      → t < bound
      → bound ≤ t + seconds * 1000000000
      → Counted bound a (entry s k)
      → After bound a (eval redis d t k seconds s).0 (entry (eval redis d t k seconds s).1 k)
  unfolding eval
  eval-After delivered t k seconds s bound a h b c = script-After t k seconds s bound a h b c
  eval-After refused t k seconds s bound a h b c = c
  eval-After lost t k seconds s bound a h b c =
      After-Counted bound a _ _ (script-After t k seconds s bound a h b c)

  pub eval_other :
      (d : Delivery) (t : ℕ) (k j : String) (seconds : ℕ) (s : State)
      → k ≢ j
      → entry (eval redis d t k seconds s).1 j ≡ entry s j
  unfolding eval
  eval_other delivered t k j seconds s h = script_other t k j seconds s h
  eval_other refused t k j seconds s h = refl
  eval_other lost t k j seconds s h = script_other t k j seconds s h

prefix_ne : (p q x y : String) → count p ≡ count q → p ≢ q → p ++ x ≢ q ++ y
prefix_ne p q x y c h e = h (append_inj e c).0

-- Keys of different limits differ, whatever the tenant.
pub key_ne : (l m : Limit) (t u : String) (a b : ℕ) → l ≢ m → key l t a ≢ key m u b
unfolding key
key_ne rps rps t u a b h = absurd (h refl)
key_ne rps rpm t u a b h =
    prefix_ne "rl:rps:" "rl:min:" _ _ refl (ground (arith, eq_iff "rl:rps:" "rl:min:"))
key_ne rps daily t u a b h =
    prefix_ne "rl:rps:" "rl:day:" _ _ refl (ground (arith, eq_iff "rl:rps:" "rl:day:"))
key_ne rpm rps t u a b h =
    prefix_ne "rl:min:" "rl:rps:" _ _ refl (ground (arith, eq_iff "rl:min:" "rl:rps:"))
key_ne rpm rpm t u a b h = absurd (h refl)
key_ne rpm daily t u a b h =
    prefix_ne "rl:min:" "rl:day:" _ _ refl (ground (arith, eq_iff "rl:min:" "rl:day:"))
key_ne daily rps t u a b h =
    prefix_ne "rl:day:" "rl:rps:" _ _ refl (ground (arith, eq_iff "rl:day:" "rl:rps:"))
key_ne daily rpm t u a b h =
    prefix_ne "rl:day:" "rl:min:" _ _ refl (ground (arith, eq_iff "rl:day:" "rl:min:"))
key_ne daily daily t u a b h = absurd (h refl)

pub Limit-discrete : Discrete Limit
Limit-discrete = hlevel

abbrev pub quota : Limit → Request → ℤ
quota rps r = r.quota_rps
quota rpm r = r.quota_rpm
quota daily r = r.quota_daily

-- A request of the window `k` of the limit `l`: its script runs between `from` and the end of the
-- key's life, and its tenant has the quota q.
abbrev pub InWindow : Limit → String → (from q : ℕ) → Request → Type 0
InWindow l k from q r =
    key l r.tenant r.now ≡ k
    → (from ≤ r.at l) × (r.at l < from + ttl l * 1000000000) × (quota l r ≡ pos q)

module _ (redis : Counters) (l : Limit) (tenant : String) (moment from q : ℕ) where
  open redis use {State, entry}

  abbrev window : String
  window = key l tenant moment

  abbrev end : ℕ
  end = from + ttl l * 1000000000

  -- The limit's own script counts a request of the window.
  pub eval_limit-After :
      (r : Request) (s : State) (a : ℕ)
      → InWindow l window from q r
      → key l r.tenant r.now ≡ window
      → Counted end a (entry s window)
      → After end a (eval_limit redis l r s).0 (entry (eval_limit redis l r s).1 window)
  unfolding eval_limit
  eval_limit-After r s a w e c =
      let (after, before, _) = w e in
      subst
        (λ k.
          After end a (eval redis (r.delivery l) (r.at l) k (ttl l) s).0
            (entry (eval redis (r.delivery l) (r.at l) k (ttl l) s).1 window))
        (sym e)
        (eval-After redis (r.delivery l) (r.at l) window (ttl l) s end a before (omega arith) c)

  eval_limit_other :
      (m : Limit) (r : Request) (s : State)
      → key m r.tenant r.now ≢ window
      → entry (eval_limit redis m r s).1 window ≡ entry s window
  unfolding eval_limit
  eval_limit_other m r s h = eval_other redis (r.delivery m) (r.at m) _ window (ttl m) s h

  -- Evaluating any limit keeps the count of the window.
  pub eval_limit-Counted :
      (m : Limit) (r : Request) (s : State) (a : ℕ)
      → InWindow l window from q r
      → Counted end a (entry s window)
      → Counted end a (entry (eval_limit redis m r s).1 window)
  eval_limit-Counted m r s a w c = elim (Limit-discrete m l) [
    | no other ↦ rw (eval_limit_other m r s (key_ne m l r.tenant tenant r.now moment other)) c
    | yes same ↦ elim (Bool-cases (key l r.tenant r.now == window)) [
      | inl e ↦
          rw same (After-Counted redis end a _ _ (eval_limit-After r s a w ((eq_iff _ _).0 e) c))
      | inr e ↦ rw same (rw (eval_limit_other l r s (λ h. false≢true (sym e ∙ (eq_iff _ _).1 h))) c)
    ]
  ]
