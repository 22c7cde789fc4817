-- ===== src/Auth/Revocation.antt =====
-- How long a revoked key still works.
use mathlib.Core.List.{Memᴰ}
use mathlib.Core.Option.{some-injective}
use chainmesh.Base.{
  ℕ, ◌+◌, ◌≤◌, ◌≡◌, All, refl, sym, ap, ◌∙◌, String, none, some, List, [], ◌∷◌, arith,
}
use chainmesh.Base.Members.{All-mem}
use chainmesh.Model.{Tenant}
use chainmesh.Auth.{new_tenant_cache, Resolver, Arrival, Outcome, unauthorized, bearer}
use chainmesh.Auth.Staleness.{handle_all, Justified, AllJustified, handle_all-AllJustified}

-- The resolver's answer is stored within `delay`.
abbrev pub Prompt : ℕ → Arrival → Type 0
Prompt delay a = a.stored ≤ a.resolved + delay

module _ (db : Resolver) (ttl delay revoked : ℕ) (key : String)
    (silent : (t : ℕ) → revoked ≤ t → db t key ≡ none) where
  -- A request with the key, some time after its revocation, is refused.
  abbrev pub IsStopped : Arrival × Outcome → Type 0
  IsStopped (a, o) =
      bearer a.authorization ≡ some key
      → revoked ≤ a.resolved
      → revoked + delay + ttl ≤ a.now
      → o ≡ unauthorized

  not_after :
      (t : ℕ) (k : String) (a : Arrival) (tenant : Tenant)
      → bearer a.authorization ≡ some k
      → bearer a.authorization ≡ some key
      → db t k ≡ some tenant
      → revoked ≤ t
      → ⊥
  not_after t k a tenant e b answer r =
      let same : k ≡ key = some-injective _ _ (sym e ∙ b) in
      let h : some tenant ≡ none = sym answer ∙ (ap (db t) same ∙ silent t r) in cc

  Justified-IsStopped :
      (past : List Arrival) (a : Arrival) (o : Outcome)
      → All (Prompt delay) past
      → Justified db ttl past a o
      → IsStopped (a, o)
  Justified-IsStopped past a _ prompt (Justified.no_key e) b r n = refl
  Justified-IsStopped past a _ prompt (Justified.refused e no_answer) b r n = refl
  Justified-IsStopped past a _ prompt (Justified.fresh e answer) b r n =
      absurd (not_after a.resolved _ a _ e b answer r)
  Justified-IsStopped past a _ prompt (Justified.remembered e o le) b r n =
      let p = All-mem (Prompt delay) past prompt o.listed in
      absurd (not_after o.source.resolved _ a _ e b o.answer (omega (arith, o.life)))

  stopped :
      (past : List Arrival) (rs : List (Arrival × Outcome))
      → All (Prompt delay) past
      → All (λ p. Prompt delay p.0) rs
      → AllJustified db ttl past rs
      → All IsStopped rs
  stopped past [] h k j = tt
  stopped past ((a, o) ∷ rs) h k j =
      (Justified-IsStopped past a o h j.0, stopped (a ∷ past) rs (k.0, h) k.1 j.1)

-- If the resolver refuses a key from some time on, and answers are stored within a delay, then every
-- request with the key is refused once the delay and the cache's life have passed after that time.
pub revoked_key_stops :
    (db : Resolver) (ttl delay revoked : ℕ) (key : String)
    → ((t : ℕ) → revoked ≤ t → db t key ≡ none)
    → (rs : List Arrival)
    → All (λ p. Prompt delay p.0) (handle_all db (some (new_tenant_cache ttl)) rs)
    → (a : Arrival) (o : Outcome) → Memᴰ (a, o) (handle_all db (some (new_tenant_cache ttl)) rs)
    → bearer a.authorization ≡ some key
    → revoked ≤ a.resolved
    → revoked + delay + ttl ≤ a.now
    → o ≡ unauthorized
revoked_key_stops db ttl delay revoked key silent rs prompt a o m =
    All-mem (IsStopped db ttl delay revoked key silent) _
      (stopped db ttl delay revoked key silent [] _ tt prompt (handle_all-AllJustified db ttl rs)) m
