-- ===== src/Stats/View.antt =====
-- What the view counts: over any condition on its groups, as many requests, errors and cache hits as the
-- table has. And how it is refreshed.
use mathlib.Core.Bool.{false≢true}
use chainmesh.Base.{
  ℕ, ◌+◌, ◌-◌, ◌*◌, ◌/◌, ◌≡◌, ◌↔◌, refl, sym, ap, ◌∙◌, Bool, true, false, ◌&&◌, Option, none, some,
  List, leb, eqb_iff, eq_iff, arith, if◌then◌else◌,
}
use chainmesh.Clock.{minute, truncate_minute}
use chainmesh.Redis.{Delivery, delivered, refused, lost}
use chainmesh.Store.{RequestLogRow}
use chainmesh.Stats.Groups.{Column, value, Entry, sum_if, sum_if-keep, sum_if-same, group_by-sum}
use chainmesh.Stats.{
  Group, same_bool, same_group, group_of, count_log, rollup, since, buckets_since,
}

-- A statement REFRESH MATERIALIZED VIEW [CONCURRENTLY]: is there no error, and the view after it. The
-- concurrent one wants a view that was filled before.
abbrev refreshed :
    Delivery → List RequestLogRow → Option (List (Entry Group)) → Bool × Option (List (Entry Group))
refreshed delivered logs view = (true, some (rollup logs))
refreshed refused logs view = (false, view)
refreshed lost logs view = (false, some (rollup logs))

abbrev refreshed_concurrently :
    Delivery → List RequestLogRow → Option (List (Entry Group)) → Bool × Option (List (Entry Group))
refreshed_concurrently trip logs none = (false, none)
refreshed_concurrently trip logs (some view) = refreshed trip logs (some view)

-- Refresher.refresh
unfoldable pub refresh :
    Delivery
    → Delivery
    → List RequestLogRow
    → Option (List (Entry Group))
    → Option (List (Entry Group))
refresh first second logs view =
    let (ok, view') = refreshed_concurrently first logs view in
    let second_view = (refreshed second logs view').1 in if ok then view' else second_view

-- A refresh whose second statement arrives leaves the view filled from the table of that moment, whether
-- or not it was filled before, and whatever becomes of the first statement.
pub refresh-rollup :
    (trip : Delivery) (logs : List RequestLogRow) (view : Option (List (Entry Group)))
    → refresh trip delivered logs view ≡ some (rollup logs)
unfolding refresh
refresh-rollup trip logs none = refl
refresh-rollup delivered logs (some view) = refl
refresh-rollup refused logs (some view) = refl
refresh-rollup lost logs (some view) = refl

-- The first minute that begins at or after a time.
abbrev pub round_up : ℕ → ℕ
round_up from = (from + (minute - 1)) / minute * minute

same_bool_iff : (a b : Bool) → (same_bool a b ≡ true) ↔ (a ≡ b)
same_bool_iff true true = (λ h. refl, λ h. refl)
same_bool_iff true false = (λ h. sym h, λ h. sym h)
same_bool_iff false true = (λ h. h, λ h. h)
same_bool_iff false false = (λ h. refl, λ h. refl)

split_and : (a b : Bool) → (a && b) ≡ true → (a ≡ true) × (b ≡ true)
split_and true b h = (refl, h)
split_and false b h = absurd (false≢true h)

pub same_group_iff : (a b : Group) → (same_group a b ≡ true) ↔ (a ≡ b)
same_group_iff a b = (forth, back)
  where
    forth : same_group a b ≡ true → a ≡ b
    forth h =
        let (k₄, h₅) = split_and _ _ h in
        let (k₃, h₄) = split_and _ _ k₄ in
        let (k₂, h₃) = split_and _ _ k₃ in
        let (h₁, h₂) = split_and _ _ k₂ in
        let e₁ = (eqb_iff a.bucket b.bucket).0 h₁ in
        let e₂ = (eq_iff a.network_id b.network_id).0 h₂ in
        let e₃ = (eq_iff a.method b.method).0 h₃ in
        let e₄ = (eq_iff a.status b.status).0 h₄ in
        let e₅ = (same_bool_iff a.cache_hit b.cache_hit).0 h₅ in
        λ i. record {
          bucket = e₁ i;
          network_id = e₂ i;
          method = e₃ i;
          status = e₄ i;
          cache_hit = e₅ i;
        }

    self : (g : Group) → same_group g g ≡ true
    self g = rw ((eqb_iff g.bucket g.bucket).1 refl) (
        rw ((eq_iff g.network_id g.network_id).1 refl) (
          rw ((eq_iff g.method g.method).1 refl) (
            rw ((eq_iff g.status g.status).1 refl)
              ((same_bool_iff g.cache_hit g.cache_hit).1 refl))))

    back : a ≡ b → same_group a b ≡ true
    back e = ap (λ g. same_group a g) (sym e) ∙ self a

minute_from : (from t : ℕ) → leb from (truncate_minute t) ≡ leb (round_up from) t
minute_from from t = ground arith

-- Over the buckets from a time on, and the groups that pass a test, the view counts what the table counts
-- from the next whole minute on.
pub view_sum :
    (c : Column) (p : Group → Bool) (from : ℕ) (logs : List RequestLogRow)
    → sum_if (λ r. p r.key) (λ r. value c r.tally) (buckets_since from (rollup logs))
      ≡ sum_if (λ l. p (group_of l)) (λ l. value c (count_log l)) (since (round_up from) logs)
unfolding rollup
view_sum c p from logs =
    sum_if-keep (λ r. p r.key) (λ r. leb from r.key.bucket) _ (rollup logs)
    ∙ group_by-sum same_group same_group_iff c (λ g. leb from g.bucket && p g) group_of count_log
        logs
    ∙ sum_if-same _ (λ l. leb (round_up from) l.created_at && p (group_of l)) _ logs
        (λ l. ap (λ b. b && p (group_of l)) (minute_from from l.created_at))
    ∙ sym (sum_if-keep (λ l. p (group_of l)) (λ l. leb (round_up from) l.created_at) _ logs)
