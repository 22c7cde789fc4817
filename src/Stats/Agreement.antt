-- ===== src/Stats/Agreement.antt =====
-- A summary read from the view agrees with one read from the table from the next whole minute on.
use mathlib.Core.List.{Mem, Memᴰ}
use mathlib.Core.List.Memᴰ
use mathlib.Core.List.Perm
use mathlib.Core.Logic.{∥∥₁_elim}
use native.Mathlib.Nat.{ℕ_set}
use chainmesh.Base.{
  ℕ, suc, ◌+◌, ◌-◌, ◌≡◌, refl, sym, ap, ◌∙◌, String, Bool, true, false, not, List, [], ◌∷◌, tally,
  length, ◌==◌, eqb, eqb_iff, eq_iff, arith, if◌then◌else◌,
}
use chainmesh.Base.Order.{OrderBy, descending_perm}
use chainmesh.Store.{RequestLogRow}
use chainmesh.Store.Keys.Resolve.{mem_first}
use chainmesh.Stats.Groups.{
  Tally, Column, requests_column, errors_column, cache_hits_column, value, Entry, group_by, sum_if,
  group_by-entry,
}
use chainmesh.Stats.View.{round_up, view_sum}
use chainmesh.Stats.{
  count_log, rollup, StatsCount, stats_count, top_five, StatsSeriesPoint, point, series, since,
  buckets_since, StatsTotals, raw_totals, rollup_totals,
}

-- Sums of the table's counts are counts of its rows.
pub sum_requests :
    (p : RequestLogRow → Bool) (rows : List RequestLogRow)
    → sum_if p (λ l. (count_log l).requests) rows ≡ tally p rows
sum_requests p [] = refl
sum_requests p (l ∷ rows) = let ih = sum_requests p rows in omega (arith, ih)

all_requests : (rows : List RequestLogRow) → tally (λ l. true) rows ≡ length rows
all_requests [] = refl
all_requests (l ∷ rows) = let ih = all_requests rows in omega (arith, ih)

all_errors :
    (rows : List RequestLogRow)
    → sum_if (λ l. true) (λ l. (count_log l).errors) rows
      ≡ tally (λ l. not (l.status == "success")) rows
all_errors [] = refl
all_errors (l ∷ rows) = let ih = all_errors rows in one (l.status == "success") _ _ ih
  where
    one : (b : Bool) (m n : ℕ) → m ≡ n → (if b then 0 else 1) + m ≡ (if not b then 1 else 0) + n
    one true m n h = omega (arith, h)
    one false m n h = omega (arith, h)

all_hits :
    (rows : List RequestLogRow)
    → sum_if (λ l. true) (λ l. (count_log l).cache_hits) rows ≡ tally (λ l. l.cache_hit) rows
all_hits [] = refl
all_hits (l ∷ rows) = let ih = all_hits rows in omega (arith, ih)

successes :
    (rows : List RequestLogRow)
    → length rows
      ≡ tally (λ l. l.status == "success") rows + tally (λ l. not (l.status == "success")) rows
successes [] = omega arith
successes (l ∷ rows) = let ih = successes rows in one (l.status == "success") _ _ _ ih
  where
    one :
        (b : Bool) (m n k : ℕ)
        → k ≡ m + n
        → suc k ≡ (if b then 1 else 0) + m + ((if not b then 1 else 0) + n)
    one true m n k h = omega (arith, h)
    one false m n k h = omega (arith, h)

abbrev with_success : List RequestLogRow → ℕ → StatsTotals
with_success rows n = record {
  requests = length rows;
  success = n;
  errors = tally (λ l. not (l.status == "success")) rows;
  cache_hits = tally (λ l. l.cache_hit) rows;
  cache_misses = length rows - tally (λ l. l.cache_hit) rows;
}

-- The totals that a summary takes from the view, as it is right after a refresh, are those that the table
-- gives from the next whole minute on.
pub rollup_totals-raw_totals :
    (from : ℕ) (logs : List RequestLogRow)
    → rollup_totals (buckets_since from (rollup logs)) ≡ raw_totals (since (round_up from) logs)
unfolding rollup_totals raw_totals
rollup_totals-raw_totals from logs =
    let r =
      view_sum requests_column (λ g. true) from logs
      ∙ sum_requests (λ l. true) (since (round_up from) logs)
      ∙ all_requests (since (round_up from) logs) in
    let e =
      view_sum errors_column (λ g. true) from logs ∙ all_errors (since (round_up from) logs) in
    let h =
      view_sum cache_hits_column (λ g. true) from logs ∙ all_hits (since (round_up from) logs) in
    let s = successes (since (round_up from) logs) in
    rw (r, e, h) (ap (λ n. with_success (since (round_up from) logs) n) (omega (arith, s)))

abbrev pub point_value : Column → StatsSeriesPoint → ℕ
point_value requests_column p = p.requests
point_value errors_column p = p.errors
point_value cache_hits_column p = p.cache_hits

module _ (order : OrderBy) {A : Type 0} (count : A → Tally) (xs : List A) where
  -- An entry of a top list has the sum of its rows.
  pub top_five-sum :
      (name : A → String) (e : StatsCount)
      → Mem e (top_five order name count xs)
      → e.count ≡ sum_if (λ x. name x == e.name) (λ x. (count x).requests) xs
  unfolding top_five
  top_five-sum name e m = ∥∥₁_elim m (ℕ_set _ _) (λ d.
      let (g, within, same) = Memᴰ.of_map stats_count _ d in
      let listed = (Perm.mem_iff (descending_perm order _ _)).0 ∣ mem_first 5 _ within ∣₁ in
      ∥∥₁_elim listed (ℕ_set _ _) (λ k. from_entry g k same))
    where
      from_entry :
          (g : Entry String)
          → Memᴰ g (group_by ◌==◌ name count xs)
          → stats_count g ≡ e
          → e.count ≡ sum_if (λ x. name x == e.name) (λ x. (count x).requests) xs
      from_entry g k same =
          let entry = group_by-entry ◌==◌ eq_iff requests_column name count xs g k in
          sym (ap (λ (s : StatsCount). s.count) same)
          ∙ entry
          ∙ ap (λ (s : StatsCount). sum_if (λ x. name x == s.name) (λ x. (count x).requests) xs)
              same

  -- The same of a point of the series, in each column.
  value-point : (c : Column) (g : Entry ℕ) → value c g.tally ≡ point_value c (point g)
  value-point requests_column g = refl
  value-point errors_column g = refl
  value-point cache_hits_column g = refl

  pub series-sum :
      (c : Column) (time : A → ℕ) (p : StatsSeriesPoint)
      → Mem p (series order time count xs)
      → point_value c p ≡ sum_if (λ x. eqb (time x) p.time) (λ x. value c (count x)) xs
  unfolding series
  series-sum c time p m = ∥∥₁_elim m (ℕ_set _ _) (λ d.
      let (g, within, same) = Memᴰ.of_map point _ d in
      let listed = (Perm.mem_iff (order.ascending_perm _ _)).0 ∣ within ∣₁ in
      ∥∥₁_elim listed (ℕ_set _ _) (λ k. from_entry g k same))
    where
      from_entry :
          (g : Entry ℕ)
          → Memᴰ g (group_by eqb time count xs)
          → point g ≡ p
          → point_value c p ≡ sum_if (λ x. eqb (time x) p.time) (λ x. value c (count x)) xs
      from_entry g k same =
          let entry = group_by-entry eqb eqb_iff c time count xs g k in
          sym (ap (point_value c) same)
          ∙ sym (value-point c g)
          ∙ entry
          ∙ ap
              (λ (s : StatsSeriesPoint).
                sum_if (λ x. eqb (time x) s.time) (λ x. value c (count x)) xs)
              same
