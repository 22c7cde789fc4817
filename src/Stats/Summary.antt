-- ===== src/Stats/Summary.antt =====
-- The whole summary that is read from the view, entry by entry.
use mathlib.Core.List.{Mem}
use mathlib.Core.Logic.{∥∥₁_map}
use mathlib.Core.Option.{some-injective}
use chainmesh.Base.{
  ℕ, ◌≡◌, ◌≢◌, refl, sym, ap, ◌∙◌, String, Bool, not, ◌&&◌, Option, none, some, List, tally, ltb,
  ◌==◌, eqb, eq_iff, arith, inl, inr, Bool-cases, if◌then◌else◌,
}
use chainmesh.Base.Order.{OrderBy}
use chainmesh.Clock.{truncate_minute}
use chainmesh.Model.{BlockchainConfig}
use chainmesh.Redis.{Delivery, delivered, refused, lost}
use chainmesh.Store.{RequestLogRow}
use chainmesh.Store.Statements.{query_row, Reading, query, ◌>>=◌}
use chainmesh.Store.Keys.{coalesce}
use chainmesh.Store.Keys.Resolve.{mem_query}
use chainmesh.Stats.Groups.{Column, requests_column, value, Entry, sum_if, sum_if-keep, sum_if-same}
use chainmesh.Stats.View.{round_up, view_sum}
use chainmesh.Stats.Agreement.{
  rollup_totals-raw_totals, top_five-sum, point_value, series-sum, sum_requests,
}
use chainmesh.Stats.{
  Group, group_of, count_log, rollup, truncate_hour, truncation, Queries, StatsTotals, StatsCount,
  StatsSeriesPoint, StatsSummary, since, buckets_since, joined_name, raw_network, rollup_network,
  raw_totals, collect, summary_from_raw, summary_from_rollup, recent_cutoff, or_raw,
  get_stats_summary,
}

none_ne : {A : Type 0} {x : A} → none ≡ some x → ⊥
none_ne h = ground arith

bind_some :
    {A B : Type 0} (o : Option A) (f : A → Option B) {b : B}
    → (o >>= f) ≡ some b
    → (a : A) × (o ≡ some a) × (f a ≡ some b)
bind_some none f h = absurd (none_ne h)
bind_some (some a) f h = (a, refl, h)

query_row-some : {A : Type 0} (trip : Delivery) {x y : A} → query_row trip (some x) ≡ some y → y ≡ x
unfolding query_row
query_row-some delivered h = sym (some-injective _ _ h)
query_row-some refused h = absurd (none_ne h)
query_row-some lost h = absurd (none_ne h)

arrived :
    {A : Type 0} (r : Reading) (xs : List A) {ys : List A}
    → query r xs ≡ some ys
    → (x : A) → Mem x ys
    → Mem x xs
arrived r xs e x m = ∥∥₁_map m (λ d. mem_query r xs e d)

-- A summary has its totals, and entries of its lists.
abbrev Has :
    StatsTotals
    → (methods statuses networks : List StatsCount) → List StatsSeriesPoint
    → StatsSummary
    → Type 0
Has totals methods statuses networks points s =
    (s.totals ≡ totals)
    × ((e : StatsCount) → Mem e s.top_methods → Mem e methods)
    × ((e : StatsCount) → Mem e s.top_statuses → Mem e statuses)
    × ((e : StatsCount) → Mem e s.top_networks → Mem e networks)
    × ((p : StatsSeriesPoint) → Mem p s.series → Mem p points)

collect-Has :
    (q : Queries) (range : String) (from : ℕ) (totals : StatsTotals)
    (methods statuses networks : List StatsCount) (points : List StatsSeriesPoint)
    (s : StatsSummary)
    → collect q range from totals methods statuses networks points ≡ some s
    → Has totals methods statuses networks points s
collect-Has q range from totals methods statuses networks points s h =
    let (t, ht, h₁) = bind_some _ _ h in
    let (m, hm, h₂) = bind_some _ _ h₁ in
    let (u, hu, h₃) = bind_some _ _ h₂ in
    let (n, hn, h₄) = bind_some _ _ h₃ in
    let (p, hp, h₅) = bind_some _ _ h₄ in
    let e = some-injective _ _ h₅ in
    transport_has _ e (
      query_row-some q.totals_trip ht,
      arrived q.methods_reading methods hm,
      arrived q.statuses_reading statuses hu,
      arrived q.networks_reading networks hn,
      arrived q.series_reading points hp,
    )
  where
    transport_has :
        (s' : StatsSummary)
        → s' ≡ s
        → Has totals methods statuses networks points s'
        → Has totals methods statuses networks points s
    transport_has s' e k = rw e at k

truncation-minute :
    (range : String) (t : ℕ)
    → (if range == "24h" then truncate_hour (truncate_minute t) else truncate_minute t)
      ≡ truncation range t
truncation-minute range t = ap (λ n. if range == "24h" then n else truncate_minute t) (hour t)
  where
    hour : (t : ℕ) → truncate_hour (truncate_minute t) ≡ truncate_hour t
    hour t = omega arith

-- The counts of a list of the view are the table's.
counted_in_table :
    (p : Group → Bool) (from : ℕ) (logs : List RequestLogRow)
    → sum_if
        (λ r. p r.key)
        (λ (r : Entry Group). r.tally.requests)
        (buckets_since from (rollup logs))
      ≡ tally (λ l. p (group_of l)) (since (round_up from) logs)
counted_in_table p from logs =
    view_sum requests_column p from logs
    ∙ sum_requests (λ l. p (group_of l)) (since (round_up from) logs)

-- In a summary that is read from the view as it is right after a refresh, however many of the rows of each
-- query arrive: the totals are those of the table from the next whole minute on; an entry of a top list
-- has the number of the table's rows from then on with that method, status or network, and a point of the
-- series has the numbers of requests, errors and cache hits in its minute, or hour for the range 24h.
pub summary_from_rollup-counts :
    (order : OrderBy) (q : Queries) (from : ℕ) (range : String) (configs : List BlockchainConfig)
    (logs : List RequestLogRow) (s : StatsSummary)
    → summary_from_rollup order q from range configs (some (rollup logs)) ≡ some s
    → (s.totals ≡ raw_totals (since (round_up from) logs))
      × ((e : StatsCount)
          → Mem e s.top_methods
          → e.count
            ≡ tally (λ l. not (l.method == "") && l.method == e.name) (since (round_up from) logs))
      × ((e : StatsCount)
          → Mem e s.top_statuses
          → e.count ≡ tally (λ l. l.status == e.name) (since (round_up from) logs))
      × ((e : StatsCount)
          → Mem e s.top_networks
          → e.count
            ≡ tally
                (λ l. rollup_network configs (coalesce l.network_id) == e.name)
                (since (round_up from) logs))
      × ((c : Column) (p : StatsSeriesPoint)
          → Mem p s.series
          → point_value c p
            ≡ sum_if
                (λ l. eqb (truncation range l.created_at) p.time)
                (λ l. value c (count_log l))
                (since (round_up from) logs))
unfolding summary_from_rollup
summary_from_rollup-counts order q from range configs logs s h =
    let (totals, methods, statuses, networks, points) = collect-Has q range from _ _ _ _ _ s h in
    (
      totals ∙ rollup_totals-raw_totals from logs,
      λ e m.
          top_five-sum order _ _ _ e (methods e m)
          ∙ sum_if-keep _ _ _ (buckets_since from (rollup logs))
          ∙ counted_in_table (λ g. not (g.method == "") && g.method == e.name) from logs,
      λ e m.
          top_five-sum order _ _ _ e (statuses e m)
          ∙ counted_in_table (λ g. g.status == e.name) from logs,
      λ e m.
          top_five-sum order _ _ _ e (networks e m)
          ∙ counted_in_table (λ g. rollup_network configs g.network_id == e.name) from logs,
      λ c p m.
          series-sum order _ _ c _ p (points p m)
          ∙ view_sum c
              (λ g. eqb (if range == "24h" then truncate_hour g.bucket else g.bucket) p.time) from
              logs
          ∙ sum_if-same _ _ _ _
              (λ l. ap (λ t. eqb t p.time) (truncation-minute range l.created_at)),
    )

-- The names that the two queries give a network agree, if its row has a name, and the id is not empty.
pub rollup_network-raw_network :
    (configs : List BlockchainConfig) (network_id : Option String)
    → joined_name (coalesce network_id) configs ≢ some ""
    → network_id ≢ some ""
    → joined_name "" configs ≡ none
    → rollup_network configs (coalesce network_id) ≡ raw_network configs network_id
unfolding rollup_network raw_network
rollup_network-raw_network configs none h k b = rw (b, rollup_network) refl
rollup_network-raw_network configs (some id) h k b = by_name (joined_name id configs) h
  where
    by_name :
        (o : Option String)
        → o ≢ some ""
        → elim o [
          | none ↦ if id == "" then "unknown" else id
          | some name ↦ if name == "" then (if id == "" then "unknown" else id) else name
        ]
          ≡ elim o [ none ↦ id | some name ↦ name ]
    by_name none h = elim (Bool-cases (id == "")) [
      | inl e ↦ absurd (k (ap some ((eq_iff id "").0 e)))
      | inr e ↦ rw e refl
    ]
    by_name (some name) h = elim (Bool-cases (name == "")) [
      | inl e ↦ absurd (h (ap some ((eq_iff name "").0 e)))
      | inr e ↦ rw e refl
    ]

-- GetStatsSummary gives an error only if the table's own queries fail: whenever a summary can be read from
-- the table, it answers one, whatever the view's state and its queries' fate.
pub get_stats_summary-falls_back :
    (order : OrderBy) (qv qr : Queries) (now from : ℕ) (range : String)
    (configs : List BlockchainConfig) (view : Option (List (Entry Group)))
    (logs : List RequestLogRow) (raw : StatsSummary)
    → summary_from_raw order qr from range configs logs ≡ some raw
    → (s : StatsSummary) × (get_stats_summary order qv qr now from range configs view logs ≡ some s)
unfolding get_stats_summary
get_stats_summary-falls_back order qv qr now from range configs view logs raw h =
    elim (Bool-cases (ltb from (recent_cutoff now))) [
      | inl e ↦ rw e (rw h (either (summary_from_rollup order qv from range configs view)))
      | inr e ↦ rw e (raw, h)
    ]
  where
    either : (o : Option StatsSummary) → (s : StatsSummary) × (or_raw o (some raw) ≡ some s)
    either none = (raw, refl)
    either (some s) = (s, refl)
