-- ===== src/Stats.antt =====
-- backend/shared/storage/postgres/stats_store.go and backend/shared/statsrollup/refresher.go: the counts of
-- a summary, from the table request_logs and from the view request_logs_rollup_1m that
-- backend/database/migrations/009 defines. The latencies, which are floating-point numbers, are left out.
-- The session's time zone is taken to be UTC.
pub mod Groups
pub mod View
pub mod Agreement
pub mod Summary
use chainmesh.Base.{
  ℕ, ◌+◌, ◌-◌, ◌*◌, ◌/◌, String, Bool, true, false, not, ◌&&◌, Option, none, some, List, [], ◌∷◌,
  map, keep, tally, length, ◌==◌, eqb, leb, ltb, if◌then◌else◌,
}
use chainmesh.Base.Order.{OrderBy, descending}
use chainmesh.Clock.{minute, truncate_minute}
use chainmesh.Model.{BlockchainConfig}
use chainmesh.Redis.{Delivery}
use chainmesh.Store.{RequestLogRow}
use chainmesh.Store.Statements.{query_row, Reading, query, first, ◌>>=◌}
use chainmesh.Store.Keys.{coalesce}
use chainmesh.Stats.Groups.{Tally, Entry, group_by, sum_if, Column, value}

-- date_trunc('hour', t)
abbrev pub truncate_hour : ℕ → ℕ
truncate_hour t = t / (60 * minute) * (60 * minute)

-- COUNT(*), COUNT(*) FILTER (WHERE status <> 'success'), COUNT(*) FILTER (WHERE cache_hit)
abbrev pub count_log : RequestLogRow → Tally
count_log l = record {
  requests = 1;
  errors = if l.status == "success" then 0 else 1;
  cache_hits = if l.cache_hit then 1 else 0;
}

-- The columns that the view groups by.
pub record Group : Type 0 where
  pub bucket : ℕ
  pub network_id : String
  pub method : String
  pub status : String
  pub cache_hit : Bool

abbrev pub same_bool : Bool → Bool → Bool
same_bool a b = if a then b else not b

abbrev pub same_group : Group → Group → Bool
same_group a b =
    eqb a.bucket b.bucket
    && a.network_id == b.network_id
    && a.method == b.method
    && a.status == b.status
    && same_bool a.cache_hit b.cache_hit

abbrev pub group_of : RequestLogRow → Group
group_of l = record {
  bucket = truncate_minute l.created_at;
  network_id = coalesce l.network_id;
  method = l.method;
  status = l.status;
  cache_hit = l.cache_hit;
}

-- The query of the view.
unfoldable pub rollup : List RequestLogRow → List (Entry Group)
rollup logs = group_by same_group group_of count_log logs

-- type StatsTotals struct
pub record StatsTotals : Type 0 where
  pub requests : ℕ
  pub success : ℕ
  pub errors : ℕ
  pub cache_hits : ℕ
  pub cache_misses : ℕ

-- type StatsCount struct
pub record StatsCount : Type 0 where
  pub name : String
  pub count : ℕ

-- type StatsSeriesPoint struct
pub record StatsSeriesPoint : Type 0 where
  pub time : ℕ
  pub requests : ℕ
  pub errors : ℕ
  pub cache_hits : ℕ

-- type StatsSummary struct, without the latencies and the time it was made
pub record StatsSummary : Type 0 where
  pub range : String
  pub from : ℕ
  pub totals : StatsTotals
  pub top_methods : List StatsCount
  pub top_statuses : List StatsCount
  pub top_networks : List StatsCount
  pub series : List StatsSeriesPoint

-- How the five queries of a summary arrive.
pub record Queries : Type 0 where
  pub totals_trip : Delivery
  pub methods_reading : Reading
  pub statuses_reading : Reading
  pub networks_reading : Reading
  pub series_reading : Reading

abbrev pub stats_count : Entry String → StatsCount
stats_count e = record { name = e.key; count = e.tally.requests }

-- GROUP BY a text ORDER BY count DESC LIMIT 5
unfoldable pub top_five :
    {A : Type 0} → OrderBy → (A → String) → (A → Tally) → List A → List StatsCount
top_five order name count rows =
    map stats_count
      (first 5 (descending order (λ e. e.tally.requests) (group_by ◌==◌ name count rows)))

abbrev pub point : Entry ℕ → StatsSeriesPoint
point e = record {
  time = e.key;
  requests = e.tally.requests;
  errors = e.tally.errors;
  cache_hits = e.tally.cache_hits;
}

-- GROUP BY bucket ORDER BY bucket
unfoldable pub series :
    {A : Type 0} → OrderBy → (A → ℕ) → (A → Tally) → List A → List StatsSeriesPoint
series order time count rows =
    map point (order.ascending (λ e. e.key) (group_by eqb time count rows))

-- c.name of the LEFT JOIN on the network's id
abbrev pub joined_name : String → List BlockchainConfig → Option String
joined_name id [] = none
joined_name id (c ∷ cs) = if c.id == id then some c.name else joined_name id cs

-- COALESCE(c.name, rl.network_id::text, 'unknown')
unfoldable pub raw_network : List BlockchainConfig → Option String → String
raw_network configs none = "unknown"
raw_network configs (some id) = elim (joined_name id configs) [ none ↦ id | some name ↦ name ]

-- COALESCE(NULLIF(c.name, ''), NULLIF(r.network_id, ''), 'unknown')
unfoldable pub rollup_network : List BlockchainConfig → String → String
rollup_network configs id =
    let otherwise = if id == "" then "unknown" else id in
    elim (joined_name id configs) [
      | none ↦ otherwise
      | some name ↦ if name == "" then otherwise else name
    ]

-- WHERE created_at >= $1
abbrev pub since : ℕ → List RequestLogRow → List RequestLogRow
since from logs = keep (λ l. leb from l.created_at) logs

-- WHERE bucket >= $1
abbrev pub buckets_since : ℕ → List (Entry Group) → List (Entry Group)
buckets_since from rows = keep (λ r. leb from r.key.bucket) rows

-- The first query of getStatsSummaryFromRaw, and its CacheMisses
unfoldable pub raw_totals : List RequestLogRow → StatsTotals
raw_totals rows = record {
  requests = length rows;
  success = tally (λ l. l.status == "success") rows;
  errors = tally (λ l. not (l.status == "success")) rows;
  cache_hits = tally (λ l. l.cache_hit) rows;
  cache_misses = length rows - tally (λ l. l.cache_hit) rows;
}

-- The first query of getStatsSummaryFromRollup, and its Success and CacheMisses
unfoldable pub rollup_totals : List (Entry Group) → StatsTotals
rollup_totals rows =
    let requests = sum_if (λ r. true) (λ r. r.tally.requests) rows in
    let errors = sum_if (λ r. true) (λ r. r.tally.errors) rows in
    let hits = sum_if (λ r. true) (λ r. r.tally.cache_hits) rows in
    record {
      requests = requests;
      success = requests - errors;
      errors = errors;
      cache_hits = hits;
      cache_misses = requests - hits;
    }

abbrev pub truncation : String → ℕ → ℕ
truncation range t = if range == "24h" then truncate_hour t else truncate_minute t

-- The queries of a summary, one after another.
abbrev pub collect :
    Queries
    → String
    → ℕ
    → StatsTotals
    → (methods statuses networks : List StatsCount) → List StatsSeriesPoint
    → Option StatsSummary
collect q range from totals methods statuses networks points = do
  t ← query_row q.totals_trip (some totals)
  m ← query q.methods_reading methods
  s ← query q.statuses_reading statuses
  n ← query q.networks_reading networks
  p ← query q.series_reading points
  some (record {
    range = range;
    from = from;
    totals = t;
    top_methods = m;
    top_statuses = s;
    top_networks = n;
    series = p;
  })

-- getStatsSummaryFromRaw
unfoldable pub summary_from_raw :
    OrderBy
    → Queries
    → ℕ
    → String
    → List BlockchainConfig
    → List RequestLogRow
    → Option StatsSummary
summary_from_raw order q from range configs logs =
    let rows = since from logs in
    collect q range from (raw_totals rows)
      (top_five order (λ l. l.method) count_log (keep (λ l. not (l.method == "")) rows))
      (top_five order (λ l. l.status) count_log rows)
      (top_five order (λ l. raw_network configs l.network_id) count_log rows)
      (series order (λ l. truncation range l.created_at) count_log rows)

-- getStatsSummaryFromRollup. A view that was never filled is an error; the bucket of a row is a minute, so
-- that date_trunc('minute', ...) of it is the bucket.
unfoldable pub summary_from_rollup :
    OrderBy
    → Queries
    → ℕ
    → String
    → List BlockchainConfig
    → Option (List (Entry Group))
    → Option StatsSummary
summary_from_rollup order q from range configs none = none
summary_from_rollup order q from range configs (some view) =
    let rows = buckets_since from view in
    collect q range from (rollup_totals rows)
      (top_five order (λ r. r.key.method) (λ r. r.tally)
        (keep (λ r. not (r.key.method == "")) rows))
      (top_five order (λ r. r.key.status) (λ r. r.tally) rows)
      (top_five order (λ r. rollup_network configs r.key.network_id) (λ r. r.tally) rows)
      (series order (λ r. if range == "24h" then truncate_hour r.key.bucket else r.key.bucket)
        (λ r. r.tally) rows)

-- time.Now().Add(-5 * time.Minute), before which a summary is read from the view
abbrev pub recent_cutoff : ℕ → ℕ
recent_cutoff now = now - 5 * minute

abbrev pub or_raw : Option StatsSummary → Option StatsSummary → Option StatsSummary
or_raw (some s) raw = some s
or_raw none raw = raw

-- GetStatsSummary, with the queries of the view and those of the table
unfoldable pub get_stats_summary :
    OrderBy
    → (view_queries raw_queries : Queries) → (now from : ℕ) → String
    → List BlockchainConfig
    → Option (List (Entry Group))
    → List RequestLogRow
    → Option StatsSummary
get_stats_summary order qv qr now from range configs view logs =
    let raw = summary_from_raw order qr from range configs logs in
    if ltb from (recent_cutoff now)
    then or_raw (summary_from_rollup order qv from range configs view) raw
    else raw
