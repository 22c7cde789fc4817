-- ===== src/Examples/Summaries.antt =====
-- A summary of two requests in one minute.
use mathlib.Core.List.{Mem}
use chainmesh.Base.{
  ◌+◌, ◌*◌, ◌≡◌, refl, true, false, not, ◌&&◌, none, some, List, [], ◌∷◌, ◌==◌, eqb, tally,
}
use chainmesh.Base.Order.{insertion_order, descending}
use chainmesh.Base.Sorting.{sort_by, insert_by}
use chainmesh.Clock.{minute}
use chainmesh.Redis.{delivered}
use chainmesh.Store.{RequestLogRow}
use chainmesh.Store.Statements.{query_row, query, complete}
use chainmesh.Store.Keys.{coalesce}
use chainmesh.Stats.Groups.{Column, value, sum_if, group_by}
use chainmesh.Stats.View.{round_up}
use chainmesh.Stats.Agreement.{point_value}
use chainmesh.Stats.Summary.{summary_from_rollup-counts}
use chainmesh.Stats.{
  count_log, rollup, truncation, Queries, StatsCount, StatsSeriesPoint, StatsSummary, top_five,
  series, since, rollup_network, raw_totals, rollup_totals, summary_from_rollup,
}
use chainmesh.Examples.Tables.{config}

abbrev log : RequestLogRow
log = record {
  tenant_id = "t1";
  network_id = some "eth";
  method = "eth_chainId";
  status = "success";
  latency_ms = 4;
  cache_hit = true;
  bytes_in = 9;
  created_at = 7 * minute + 5;
  request_id = none;
}

abbrev pub logs : List RequestLogRow
logs =
    log ∷ record log { status = "rpc_error"; cache_hit = false; created_at = 7 * minute + 9 } ∷ []

abbrev pub queries : Queries
queries = record {
  totals_trip = delivered;
  methods_reading = complete;
  statuses_reading = complete;
  networks_reading = complete;
  series_reading = complete;
}

abbrev summary : StatsSummary
summary = record {
  range = "1h";
  from = 5;
  totals = record { requests = 2; success = 1; errors = 1; cache_hits = 1; cache_misses = 1 };
  top_methods = record { name = "eth_chainId"; count = 2 } ∷ [];
  top_statuses =
      record { name = "rpc_error"; count = 1 } ∷ record { name = "success"; count = 1 } ∷ [];
  top_networks = record { name = "Ethereum"; count = 2 } ∷ [];
  series = record { time = 7 * minute; requests = 2; errors = 1; cache_hits = 1 } ∷ [];
}

from_rollup :
    summary_from_rollup insertion_order queries 5 "1h" (config ∷ []) (some (rollup logs))
    ≡ some summary
unfolding summary_from_rollup query_row query rollup rollup_totals top_five series rollup_network
    group_by descending sort_by insert_by
from_rollup = refl

summary_from_rollup-counts_example :
    (summary.totals ≡ raw_totals (since (round_up 5) logs))
    × ((e : StatsCount)
        → Mem e summary.top_methods
        → e.count
          ≡ tally (λ l. not (l.method == "") && l.method == e.name) (since (round_up 5) logs))
    × ((e : StatsCount)
        → Mem e summary.top_statuses
        → e.count ≡ tally (λ l. l.status == e.name) (since (round_up 5) logs))
    × ((e : StatsCount)
        → Mem e summary.top_networks
        → e.count
          ≡ tally
              (λ l. rollup_network (config ∷ []) (coalesce l.network_id) == e.name)
              (since (round_up 5) logs))
    × ((c : Column) (p : StatsSeriesPoint)
        → Mem p summary.series
        → point_value c p
          ≡ sum_if
              (λ l. eqb (truncation "1h" l.created_at) p.time)
              (λ l. value c (count_log l))
              (since (round_up 5) logs))
summary_from_rollup-counts_example =
    summary_from_rollup-counts insertion_order queries 5 "1h" (config ∷ []) logs summary from_rollup
