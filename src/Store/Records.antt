-- ===== src/Store/Records.antt =====
-- backend/shared/storage/postgres/usage_store.go and request_log_store.go: what the recorder's worker
-- writes.
pub mod Totals
pub mod Unique
pub mod Retries
use chainmesh.Base.{
  ℕ, ◌+◌, ◌/◌, String, Bool, true, false, ◌&&◌, Option, none, some, List, [], ◌∷◌, ◌++◌, keep, ◌==◌,
  eqb, if◌then◌else◌,
}
use chainmesh.Clock.{day}
use chainmesh.Model.{Usage, RequestLog}
use chainmesh.Redis.{Delivery}
use chainmesh.Proxy.{Recorded}
use chainmesh.Proxy
use chainmesh.Store.{Database, RequestLogRow}
use chainmesh.Store.Statements.{Statement, exec, Reading, query}
use chainmesh.Store.Tenants.{nullable, names_tenant, names_config}

-- The primary key of usage.
abbrev pub same_key : Usage → Usage → Bool
same_key u row = row.tenant_id == u.tenant_id && row.method == u.method && eqb row.period u.period

-- INSERT INTO usage ... ON CONFLICT (tenant_id, method, period) DO UPDATE
unfoldable pub upsert : Usage → List Usage → List Usage
upsert u [] = u ∷ []
upsert u (row ∷ rows) =
    if same_key u row
    then record row { count = row.count + u.count; bytes_in = row.bytes_in + u.bytes_in } ∷ rows
    else row ∷ upsert u rows

unfoldable pub upsert_usage : Usage → Statement
unfolding upsert
upsert_usage u db =
    if names_tenant u.tenant_id db then some (record db { usage = upsert u db.usage }) else none

-- DB.RecordUsage
unfoldable pub record_usage : Delivery → Usage → Database → Bool × Database
record_usage trip u db = exec trip (upsert_usage u) db

-- DB.GetDailyUsage; DATE is the day in UTC
unfoldable pub get_daily_usage : Reading → String → ℕ → Database → Option (List Usage)
get_daily_usage reading tenant_id at db =
    query reading
      (keep (λ row. row.tenant_id == tenant_id && eqb (row.period / day) (at / day)) db.usage)

unfoldable pub log_row : RequestLog → ℕ → RequestLogRow
log_row l now = record {
  tenant_id = l.tenant_id;
  network_id = nullable l.network_id;
  method = l.method;
  status = l.status;
  latency_ms = l.latency_ms;
  cache_hit = l.cache_hit;
  bytes_in = l.bytes_in;
  created_at = now;
  request_id = nullable l.request_id;
}

unfoldable pub insert_log : RequestLog → ℕ → Statement
unfolding log_row
insert_log l now db =
    if names_tenant l.tenant_id db && names_config (nullable l.network_id) db
    then some (record db { request_logs = db.request_logs ++ (log_row l now ∷ []) })
    else none

-- DB.RecordRequestLog, at a time of the server's clock
unfoldable pub record_request_log : Delivery → ℕ → RequestLog → Database → Bool × Database
record_request_log trip now l db = exec trip (insert_log l now) db

-- The write of a job, in `process` of the recorder.
unfoldable pub write : Delivery → ℕ → Recorded → Database → Bool × Database
write trip now (Proxy.usage u) db = record_usage trip u db
write trip now (Proxy.request_log l) db = record_request_log trip now l db
