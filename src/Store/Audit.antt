-- ===== src/Store/Audit.antt =====
-- backend/shared/storage/postgres/audit_log_store.go
pub mod Timed
pub mod Page
use chainmesh.Base.{
  ℕ, zero, suc, String, Bool, true, false, not, Option, none, some, List, [], ◌∷◌, ◌++◌, map, ltb,
  if◌then◌else◌,
}
use chainmesh.Base.Int.{ℤ, pos, negsuc, is_pos, pos_part}
use chainmesh.Base.Order.{OrderBy, descending}
use chainmesh.Model.{AuditLog}
use chainmesh.Redis.{Delivery}
use chainmesh.Store.{Database, AuditRow}
use chainmesh.Store.Statements.{Statement, exec, Reading, query, first}
use chainmesh.Store.Tenants.{nullable}
use chainmesh.Store.Keys.{coalesce}

unfoldable pub audit_row : AuditLog → AuditRow
audit_row l = record {
  actor = l.actor;
  action = l.action;
  resource_type = l.resource_type;
  resource_id = l.resource_id;
  details = l.details;
  ip_address = nullable l.ip_address;
  user_agent = l.user_agent;
  created_at = l.created_at;
}

-- RecordAuditLog
unfoldable pub record_audit_log : Delivery → AuditLog → Database → Bool × Database
unfolding audit_row
record_audit_log trip l db =
    exec trip (λ d. some (record d { audit_logs = d.audit_logs ++ (audit_row l ∷ []) })) db

unfoldable pub scan_audit : AuditRow → AuditLog
scan_audit row = record {
  actor = row.actor;
  action = row.action;
  resource_type = row.resource_type;
  resource_id = row.resource_id;
  details = row.details;
  ip_address = coalesce row.ip_address;
  user_agent = row.user_agent;
  created_at = row.created_at;
}

-- The page's size: 50 if it is not positive, and at most 1000.
unfoldable pub page_limit : ℤ → ℕ
page_limit limit =
    let n = if is_pos limit then pos_part limit else 50 in if ltb 1000 n then 1000 else n

-- OFFSET
abbrev pub skip {ℓ} : {A : Type ℓ} → ℕ → List A → List A
skip zero xs = xs
skip (suc n) [] = []
skip (suc n) (x ∷ xs) = skip n xs

-- ListAuditLogs; a negative offset is 0, like pos_part's
unfoldable pub list_audit_logs :
    OrderBy → Reading → (limit offset : ℤ) → Database → Option (List AuditLog)
unfolding scan_audit page_limit
list_audit_logs order reading limit offset db = query reading (
    map scan_audit (
      first (page_limit limit)
        (skip (pos_part offset) (descending order (λ row. row.created_at) db.audit_logs))))
