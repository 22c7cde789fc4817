-- ===== src/Store.antt =====
-- backend/shared/storage/postgres: the tables that backend/database/migrations leave behind, and how a
-- statement reaches the server. A statement that is delivered has values that fit their columns; a
-- value that does not is an error, like a refused connection.
pub mod Statements
pub mod Keys
pub mod Tenants
pub mod Records
pub mod Blocks
pub mod Networks
pub mod Audit
pub mod Connect
pub mod Effects
use chainmesh.Base.{ℕ, String, Bool, Option, List}
use chainmesh.Base.Int.{ℤ}
use chainmesh.Json.{Json}
use chainmesh.Model.{BlockchainConfig, Usage}

-- tenants, without the column api_key, which nothing reads since migration 005
pub record TenantRow : Type 0 where
  pub id : String
  pub name : String
  pub network_id : Option String
  pub quota_rpm : ℤ
  pub quota_rps : ℤ
  pub quota_daily : ℤ
  pub plan : String
  pub created_at : ℕ

-- api_keys
pub record KeyRow : Type 0 where
  pub id : String
  pub tenant_id : String
  pub name : String
  pub key_hash : String
  pub key_prefix : String
  pub revoked_at : Option ℕ
  pub last_used_at : Option ℕ
  pub created_at : ℕ

-- blocks
pub record BlockRow : Type 0 where
  pub number : ℤ
  pub hash : String
  pub parent_hash : String
  pub timestamp : ℤ
  pub tx_count : ℕ
  pub network_id : String
  pub raw_json : Option Json

-- request_logs; the texts that the code passes as nil are NULL
pub record RequestLogRow : Type 0 where
  pub tenant_id : String
  pub network_id : Option String
  pub method : String
  pub status : String
  pub latency_ms : ℕ
  pub cache_hit : Bool
  pub bytes_in : ℕ
  pub created_at : ℕ
  pub request_id : Option String

-- audit_logs
pub record AuditRow : Type 0 where
  pub actor : String
  pub action : String
  pub resource_type : String
  pub resource_id : String
  pub details : String
  pub ip_address : Option String
  pub user_agent : String
  pub created_at : ℕ

-- The rows of a table stand in the order in which a scan meets them.
pub record Database : Type 0 where
  pub tenants : List TenantRow
  pub api_keys : List KeyRow
  pub configs : List BlockchainConfig
  pub usage : List Usage
  pub blocks : List BlockRow
  pub request_logs : List RequestLogRow
  pub audit_logs : List AuditRow
