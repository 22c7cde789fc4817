-- ===== src/Model.antt =====
-- backend/shared/model: the structs that the components exchange. Times are in nanoseconds.
use chainmesh.Base.{ℕ, String, Bool, Option}
use chainmesh.Base.Int.{ℤ}
use chainmesh.Json.{Json}

-- tenant.go
pub record Tenant : Type 0 where
  pub id : String
  pub name : String
  pub quota_rpm : ℤ
  pub quota_rps : ℤ
  pub quota_daily : ℤ
  pub plan : String
  pub network_id : String
  pub created_at : ℕ

-- blockchain_config.go
pub record BlockchainConfig : Type 0 where
  pub id : String
  pub name : String
  pub rpc_endpoint_1 : String
  pub rpc_endpoint_2 : String
  pub chain_id : String
  pub enabled : Bool
  pub created_at : ℕ
  pub updated_at : ℕ

-- usage.go
pub record Usage : Type 0 where
  pub tenant_id : String
  pub method : String
  pub count : ℕ
  pub bytes_in : ℕ
  pub period : ℕ

-- request_log.go, without the two fields that the database fills in
pub record RequestLog : Type 0 where
  pub tenant_id : String
  pub network_id : String
  pub method : String
  pub status : String
  pub latency_ms : ℕ
  pub cache_hit : Bool
  pub bytes_in : ℕ
  pub request_id : String

-- block.go; `timestamp` is in Unix seconds, and `raw_json` is the JSON value, none for nil
pub record Block : Type 0 where
  pub number : ℤ
  pub hash : String
  pub parent_hash : String
  pub timestamp : ℤ
  pub tx_count : ℕ
  pub network_id : String
  pub network_name : String
  pub raw_json : Option Json

-- audit_log.go, without the number that the database fills in
pub record AuditLog : Type 0 where
  pub actor : String
  pub action : String
  pub resource_type : String
  pub resource_id : String
  pub details : String
  pub ip_address : String
  pub user_agent : String
  pub created_at : ℕ
