-- ===== src/Admin.antt =====
-- backend/admin/main.go: the handlers behind newAdminMux. A request is one of the routes, with what
-- encoding/json, net/http and time.Parse have read of it; an answer is a status and the value that is
-- encoded. The headers and the log lines are left out.
pub mod Endpoint
pub mod Guard
use chainmesh.Base.{
  ℕ, ◌-◌, ◌*◌, String, Bool, true, false, not, ◌||◌, Option, none, some, List, [], ◌∷◌, ◌==◌,
  if◌then◌else◌,
}
use chainmesh.Base.Int.{ℤ, pos, is_pos}
use chainmesh.Base.Order.{OrderBy}
use chainmesh.Clock.{minute}
use chainmesh.ApiKey.{Random, generate_api_key}
use chainmesh.Model.{Tenant, BlockchainConfig, Usage, Block, AuditLog}
use chainmesh.Redis.{Delivery}
use chainmesh.Store.{Database}
use chainmesh.Store.Statements.{Reading}
use chainmesh.Store.Keys.{Bcrypt, get_tenant_by_id, list_tenants}
use chainmesh.Store.Tenants.{
  TenantData, Making, create_tenant_with_key, rotate_api_key, delete_tenant,
}
use chainmesh.Store.Records.{get_daily_usage}
use chainmesh.Store.Blocks.{list_blocks}
use chainmesh.Store.Networks
use chainmesh.Store.Networks.{
  list_blockchain_configs, get_blockchain_config, save_blockchain_config, delete_blockchain_config,
}
use chainmesh.Store.Audit.{record_audit_log, list_audit_logs}
use chainmesh.Stats.Groups.{Entry}
use chainmesh.Stats.{Group, Queries, StatsSummary, get_stats_summary}
use chainmesh.Admin.Endpoint.{Resolver, validate_rpc_endpoint}

-- What a query parameter holds: nothing, a value, or a text that is none.
pub data Param (A : Type 0) : Type 0 where
  missing invalid : Param A
  given : A → Param A

-- The routes; a body is none if it cannot be decoded.
pub data Route : Type 0 where
  health : Route
  tenants : Route
  create_tenant : Option TenantData → Route
  tenant put_tenant delete_tenant_by_id rotate_key : (id : String) → Route
  tenant_usage : (id : String) → Param ℕ → Route
  networks : Route
  create_network : Option BlockchainConfig → Route
  network put_network delete_network : (id : String) → Route
  stats : (range : String) → Route
  blocks : Route
  audit_logs : Param ℤ → Route

pub record AdminRequest : Type 0 where
  pub secret : String
  pub route : Route

pub data Body : Type 0 where
  error : String → Body
  status_ok updated deleted : Body
  tenant_list : List Tenant → Body
  one_tenant : Tenant → Body
  new_tenant : Tenant → (api_key : String) → Body
  new_key : String → Body
  usage_list : List Usage → Body
  network_list : List BlockchainConfig → Body
  one_network : BlockchainConfig → Body
  summary : StatsSummary → Body
  block_list : List Block → Body
  audit_list : List AuditLog → Body

pub record Answer : Type 0 where
  pub status : ℕ
  pub body : Body

-- What the handling of one request meets: the clock, the bytes of the
-- generated key, and the fates of its statements.
pub record World : Type 1 where
  pub order : OrderBy
  pub bcrypt : Bcrypt
  pub resolver : Resolver
  pub now : ℕ
  pub random : Random
  pub making : Making
  pub reading : Reading
  pub trip : Delivery
  pub audit_trip : Delivery
  pub network_id : String
  pub deletion : Networks.Trips
  pub view_queries : Queries
  pub raw_queries : Queries
  pub view : Option (List (Entry Group))

-- util.GenerateAPIKey
abbrev pub generated_key : World → String
generated_key w = generate_api_key w.random

abbrev pub internal : Answer
internal = record { status = 500; body = error "internal" }

abbrev pub not_found : Answer
not_found = record { status = 404; body = error "not found" }

abbrev pub bad_request : String → Answer
bad_request message = record { status = 400; body = error message }

abbrev pub ok : Body → Answer
ok body = record { status = 200; body = body }

abbrev pub created : Body → Answer
created body = record { status = 201; body = body }

-- err != nil is answered by `failure`.
abbrev pub answer_or : {A : Type 0} → Answer → (A → Body) → Option A → Answer
answer_or failure body none = failure
answer_or failure body (some a) = ok (body a)

abbrev pub creation_log : World → Tenant → AuditLog
creation_log w t = record {
  actor = "admin";
  action = "CREATE_TENANT";
  resource_type = "tenant";
  resource_id = t.id;
  details = "{}";
  ip_address = "";
  user_agent = "";
  created_at = w.now;
}

abbrev pub after_creation : World → Option Tenant → Database → Answer × Database
after_creation w none db = (internal, db)
after_creation w (some t) db = (
  created (new_tenant t (generated_key w)),
  (record_audit_log w.audit_trip (creation_log w t) db).1,
)

-- POST /tenants
unfoldable pub post_tenant : World → Option TenantData → Database → Answer × Database
post_tenant w none db = (bad_request "name is required", db)
post_tenant w (some d) db =
    if d.name == ""
    then (bad_request "name is required", db)
    else let (t, db') = create_tenant_with_key w.bcrypt w.making d (generated_key w) db in
      after_creation w t db'

-- POST /tenants/{id}/rotate-key
unfoldable pub post_rotate_key : World → String → Database → Answer × Database
post_rotate_key w id db =
    let (done, db') = rotate_api_key w.bcrypt w.making id (generated_key w) db in
    (if done then ok (new_key (generated_key w)) else internal, db')

-- GET /tenants/{id}/usage
abbrev get_usage : World → String → Param ℕ → Database → Answer
get_usage w id missing db = answer_or internal usage_list (get_daily_usage w.reading id w.now db)
get_usage w id invalid db = bad_request "invalid date format"
get_usage w id (given day) db = answer_or internal usage_list (get_daily_usage w.reading id day db)

abbrev pub after_saving : Option BlockchainConfig × Database → Answer × Database
after_saving (none, db) = (internal, db)
after_saving (some c, db) = (created (one_network c), db)

-- POST /blockchain
unfoldable pub post_network : World → Option BlockchainConfig → Database → Answer × Database
post_network w none db = (bad_request "missing required fields", db)
post_network w (some cfg) db =
    if cfg.name == "" || cfg.rpc_endpoint_1 == ""
    then (bad_request "missing required fields", db)
    else if not (validate_rpc_endpoint w.resolver cfg.rpc_endpoint_1)
    then (bad_request "invalid rpc_endpoint_1", db)
    else if not (cfg.rpc_endpoint_2 == "" || validate_rpc_endpoint w.resolver cfg.rpc_endpoint_2)
    then (bad_request "invalid rpc_endpoint_2", db)
    else after_saving (save_blockchain_config w.trip w.network_id w.now cfg db)

deleted_or : Bool × Database → Answer × Database
deleted_or (done, db) = (if done then ok deleted else internal, db)

-- The range of a summary and the minutes that it goes back.
abbrev range_of : String → String × ℕ
range_of range =
    if range == "15m" then ("15m", 15) else if range == "24h" then ("24h", 1440) else ("1h", 60)

-- GET /stats/summary
unfoldable pub get_summary : World → String → Database → Answer
get_summary w range db =
    let (name, minutes) = range_of range in
    answer_or internal summary (
      get_stats_summary w.order w.view_queries w.raw_queries w.now (w.now - minutes * minute) name
        db.configs w.view db.request_logs)

-- The limit of GET /audit-logs
abbrev audit_limit : Param ℤ → ℤ
audit_limit missing = pos 50
audit_limit invalid = pos 50
audit_limit (given n) = if is_pos n then n else pos 50

-- The handlers behind the secret.
unfoldable pub handle : World → Route → Database → Answer × Database
unfolding deleted_or
handle w health db = (ok status_ok, db)
handle w tenants db = (answer_or internal tenant_list (list_tenants w.order w.reading db), db)
handle w (create_tenant d) db = post_tenant w d db
handle w (tenant id) db = (answer_or not_found one_tenant (get_tenant_by_id w.trip id db), db)
handle w (put_tenant id) db = (ok updated, db)
handle w (delete_tenant_by_id id) db = deleted_or (delete_tenant w.trip id db)
handle w (rotate_key id) db = post_rotate_key w id db
handle w (tenant_usage id day) db = (get_usage w id day db, db)
handle w networks db =
    (answer_or internal network_list (list_blockchain_configs w.order w.reading db), db)
handle w (create_network cfg) db = post_network w cfg db
handle w (network id) db =
    (answer_or not_found one_network (get_blockchain_config w.trip id db), db)
handle w (put_network id) db = (ok updated, db)
handle w (delete_network id) db = deleted_or (delete_blockchain_config w.deletion id db)
handle w (stats range) db = (get_summary w range db, db)
handle w blocks db = (answer_or internal block_list (list_blocks w.order w.reading 50 db), db)
handle w (audit_logs limit) db = (
  answer_or internal audit_list (list_audit_logs w.order w.reading (audit_limit limit) (pos 0) db),
  db,
)

-- The routes without the middleware.
abbrev pub is_open : Route → Bool
is_open health = true
is_open blocks = true
is_open _ = false

-- newAdminMux, with the secret that the process was started with
unfoldable pub serve : String → World → AdminRequest → Database → Answer × Database
serve secret w req db =
    if is_open req.route || req.secret == secret
    then handle w req.route db
    else (record { status = 403; body = error "forbidden" }, db)
