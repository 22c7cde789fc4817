-- ===== src/Examples/Accounts.antt =====
-- A database with one tenant and its key, with a hash that is the key itself.
use chainmesh.Base.{◌≡◌, ◌≢◌, refl, Bool, true, none, some, [], ◌∷◌, ◌==◌, eq_iff, if◌then◌else◌}
use mathlib.Core.Bool.{false≢true}
use chainmesh.Base.Int.{pos}
use chainmesh.Redis.{delivered}
use chainmesh.Store.{Database, TenantRow, KeyRow}
use chainmesh.Store.Statements.{exec, query_row, query, in_transaction, commit}
use chainmesh.Store.Keys.{
  Bcrypt, api_key_prefix, scan_tenant, first_match, get_tenant_by_api_key, get_tenant_by_id,
}
use chainmesh.Store.Keys.Resolve.{IsAuthorized, undisturbed, get_tenant_by_api_key-IsAuthorized}
use chainmesh.Store.Tenants.{
  TenantData, Making, tenant_row, key_row, create_tenant_with_key, rotate_api_key,
}
use chainmesh.Store.Tenants.Atomic.{Ends, with_tenant, create_tenant_with_key-Ends}
use chainmesh.Store.Tenants.Rotation.{IsUnused}

abbrev pub bcrypt : Bcrypt
bcrypt = record {
  generate = λ salt key. key;
  compare = λ hash key. hash == key;
  compare_generate = λ salt key h. (eq_iff key key).1 refl;
}

abbrev pub owner : TenantRow
owner = record {
  id = "t1";
  name = "first";
  network_id = none;
  quota_rpm = pos 60;
  quota_rps = pos 2;
  quota_daily = pos 0;
  plan = "free";
  created_at = 3;
}

abbrev pub old_key : KeyRow
old_key = record {
  id = "k1";
  tenant_id = "t1";
  name = "default";
  key_hash = "bm_live_0001";
  key_prefix = "bm_live_0001";
  revoked_at = none;
  last_used_at = none;
  created_at = 3;
}

abbrev pub db : Database
db = record {
  tenants = owner ∷ [];
  api_keys = old_key ∷ [];
  configs = [];
  usage = [];
  blocks = [];
  request_logs = [];
  audit_logs = [];
}

abbrev pub making : Making
making = record {
  tenant_id = "t2";
  key_id = "k2";
  salt = "";
  now = 7;
  beginning = delivered;
  first = delivered;
  second = delivered;
  committing = delivered;
}

abbrev pub data_of : TenantData
data_of = record {
  name = "second";
  network_id = "";
  quota_rpm = pos 10;
  quota_rps = pos 1;
  quota_daily = pos 0;
  plan = "";
}

found :
    (get_tenant_by_api_key bcrypt (undisturbed 9) "bm_live_0001" db).0 ≡ some (scan_tenant owner)
unfolding get_tenant_by_api_key api_key_prefix query first_match exec get_tenant_by_id query_row
    scan_tenant
found = refl

get_tenant_by_api_key-IsAuthorized_example :
    IsAuthorized bcrypt "bm_live_0001" db (scan_tenant owner)
get_tenant_by_api_key-IsAuthorized_example =
    get_tenant_by_api_key-IsAuthorized bcrypt (undisturbed 9) "bm_live_0001" db (scan_tenant owner)
      found

pub unused : IsUnused bcrypt "bm_live_0002" db.api_keys
unfolding first_match api_key_prefix
unused = refl

pub named : making.tenant_id ≢ ""
named e = false≢true ((eq_iff "t2" "").1 e)

create_tenant_with_key-Ends_example :
    (ok : Bool) × ((create_tenant_with_key bcrypt making data_of "bm_live_0002" db).0
      ≡ (if ok then some (scan_tenant (tenant_row data_of making)) else none))
    × Ends db
        (with_tenant
          (tenant_row data_of making)
          (key_row bcrypt "k2" "t2" "default" "" "bm_live_0002" 7)
          db)
        delivered
        (ok, (create_tenant_with_key bcrypt making data_of "bm_live_0002" db).1)
create_tenant_with_key-Ends_example =
    create_tenant_with_key-Ends bcrypt making data_of "bm_live_0002" db

pub rotated : (rotate_api_key bcrypt making "t1" "bm_live_0002" db).0 ≡ true
unfolding rotate_api_key in_transaction commit key_row
rotated = refl

named_first : owner.id ≢ ""
named_first e = false≢true ((eq_iff "t1" "").1 e)
