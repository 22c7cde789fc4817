-- ===== src/Examples/Gateway.antt =====
-- Two calls at the gateway, one without a key.
use chainmesh.Base.{String, false, none, some, List, [], ◌∷◌}
use chainmesh.Redis.{delivered}
use chainmesh.Redis.Instance.{dict_counters}
use chainmesh.Redis.Texts.{dict_texts}
use chainmesh.Auth.{new_tenant_cache}
use chainmesh.Gateway.{Call, State}
use chainmesh.Examples.Admins.{random}
use chainmesh.Examples.Serving.{world}

abbrev call : String → Call
call authorization = record {
  x_request_id = "";
  random = random;
  arrival = record { authorization = authorization; now = 9; resolved = 9; stored = 9 };
  limit_now = 1000000001;
  limit_at = λ l. 1000000001;
  limit_delivery = λ l. delivered;
  limit_until = 1000000001;
  body = "request";
  read_fails = false;
  default_config = none;
  start = 0;
  now = 7000000;
}

abbrev calls : List Call
calls = call "Bearer k" ∷ call "" ∷ []

abbrev state : State dict_texts dict_counters
state = record {
  tenants = some (new_tenant_cache 50);
  counters = [];
  limit_metrics = [];
  world = world;
}
