-- ===== src/System/Services.antt =====
-- What the services do to the database they share: each activity of one is a sequence of calls of the stores.
use chainmesh.Base.{
  ℕ, zero, suc, ◌≡◌, refl, sym, ap, ◌∙◌, Bool, true, false, not, ◌||◌, String, Option, none, some,
  List, [], ◌∷◌, ◌++◌, ◌==◌, eqb, if◌then◌else◌,
}
use chainmesh.Model.{Usage, RequestLog, Block, BlockchainConfig}
use chainmesh.Json.{Codec}
use chainmesh.Redis.{Delivery}
use chainmesh.Client.{Client}
use chainmesh.Client.Routing.{SortSlice}
use chainmesh.Proxy.{usage, request_log}
use chainmesh.Store.{Database}
use chainmesh.Store.Keys.{Bcrypt, Lookup, get_tenant_by_api_key}
use chainmesh.Store.Tenants.{TenantData, create_tenant_with_key}
use chainmesh.Store.Records.{write, record_usage}
use chainmesh.Store.Records.Retries.{write_attempts, process_usage}
use chainmesh.Store.Blocks.Kept.{store_all}
use chainmesh.Store.Networks.{get_default_blockchain_config, save_blockchain_config}
use chainmesh.Telemetry.{wrote, gave_up, abandoned, max_attempts}
use chainmesh.Ingestor.{Tick, run}
use chainmesh.Ingestor.Stored.{run-store_all}
use chainmesh.Admin
use chainmesh.Admin.Endpoint.{validate_rpc_endpoint}
use chainmesh.Admin.{
  bad_request, after_saving, World, Route, AdminRequest, generated_key, creation_log,
  after_creation, post_tenant, post_rotate_key, post_network, handle, is_open, serve,
}
use chainmesh.Gateway.Startup.{Env, Seeding, seed_config, save_default, seed_default_config}
use chainmesh.Gateway.Startup.Default.{ended}
use chainmesh.System.{
  Operation, looks_up, writes, stores, creates, rotates, deletes_tenant, saves_network,
  deletes_network, audits, apply, apply_all,
}

-- An activity of the gateway, the admin service or the ingestor: the seeding when the gateway starts, the
-- lookup of a key, the writing of a usage record or of a request log by the recorder, a request to
-- the admin service, and a run of the ingestor for a network.
pub data Activity : Type 1 where
  seeds : Env → Seeding → Activity
  resolves : Lookup → (key : String) → Activity
  records : (trips : ℕ → Delivery) → (done : ℕ → Bool) → Usage → Activity
  logs : Delivery → ℕ → RequestLog → Activity
  administers : (secret : String) → World → AdminRequest → Activity
  ingests :
      Codec
      → SortSlice
      → (network_id : String) → List (Tick × (Client → Client))
      → Client
      → Activity

module _ (bcrypt : Bcrypt) where
  -- What an activity leaves of a database.
  unfoldable pub act : Activity → Database → Database
  act (seeds env s) db = (seed_default_config env s db).1
  act (resolves trips key) db = (get_tenant_by_api_key bcrypt trips key db).1
  act (records trips done u) db = (process_usage trips done u db).1
  act (logs trip now l) db = (write trip now (request_log l) db).1
  act (administers secret w req) db = (serve secret (record w { bcrypt = bcrypt }) req db).1
  act (ingests codec sort id ticks c) db = (run codec sort id ticks c db).1

  unfoldable pub act_all : List Activity → Database → Database
  act_all [] db = db
  act_all (a ∷ rest) db = act_all rest (act a db)

  -- A database that calls of the stores lead to.
  abbrev pub Called : Database → Database → Type 0
  Called db db' = (ops : List Operation) × (db' ≡ apply_all bcrypt ops db)

  Called-none : (db : Database) → Called db db
  unfolding apply_all
  Called-none db = ([], refl)

  Called-one : (op : Operation) (db : Database) → Called db (apply bcrypt op db)
  unfolding apply_all
  Called-one op db = (op ∷ [], refl)

  apply_all-append :
      (xs ys : List Operation) (db : Database)
      → apply_all bcrypt (xs ++ ys) db ≡ apply_all bcrypt ys (apply_all bcrypt xs db)
  unfolding apply_all
  apply_all-append [] ys db = refl
  apply_all-append (x ∷ xs) ys db = apply_all-append xs ys (apply bcrypt x db)

  Called-trans : (a b c : Database) → Called a b → Called b c → Called a c
  Called-trans a b c (xs, e) (ys, e') =
      (xs ++ ys, e' ∙ (ap (apply_all bcrypt ys) e ∙ sym (apply_all-append xs ys a)))

  Called-if :
      {A : Type 0} (test : Bool) (a : Database) (x y : A × Database)
      → Called a x.1
      → Called a y.1
      → Called a (if test then x else y).1
  Called-if true a x y h k = h
  Called-if false a x y h k = k

  post_tenant-Called :
      (w : World) (d : TenantData) (db : Database)
      → Called db (post_tenant (record w { bcrypt = bcrypt }) (some d) db).1
  unfolding post_tenant apply
  post_tenant-Called w d db = Called-if (d.name == "") db _ _ (Called-none db) (
      Called-trans db _ _ (Called-one (creates w.making d (generated_key w)) db)
        (audited (create_tenant_with_key bcrypt w.making d (generated_key w) db).0 _))
    where
      audited :
          (o : Option _) (db' : Database)
          → Called db' (after_creation (record w { bcrypt = bcrypt }) o db').1
      audited none db' = Called-none db'
      audited (some t) db' = Called-one (audits w.audit_trip (creation_log w t)) db'

  post_rotate_key-Called :
      (w : World) (id : String) (db : Database)
      → Called db (post_rotate_key (record w { bcrypt = bcrypt }) id db).1
  unfolding post_rotate_key apply
  post_rotate_key-Called w id db = Called-one (rotates w.making id (generated_key w)) db

  post_network-Called :
      (w : World) (cfg : BlockchainConfig) (db : Database)
      → Called db (post_network w (some cfg) db).1
  unfolding post_network apply
  post_network-Called w cfg db =
      let bad_one = not (validate_rpc_endpoint w.resolver cfg.rpc_endpoint_1) in
      let bad_two =
        not (cfg.rpc_endpoint_2 == "" || validate_rpc_endpoint w.resolver cfg.rpc_endpoint_2) in
      let end_ = after_saving (save_blockchain_config w.trip w.network_id w.now cfg db) in
      let two = if bad_two then (bad_request "invalid rpc_endpoint_2", db) else end_ in
      let one = if bad_one then (bad_request "invalid rpc_endpoint_1", db) else two in
      Called-if (cfg.name == "" || cfg.rpc_endpoint_1 == "") db
        (bad_request "missing required fields", db) one (Called-none db)
        (Called-if bad_one db (bad_request "invalid rpc_endpoint_1", db) two (Called-none db)
          (Called-if bad_two db (bad_request "invalid rpc_endpoint_2", db) end_ (Called-none db)
            (saved (save_blockchain_config w.trip w.network_id w.now cfg db)
              (Called-one (saves_network w.trip w.network_id w.now cfg) db))))
    where
      saved :
          (p : Option BlockchainConfig × Database) → Called db p.1 → Called db (after_saving p).1
      saved (none, db') h = h
      saved (some c, db') h = h

  handle-Called :
      (w : World) (r : Route) (db : Database)
      → Called db (handle (record w { bcrypt = bcrypt }) r db).1
  unfolding handle apply post_tenant post_network
  handle-Called w (Admin.create_tenant none) db = Called-none db
  handle-Called w (Admin.create_tenant (some d)) db = post_tenant-Called w d db
  handle-Called w (Admin.delete_tenant_by_id id) db = Called-one (deletes_tenant w.trip id) db
  handle-Called w (Admin.rotate_key id) db = post_rotate_key-Called w id db
  handle-Called w (Admin.create_network none) db = Called-none db
  handle-Called w (Admin.create_network (some cfg)) db =
      post_network-Called (record w { bcrypt = bcrypt }) cfg db
  handle-Called w (Admin.delete_network id) db = Called-one (deletes_network w.deletion id) db
  handle-Called w Admin.health db = Called-none db
  handle-Called w Admin.tenants db = Called-none db
  handle-Called w (Admin.tenant id) db = Called-none db
  handle-Called w (Admin.put_tenant id) db = Called-none db
  handle-Called w (Admin.tenant_usage id day) db = Called-none db
  handle-Called w Admin.networks db = Called-none db
  handle-Called w (Admin.network id) db = Called-none db
  handle-Called w (Admin.put_network id) db = Called-none db
  handle-Called w (Admin.stats range) db = Called-none db
  handle-Called w Admin.blocks db = Called-none db
  handle-Called w (Admin.audit_logs limit) db = Called-none db

  save_default-Called :
      (env : Env) (s : Seeding) (db : Database) → Called db (save_default env s db).1
  unfolding save_default apply
  save_default-Called env s db =
      Called-if (env "RPC_ENDPOINT_1" == "") db _ _ (Called-none db)
        (Called-one (saves_network s.saving s.network_id s.now (seed_config env)) db)

  seed-Called :
      (env : Env) (s : Seeding) (db : Database) (o : Option BlockchainConfig)
      → Called db (ended env s db o).1
  seed-Called env s db (some cfg) = Called-none db
  seed-Called env s db none = save_default-Called env s db

  write_attempts-Called :
      (trips : ℕ → Delivery) (done : ℕ → Bool) (left i : ℕ) (u : Usage) (db : Database)
      → Called db (write_attempts trips done left i u db).1
  unfolding write_attempts apply write
  write_attempts-Called trips done zero i u db = Called-none db
  write_attempts-Called trips done (suc left) i u db =
      let first = Called-one (writes (trips i) 0 (usage u)) db in
      let (ok, db') = record_usage (trips i) u db in
      let rest = write_attempts trips done left (suc i) u db' in
      Called-if ok db (wrote, db') _ first
        (Called-if (eqb left 0) db (gave_up, db') _ first
          (Called-if (done i) db (abandoned, db') rest first
            (Called-trans db db' _ first (write_attempts-Called trips done left (suc i) u db'))))

  store_all-Called : (bs : List (Delivery × Block)) (db : Database) → Called db (store_all bs db)
  unfolding store_all apply
  store_all-Called [] db = Called-none db
  store_all-Called ((trip, b) ∷ bs) db =
      Called-trans db _ _ (Called-one (stores trip b) db) (store_all-Called bs _)

  act-Called : (a : Activity) (db : Database) → Called db (act a db)
  unfolding act apply seed_default_config process_usage serve
  act-Called (seeds env s) db =
      seed-Called env s db (get_default_blockchain_config s.order s.getting db)
  act-Called (resolves trips key) db = Called-one (looks_up trips key) db
  act-Called (records trips done u) db = write_attempts-Called trips done max_attempts 1 u db
  act-Called (logs trip now l) db = Called-one (writes trip now (request_log l)) db
  act-Called (administers secret w req) db =
      Called-if (is_open req.route || req.secret == secret) db _ _ (handle-Called w req.route db)
        (Called-none db)
  act-Called (ingests codec sort id ticks c) db =
      let (bs, e, own) = run-store_all codec sort id ticks c db in
      let (ops, e') = store_all-Called bs db in (ops, e ∙ e')

  -- Whatever the gateways, the admin service and the ingestors do with the database, one activity after another,
  -- leaves it as a sequence of calls of the stores does.
  pub act_all-Called : (acts : List Activity) (db : Database) → Called db (act_all acts db)
  unfolding act_all
  act_all-Called [] db = Called-none db
  act_all-Called (a ∷ rest) db =
      Called-trans db _ _ (act-Called a db) (act_all-Called rest (act a db))
