-- ===== src/Lib.antt =====
-- ChainMesh: a multi-tenant gateway for blockchain JSON-RPC nodes (backend/, in Go).
--
-- A request passes the middleware, where its bearer key becomes a tenant
-- (backend/gateway/middleware) and its limits are checked in Redis (backend/shared/storage/redis),
-- and then the proxy (backend/gateway/proxy), which answers from the response cache or calls an
-- upstream node through the client of the tenant's network (backend/shared/blockchain). The manager
-- (backend/gateway) keeps one client for each enabled network. What the proxy records goes to the
-- telemetry queue (backend/shared/telemetry), whose worker writes it to the database.
--
-- Base has what the modules share: tests, lists and maps over the native numbers, 64-bit counters,
-- and the printing of numbers. Clock has Go's time in UTC, as nanoseconds since 1970. Model has the
-- structs of backend/shared/model.
--
-- Json has JSON values and the decoding of RPCRequest and RPCResponse (types.go) by the rules of
-- encoding/json. The text syntax is a parameter, a Codec.
--
-- Client models client.go: the state and the critical sections under healthMu (markSuccess,
-- markFailure) in Client, runHealthCheck in Client.Probe, endpointsForCall in Client.Routing, Call
-- and ProxyRaw in Client.Calls. Each critical section is one step, so that a history is a list of
-- sections. sort.Slice is a parameter with its documented behaviour, and so are the nodes, a
-- function from the request and its number to what comes back. The counters wrap at 64 bits.
--
-- Redis has the interfaces of the server that the gateway relies on: counters with INCR and EXPIRE,
-- and texts with GET and SET, each with laws of its documented behaviour and a map that has them. A
-- round trip may fail before or after the server ran the script.
--
-- RateLimit models CheckRateLimits and its script (redis.go), RateLimit.Legacy the older
-- CheckRateLimit, Auth the bearer middleware and its tenant cache (auth.go), Proxy the handler
-- (ServeHTTP, handleBatch, recordOutcome in proxy.go; the handler's steps are in Proxy.Serve, one
-- definition for each step between two early returns), Gateway the chain of RequestID, Auth and
-- RateLimit in front of it (requestid.go, ratelimit.go, main.go), Manager the reload of the
-- networks (manager.go), Telemetry the recorder (recorder.go) as a step relation on its queue, its
-- worker and its counters; the look of enqueue at the context and its send may be apart.
-- Gateway.Startup has what main.go does with the database before it serves, with seedDefaultConfig,
-- and Gateway.Nodes the handler of /health/nodes. ApiKey has the generated keys and request IDs
-- (apikey.go in backend/shared/util), with the random bytes as a parameter, and Metrics the vectors
-- of backend/shared/metrics and the calls of them, with the Prometheus library as a parameter.
--
-- Store has the tables that backend/database/migrations leave behind, and the operations of
-- backend/shared/storage/postgres on them: the keys of tenants in Store.Keys and Store.Tenants
-- (tenant_store.go), usage and request logs in Store.Records (usage_store.go,
-- request_log_store.go), blocks in Store.Blocks, networks in Store.Networks
-- (blockchain_config_store.go) and audit logs in Store.Audit; Store.Connect has the retry loop of
-- New (db.go). A statement is a partial function on the database, with its keys and foreign keys; a
-- statement, a query and a transaction may be lost at each round trip (Store.Statements). The order
-- of a query is an interface with laws (Base.Order), and bcrypt is one (Store.Keys).
-- Store.Records.Retries has the recorder's worker with the database that it writes to.
--
-- Stats models the counts of stats_store.go, from the table and from the view of migration 009,
-- which refresher.go (backend/shared/statsrollup) refreshes. Ingestor models
-- backend/ingestor/main.go, with strconv.ParseInt of Go in Ingestor.ParseInt. Admin models the
-- routes of backend/admin/main.go, and Admin.Endpoint the check of endpoints
-- (backend/shared/util/ssrf.go).
--
-- System puts the services together on the database that they share. An Operation is a call of a
-- store that writes, with the fate of its round trips; System.Services has the activities of the
-- gateway, the admin service and the ingestor, System.Revocation what all operations keep of the
-- keys, System.Rotation, System.Rejection and System.Issue a key from its creation to its end, from
-- the admin service's answer to the gateway's middleware, and System.Networks the networks with the
-- manager that reads them.
--
-- Loops are structural recursions over lists, or over the attempts left, so no fuel is needed.
--
-- Not modelled: the log lines; the process set-up of the three services (servers, signals, TLS),
-- the configuration of the database's pool, the connection to Redis; the latencies in the
-- statistics, which are floating-point numbers; the transport of HTTP and the JSON text of the
-- admin service's bodies; the panic that follows when an endpoint is no URL, so that no request can
-- be made for it; the commands that the Redis client repeats by itself after a network error. A
-- body is a text in UTF-8. The order in which Go ranges over a map is one order. The handler of a
-- summary and GetStatsSummary read one clock. Times before 1970 do not occur, and the time zone is
-- UTC.
pub mod Base
pub mod Json
pub mod Client
pub mod Redis
pub mod Clock
pub mod RateLimit
pub mod Model
pub mod Auth
pub mod Proxy
pub mod Manager
pub mod Gateway
pub mod Telemetry
pub mod Store
pub mod Stats
pub mod Ingestor
pub mod Admin
pub mod System
pub mod ApiKey
pub mod Metrics
pub mod Examples
