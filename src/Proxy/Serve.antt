-- ===== src/Proxy/Serve.antt =====
-- ServeHTTP and handleBatch of backend/gateway/proxy/proxy.go: one definition for each step between
-- two early returns.
use Prim.Native.String.{len}
use chainmesh.Base.{
  String, Bool, true, false, not, ◌||◌, Option, none, some, ◌==◌, ltb, if◌then◌else◌,
}
use chainmesh.Base.Dict.{lookup, insert}
use chainmesh.Model.{Tenant}
use chainmesh.Json.{Codec, RpcRequest, RpcResponse, unmarshal_request, unmarshal_response}
use chainmesh.Redis.Texts.{Texts}
use chainmesh.Client.{Client}
use chainmesh.Client.Routing.{SortSlice}
use chainmesh.Client.Calls.{Net, call, proxy_raw}
use chainmesh.Proxy.Text.{trim_space, is_batch}
use chainmesh.Proxy.Outcome.{record_outcome, fail}
use chainmesh.Proxy.{
  Request, Response, bytes, Label, write_json_error, invalid_request, network_unavailable,
  upstream_error, rpc_error, success, max_body_bytes, cache_policy, cache_key, cacheable,
  network_of, World,
}

module _ (texts : Texts) (codec : Codec) (sort : SortSlice) (net : Net) where
  -- if ttl, ok := cachePolicies[req.Method]; ok { p.cache.Set(...) }
  unfoldable pub saved : Request → String → RpcRequest → String → World texts → texts.State
  saved r network req resp w = elim (cache_policy req.method) [
    | none ↦ w.cache
    | some ttl ↦
        texts.set r.now (cache_key codec network req) (record { text = resp; life = ttl }) w.cache
  ]

  -- A success that did not come from the cache.
  unfoldable pub store_answer :
      Tenant → Request → String → RpcRequest → String → World texts → Response × World texts
  unfolding saved
  store_answer t r network req resp w = (
    record { status = 200; x_cache = some "MISS"; content = bytes resp },
    record_outcome texts t network req.method success false r (len r.body)
        (record w { cache = saved r network req resp w }),
  )

  -- An upstream node's bytes, passed on without the X-Cache header.
  unfoldable pub plain_answer :
      Tenant → Request → String → String → Label → String → World texts → Response × World texts
  plain_answer t r network method label resp w = (
    record { status = 200; x_cache = none; content = bytes resp },
    record_outcome texts t network method label false r (len r.body) w,
  )

  -- The answer of an upstream node: an RPC error is passed on and not cached.
  unfoldable pub answer_decoded :
      Tenant → Request → String → RpcRequest → String → Bool → World texts → Response × World texts
  answer_decoded t r network req resp true w = plain_answer t r network req.method rpc_error resp w
  answer_decoded t r network req resp false w = store_answer t r network req resp w

  -- err == nil && rpcResp.Error != nil
  unfoldable pub has_rpc_error : Option RpcResponse → Bool
  has_rpc_error none = false
  has_rpc_error (some x) = elim x.error [ none ↦ false | some e ↦ true ]

  unfoldable pub after_call :
      Tenant → Request → String → RpcRequest → Option String → World texts → Response × World texts
  after_call t r network req none w =
      fail texts t network req.method upstream_error r (len r.body) 502 "upstream unavailable" w
  after_call t r network req (some resp) w =
      answer_decoded t r network req resp (has_rpc_error (unmarshal_response codec resp)) w

  unfoldable pub upstream :
      Tenant → Request → String → RpcRequest → Client → World texts → Response × World texts
  upstream t r network req client w =
      let (client', resp) = call codec sort net r.request_id client req.method req.params in
      after_call t r network req resp (record w { clients = insert network client' w.clients })

  -- The answer from the cache.
  unfoldable pub hit_answer :
      Tenant → Request → String → RpcRequest → String → World texts → Response × World texts
  hit_answer t r network req cached w = (
    record { status = 200; x_cache = some "HIT"; content = bytes cached },
    record_outcome texts t network req.method success true r (len r.body) w,
  )

  -- cached != "" after a GET without error
  unfoldable pub after_get :
      Tenant
      → Request
      → String
      → RpcRequest
      → Client
      → Option String
      → World texts
      → Response × World texts
  after_get t r network req client none w = upstream t r network req client w
  after_get t r network req client (some cached) w =
      if cached == ""
      then upstream t r network req client w
      else hit_answer t r network req cached w

  unfoldable pub serve_rpc :
      Tenant → Request → String → RpcRequest → Client → World texts → Response × World texts
  serve_rpc t r network req client w =
      if cacheable req.method
      then after_get t r network req client (texts.get r.now (cache_key codec network req) w.cache)
          w
      else upstream t r network req client w

  -- bc, ok := p.manager.Get(networkID)
  unfoldable pub with_client :
      Tenant → Request → String → RpcRequest → Option Client → World texts → Response × World texts
  with_client t r network req none w =
      fail texts t network req.method network_unavailable r (len r.body) 503
        "blockchain network unavailable" w
  with_client t r network req (some client) w = serve_rpc t r network req client w

  unfoldable pub with_network :
      Tenant → Request → RpcRequest → Option String → World texts → Response × World texts
  with_network t r req none w =
      fail texts t "" req.method network_unavailable r (len r.body) 503
        "no blockchain network configured" w
  with_network t r req (some network) w = with_client t r network req (lookup network w.clients) w

  unfoldable pub single :
      Tenant → Request → Option RpcRequest → World texts → Response × World texts
  single t r none w = fail texts t "" "" invalid_request r (len r.body) 400 "invalid json" w
  single t r (some req) w =
      let method = trim_space req.method in
      if not (req.jsonrpc == "2.0") || method == ""
      then fail texts t "" "" invalid_request r (len r.body) 400 "invalid json-rpc request" w
      else with_network t r (record req { method = method }) (network_of t r.default_config) w

  -- handleBatch
  unfoldable pub batch_answer :
      Tenant → Request → String → Option String → World texts → Response × World texts
  batch_answer t r network none w =
      fail texts t network "" upstream_error r (len r.body) 502 "upstream unavailable" w
  batch_answer t r network (some resp) w = plain_answer t r network "" success resp w

  unfoldable pub batch_client :
      Tenant → Request → String → Option Client → World texts → Response × World texts
  batch_client t r network none w =
      fail texts t network "" network_unavailable r (len r.body) 503
        "blockchain network unavailable" w
  batch_client t r network (some client) w =
      let (client', resp) = proxy_raw sort net r.request_id client r.body in
      batch_answer t r network resp (record w { clients = insert network client' w.clients })

  unfoldable pub batch_network :
      Tenant → Request → Option String → World texts → Response × World texts
  batch_network t r none w =
      fail texts t "" "" network_unavailable r (len r.body) 503 "no blockchain network configured" w
  batch_network t r (some network) w = batch_client t r network (lookup network w.clients) w

  unfoldable pub handle_batch : Tenant → Request → World texts → Response × World texts
  handle_batch t r w = batch_network t r (network_of t r.default_config) w

  -- http.MaxBytesReader fails on more than the limit
  unfoldable pub body_error : Request → Bool
  body_error r = r.read_fails || ltb max_body_bytes (len r.body)

  unfoldable pub serve_tenant : Request → Option Tenant → World texts → Response × World texts
  serve_tenant r none w = (write_json_error 401 "unauthorized", w)
  serve_tenant r (some t) w =
      if body_error r
      then fail texts t "" "" invalid_request r 0 413 "request body too large" w
      else if is_batch r.body
      then handle_batch t r w
      else single t r (unmarshal_request codec r.body) w

  -- Proxy.ServeHTTP
  unfoldable pub serve_http : Request → World texts → Response × World texts
  serve_http r w = serve_tenant r r.tenant w
