-- ===== src/Proxy/Cases.antt =====
-- One rule for ServeHTTP: what holds of the outcome of a tenant's request, from what holds at each
-- place where it answers.
use chainmesh.Base.{
  ◌≤◌, ◌<◌, ◌≢◌, arith, eq_iff, ℕ, ◌≡◌, refl, sym, String, true, false, not, ◌||◌, Option, none,
  some, ◌==◌, inl, inr, ◌⊎◌, Bool-cases, Option-cases,
}
use Prim.Native.String.{len}
use mathlib.Core.Path.{subst}
use chainmesh.Base.Dict.{lookup, insert}
use chainmesh.Model.{Tenant}
use chainmesh.Json.{Codec, RpcRequest, unmarshal_request, unmarshal_response}
use chainmesh.Redis.Texts.{Texts}
use chainmesh.Client.{Client}
use chainmesh.Client.Routing.{SortSlice}
use chainmesh.Client.Calls.{Net, call, proxy_raw}
use chainmesh.Proxy.{
  Request, Response, Label, invalid_request, network_unavailable, upstream_error, rpc_error,
  success, max_body_bytes, cache_key, cacheable, network_of, World,
}
use chainmesh.Proxy.Entry.{Entry, IsRpc, IsAt, network_of-IsAt, network_of-none}
use chainmesh.Proxy.Text.{trim_space, is_batch}
use chainmesh.Proxy.Outcome.{fail}
use chainmesh.Proxy.Serve.{
  hit_answer, plain_answer, store_answer, answer_decoded, has_rpc_error, after_call, upstream,
  after_get, serve_rpc, with_client, with_network, single, batch_answer, batch_client,
  batch_network, handle_batch, body_error, serve_tenant, serve_http,
}

-- The HTTP status that goes with a label.
abbrev pub Fits : Label → ℕ → Type 0
Fits invalid_request status = (status ≡ 400) ⊎ (status ≡ 413)
Fits network_unavailable status = status ≡ 503
Fits upstream_error status = status ≡ 502
Fits rpc_error status = status ≡ 200
Fits success status = status ≡ 200

-- Nothing but the clients has changed.
pub record OnlyClients {texts : Texts} (w w' : World texts) : Type 0 where
  pub cache : w'.cache ≡ w.cache
  pub recorded : w'.recorded ≡ w.recorded
  pub metrics : w'.metrics ≡ w.metrics

module _ (texts : Texts) (codec : Codec) (sort : SortSlice) (net : Net) (t : Tenant) (r : Request)
    (w : World texts) where
  unread_body :
      body_error texts codec sort net r ≡ true
      → (r.read_fails ≡ true) ⊎ (max_body_bytes < len r.body)
  unfolding body_error
  unread_body h = ground arith

  read_body :
      body_error texts codec sort net r ≡ false
      → (r.read_fails ≡ false) × (len r.body ≤ max_body_bytes)
  unfolding body_error
  read_body h = ground arith

  refused_request :
      (req : RpcRequest)
      → (not (req.jsonrpc == "2.0") || trim_space req.method == "") ≡ true
      → (req.jsonrpc ≢ "2.0") ⊎ (trim_space req.method ≡ "")
  refused_request req h =
      ground (arith, eq_iff req.jsonrpc "2.0", eq_iff (trim_space req.method) "")

  accepted_request :
      (req : RpcRequest)
      → (not (req.jsonrpc == "2.0") || trim_space req.method == "") ≡ false
      → (req.jsonrpc ≡ "2.0") × (trim_space req.method ≢ "")
  accepted_request req h =
      ground (arith, eq_iff req.jsonrpc "2.0", eq_iff (trim_space req.method) "")

  -- The claims at the five kinds of answer.
  pub record Leaves (Q : Response × World texts → Type 0) : Type 0 where
    pub failed :
        (network method : String) (label : Label) (bytes_in status : ℕ) (message : String)
        (w' : World texts)
        → Entry codec t r network method label bytes_in
        → OnlyClients w w'
        → Fits label status
        → Q (fail texts t network method label r bytes_in status message w')
    pub passed :
        (network method : String) (label : Label) (resp : String) (w' : World texts)
        → Entry codec t r network method label (len r.body)
        → OnlyClients w w'
        → Fits label 200
        → Q (plain_answer texts codec sort net t r network method label resp w')
    pub stored :
        (network : String) (req : RpcRequest) (resp : String) (client : Client) (w' : World texts)
        → IsRpc codec t r req
        → IsAt codec t r network
        → OnlyClients w w'
        → (call codec sort net r.request_id client req.method req.params).1 ≡ some resp
        → has_rpc_error texts codec sort net (unmarshal_response codec resp) ≡ false
        → Q (store_answer texts codec sort net t r network req resp w')
    pub hit :
        (network : String) (req : RpcRequest) (cached : String)
        → IsRpc codec t r req
        → IsAt codec t r network
        → cacheable req.method ≡ true
        → texts.get r.now (cache_key codec network req) w.cache ≡ some cached
        → Q (hit_answer texts codec sort net t r network req cached w)

  module _ (Q : Response × World texts → Type 0) (leaves : Leaves Q) where
    same : OnlyClients w w
    same = record { cache = refl; recorded = refl; metrics = refl }

    module _ (network : String) (req : RpcRequest) (ask : IsRpc codec t r req)
        (at : IsAt codec t r network) where
      upstream_cases :
          (client : Client) → Q (upstream texts codec sort net t r network req client w)
      unfolding upstream after_call answer_decoded
      upstream_cases client =
          let result = call codec sort net r.request_id client req.method req.params in
          let w' : World texts = record w { clients = insert network result.0 w.clients } in
          let only : OnlyClients w w' = record { cache = refl; recorded = refl; metrics = refl } in
          elim (Option-cases result.1) [
            | inl e ↦ rw e (
                leaves.failed network req.method upstream_error (len r.body) 502
                  "upstream unavailable" w' (Entry.rpc req ask (inl at)) only refl)
            | inr (resp, e) ↦
                elim (Bool-cases
                  (has_rpc_error texts codec sort net (unmarshal_response codec resp))) [
                    | inl bad ↦
                        rw (e, bad)
                          (leaves.passed network req.method rpc_error resp w'
                            (Entry.rpc req ask (inl at)) only refl)
                    | inr good ↦
                        rw (e, good) (leaves.stored network req resp client w' ask at only e good)
                  ]
          ]

      serve_rpc_cases :
          (client : Client) → Q (serve_rpc texts codec sort net t r network req client w)
      unfolding serve_rpc after_get
      serve_rpc_cases client =
          let up = upstream_cases client in
          elim (Bool-cases (cacheable req.method)) [
            | inr no_cache ↦ rw no_cache up
            | inl caches ↦
                elim (Option-cases (texts.get r.now (cache_key codec network req) w.cache)) [
                  | inl miss ↦ rw (caches, miss) up
                  | inr (cached, found) ↦ elim (Bool-cases (cached == "")) [
                    | inl empty ↦ rw (caches, found, empty) up
                    | inr full ↦
                        rw (caches, found, full) (leaves.hit network req cached ask at caches found)
                  ]
                ]
          ]

    with_network_cases :
        (req : RpcRequest) (network : Option String)
        → IsRpc codec t r req
        → network_of t r.default_config ≡ network
        → Q (with_network texts codec sort net t r req network w)
    unfolding with_network with_client
    with_network_cases req none ask at =
        leaves.failed "" req.method network_unavailable (len r.body) 503
          "no blockchain network configured" w (Entry.rpc req ask (network_of-none codec t r at))
          same refl
    with_network_cases req (some network) ask at = elim (Option-cases (lookup network w.clients)) [
      | inl missing ↦ rw missing (
          leaves.failed network req.method network_unavailable (len r.body) 503
            "blockchain network unavailable" w
            (Entry.rpc req ask (inl (network_of-IsAt codec t r at))) same refl)
      | inr (client, found) ↦
          rw found (serve_rpc_cases network req ask (network_of-IsAt codec t r at) client)
    ]

    module _ (whole : r.read_fails ≡ false) (short : len r.body ≤ max_body_bytes) where
      single_cases :
          (req : Option RpcRequest)
          → is_batch r.body ≡ false
          → unmarshal_request codec r.body ≡ req
          → Q (single texts codec sort net t r req w)
      unfolding single
      single_cases none one decoded =
          leaves.failed "" "" invalid_request (len r.body) 400 "invalid json" w
            (Entry.ill_formed short one (inl decoded)) same (inl refl)
      single_cases (some req) one decoded =
          elim (Bool-cases (not (req.jsonrpc == "2.0") || trim_space req.method == "")) [
            | inl bad ↦ rw bad (
                leaves.failed "" "" invalid_request (len r.body) 400 "invalid json-rpc request" w
                  (Entry.ill_formed short one (inr (req, decoded, refused_request req bad))) same
                  (inl refl))
            | inr good ↦
                let (version, named) = accepted_request req good in
                rw good (
                  with_network_cases _ (network_of t r.default_config)
                    (record {
                      sent = req;
                      whole = whole;
                      short = short;
                      no_batch = one;
                      decoded = decoded;
                      version = version;
                      trimmed = refl;
                      named = named;
                    })
                    refl)
          ]

      batch_cases :
          (network : Option String)
          → is_batch r.body ≡ true
          → network_of t r.default_config ≡ network
          → Q (batch_network texts codec sort net t r network w)
      unfolding batch_network batch_client batch_answer
      batch_cases none many at =
          leaves.failed "" "" network_unavailable (len r.body) 503
            "no blockchain network configured" w
            (Entry.batch short many (network_of-none codec t r at)) same refl
      batch_cases (some network) many at = elim (Option-cases (lookup network w.clients)) [
        | inl missing ↦ rw missing (
            leaves.failed network "" network_unavailable (len r.body) 503
              "blockchain network unavailable" w
              (Entry.batch short many (inl (network_of-IsAt codec t r at))) same refl)
        | inr (client, found) ↦
            let result = proxy_raw sort net r.request_id client r.body in
            let w' : World texts = record w { clients = insert network result.0 w.clients } in
            let only : OnlyClients w w' = record {
              cache = refl;
              recorded = refl;
              metrics = refl;
            } in
            elim (Option-cases result.1) [
              | inl e ↦
                  rw (found, e)
                    (leaves.failed network "" upstream_error (len r.body) 502 "upstream unavailable"
                      w' (Entry.batch short many (inl (network_of-IsAt codec t r at))) only refl)
              | inr (resp, e) ↦
                  rw (found, e)
                    (leaves.passed network "" success resp w'
                      (Entry.batch short many (inl (network_of-IsAt codec t r at))) only refl)
            ]
      ]

    serve_tenant_cases : Q (serve_tenant texts codec sort net r (some t) w)
    unfolding serve_tenant handle_batch
    serve_tenant_cases = elim (Bool-cases (body_error texts codec sort net r)) [
      | inl bad ↦ rw bad (
          leaves.failed "" "" invalid_request 0 413 "request body too large" w
            (Entry.unread (unread_body bad)) same (inr refl))
      | inr read ↦
          let (whole, short) = read_body read in
          elim (Bool-cases (is_batch r.body)) [
            | inl batch ↦
                rw (read, batch)
                  (batch_cases whole short (network_of t r.default_config) batch refl)
            | inr one ↦
                rw (read, one) (single_cases whole short (unmarshal_request codec r.body) one refl)
          ]
    ]

    pub serve_http_cases : r.tenant ≡ some t → Q (serve_http texts codec sort net r w)
    unfolding serve_http
    serve_http_cases e =
        subst (λ u. Q (serve_tenant texts codec sort net r u w)) (sym e) serve_tenant_cases
