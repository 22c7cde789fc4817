-- ===== src/Proxy/Caching.antt =====
-- What the response cache of backend/gateway/proxy/proxy.go comes to hold, and what is answered from
-- it.
use mathlib.Core.Option.{some-injective}
use mathlib.Core.Path.{subst}
use chainmesh.Base.{
  ℕ, ◌≡◌, ◌≢◌, refl, sym, ap, ◌∙◌, String, true, false, Option, none, some, List, arith, ◌==◌,
  eq_iff, inl, inr, ◌⊎◌, Bool-cases, Option-cases,
}
use chainmesh.Model.{Tenant}
use chainmesh.Json.{Codec, RpcRequest, RpcResponse, unmarshal_response}
use chainmesh.Redis.Texts.{Text, Texts}
use chainmesh.Client.{Client}
use chainmesh.Client.Probe.{Reply, unreachable, answered, Exchange, is_valid_rpc}
use chainmesh.Client.Routing.{SortSlice}
use chainmesh.Client.Calls.{Net, call}
use chainmesh.Client.History.{Section}
use chainmesh.Client.Failover.{
  Failover, exhausted, accepted, refused, Accept, call_accepts, call-Follows,
}
use chainmesh.Proxy.{Request, Response, bytes, cache_key, cache_policy, World}
use chainmesh.Proxy.Entry.{IsRpc, IsAt}
use chainmesh.Proxy.Outcome.{record_outcome, fail}
use chainmesh.Proxy.Serve.{saved, hit_answer, plain_answer, store_answer, has_rpc_error, serve_http}
use chainmesh.Proxy.Cases.{Leaves, serve_http_cases}

-- A text that decodes as a response without an error object.
abbrev pub IsCleanText : Codec → String → Type 0
IsCleanText codec s = is_valid_rpc (unmarshal_response codec s) ≡ true

returned-accepted :
    {accepts : Accept} {exchange : ℕ → String → Exchange} {i : ℕ} {eps : List String}
    {ss : List Section} {r : Option String} {body : String}
    → Failover accepts exchange i eps ss r
    → r ≡ some body
    → (x : Reply) × (accepts x ≡ some body)
returned-accepted exhausted h = absurd (ground arith)
returned-accepted {exchange = exchange} {i = i} (accepted {ep = ep} a) h =
    ((exchange i ep).reply, a ∙ h)
returned-accepted (refused a rest) h = returned-accepted rest h

none_ne : {b : String} → none ≡ some b → ⊥
none_ne h = ground arith

accepted-decodes :
    (codec : Codec) (x : Reply) {body : String}
    → call_accepts codec x ≡ some body
    → (a : RpcResponse) × (unmarshal_response codec body ≡ some a)
accepted-decodes codec unreachable h = absurd (ground arith)
accepted-decodes codec (answered status text) {body} h =
    elim (Option-cases (unmarshal_response codec text)) [
      | inl e ↦ absurd (none_ne (rw (e, call_accepts) at h))
      | inr (a, e) ↦
          let h' : some text ≡ some body = rw (e, call_accepts) at h in
          (a, subst (λ s. unmarshal_response codec s ≡ some a) (some-injective _ _ h') e)
    ]

module _ (texts : Texts) (codec : Codec) (sort : SortSlice) (net : Net) where
  no_error-clean :
      (a : Option RpcResponse) {x : RpcResponse}
      → a ≡ some x
      → has_rpc_error texts codec sort net a ≡ false
      → is_valid_rpc a ≡ true
  unfolding has_rpc_error is_valid_rpc
  no_error-clean none e h = absurd (ground arith)
  no_error-clean (some a) e h = elim (Option-cases a.error) [
    | inl n ↦ rw n refl
    | inr (b, n) ↦ let h' : true ≡ false = rw n at h in absurd (ground arith)
  ]

  -- What Call returns and the proxy does not take for an RPC error is clean.
  pub call-clean :
      (request_id : String) (client : Client) (req : RpcRequest) (resp : String)
      → (call codec sort net request_id client req.method req.params).1 ≡ some resp
      → has_rpc_error texts codec sort net (unmarshal_response codec resp) ≡ false
      → IsCleanText codec resp
  call-clean request_id client req resp h good =
      let f = call-Follows codec sort net request_id client req.method req.params in
      let (x, a) = returned-accepted f.follows h in
      let (y, e) = accepted-decodes codec x a in
      no_error-clean (unmarshal_response codec resp) e good

  -- A text that this request has stored, and answered with.
  pub record IsFresh (t : Tenant) (r : Request) (p : Response × World texts) (key : String)
      (x : Text) : Type 0 where
    pub network : String
    pub req : RpcRequest
    pub asked : IsRpc codec t r req
    pub at_network : IsAt codec t r network
    pub under_key : key ≡ cache_key codec network req
    pub policy : cache_policy req.method ≡ some x.life
    pub clean : IsCleanText codec x.text
    pub miss : p.0.x_cache ≡ some "MISS"
    pub same_answer : p.0.content ≡ bytes x.text

  abbrev Stores : Tenant → Request → World texts → Response × World texts → Type 0
  Stores t r w p =
      (key : String) (x : Text)
      → texts.held p.1.cache key ≡ some x
      → (texts.held w.cache key ≡ some x) ⊎ IsFresh t r p key x

  module _ (t : Tenant) (r : Request) (w : World texts) where
    saved-held :
        (network : String) (req : RpcRequest) (resp : String) (w' : World texts) (key : String)
        (x : Text)
        → texts.held (saved texts codec sort net r network req resp w') key ≡ some x
        → (texts.held w'.cache key ≡ some x)
          ⊎ ((key ≡ cache_key codec network req)
              × (cache_policy req.method ≡ some x.life)
              × (x.text ≡ resp))
    unfolding saved
    saved-held network req resp w' key x h = elim (Option-cases (cache_policy req.method)) [
      | inl none_set ↦ inl (rw (none_set, saved) at h)
      | inr (ttl, policy) ↦
          let k = cache_key codec network req in
          let v : Text = record { text = resp; life = ttl } in
          let h' : texts.held (texts.set r.now k v w'.cache) key ≡ some x =
            rw (policy, saved) at h in
          elim (Bool-cases (k == key)) [
            | inr other ↦
                let apart : k ≢ key = ground (arith, eq_iff k key) in
                inl (sym (texts.set_other r.now k key v w'.cache apart) ∙ h')
            | inl same ↦
                let e : k ≡ key = (eq_iff k key).0 same in
                let h'' : texts.held (texts.set r.now k v w'.cache) k ≡ some x =
                  subst (λ j. texts.held (texts.set r.now k v w'.cache) j ≡ some x) (sym e) h' in
                elim (texts.set_held r.now k v x w'.cache h'') [
                  | inl new ↦
                      inr (sym e, policy ∙ ap (λ y. some y.life) (sym new), ap (λ y. y.text) new)
                  | inr old ↦ inl (subst (λ j. texts.held w'.cache j ≡ some x) e old)
                ]
          ]
    ]

    stores : Leaves texts codec sort net t r w (Stores t r w)
    unfolding fail plain_answer store_answer hit_answer record_outcome
    stores = record {
      failed = λ network method label bytes_in status message w' entry only fits key x h.
          inl (subst (λ c. texts.held c key ≡ some x) only.cache h);
      passed = λ network method label resp w' entry only fits key x h.
          inl (subst (λ c. texts.held c key ≡ some x) only.cache h);
      stored = λ network req resp client w' ask at only answer good key x h.
          elim (saved-held network req resp w' key x h) [
            | inl old ↦ inl (subst (λ c. texts.held c key ≡ some x) only.cache old)
            | inr (under_key, policy, same) ↦ inr (record {
              network = network;
              req = req;
              asked = ask;
              at_network = at;
              under_key = under_key;
              policy = policy;
              clean = rw same (call-clean r.request_id client req resp answer good);
              miss = refl;
              same_answer = ap bytes (sym same);
            })
          ];
      hit = λ network req cached ask at caches found key x h. inl h;
    }

    -- After a request of a tenant, every value that a cache key has held is one it held before, or
    -- the answer just given with the mark MISS, which decodes without an RPC error, under the key of
    -- the request's network and of the JSON-RPC request in its body, the spaces around the method cut, and
    -- with the lifetime of the method's policy. The network is the tenant's or else the default one.
    pub serve_http-Stores :
        r.tenant ≡ some t
        → (key : String) (x : Text)
        → texts.held (serve_http texts codec sort net r w).1.cache key ≡ some x
        → (texts.held w.cache key ≡ some x)
          ⊎ IsFresh t r (serve_http texts codec sort net r w) key x
    serve_http-Stores = serve_http_cases texts codec sort net t r w (Stores t r w) stores
