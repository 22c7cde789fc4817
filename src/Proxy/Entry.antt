-- ===== src/Proxy/Entry.antt =====
-- What the records of one request of backend/gateway/proxy/proxy.go are about: its network, its method and
-- the bytes that came in, told from the request alone.
use Prim.Native.String.{len}
use mathlib.Core.Option.{some-injective}
use chainmesh.Base.{
  refl, sym, arith, eq_iff, ◌==◌, inl, inr, Bool-cases, Option-cases, ℕ, ◌≤◌, ◌<◌, ◌≡◌, ◌≢◌, String,
  true, false, none, some, ◌⊎◌,
}
use chainmesh.Model.{Tenant, BlockchainConfig}
use chainmesh.Json.{Codec, RpcRequest, unmarshal_request}
use chainmesh.Proxy.{Request, Label, invalid_request, max_body_bytes, network_of}
use chainmesh.Proxy.Text.{trim_space, is_batch}

module _ (codec : Codec) (t : Tenant) (r : Request) where
  -- The body is a JSON-RPC 2.0 request with a method. `req` is that request, with the method's spaces cut.
  pub record IsRpc (req : RpcRequest) : Type 0 where
    pub sent : RpcRequest
    pub whole : r.read_fails ≡ false
    pub short : len r.body ≤ max_body_bytes
    pub no_batch : is_batch r.body ≡ false
    pub decoded : unmarshal_request codec r.body ≡ some sent
    pub version : sent.jsonrpc ≡ "2.0"
    pub trimmed : req ≡ record sent { method = trim_space sent.method }
    pub named : req.method ≢ ""

  abbrev pub IsIllFormed : Type 0
  IsIllFormed =
      (unmarshal_request codec r.body ≡ none)
      ⊎ ((sent : RpcRequest) × (unmarshal_request codec r.body ≡ some sent)
          × ((sent.jsonrpc ≢ "2.0") ⊎ (trim_space sent.method ≡ "")))

  -- The tenant's network, or that of the default configuration if the tenant has none.
  abbrev pub IsAt : String → Type 0
  IsAt network =
      ((t.network_id ≢ "") × (network ≡ t.network_id))
      ⊎ ((t.network_id ≡ "")
          × ((cfg : BlockchainConfig) × (r.default_config ≡ some cfg) × (network ≡ cfg.id)))

  -- The same, or no name if there is neither.
  abbrev pub IsNetwork : String → Type 0
  IsNetwork network =
      IsAt network ⊎ ((t.network_id ≡ "") × (r.default_config ≡ none) × (network ≡ ""))

  pub network_of-IsAt :
      {network : String} → network_of t r.default_config ≡ some network → IsAt network
  unfolding network_of
  network_of-IsAt {network} h = elim (Bool-cases (t.network_id == "")) [
    | inr e ↦
        inl (λ k. ground (arith, eq_iff t.network_id ""), sym (some-injective _ _ (rw e at h)))
    | inl e ↦ elim (Option-cases r.default_config) [
      | inl none_set ↦ absurd (none_ne (rw (e, none_set) at h))
      | inr (cfg, set) ↦
          inr
            ((eq_iff t.network_id "").0 e, (cfg, set, sym (some-injective _ _ (rw (e, set) at h))))
    ]
  ]
    where
      none_ne : {n : String} → none ≡ some n → ⊥
      none_ne k = ground arith

  pub network_of-none : network_of t r.default_config ≡ none → IsNetwork ""
  unfolding network_of
  network_of-none h = elim (Bool-cases (t.network_id == "")) [
    | inr e ↦ absurd (some_ne (rw e at h))
    | inl e ↦ elim (Option-cases r.default_config) [
      | inl none_set ↦ inr ((eq_iff t.network_id "").0 e, none_set, refl)
      | inr (cfg, set) ↦ absurd (some_ne (rw (e, set) at h))
    ]
  ]
    where
      some_ne : {n : String} → some n ≡ none → ⊥
      some_ne k = ground arith

  -- The network, method, label and bytes of a request. A body that was not read counts no bytes; one that
  -- holds no request has neither a network nor a method; a batch has no method.
  pub data Entry : String → String → Label → ℕ → Type 0 where
    unread : (r.read_fails ≡ true) ⊎ (max_body_bytes < len r.body) → Entry "" "" invalid_request 0
    ill_formed :
        len r.body ≤ max_body_bytes
        → is_batch r.body ≡ false
        → IsIllFormed
        → Entry "" "" invalid_request (len r.body)
    batch :
        {network : String} {label : Label}
        → len r.body ≤ max_body_bytes
        → is_batch r.body ≡ true
        → IsNetwork network
        → Entry network "" label (len r.body)
    rpc :
        {network : String} {label : Label} (req : RpcRequest)
        → IsRpc req
        → IsNetwork network
        → Entry network req.method label (len r.body)
