-- ===== src/Client/Failover.antt =====
-- What Call and ProxyRaw do over the routed endpoints, against a relation of their own: the
-- endpoints are tried in order, each failure is marked, and the first answer is marked and
-- returned.
use chainmesh.Base.{
  ℕ, suc, String, ◌≡◌, refl, sym, ◌∙◌, Option, none, some, List, [], ◌∷◌, arith, if◌then◌else◌, inl,
  inr, Option-cases,
}
use chainmesh.Json.{Codec, Items, RpcRequest, unmarshal_response}
use chainmesh.Client.{Client, entry, store, mark_success, mark_failure}
use chainmesh.Client.Probe.{Reply, unreachable, answered, Exchange, bad_status, check_endpoint}
use chainmesh.Client.Routing.{SortSlice, endpoints_for_call}
use chainmesh.Client.Calls.{
  rpc, raw, Net, request_id_header, emit, try_endpoints, call_attempt, call_request, call,
  raw_attempt, proxy_raw,
}
use chainmesh.Client.History.{Section, success, failure, section, sections}

-- Which replies a call returns to its caller.
abbrev pub Accept : Type 0
Accept = Reply → Option String

-- Call accepts every body that decodes as an RPCResponse, whatever the status.
abbrev pub call_accepts : Codec → Accept
call_accepts codec unreachable = none
call_accepts codec (answered status body) = elim (unmarshal_response codec body) [
  | none ↦ none
  | some r ↦ some body
]

-- ProxyRaw accepts every body with a status of the 200s, whatever it says.
abbrev pub raw_accepts : Accept
raw_accepts unreachable = none
raw_accepts (answered status body) = if bad_status status then none else some body

-- The i-th request goes to the first endpoint left; the sections are what is marked.
pub data Failover (accepts : Accept) (exchange : ℕ → String → Exchange)
    : ℕ → List String → List Section → Option String → Type 0 where
  exhausted : {i : ℕ} → Failover accepts exchange i [] [] none
  accepted :
      {i : ℕ} {ep : String} {eps : List String} {body : String}
      → accepts (exchange i ep).reply ≡ some body
      → Failover accepts exchange i
          (ep ∷ eps)
          (success ep (exchange i ep).latency (exchange i ep).now ∷ [])
          (some body)
  refused :
      {i : ℕ} {ep : String} {eps : List String} {ss : List Section} {r : Option String}
      → accepts (exchange i ep).reply ≡ none
      → Failover accepts exchange (suc i) eps ss r
      → Failover accepts exchange i (ep ∷ eps) (failure ep (exchange i ep).now ∷ ss) r

section-health :
    (codec : Codec) (a b : Client) (s : Section)
    → a.health ≡ b.health
    → (section codec a s).health ≡ (section codec b s).health
unfolding section mark_success mark_failure check_endpoint entry store
section-health codec a b (success url latency now) h = cc
section-health codec a b (failure url now) h = cc
section-health codec a b (Section.probe url x) h = cc

sections-health :
    (codec : Codec) (a b : Client) (ss : List Section)
    → a.health ≡ b.health
    → (sections codec a ss).health ≡ (sections codec b ss).health
unfolding sections
sections-health codec a b [] h = h
sections-health codec a b (s ∷ ss) h =
    sections-health codec (section codec a s) (section codec b s) ss (section-health codec a b s h)

abbrev Attempt : Type 0
Attempt = Client → ℕ → String → Client × Option String

-- One attempt returns what is accepted, and marks what it saw.
pub record IsAttempt (codec : Codec) (accepts : Accept) (exchange : ℕ → String → Exchange)
    (attempt : Attempt) : Type 0 where
  pub returns :
      (c : Client) (i : ℕ) (ep : String) → (attempt c i ep).1 ≡ accepts (exchange i ep).reply
  pub marks_success :
      (c : Client) (i : ℕ) (ep : String) {body : String}
      → accepts (exchange i ep).reply ≡ some body
      → (attempt c i ep).0.health
        ≡ (section codec c (success ep (exchange i ep).latency (exchange i ep).now)).health
  pub marks_failure :
      (c : Client) (i : ℕ) (ep : String)
      → accepts (exchange i ep).reply ≡ none
      → (attempt c i ep).0.health ≡ (section codec c (failure ep (exchange i ep).now)).health

-- A loop over endpoints follows `Failover`, and leaves the health map that the marks make.
pub record Follows (codec : Codec) (accepts : Accept) (exchange : ℕ → String → Exchange)
    (c : Client) (i : ℕ) (eps : List String) (result : Client × Option String) : Type 0 where
  pub marks : List Section
  pub follows : Failover accepts exchange i eps marks result.1
  pub marked : result.0.health ≡ (sections codec c marks).health

module _ {codec : Codec} {accepts : Accept} {exchange : ℕ → String → Exchange} {attempt : Attempt}
    (ok : IsAttempt codec accepts exchange attempt) where
  try_endpoints-Follows :
      (c : Client) (i : ℕ) (eps : List String)
      → Follows codec accepts exchange c i eps (try_endpoints attempt c i eps)
  unfolding try_endpoints sections
  try_endpoints-Follows c i [] = record { marks = []; follows = Failover.exhausted; marked = refl }
  try_endpoints-Follows c i (ep ∷ eps) = elim (Option-cases (attempt c i ep).1) [
    | inr (body, e) ↦
        let a : accepts (exchange i ep).reply ≡ some body = sym (ok.returns c i ep) ∙ e in
        rw (e, try_endpoints)
          (record {
            marks = success ep (exchange i ep).latency (exchange i ep).now ∷ [];
            follows = Failover.accepted a;
            marked = ok.marks_success c i ep a;
          })
    | inl e ↦
        let a : accepts (exchange i ep).reply ≡ none = sym (ok.returns c i ep) ∙ e in
        let rest = try_endpoints-Follows (attempt c i ep).0 (suc i) eps in
        rw (e, try_endpoints)
          (record {
            marks = failure ep (exchange i ep).now ∷ rest.marks;
            follows = Failover.refused a rest.follows;
            marked = rest.marked ∙ sections-health codec _ _ rest.marks (ok.marks_failure c i ep a);
          })
  ]

abbrev pub call_exchange : Net → String → RpcRequest → ℕ → String → Exchange
call_exchange net request_id req i ep =
    net (record { url = ep; payload = rpc req; request_id = request_id_header request_id }) i

abbrev pub raw_exchange : Net → String → String → ℕ → String → Exchange
raw_exchange net request_id payload i ep =
    net (record { url = ep; payload = raw payload; request_id = request_id_header request_id }) i

call_attempt-IsAttempt :
    (codec : Codec) (net : Net) (request_id : String) (req : RpcRequest)
    → IsAttempt codec
        (call_accepts codec)
        (call_exchange net request_id req)
        (call_attempt codec net request_id req)
unfolding call_attempt section mark_success mark_failure entry store emit
call_attempt-IsAttempt codec net request_id req = record {
  returns = λ c i ep. ground arith;
  marks_success = λ c i ep e. ground arith;
  marks_failure = λ c i ep e. ground arith;
}

raw_attempt-IsAttempt :
    (codec : Codec) (net : Net) (request_id payload : String)
    → IsAttempt codec raw_accepts
        (raw_exchange net request_id payload)
        (raw_attempt net request_id payload)
unfolding raw_attempt section mark_success mark_failure entry store emit
raw_attempt-IsAttempt codec net request_id payload = record {
  returns = λ c i ep. ground arith;
  marks_success = λ c i ep e. ground arith;
  marks_failure = λ c i ep e. ground arith;
}

-- Call tries the routed endpoints in order, marks each one whose answer does not decode or does not
-- come as failed, and returns the first body that decodes, with its endpoint marked as a success.
pub call-Follows :
    (codec : Codec) (sort : SortSlice) (net : Net) (request_id : String) (c : Client)
    (method : String) (params : Items)
    → Follows codec
        (call_accepts codec)
        (call_exchange net request_id (call_request method params))
        c
        0
        (endpoints_for_call sort c)
        (call codec sort net request_id c method params)
unfolding call
call-Follows codec sort net request_id c method params =
    try_endpoints-Follows (call_attempt-IsAttempt codec net request_id (call_request method params))
      c 0 (endpoints_for_call sort c)

-- ProxyRaw does the same with the caller's bytes, but it accepts a body by its status alone.
pub proxy_raw-Follows :
    (codec : Codec) (sort : SortSlice) (net : Net) (request_id : String) (c : Client)
    (payload : String)
    → Follows codec raw_accepts
        (raw_exchange net request_id payload)
        c
        0
        (endpoints_for_call sort c)
        (proxy_raw sort net request_id c payload)
unfolding proxy_raw
proxy_raw-Follows codec sort net request_id c payload =
    try_endpoints-Follows (raw_attempt-IsAttempt codec net request_id payload) c 0
      (endpoints_for_call sort c)
