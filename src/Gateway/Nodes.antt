-- ===== src/Gateway/Nodes.antt =====
-- backend/gateway/main.go: the handler of /health/nodes, which is open to everyone. url.Parse is a
-- parameter that gives the host of a URL. The JSON text of the answer is not modelled.
use Prim.Native.String.{◌++◌}
use chainmesh.Base.{ℕ, ◌/◌, ◌≡◌, refl, String, Bool, Option, none, some, List, [], ◌∷◌, map}
use chainmesh.Client.{EndpointHealth}
use chainmesh.Manager.{Manager, health}

pub record SafeEndpointHealth : Type 0 where
  pub url : String
  pub healthy : Bool
  pub latency_ms : ℕ
  pub last_check : ℕ
  pub consecutive_fails : ℕ
  pub total_requests : ℕ
  pub total_failures : ℕ

pub record SafeNetworkHealth : Type 0 where
  pub network_id : String
  pub nodes : List SafeEndpointHealth

-- The Host of url.Parse; none is an error.
abbrev pub Hosts : Type 0
Hosts = String → Option String

-- redactURL
unfoldable pub redact_url : Hosts → String → String
redact_url host raw_url = elim (host raw_url) [ none ↦ "redacted-endpoint" | some h ↦ h ++ "/***" ]

-- Duration.Milliseconds
abbrev milliseconds : ℕ → ℕ
milliseconds d = d / 1000000

unfoldable pub safe_endpoint : Hosts → EndpointHealth → SafeEndpointHealth
safe_endpoint host node = record {
  url = redact_url host node.url;
  healthy = node.healthy;
  latency_ms = milliseconds node.latency;
  last_check = node.last_check;
  consecutive_fails = node.consecutive_fails;
  total_requests = node.total_requests;
  total_failures = node.total_failures;
}

abbrev pub safe_network : Hosts → String × List EndpointHealth → SafeNetworkHealth
safe_network host (id, nodes) = record { network_id = id; nodes = map (safe_endpoint host) nodes }

-- The handler, up to the encoding.
unfoldable pub health_nodes : Hosts → Manager → List SafeNetworkHealth
health_nodes host m = map (safe_network host) (health m)

-- Two lists that are as long, with related elements.
abbrev pub Each : {A : Type 0} → (A → A → Type 0) → List A → List A → Type 0
Each R [] [] = Unit
Each R (x ∷ xs) (y ∷ ys) = R x y × Each R xs ys
Each R _ _ = ⊥

Each-map :
    {A B : Type 0} (f : A → B) (R : A → A → Type 0)
    → ((x y : A) → R x y → f x ≡ f y)
    → (xs ys : List A) → Each R xs ys
    → map f xs ≡ map f ys
Each-map f R same [] [] e = refl
Each-map f R same [] (y ∷ ys) e = absurd e
Each-map f R same (x ∷ xs) [] e = absurd e
Each-map f R same (x ∷ xs) (y ∷ ys) (r, e) =
    let head = same x y r in let tail = Each-map f R same xs ys e in cc

-- The same health of two endpoints of one host.
pub record IsAlike (host : Hosts) (a b : EndpointHealth) : Type 0 where
  pub same_host : host a.url ≡ host b.url
  pub same_healthy : a.healthy ≡ b.healthy
  pub same_latency : a.latency ≡ b.latency
  pub same_check : a.last_check ≡ b.last_check
  pub same_fails : a.consecutive_fails ≡ b.consecutive_fails
  pub same_requests : a.total_requests ≡ b.total_requests
  pub same_failures : a.total_failures ≡ b.total_failures

safe_endpoint-IsAlike :
    (host : Hosts) (a b : EndpointHealth)
    → IsAlike host a b
    → safe_endpoint host a ≡ safe_endpoint host b
unfolding safe_endpoint redact_url
safe_endpoint-IsAlike host a b s = λ i. record {
  url = elim (s.same_host i) [ none ↦ "redacted-endpoint" | some h ↦ h ++ "/***" ];
  healthy = s.same_healthy i;
  latency_ms = milliseconds (s.same_latency i);
  last_check = s.same_check i;
  consecutive_fails = s.same_fails i;
  total_requests = s.same_requests i;
  total_failures = s.same_failures i;
}

-- One network with alike endpoints.
abbrev pub AlikeNetworks :
    Hosts → String × List EndpointHealth → String × List EndpointHealth → Type 0
AlikeNetworks host (id, nodes) (id', nodes') = (id ≡ id') × Each (IsAlike host) nodes nodes'

-- The answer tells nothing of the endpoints' URLs but their hosts: it is the same for two managers whose
-- networks have the same IDs and, endpoint by endpoint, the same hosts and the same health.
pub health_nodes-hides :
    (host : Hosts) (m m' : Manager)
    → Each (AlikeNetworks host) (health m) (health m')
    → health_nodes host m ≡ health_nodes host m'
unfolding health_nodes
health_nodes-hides host m m' e =
    Each-map (safe_network host) (AlikeNetworks host) one_network (health m) (health m') e
  where
    one_network :
        (a b : String × List EndpointHealth)
        → AlikeNetworks host a b
        → safe_network host a ≡ safe_network host b
    one_network (id, nodes) (id', nodes') (same, alike) =
        let nodes_same =
          Each-map (safe_endpoint host) (IsAlike host) (safe_endpoint-IsAlike host) nodes nodes'
            alike in
        λ i. record { network_id = same i; nodes = nodes_same i }
