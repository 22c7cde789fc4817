-- ===== src/Client/Routing.antt =====
-- endpointsForCall of backend/shared/blockchain/client.go.
use mathlib.Core.List.{Perm, Pairwise}
use chainmesh.Base.{ℕ, ◌≤◌, String, Bool, true, not, Option, none, some, List, ◌++◌, map, ltb, keep}
use chainmesh.Base.Dict.{lookup}
use chainmesh.Client.{Client, EndpointHealth}

pub record Scored : Type 0 where
  pub url : String
  pub healthy : Bool
  pub latency : ℕ

-- sort.Slice as Go documents it: a permutation, ascending where `less` compares by a number. It is
-- not stable.
pub record SortSlice : Type 0 where
  pub slice : (Scored → Scored → Bool) → List Scored → List Scored
  pub slice_perm : (less : Scored → Scored → Bool) (xs : List Scored) → Perm (slice less xs) xs
  pub slice_sorted :
      (key : Scored → ℕ) (xs : List Scored)
      → Pairwise (λ a b. key a ≤ key b) (slice (λ a b. ltb (key a) (key b)) xs)

abbrev pub score_entry : String → Option EndpointHealth → Scored
score_entry ep none = record { url = ep; healthy = true; latency = 0 }
score_entry ep (some h) = record { url = ep; healthy = h.healthy; latency = h.latency }

-- What the routing sees of an endpoint. An endpoint without an entry counts as healthy.
unfoldable pub score : Client → String → Scored
score c ep = score_entry ep (lookup ep c.health)

abbrev pub is_healthy : Scored → Bool
is_healthy s = s.healthy

abbrev pub is_unhealthy : Scored → Bool
is_unhealthy s = not s.healthy

abbrev pub less : Scored → Scored → Bool
less a b = ltb a.latency b.latency

unfoldable pub endpoints_for_call : SortSlice → Client → List String
endpoints_for_call sort c =
    let scored_list = map (score c) c.endpoints in
    let healthy = sort.slice less (keep is_healthy scored_list) in
    let unhealthy = keep is_unhealthy scored_list in
    map (λ s. s.url) healthy ++ map (λ s. s.url) unhealthy
