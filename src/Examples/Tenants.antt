-- ===== src/Examples/Tenants.antt =====
-- A key that is revoked at the time 100, with a cache of 50.
use mathlib.Core.List.{Memᴰ}
use chainmesh.Base.{
  ℕ, ◌≤◌, ◌≡◌, refl, none, some, List, [], ◌∷◌, arith, All, ltb, ◌&&◌, ◌==◌, if◌then◌else◌,
}
use chainmesh.Base.Int.{pos}
use chainmesh.Model.{Tenant}
use chainmesh.Auth.{Arrival, unauthorized, Resolver, new_tenant_cache, bearer, auth, get, set}
use chainmesh.Base.Dict.{lookup, insert}
use chainmesh.Auth.Staleness.{handle_all, AllJustified, handle_all-AllJustified}
use chainmesh.Auth.Revocation.{Prompt, revoked_key_stops}

abbrev pub tenant : Tenant
tenant = record {
  id = "t1";
  name = "first";
  quota_rpm = pos 60;
  quota_rps = pos 2;
  quota_daily = pos 0;
  plan = "free";
  network_id = "eth";
  created_at = 0;
}

abbrev pub db : Resolver
db t key = if ltb t 100 && key == "k" then some tenant else none

abbrev pub arrival : ℕ → Arrival
arrival now = record { authorization = "Bearer k"; now = now; resolved = now; stored = now }

abbrev pub arrivals : List Arrival
arrivals = arrival 90 ∷ arrival 120 ∷ arrival 150 ∷ []

silent : (t : ℕ) → 100 ≤ t → db t "k" ≡ none
silent t h = ground arith

handle_all-AllJustified_example :
    AllJustified db 50 [] (handle_all db (some (new_tenant_cache 50)) arrivals)
handle_all-AllJustified_example = handle_all-AllJustified db 50 arrivals

prompt : All (λ p. Prompt 0 p.0) (handle_all db (some (new_tenant_cache 50)) arrivals)
unfolding handle_all
prompt = (omega arith, (omega arith, (omega arith, tt)))

last_listed : Memᴰ (arrival 150, unauthorized) (handle_all db (some (new_tenant_cache 50)) arrivals)
unfolding handle_all new_tenant_cache auth get set lookup insert
last_listed = Memᴰ.tail (Memᴰ.tail (Memᴰ.head refl))

revoked_key_stops_example : unauthorized ≡ unauthorized
revoked_key_stops_example =
    revoked_key_stops db 50 0 100 "k" silent arrivals prompt (arrival 150) unauthorized last_listed
      (unfold bearer in refl) (omega arith) (omega arith)
