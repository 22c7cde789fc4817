-- ===== src/Examples/Systems.antt =====
-- A rotation of the first tenant's key, then other operations, and requests with the old key.
use mathlib.Core.List.{Memᴰ}
use chainmesh.Base.{ℕ, ◌≡◌, refl, true, false, none, some, List, [], ◌∷◌, arith, All, String}
use chainmesh.Base.Dict.{lookup, insert}
use chainmesh.Redis.{delivered, refused}
use chainmesh.Auth.{
  Resolver, Arrival, Outcome, unauthorized, next, bearer, auth, get, set, new_tenant_cache,
}
use chainmesh.Auth.Staleness.{handle_all}
use chainmesh.Auth.Revocation.{Prompt}
use chainmesh.Store.Statements.{exec, query, query_row, in_transaction, commit}
use chainmesh.Store.Keys.{
  api_key_prefix, first_match, scan_tenant, get_tenant_by_id, get_tenant_by_api_key,
}
use chainmesh.Store.Keys.Resolve.{undisturbed}
use chainmesh.Store.Tenants.{key_row, create_tenant_with_key, rotate_api_key, delete_tenant}
use Prim.Native.String.{◌++◌}
use chainmesh.ApiKey.{generate_api_key, encode_to_string}
use chainmesh.Model.{Tenant}
use chainmesh.Store.Tenants.Rotation.{IsUnused}
use chainmesh.System.Issue.{resolver_from, issued_key_works}
use chainmesh.Admin.{post_rotate_key, post_tenant, created, new_tenant, generated_key}
use chainmesh.System.{Operation, deletes_tenant, rotates, apply, apply_all}
use chainmesh.System.Rotation.{generated, rotate_api_key-stays}
use chainmesh.System.Revocation.{AllLive, Makes}
use chainmesh.System.Rejection.{Apart, Misses, resolver_since, rotated_key_stops}
use chainmesh.Examples.Accounts.{bcrypt, db, making, data_of, named, owner, rotated}
use chainmesh.Examples.Admins.{world}
use chainmesh.Examples.Tenants.{tenant, arrival}

-- A second rotation, which the server refuses to begin, and the removal of another tenant.
abbrev later : List Operation
later =
    rotates (record making { key_id = "k3"; beginning = refused }) "t1" "bm_live_0003"
    ∷ deletes_tenant delivered "t9"
    ∷ []

found :
    (get_tenant_by_api_key bcrypt
      (undisturbed 9)
      "bm_live_0002"
      (apply_all bcrypt later (rotate_api_key bcrypt making "t1" "bm_live_0002" db).1)).0
    ≡ some (scan_tenant owner)
unfolding get_tenant_by_api_key api_key_prefix query first_match exec get_tenant_by_id query_row
    scan_tenant apply_all apply rotate_api_key in_transaction commit key_row delete_tenant
found = refl

rotate_api_key-stays_example :
    (hash : String) × Memᴰ hash (bcrypt.generate "" "bm_live_0002" ∷ generated bcrypt "t1" later)
    × (bcrypt.compare hash "bm_live_0002" ≡ true)
rotate_api_key-stays_example =
    rotate_api_key-stays bcrypt making "t1" "bm_live_0002" db later (undisturbed 9) "bm_live_0002"
      (scan_tenant owner) rotated found (unfold scan_tenant in refl)

abbrev before : Resolver
before t key = some tenant

abbrev resolver : Resolver
resolver =
    resolver_since bcrypt before 100 (λ t. undisturbed t) (λ t. later)
      (post_rotate_key world "t1" db).1

abbrev handled : List Arrival
handled =
    record (arrival 90) { authorization = "Bearer bm_live_0001" }
    ∷ record (arrival 150) { authorization = "Bearer bm_live_0001" }
    ∷ []

answered : (post_rotate_key world "t1" db).0.status ≡ 200
unfolding post_rotate_key rotate_api_key in_transaction commit key_row generate_api_key
    encode_to_string
answered = refl

apart : AllLive (Apart bcrypt "bm_live_0001" "t1") db.api_keys
apart = ((λ live other. absurd (other refl)), tt)

not_the_new :
    bcrypt.compare (bcrypt.generate making.salt (generated_key world)) "bm_live_0001" ≡ false
unfolding generate_api_key encode_to_string
not_the_new = refl

made_later : (t : ℕ) → All (Makes (Misses bcrypt "bm_live_0001") bcrypt) later
made_later t = (refl, (tt, tt))

prompt : All (λ p. Prompt 0 p.0) (handle_all resolver (some (new_tenant_cache 50)) handled)
unfolding handle_all
prompt = (omega arith, (omega arith, tt))

refused_last :
    Memᴰ
      (record (arrival 150) { authorization = "Bearer bm_live_0001" }, unauthorized)
      (handle_all resolver (some (new_tenant_cache 50)) handled)
unfolding handle_all new_tenant_cache auth bearer get set lookup insert resolver_since
    get_tenant_by_api_key api_key_prefix query first_match exec get_tenant_by_id query_row
    scan_tenant apply_all apply post_rotate_key rotate_api_key in_transaction commit key_row
    delete_tenant generate_api_key encode_to_string
refused_last = Memᴰ.tail (Memᴰ.head refl)

rotated_key_stops_example : unauthorized ≡ unauthorized
rotated_key_stops_example =
    rotated_key_stops world "t1" "bm_live_0001" db before (λ t. undisturbed t) (λ t. later) 50 0 100
      answered apart not_the_new made_later handled prompt
      (record (arrival 150) { authorization = "Bearer bm_live_0001" }) unauthorized refused_last
      (unfold bearer in refl) (omega arith) (omega arith)

IsUnused-key : IsUnused bcrypt (generated_key world) db.api_keys
unfolding first_match api_key_prefix generate_api_key encode_to_string
IsUnused-key = refl

created_tenant : (post_tenant world (some data_of) db).0.status ≡ 201
unfolding post_tenant create_tenant_with_key in_transaction commit generate_api_key encode_to_string
created_tenant = refl

abbrev new_client : Arrival
new_client = record (arrival 110) { authorization = "Bearer " ++ generated_key world }

abbrev issuing : Resolver
issuing = resolver_from world (λ t k. none) 100 (post_tenant world (some data_of) db).1

abbrev outcome : Outcome
outcome = (auth issuing (some (new_tenant_cache 50)) new_client).0

new_listed :
    Memᴰ (new_client, outcome) (handle_all issuing (some (new_tenant_cache 50)) (new_client ∷ []))
unfolding handle_all
new_listed = Memᴰ.head refl

issued_key_works_example :
    (t : Tenant) × ((post_tenant world (some data_of) db).0
      ≡ created (new_tenant t (generated_key world)))
    × (outcome ≡ next t)
issued_key_works_example =
    issued_key_works world data_of db (λ t k. none) 100 50 created_tenant IsUnused-key named refl
      (λ t h. refl) (new_client ∷ []) new_client outcome new_listed refl (omega arith)
