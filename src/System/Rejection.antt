-- ===== src/System/Rejection.antt =====
-- A key that is rotated away through the admin service, at the gateway.
use mathlib.Core.List.{Memᴰ}
use mathlib.Core.Bool.{false≢true}
use chainmesh.Base.{
  ℕ, ◌+◌, ◌≤◌, ◌≡◌, ◌≢◌, refl, sym, ap, ◌∙◌, Bool, true, false, String, none, some, List, ◌==◌,
  eq_iff, inl, inr, Bool-cases, Option-cases, arith, All, ltb, if◌then◌else◌,
}
use chainmesh.Base.Members.{All-mem, All-of_mem}
use chainmesh.Auth.{Resolver, Arrival, Outcome, unauthorized, bearer, new_tenant_cache}
use chainmesh.Auth.Staleness.{handle_all}
use chainmesh.Auth.Revocation.{Prompt, revoked_key_stops}
use chainmesh.Store.{Database, KeyRow}
use chainmesh.Store.Keys.{Bcrypt, Lookup, get_tenant_by_api_key}
use chainmesh.Store.Keys.Resolve.{get_tenant_by_api_key-IsAuthorized}
use chainmesh.Store.Tenants.{Making, key_row, rotate_api_key}
use chainmesh.Store.Tenants.Rotation.{rotated_row}
use chainmesh.Admin.{World, Answer, ok, internal, new_key, generated_key, post_rotate_key}
use chainmesh.System.{Operation, rotates, apply, apply_all}
use chainmesh.System.Revocation.{HasP, AllLive, Makes, apply-AllLive, apply_all-AllLive}
use chainmesh.System.Rotation.{rotated_keys}

-- A hash that the key does not match.
abbrev pub Misses : Bcrypt → (key tenant_id hash : String) → Type 0
Misses bcrypt key tenant_id hash = bcrypt.compare hash key ≡ false

-- A hash of another tenant that the key does not match.
abbrev pub Apart : Bcrypt → (key id tenant_id hash : String) → Type 0
Apart bcrypt key id tenant_id hash = tenant_id ≢ id → bcrypt.compare hash key ≡ false

-- What the gateway gets for a key: before a time anything, and from then on what GetTenantByAPIKey answers
-- from a database to which the operations of `history` have been done so far.
unfoldable pub resolver_since :
    Bcrypt → Resolver → ℕ → (ℕ → Lookup) → (ℕ → List Operation) → Database → Resolver
resolver_since bcrypt before revoked trips history db t key =
    if ltb t revoked
    then before t key
    else (get_tenant_by_api_key bcrypt (trips t) key (apply_all bcrypt (history t) db)).0

-- A key that no live row matches resolves to nothing.
pub unmatched :
    (bcrypt : Bcrypt) (key : String) (trips : Lookup) (db : Database)
    → AllLive (Misses bcrypt key) db.api_keys
    → (get_tenant_by_api_key bcrypt trips key db).0 ≡ none
unmatched bcrypt key trips db all =
    elim (Option-cases (get_tenant_by_api_key bcrypt trips key db).0) [
      | inl e ↦ e
      | inr (t, found) ↦
          let a = get_tenant_by_api_key-IsAuthorized bcrypt trips key db t found in
          let missed = All-mem (HasP (Misses bcrypt key)) db.api_keys all a.listed a.live in
          absurd (false≢true (sym missed ∙ a.verified))
    ]

-- A rotation leaves no live row that the key matches, if none of another tenant did and the new one does not.
pub rotated-Misses :
    (bcrypt : Bcrypt) (m : Making) (id key old : String) (db : Database)
    → (rotate_api_key bcrypt m id key db).0 ≡ true
    → AllLive (Apart bcrypt old id) db.api_keys
    → bcrypt.compare (bcrypt.generate m.salt key) old ≡ false
    → AllLive (Misses bcrypt old) (rotate_api_key bcrypt m id key db).1.api_keys
unfolding apply key_row
rotated-Misses bcrypt m id key old db done apart fresh = All-of_mem _ _ (λ row listed live.
    elim (Bool-cases (row.tenant_id == id)) [
      | inl mine ↦
          let e =
            rotated_row bcrypt m id key db row (rw (rotated_keys bcrypt m id key db done) at listed)
              live ((eq_iff _ _).0 mine) in
          ap (λ (r : KeyRow). bcrypt.compare r.key_hash old) e ∙ fresh
      | inr other ↦
          All-mem (HasP (Apart bcrypt old id)) _ others listed live
            (λ e. false≢true (sym other ∙ (eq_iff _ _).1 e))
    ])
  where
    others : AllLive (Apart bcrypt old id) (rotate_api_key bcrypt m id key db).1.api_keys
    others =
        apply-AllLive (Apart bcrypt old id) bcrypt (rotates m id key) db
          (λ other. absurd (other refl)) apart

answered_done :
    (done : Bool) (key : String) (answer : Answer)
    → answer ≡ (if done then ok (new_key key) else internal)
    → answer.status ≡ 200
    → done ≡ true
answered_done done key answer e h = ground arith

rotation_done :
    (w : World) (id : String) (db : Database)
    → (post_rotate_key w id db).0.status ≡ 200
    → (rotate_api_key w.bcrypt w.making id (generated_key w) db).0 ≡ true
unfolding post_rotate_key
rotation_done w id db h = answered_done _ (generated_key w) _ refl h

-- If a rotation of a tenant's keys is answered 200, then a key that the tenant had is refused by every
-- gateway whose cache starts empty and that stores answers within a delay, from the time when the delay and
-- the cache's life have passed after the rotation, whatever the services do to the database meanwhile and
-- whatever the resolver answered before, if no live row of another tenant matches the key, and neither the
-- new hash nor a hash made later does.
pub rotated_key_stops :
    (w : World) (id old : String) (db : Database) (before : Resolver) (trips : ℕ → Lookup)
    (history : ℕ → List Operation) (ttl delay revoked : ℕ)
    → (post_rotate_key w id db).0.status ≡ 200
    → AllLive (Apart w.bcrypt old id) db.api_keys
    → w.bcrypt.compare (w.bcrypt.generate w.making.salt (generated_key w)) old ≡ false
    → ((t : ℕ) → All (Makes (Misses w.bcrypt old) w.bcrypt) (history t))
    → (rs : List Arrival)
    → All
        (λ p. Prompt delay p.0)
        (handle_all
          (resolver_since w.bcrypt before revoked trips history (post_rotate_key w id db).1)
          (some (new_tenant_cache ttl))
          rs)
    → (a : Arrival) (o : Outcome)
    → Memᴰ
        (a, o)
        (handle_all
          (resolver_since w.bcrypt before revoked trips history (post_rotate_key w id db).1)
          (some (new_tenant_cache ttl))
          rs)
    → bearer a.authorization ≡ some old
    → revoked ≤ a.resolved
    → revoked + delay + ttl ≤ a.now
    → o ≡ unauthorized
unfolding post_rotate_key resolver_since
rotated_key_stops w id old db before trips history ttl delay revoked done apart fresh later rs =
    revoked_key_stops
      (resolver_since w.bcrypt before revoked trips history (post_rotate_key w id db).1) ttl delay
      revoked old silent rs
  where
    silent :
        (t : ℕ)
        → revoked ≤ t
        → resolver_since w.bcrypt before revoked trips history (post_rotate_key w id db).1 t old
          ≡ none
    silent t h =
        let early : ltb t revoked ≡ false = ground arith in
        let start =
          rotated-Misses w.bcrypt w.making id (generated_key w) old db (rotation_done w id db done)
            apart fresh in
        rw early (
          unmatched w.bcrypt old (trips t) _
            (apply_all-AllLive (Misses w.bcrypt old) w.bcrypt (history t) _ (later t) start))
