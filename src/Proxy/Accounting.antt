-- ===== src/Proxy/Accounting.antt =====
-- Every request of a tenant is accounted for once, with the outcome that its answer shows.
use chainmesh.Base.{ℕ, ◌≡◌, ◌↔◌, ◌⊎◌, String, Bool, true, false, Option, some, ◌∷◌, ◌++◌}
use chainmesh.Model.{Tenant}
use chainmesh.Json.{Codec}
use chainmesh.Redis.Texts.{Texts}
use chainmesh.Proxy.{Request, Response, Label, success, request_log, World}
use chainmesh.Proxy.Entry.{Entry}
use chainmesh.Proxy.Outcome.{usage_of, log_of}
use chainmesh.Proxy.Cases.{Fits}

-- One request log more, with the tenant and the request's ID, and a usage record of the method if
-- there is one. The network, the method and the bytes are those of the request. The label goes with the
-- HTTP status, and the hit mark with the X-Cache header.
pub record IsAccounted {texts : Texts} (codec : Codec) (t : Tenant) (r : Request) (w : World texts)
    (p : Response × World texts) : Type 0 where
  pub network : String
  pub method : String
  pub label : Label
  pub hit : Bool
  pub bytes_in : ℕ
  pub entry : Entry codec t r network method label bytes_in
  pub recorded :
      p.1.recorded
      ≡ request_log (log_of t network method label hit r bytes_in)
        ∷ (usage_of t method r bytes_in ++ w.recorded)
  pub status : Fits label p.0.status
  pub hit_shown : (hit ≡ true) ↔ (p.0.x_cache ≡ some "HIT")
  pub hit_succeeds : (hit ≡ false) ⊎ (label ≡ success)
