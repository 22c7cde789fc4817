-- ===== src/Proxy/Purity.antt =====
-- The proxy's cache stays clean over any sequence of requests, and so do the answers with an X-Cache
-- header.
use mathlib.Core.Option.{some-injective}
use mathlib.Core.Path.{subst}
use chainmesh.Base.{
  ◌≡◌, refl, sym, String, Option, none, some, List, [], ◌∷◌, arith, inl, inr, Option-cases,
}
use chainmesh.Model.{Tenant}
use chainmesh.Json.{Codec}
use chainmesh.Redis.Texts.{Text, Texts}
use chainmesh.Client.Routing.{SortSlice}
use chainmesh.Client.Calls.{Net}
use chainmesh.Proxy.{Request, Response, Content, error_message, bytes, World}
use chainmesh.Proxy.Outcome.{fail}
use chainmesh.Proxy.Serve.{hit_answer, plain_answer, store_answer, serve_tenant, serve_http}
use chainmesh.Proxy.Cases.{Leaves, serve_http_cases}
use chainmesh.Proxy.Caching.{IsCleanText, call-clean, serve_http-Stores}

module _ (texts : Texts) (codec : Codec) (sort : SortSlice) (net : Net) where
  -- Every value that a key of the cache holds is a response without an error object.
  abbrev pub IsCleanEntry : Option Text → Type 0
  IsCleanEntry none = Unit
  IsCleanEntry (some x) = IsCleanText codec x.text

  abbrev pub IsClean : World texts → Type 0
  IsClean w = (key : String) → IsCleanEntry (texts.held w.cache key)

  entry-clean :
      (o : Option Text) {x : Text} → o ≡ some x → IsCleanEntry o → IsCleanText codec x.text
  entry-clean none e h = absurd (ground arith)
  entry-clean (some y) e h = subst (λ z. IsCleanText codec z.text) (some-injective _ _ e) h

  clean-entry :
      (o : Option Text) → ((x : Text) → o ≡ some x → IsCleanText codec x.text) → IsCleanEntry o
  clean-entry none h = tt
  clean-entry (some x) h = h x refl

  -- An answer with the X-Cache header is a response without an error object.
  abbrev pub IsCleanAnswer : Option String → Content → Type 0
  IsCleanAnswer none content = Unit
  IsCleanAnswer (some mark) (error_message message) = ⊥
  IsCleanAnswer (some mark) (bytes text) = IsCleanText codec text

  abbrev pub AnswersClean : Response → Type 0
  AnswersClean p = IsCleanAnswer p.x_cache p.content

  -- ServeHTTP on one request after another. The clock, the tenant and the body of each are its own.
  unfoldable pub serve_all : List Request → World texts → List Response × World texts
  serve_all [] w = ([], w)
  serve_all (r ∷ rs) w =
      let (p, w') = serve_http texts codec sort net r w in
      let (ps, w'') = serve_all rs w' in (p ∷ ps, w'')

  answers :
      (t : Tenant) (r : Request) (w : World texts)
      → IsClean w
      → Leaves texts codec sort net t r w (λ p. AnswersClean p.0)
  unfolding fail plain_answer store_answer hit_answer
  answers t r w clean = record {
    failed = λ network method label bytes_in status message w' entry only fits. tt;
    passed = λ network method label resp w' entry only fits. tt;
    stored = λ network req resp client w' ask at only answer good.
        call-clean texts codec sort net r.request_id client req resp answer good;
    hit = λ network req cached ask at caches found.
        let (life, e) = texts.get_held r.now _ w.cache cached found in entry-clean _ e (clean _);
  }

  unauthorized_answers :
      (r : Request) (w : World texts) → AnswersClean (serve_tenant texts codec sort net r none w).0
  unfolding serve_tenant
  unauthorized_answers r w = tt

  serve_http-answers :
      (r : Request) (w : World texts)
      → IsClean w
      → AnswersClean (serve_http texts codec sort net r w).0
  unfolding serve_http
  serve_http-answers r w clean = elim (Option-cases r.tenant) [
    | inl e ↦
        subst (λ u. AnswersClean (serve_tenant texts codec sort net r u w).0) (sym e)
          (unauthorized_answers r w)
    | inr (t, e) ↦
        serve_http_cases texts codec sort net t r w (λ p. AnswersClean p.0) (answers t r w clean) e
  ]

  unauthorized-IsClean :
      (r : Request) (w : World texts)
      → IsClean w
      → IsClean (serve_tenant texts codec sort net r none w).1
  unfolding serve_tenant
  unauthorized-IsClean r w clean = clean

  serve_http-IsClean :
      (r : Request) (w : World texts) → IsClean w → IsClean (serve_http texts codec sort net r w).1
  unfolding serve_http
  serve_http-IsClean r w clean = elim (Option-cases r.tenant) [
    | inl e ↦
        subst (λ u. IsClean (serve_tenant texts codec sort net r u w).1) (sym e)
          (unauthorized-IsClean r w clean)
    | inr (t, e) ↦ λ key. clean-entry _ (λ x h.
        elim (serve_http-Stores texts codec sort net t r w e key x h) [
          | inl old ↦ entry-clean _ old (clean key)
          | inr fresh ↦ fresh.clean
        ])
  ]

  abbrev pub AllClean : List Response → Type 0
  AllClean [] = Unit
  AllClean (p ∷ ps) = AnswersClean p × AllClean ps

  -- Over any sequence of requests that starts with a clean cache, the cache stays clean, and each
  -- answer with an X-Cache header is a JSON-RPC response without an error object.
  pub serve_all-IsClean :
      (rs : List Request) (w : World texts)
      → IsClean w
      → AllClean (serve_all rs w).0 × IsClean (serve_all rs w).1
  unfolding serve_all
  serve_all-IsClean [] w clean = (tt, clean)
  serve_all-IsClean (r ∷ rs) w clean =
      let (later, end) = serve_all-IsClean rs _ (serve_http-IsClean r w clean) in
      ((serve_http-answers r w clean, later), end)
