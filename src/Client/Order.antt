-- ===== src/Client/Order.antt =====
-- What endpointsForCall promises: every endpoint is tried, the healthy ones first, the fastest of
-- them first of all.
use mathlib.Core.List.{Perm, Pairwise, Mem, map-append, mem-cons, not-mem-nil, perm_middle}
use mathlib.Core.List.Perm
use mathlib.Core.Logic.Or
use mathlib.Core.Path.{subst}
use chainmesh.Base.{
  ℕ, Option, none, some, ◌≤◌, ◌≡◌, refl, sym, String, Bool, true, false, not, List, [], ◌∷◌, ◌++◌,
  map, arith, keep, Bool-cases, Option-cases, inl, inr,
}
use chainmesh.Base.Dict.{lookup}
use chainmesh.Client.{Client, EndpointHealth}
use chainmesh.Client.Routing.{
  Scored, SortSlice, score_entry, score, is_healthy, is_unhealthy, less, endpoints_for_call,
}

-- What the client knows of an endpoint: one without an entry counts as healthy and has no latency.
abbrev pub known_healthy : Option EndpointHealth → Bool
known_healthy none = true
known_healthy (some h) = h.healthy

abbrev pub known_latency : Option EndpointHealth → ℕ
known_latency none = 0
known_latency (some h) = h.latency

pub record IsRouted (c : Client) (urls : List String) : Type 0 where
  pub healthy : List Scored
  pub unhealthy : List Scored
  pub urls_split : urls ≡ map (λ s. s.url) (healthy ++ unhealthy)
  pub all_tried : Perm urls c.endpoints
  pub healthy_first : (s : Scored) → Mem s healthy → s.healthy ≡ true
  pub unhealthy_last : (s : Scored) → Mem s unhealthy → s.healthy ≡ false
  pub as_known :
      (s : Scored)
      → Mem s (healthy ++ unhealthy)
      → (s.healthy ≡ known_healthy (lookup s.url c.health))
        × (s.latency ≡ known_latency (lookup s.url c.health))
  pub fastest_first : Pairwise (λ a b. a.latency ≤ b.latency) healthy

Bool-set : IsSet Bool
Bool-set = hlevel

not-eq-true : (b : Bool) → not b ≡ true → b ≡ false
not-eq-true b h = ground arith

module _ {A : Type 0} (p : A → Bool) where
  mem-keep : (xs : List A) {a : A} → Mem a (keep p xs) → p a ≡ true
  mem-keep [] m = absurd (not-mem-nil m)
  mem-keep (x ∷ xs) {a} m = elim (Bool-cases (p x)) [
    | inl h ↦ Or.elim (Bool-set (p a) true) (mem-cons.0 (rw h at m)) (λ e. rw e h) (mem-keep xs)
    | inr h ↦ mem-keep xs (rw h at m)
  ]

  keep-perm : (xs : List A) → Perm (keep p xs ++ keep (λ x. not (p x)) xs) xs
  keep-perm [] = Perm.refl []
  keep-perm (x ∷ xs) = elim (Bool-cases (p x)) [
    | inl h ↦ rw h (Perm.cons x (keep-perm xs))
    | inr h ↦ rw h (
        Perm.trans (perm_middle (keep p xs) (keep (λ x. not (p x)) xs))
          (Perm.cons x (keep-perm xs)))
  ]

url-score : (c : Client) (ep : String) → (score c ep).url ≡ ep
unfolding score
url-score c ep = elim (Option-cases (lookup ep c.health)) [
  | inl h ↦ rw (h, score_entry) refl
  | inr (e, h) ↦ rw (h, score_entry) refl
]

urls-score : (c : Client) (eps : List String) → map (λ s. s.url) (map (score c) eps) ≡ eps
urls-score c [] = refl
urls-score c (ep ∷ eps) = cc (url-score c ep, urls-score c eps)

-- A scored endpoint shows what the client's entry of its URL says.
abbrev IsSeen : Client → Scored → Type 0
IsSeen c s =
    (s.healthy ≡ known_healthy (lookup s.url c.health))
    × (s.latency ≡ known_latency (lookup s.url c.health))

score-IsSeen : (c : Client) (ep : String) → IsSeen c (score c ep)
unfolding score
score-IsSeen c ep = elim (Option-cases (lookup ep c.health)) [
  | inl h ↦ rw (h, h) (refl, refl)
  | inr (e, h) ↦ rw (h, h) (refl, refl)
]

IsSeen-prop : (c : Client) (s : Scored) → IsProp (IsSeen c s)
IsSeen-prop c s = hlevel

scores-IsSeen :
    (c : Client) (eps : List String) {s : Scored} → Mem s (map (score c) eps) → IsSeen c s
scores-IsSeen c [] m = absurd (not-mem-nil m)
scores-IsSeen c (ep ∷ eps) {s} m =
    Or.elim (IsSeen-prop c s) (mem-cons.0 m) (λ e. rw e (score-IsSeen c ep)) (scores-IsSeen c eps)

-- The list that a call tries is an arrangement of all the configured endpoints: first those that
-- are healthy by the client's entries, by the ascending latency of these, then the unhealthy ones. An
-- endpoint without an entry counts as healthy and without latency.
pub endpoints_for_call-IsRouted :
    (sort : SortSlice) (c : Client) → IsRouted c (endpoints_for_call sort c)
unfolding endpoints_for_call
endpoints_for_call-IsRouted sort c =
    let scored = map (score c) c.endpoints in
    let healthy = sort.slice less (keep is_healthy scored) in
    let unhealthy = keep is_unhealthy scored in
    let scores : Perm (healthy ++ unhealthy) scored =
      Perm.trans (Perm.append_right unhealthy (sort.slice_perm less _))
        (keep-perm is_healthy scored) in
    record {
      healthy = healthy;
      unhealthy = unhealthy;
      urls_split = sym (map-append _ _ _);
      all_tried = rw (← map-append (λ (s : Scored). s.url) healthy unhealthy) (
          subst (λ us. Perm (map (λ s. s.url) (healthy ++ unhealthy)) us) (urls-score c c.endpoints)
            (Perm.map (λ (s : Scored). s.url) scores));
      healthy_first =
          λ s m. mem-keep is_healthy scored ((Perm.mem_iff (sort.slice_perm less _)).0 m);
      unhealthy_last = λ s m. not-eq-true s.healthy (mem-keep is_unhealthy scored m);
      as_known = λ s m. scores-IsSeen c c.endpoints ((Perm.mem_iff scores).0 m);
      fastest_first = sort.slice_sorted (λ s. s.latency) _;
    }
