-- ===== src/Client/History.antt =====
-- The health map against the history of the critical sections of the client, in any interleaving
-- of calls and probes.
use native.Mathlib.Nat.{add-zero}
use mathlib.Core.Path.{subst₂}
use chainmesh.Base.{
  contains, ℕ, ◌+◌, ◌≤◌, ap, ◌<◌, ◌^◌, String, ◌≡◌, refl, Bool, true, false, some, List, [], ◌∷◌,
  ◌==◌, eq_iff, arith, ltb, length, tally, if◌then◌else◌, ◌⊎◌, inl, inr, Bool-cases,
}
use chainmesh.Base.Int.{int_inc_lem, int_ge_lem}
use chainmesh.Base.Dict.{Dict, lookup, insert, lookup-insert}
use chainmesh.Json.{Codec}
use chainmesh.Client.{
  Client, EndpointHealth, fresh, fresh_entries, new, entry, store, succeeded, failed, one_more_fail,
  mark_success, mark_failure,
}
use chainmesh.Client.Probe.{Exchange, probe_ok, probed, check_endpoint}

-- A critical section under `healthMu`.
pub data Section : Type 0 where
  success : (url : String) (latency now : ℕ) → Section
  failure : (url : String) (now : ℕ) → Section
  probe : (url : String) → Exchange → Section

unfoldable pub section : Codec → Client → Section → Client
section codec c (success url latency now) = mark_success c url latency now
section codec c (failure url now) = mark_failure c url now
section codec c (probe url x) = check_endpoint codec c url x

unfoldable pub sections : Codec → Client → List Section → Client
sections codec c [] = c
sections codec c (s ∷ ss) = sections codec (section codec c s) ss

-- The failures in a row of one endpoint at the end of a history, after n before it.
unfoldable pub after_section : Codec → String → ℕ → Section → ℕ
after_section codec ep n (success url latency now) = if url == ep then 0 else n
after_section codec ep n (failure url now) = if url == ep then n + 1 else n
after_section codec ep n (probe url x) =
    if url == ep then (if probe_ok codec x.reply then 0 else n + 1) else n

unfoldable pub streak : Codec → String → ℕ → List Section → ℕ
streak codec ep n [] = n
streak codec ep n (s ∷ ss) = streak codec ep (after_section codec ep n s) ss

abbrev pub is_success : String → Section → Bool
is_success ep (success url latency now) = url == ep
is_success ep _ = false

abbrev pub is_failure : String → Section → Bool
is_failure ep (failure url now) = url == ep
is_failure ep _ = false

-- The entry of an endpoint says: n failures in a row, r calls that succeeded, f that failed.
pub record Tells (h : EndpointHealth) (n r f : ℕ) : Type 0 where
  pub fails : h.consecutive_fails ≡ n
  pub health : h.healthy ≡ ltb n 3
  pub requests : h.total_requests ≡ r
  pub failures : h.total_failures ≡ f

succeeded-Tells :
    (h : EndpointHealth) (n r f latency now : ℕ)
    → r + 1 < 2 ^ 63
    → Tells h n r f
    → Tells (succeeded h latency now) 0 (r + 1) f
unfolding succeeded
succeeded-Tells h n r f latency now b t = ground (arith, int_inc_lem h.total_requests)

one_more_fail-Tells :
    (h : EndpointHealth) (n r f : ℕ)
    → n + 1 < 2 ^ 63
    → Tells h n r f
    → Tells (one_more_fail h) (n + 1) r f
unfolding one_more_fail
one_more_fail-Tells h n r f b t =
    ground (arith, int_inc_lem h.consecutive_fails, int_ge_lem (n + 1) 3)

failed-Tells :
    (h : EndpointHealth) (n r f now : ℕ)
    → n + 1 < 2 ^ 63
    → f + 1 < 2 ^ 63
    → Tells h n r f
    → Tells (failed h now) (n + 1) r (f + 1)
unfolding failed
failed-Tells h n r f now b b' t =
    ground (arith, one_more_fail-Tells h n r f b t, int_inc_lem h.total_failures)

probed-Tells :
    (codec : Codec) (h : EndpointHealth) (x : Exchange) (n r f : ℕ)
    → n + 1 < 2 ^ 63
    → Tells h n r f
    → Tells (probed codec h x) (if probe_ok codec x.reply then 0 else n + 1) r f
unfolding probed
probed-Tells codec h x n r f b t =
    let seen = record h { last_check = x.start; latency = x.latency } in
    let s : Tells seen n r f = ground arith in ground (arith, one_more_fail-Tells seen n r f b s)

-- The client's map has an entry of the endpoint, and it says so.
pub record Tracks (c : Client) (ep : String) (n r f : ℕ) : Type 0 where
  pub health : EndpointHealth
  pub found : lookup ep c.health ≡ some health
  pub tells : Tells health n r f

store-Tracks :
    (c : Client) (ep url : String) (h : EndpointHealth) (n r f n' r' f' : ℕ)
    → Tracks c ep n r f
    → (url ≡ ep → Tells h n' r' f')
    → ((url == ep) ≡ false → (n' ≡ n) × (r' ≡ r) × (f' ≡ f))
    → Tracks (store c url h) ep n' r' f'
unfolding store
store-Tracks c ep url h n r f n' r' f' t written kept = elim (Bool-cases (url == ep)) [
  | inl same ↦ record {
    health = h;
    found = rw (lookup-insert, same) refl;
    tells = written ((eq_iff url ep).0 same);
  }
  | inr other ↦ record {
    health = t.health;
    found = rw (lookup-insert, other) t.found;
    tells = let k = kept other in rw (k.0, k.1, k.2) t.tells;
  }
]

entry-Tells :
    (c : Client) (ep url : String) (n r f : ℕ)
    → Tracks c ep n r f
    → url ≡ ep
    → Tells (entry c url) n r f
unfolding entry
entry-Tells c ep url n r f t e = rw (e, t.found) t.tells

next_requests : String → Section → ℕ → ℕ
next_requests ep s r = if is_success ep s then r + 1 else r

next_failures : String → Section → ℕ → ℕ
next_failures ep s f = if is_failure ep s then f + 1 else f

section-Tracks :
    (codec : Codec) (c : Client) (ep : String) (s : Section) (n r f : ℕ)
    → n + 1 < 2 ^ 63
    → r + 1 < 2 ^ 63
    → f + 1 < 2 ^ 63
    → Tracks c ep n r f
    → Tracks
        (section codec c s)
        ep
        (after_section codec ep n s)
        (next_requests ep s r)
        (next_failures ep s f)
unfolding section after_section next_requests next_failures mark_success mark_failure check_endpoint
section-Tracks codec c ep (success url latency now) n r f bn br bf t =
    store-Tracks c ep url (succeeded (entry c url) latency now) n r f _ _ _ t
      (λ e.
        let h =
          succeeded-Tells (entry c url) n r f latency now br (entry-Tells c ep url n r f t e) in
        rw ((eq_iff url ep).1 e) h)
      (λ e. rw e (refl, refl, refl))
section-Tracks codec c ep (failure url now) n r f bn br bf t =
    store-Tracks c ep url (failed (entry c url) now) n r f _ _ _ t
      (λ e.
        let h = failed-Tells (entry c url) n r f now bn bf (entry-Tells c ep url n r f t e) in
        rw ((eq_iff url ep).1 e) h)
      (λ e. rw e (refl, refl, refl))
section-Tracks codec c ep (probe url x) n r f bn br bf t =
    store-Tracks c ep url (probed codec (entry c url) x) n r f _ _ _ t
      (λ e.
        let h = probed-Tells codec (entry c url) x n r f bn (entry-Tells c ep url n r f t e) in
        rw ((eq_iff url ep).1 e) h)
      (λ e. rw e (refl, refl, refl))

after_section-le :
    (codec : Codec) (ep : String) (n : ℕ) (s : Section) → after_section codec ep n s ≤ n + 1
unfolding after_section
after_section-le codec ep n (success url latency now) = ground arith
after_section-le codec ep n (failure url now) = ground arith
after_section-le codec ep n (probe url x) = ground arith

next_requests-add :
    (ep : String) (s : Section) (ss : List Section) (r : ℕ)
    → next_requests ep s r + tally (is_success ep) ss ≡ r + tally (is_success ep) (s ∷ ss)
unfolding next_requests
next_requests-add ep s ss r = ground arith

next_failures-add :
    (ep : String) (s : Section) (ss : List Section) (f : ℕ)
    → next_failures ep s f + tally (is_failure ep) ss ≡ f + tally (is_failure ep) (s ∷ ss)
unfolding next_failures
next_failures-add ep s ss f = ground arith

next_requests-le : (ep : String) (s : Section) (r : ℕ) → next_requests ep s r ≤ r + 1
unfolding next_requests
next_requests-le ep s r = ground arith

next_failures-le : (ep : String) (s : Section) (f : ℕ) → next_failures ep s f ≤ f + 1
unfolding next_failures
next_failures-le ep s f = ground arith

sections-Tracks :
    (codec : Codec) (c : Client) (ep : String) (ss : List Section) (n r f : ℕ)
    → n + length ss < 2 ^ 63
    → r + length ss < 2 ^ 63
    → f + length ss < 2 ^ 63
    → Tracks c ep n r f
    → Tracks
        (sections codec c ss)
        ep
        (streak codec ep n ss)
        (r + tally (is_success ep) ss)
        (f + tally (is_failure ep) ss)
unfolding sections streak
sections-Tracks codec c ep [] n r f bn br bf t = rw (add-zero r, add-zero f) t
sections-Tracks codec c ep (s ∷ ss) n r f bn br bf t =
    let t' = section-Tracks codec c ep s n r f (omega arith) (omega arith) (omega arith) t in
    let ih =
      sections-Tracks codec (section codec c s) ep ss _ _ _
        (omega (arith, after_section-le codec ep n s)) (omega (arith, next_requests-le ep s r))
        (omega (arith, next_failures-le ep s f)) t' in
    subst₂ (Tracks (sections codec (section codec c s) ss) ep _) (next_requests-add ep s ss r)
      (next_failures-add ep s ss f) ih

-- After the loop of `New` an endpoint has the entry that the loop gives it.
inserted_or_found :
    (ep e : String) (eps : List String) (m : Dict EndpointHealth)
    → (contains ep (e ∷ eps) ≡ true) ⊎ (lookup ep m ≡ some (fresh ep))
    → (contains ep eps ≡ true) ⊎ (lookup ep (insert e (fresh e) m) ≡ some (fresh ep))
inserted_or_found ep e eps m h = elim (Bool-cases (e == ep)) [
  | inl same ↦ inr (rw (lookup-insert, same) (ap (λ u. some (fresh u)) ((eq_iff e ep).0 same)))
  | inr other ↦ elim h [ inl c ↦ inl (rw other at c) | inr l ↦ inr (rw (lookup-insert, other) l) ]
]

fresh_entries-lookup :
    (ep : String) (eps : List String) (m : Dict EndpointHealth)
    → (contains ep eps ≡ true) ⊎ (lookup ep m ≡ some (fresh ep))
    → lookup ep (fresh_entries eps m) ≡ some (fresh ep)
unfolding fresh_entries
fresh_entries-lookup ep [] m (inl h) = cc
fresh_entries-lookup ep [] m (inr h) = h
fresh_entries-lookup ep (e ∷ eps) m h =
    fresh_entries-lookup ep eps (insert e (fresh e) m) (inserted_or_found ep e eps m h)

new-Tracks : (ep : String) (eps : List String) → contains ep eps ≡ true → Tracks (new eps) ep 0 0 0
unfolding new
new-Tracks ep eps h = record {
  health = fresh ep;
  found = fresh_entries-lookup ep eps [] (inl h);
  tells = ground arith;
}

-- After any interleaving of fewer than 2^63 critical sections on a new client, the map still has an
-- entry of each configured endpoint. Its failure count is the number of failures since the last
-- success or good probe, it is healthy exactly while these are fewer than three, and its two totals
-- count the calls of this endpoint that succeeded and that failed, and no others.
pub sections-new-Tracks :
    (codec : Codec) (eps : List String) (ep : String) (ss : List Section)
    → contains ep eps ≡ true
    → length ss < 2 ^ 63
    → Tracks
        (sections codec (new eps) ss)
        ep
        (streak codec ep 0 ss)
        (tally (is_success ep) ss)
        (tally (is_failure ep) ss)
sections-new-Tracks codec eps ep ss h b =
    subst₂ (Tracks (sections codec (new eps) ss) ep (streak codec ep 0 ss)) (omega arith)
      (omega arith)
      (sections-Tracks codec (new eps) ep ss 0 0 0 (omega arith) (omega arith) (omega arith)
        (new-Tracks ep eps h))
