-- ===== src/Telemetry/Conservation.antt =====
-- Where the jobs go that are offered to the recorder.
use chainmesh.Base.{
  ℕ, ◌+◌, ◌≡◌, refl, Bool, true, false, not, ◌||◌, Option, none, some, List, [], ◌∷◌, arith, ltb,
  length, tally, tally-append, if◌then◌else◌, inl, inr, Bool-cases,
}
use chainmesh.Proxy.{Recorded}
use chainmesh.Telemetry.{
  Kind, kind_usage, kind_request_log, kind_of, Recorder, start, stop, drop_job, send, enqueue,
  Outcome, wrote, gave_up, abandoned, process, times, after_process, finish, take, Event, offers,
  sends, finishes, Step, start_step, stop_step, offer_step, send_step, take_step, finish_step,
  drain_step, end_step, Run, at_rest, followed,
}

-- A metric's label is the kind k.
unfoldable pub is_kind : Kind → Kind → Bool
is_kind kind_usage kind_usage = true
is_kind kind_request_log kind_request_log = true
is_kind _ _ = false

abbrev pub of_kind : Kind → Recorded → Bool
of_kind k j = is_kind k (kind_of j)

abbrev pub one : Bool → ℕ
one b = if b then 1 else 0

abbrev in_process : Kind → Option Recorded → ℕ
in_process k none = 0
in_process k (some j) = one (of_kind k j)

-- The jobs of a kind that are written, counted as dropped, in the channel, or in process.
abbrev pub accounted : Kind → Recorder → ℕ
accounted k r =
    tally (of_kind k) r.written
    + tally (is_kind k) r.dropped
    + tally (of_kind k) r.queue
    + in_process k r.busy

-- The jobs of a kind that an event offers; a late send is an offer.
unfoldable pub offered : Kind → Event → ℕ
offered k (offers j) = one (of_kind k j)
offered k (sends j) = one (of_kind k j)
offered k _ = 0

unfoldable pub is_abandoned : Outcome → Bool
is_abandoned abandoned = true
is_abandoned _ = false

-- A job that `process` returned from without writing it or counting it.
unfoldable pub forgotten : Kind → Event → ℕ
unfolding is_abandoned
forgotten k (finishes j fate) = if is_abandoned (process fate).0 then one (of_kind k j) else 0
forgotten k _ = 0

unfoldable pub total : (Event → ℕ) → List Event → ℕ
total f [] = 0
total f (e ∷ es) = f e + total f es

module _ (k : Kind) where
  drop_job-accounted :
      (j : Recorded) (r : Recorder) → accounted k (drop_job j r) ≡ accounted k r + one (of_kind k j)
  unfolding drop_job
  drop_job-accounted j r = omega arith

  enqueue-accounted :
      (j : Recorded) (r : Recorder) → accounted k (enqueue j r) ≡ accounted k r + one (of_kind k j)
  unfolding enqueue send
  enqueue-accounted j r = elim (Bool-cases (not r.started || r.cancelled)) [
    | inl closed ↦ rw (closed, enqueue, send) (drop_job-accounted j r)
    | inr open_ ↦ elim (Bool-cases (ltb (length r.queue) r.capacity)) [
      | inl room ↦
          rw (open_, room, enqueue, send) (omega (arith, tally-append (of_kind k) r.queue (j ∷ [])))
      | inr full ↦ rw (open_, full, enqueue, send) (drop_job-accounted j r)
    ]
  ]

  send-accounted :
      (j : Recorded) (r : Recorder) → accounted k (send j r) ≡ accounted k r + one (of_kind k j)
  unfolding send
  send-accounted j r = elim (Bool-cases (ltb (length r.queue) r.capacity)) [
    | inl room ↦ rw (room, send) (omega (arith, tally-append (of_kind k) r.queue (j ∷ [])))
    | inr full ↦ rw (full, send) (drop_job-accounted j r)
  ]

  after_process-accounted :
      (j : Recorded) (o : Outcome) (r : Recorder)
      → accounted k (after_process j o r) + (if is_abandoned o then one (of_kind k j) else 0)
        ≡ accounted k r + one (of_kind k j)
  unfolding after_process is_abandoned
  after_process-accounted j wrote r = omega arith
  after_process-accounted j gave_up r = omega (arith, drop_job-accounted j r)
  after_process-accounted j abandoned r = omega arith

  Step-accounted :
      {r r' : Recorder} {e : Event}
      → Step r e r'
      → accounted k r' + forgotten k e ≡ accounted k r + offered k e
  unfolding start stop take finish forgotten offered
  Step-accounted (start_step h) = refl
  Step-accounted {r} stop_step = ground arith
  Step-accounted {r} (offer_step j) = omega (arith, enqueue-accounted j r)
  Step-accounted {r} (send_step j h) = omega (arith, send-accounted j r)
  Step-accounted {r} (take_step j js w b q) = rw (b, q) (omega arith)
  Step-accounted {r} (finish_step j fate b f) =
      let after =
        after_process-accounted j (process fate).0
          (record r { busy = none; failures = times (process fate).1 (kind_of j) r.failures }) in
      rw b (omega (arith, after))
  Step-accounted (drain_step w b c) = refl
  Step-accounted (end_step w b) = refl

  pub Run-accounted :
      {r r' : Recorder} {es : List Event}
      → Run r es r'
      → accounted k r' + total (forgotten k) es ≡ accounted k r + total (offered k) es
  unfolding total
  Run-accounted at_rest = refl
  Run-accounted (followed s rest) = omega (arith, Step-accounted s, Run-accounted rest)
