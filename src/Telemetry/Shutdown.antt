-- ===== src/Telemetry/Shutdown.antt =====
-- How the goroutine of the recorder ends after Stop.
use mathlib.Core.Bool.{false≢true}
use chainmesh.Base.{
  ℕ, ◌+◌, ◌*◌, ◌≤◌, ◌≡◌, ◌⊎◌, refl, sym, ◌∙◌, Bool, true, false, Option, none, some, List, arith,
  length, length-append, ltb, [], ◌∷◌, Bool-cases, tally, inl, inr, Option-cases, if◌then◌else◌,
}
use chainmesh.Base.Int.{ℤ}
use chainmesh.Proxy.{Recorded}
use chainmesh.Telemetry.{
  send, times, kind_of, Kind, Worker, absent, running, draining, ended, Recorder, new_recorder,
  start, stop, drop_job, enqueue, Fate, Outcome, wrote, gave_up, abandoned, process, after_process,
  finish, take, Event, starts, stops, drains, ends, offers, sends, takes, finishes, IsFeasible,
  Step, start_step, stop_step, offer_step, send_step, take_step, finish_step, drain_step, end_step,
  Run, at_rest, followed,
}
use chainmesh.Telemetry.Placed.{
  IsPlaced, send-Same, enqueue-Same, after_process-Same, Run-IsPlaced, new_recorder-IsPlaced,
}
use chainmesh.Telemetry.Bounds.{Run-IsSound, Run-capacity, new_recorder-IsSound}
use chainmesh.Telemetry.Loss.{after_process-cancelled, send-cancelled, enqueue-cancelled}

-- The steps of the goroutine; the others are the callers'.
abbrev pub is_work : Event → Bool
is_work starts = false
is_work stops = false
is_work (offers j) = false
is_work (sends j) = false
is_work drains = true
is_work ends = true
is_work (takes j) = true
is_work (finishes j fate) = true

-- A send of a caller that had looked at the context before.
abbrev pub is_late : Event → Bool
is_late (sends j) = true
is_late _ = false

abbrev phases_left : Worker → ℕ
phases_left absent = 0
phases_left running = 2
phases_left draining = 1
phases_left ended = 0

abbrev held : Option Recorded → ℕ
held none = 0
held (some j) = 1

-- The most steps that the goroutine can still take.
abbrev work_left : Recorder → ℕ
work_left r = 2 * length r.queue + held r.busy + phases_left r.worker

-- The goroutine has returned, with no job in process.
pub record IsIdle (r : Recorder) : Type 0 where
  pub returned : r.worker ≡ ended
  pub free : r.busy ≡ none

-- A step of the goroutine is possible.
pub data CanWork (r : Recorder) : Type 0 where
  work : (e : Event) (r' : Recorder) → is_work e ≡ true → Step r e r' → CanWork r

pub record IsStopped (r : Recorder) : Type 0 where
  pub running_once : r.started ≡ true
  pub closed : r.cancelled ≡ true

-- The end of a job leaves one step less to do.
finished-work_left :
    (j : Recorded) (o : Outcome) (ks : List Kind) (r : Recorder)
    → r.busy ≡ some j
    → 1 + work_left (after_process j o (record r { busy = none; failures = ks })) ≤ work_left r
unfolding after_process drop_job
finished-work_left j wrote ks r b = rw b (omega arith)
finished-work_left j gave_up ks r b = rw b (omega arith)
finished-work_left j abandoned ks r b = rw b (omega arith)

-- A step after Stop; one of the goroutine leaves less to do.
Step-IsStopped : {r r' : Recorder} {e : Event} → Step r e r' → IsStopped r → IsStopped r'
unfolding start stop take finish
Step-IsStopped (start_step h) s = absurd (false≢true (sym h ∙ s.running_once))
Step-IsStopped {r} stop_step s = rw s.running_once (record { running_once = refl; closed = refl })
Step-IsStopped {r} (offer_step j) s =
    let k = enqueue-Same j r in
    record {
      running_once = k.same_started ∙ s.running_once;
      closed = enqueue-cancelled j r ∙ s.closed;
    }
Step-IsStopped {r} (send_step j h) s =
    let k = send-Same j r in
    record {
      running_once = k.same_started ∙ s.running_once;
      closed = send-cancelled j r ∙ s.closed;
    }
Step-IsStopped (take_step j js v b q) s = record {
  running_once = s.running_once;
  closed = s.closed;
}
Step-IsStopped (finish_step j fate b f) s =
    let k = after_process-Same j (process fate).0 _ in
    record {
      running_once = k.same_started ∙ s.running_once;
      closed = after_process-cancelled j (process fate).0 _ ∙ s.closed;
    }
Step-IsStopped (drain_step v b c) s = record { running_once = s.running_once; closed = s.closed }
Step-IsStopped (end_step v b) s = record { running_once = s.running_once; closed = s.closed }

ticks : Event → ℕ
ticks e = if is_work e then 1 else 0

late : Event → ℕ
late e = if is_late e then 1 else 0

send-work_left : (j : Recorded) (r : Recorder) → work_left (send j r) ≤ work_left r + 2
unfolding send drop_job
send-work_left j r = elim (Bool-cases (ltb (length r.queue) r.capacity)) [
  | inl room ↦ let l = length-append r.queue (j ∷ []) in rw (room, send) (omega (arith, l))
  | inr full ↦ rw (full, send) (omega arith)
]

Step-work_left :
    {r r' : Recorder} {e : Event}
    → Step r e r'
    → IsStopped r
    → ticks e + work_left r' ≤ work_left r + 2 * late e
unfolding start stop take finish enqueue drop_job ticks late
Step-work_left (start_step h) s = absurd (false≢true (sym h ∙ s.running_once))
Step-work_left stop_step s = rw s.running_once (omega arith)
Step-work_left (offer_step j) s = rw (s.running_once, s.closed) (omega arith)
Step-work_left {r} (send_step j h) s = let w = send-work_left j r in omega (arith, w)
Step-work_left (take_step j js v b q) s = rw (b, q) (omega arith)
Step-work_left {r} (finish_step j fate b f) s =
    let h =
      finished-work_left j (process fate).0 (times (process fate).1 (kind_of j) r.failures) r b in
    omega (arith, h)
Step-work_left (drain_step v b c) s = rw v (omega arith)
Step-work_left (end_step v b) s = rw v (omega arith)

Run-work_left :
    {r r' : Recorder} {es : List Event}
    → Run r es r'
    → IsStopped r
    → (tally is_work es + work_left r' ≤ work_left r + 2 * tally is_late es) × IsStopped r'
unfolding ticks late
Run-work_left at_rest s = (omega arith, s)
Run-work_left (followed step rest) s =
    let (later, s') = Run-work_left rest (Step-IsStopped step s) in
    let now = Step-work_left step s in (omega (arith, later, now), s')

-- All attempts succeed, or the wait after the first is cut off.
abbrev feasible : Bool → Fate
feasible down = record { fails = λ i. down; done = λ i. true }

feasible-IsFeasible : (down : Bool) (r : Recorder) → IsStopped r → IsFeasible (feasible down) r
feasible-IsFeasible down r s = record { after_stop = λ i e. s.closed; in_drain = λ i e. refl }

on_worker :
    (w : Worker) (r : Recorder)
    → r.worker ≡ w
    → r.busy ≡ none
    → IsPlaced r
    → IsStopped r
    → IsIdle r ⊎ CanWork r
on_worker absent r e b p s = absurd (p.present s.running_once e)
on_worker running r e b p s = inr (work drains _ refl (drain_step e b s.closed))
on_worker draining r e b p s = inr (work ends _ refl (end_step e b))
on_worker ended r e b p s = inl (record { returned = e; free = b })

-- A stopped recorder's goroutine has returned, or it can take a step.
can_work : (r : Recorder) → IsPlaced r → IsStopped r → IsIdle r ⊎ CanWork r
can_work r p s = elim (Option-cases r.busy) [
  | inl b ↦ on_worker r.worker r refl b p s
  | inr (j, b) ↦ inr (
      work (finishes j (feasible false)) _ refl
        (finish_step j (feasible false) b (feasible-IsFeasible false r s)))
]

phases_left-bound : (w : Worker) → phases_left w ≤ 2
phases_left-bound absent = omega arith
phases_left-bound running = omega arith
phases_left-bound draining = omega arith
phases_left-bound ended = omega arith

held-bound : (b : Option Recorded) → held b ≤ 1
held-bound none = omega arith
held-bound (some j) = omega arith

-- After Stop of a recorder that was started, whatever is offered meanwhile, the goroutine takes at most
-- two steps for each job that the channel has room for and for each late send, of a caller that had looked
-- at the context before Stop, and three more, and until it has returned without a job in process, a step of it
-- is possible.
pub Run-ends :
    (size : ℤ) {r r' : Recorder} {es later : List Event}
    → Run (new_recorder size) es r
    → r.started ≡ true
    → r.cancelled ≡ true
    → Run r later r'
    → (tally is_work later ≤ 2 * ((new_recorder size).capacity + tally is_late later) + 3)
      × (IsIdle r' ⊎ CanWork r')
Run-ends size {r} {r'} run on off after =
    let stopped : IsStopped r = record { running_once = on; closed = off } in
    let sound = Run-IsSound run (new_recorder-IsSound size) in
    let (bound, stopped') = Run-work_left after stopped in
    let p = Run-IsPlaced after (Run-IsPlaced run (new_recorder-IsPlaced size)) in
    let full : length r.queue ≤ (new_recorder size).capacity =
      rw (← Run-capacity run) sound.bounded in
    (
      omega (arith, bound, full, phases_left-bound r.worker, held-bound r.busy),
      can_work r' p stopped',
    )
