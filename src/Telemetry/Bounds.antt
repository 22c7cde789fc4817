-- ===== src/Telemetry/Bounds.antt =====
-- How many jobs the recorder can hold.
use chainmesh.Base.{
  ◌≤◌, ◌<◌, ◌≡◌, refl, ◌∙◌, false, not, ◌||◌, List, [], ◌∷◌, arith, ltb, length, length-append, inl,
  inr, Bool-cases,
}
use chainmesh.Base.Int.{ℤ}
use chainmesh.Proxy.{Recorded}
use chainmesh.Telemetry.{
  Recorder, new_recorder, start, stop, drop_job, send, enqueue, Outcome, wrote, gave_up, abandoned,
  process, after_process, finish, take, Event, Step, start_step, stop_step, offer_step, send_step,
  take_step, finish_step, drain_step, end_step, Run, at_rest, followed,
}

-- The channel's bound, and that there is no Stop before Start.
pub record IsSound (r : Recorder) : Type 0 where
  pub room : 0 < r.capacity
  pub bounded : length r.queue ≤ r.capacity
  pub open_ : r.started ≡ false → r.cancelled ≡ false

drop_job-IsSound : (j : Recorded) (r : Recorder) → IsSound r → IsSound (drop_job j r)
unfolding drop_job
drop_job-IsSound j r w = record { room = w.room; bounded = w.bounded; open_ = w.open_ }

enqueue-IsSound : (j : Recorded) (r : Recorder) → IsSound r → IsSound (enqueue j r)
unfolding enqueue send
enqueue-IsSound j r w = elim (Bool-cases (not r.started || r.cancelled)) [
  | inl closed ↦ rw (closed, enqueue, send) (drop_job-IsSound j r w)
  | inr live ↦ elim (Bool-cases (ltb (length r.queue) r.capacity)) [
    | inl space ↦
        rw (live, space, enqueue, send)
          (record {
            room = w.room;
            bounded = let l = length-append r.queue (j ∷ []) in ground arith;
            open_ = w.open_;
          })
    | inr full ↦ rw (live, full, enqueue, send) (drop_job-IsSound j r w)
  ]
]

send-IsSound : (j : Recorded) (r : Recorder) → IsSound r → IsSound (send j r)
unfolding send
send-IsSound j r w = elim (Bool-cases (ltb (length r.queue) r.capacity)) [
  | inl space ↦
      rw (space, send)
        (record {
          room = w.room;
          bounded = let l = length-append r.queue (j ∷ []) in ground arith;
          open_ = w.open_;
        })
  | inr full ↦ rw (full, send) (drop_job-IsSound j r w)
]

after_process-IsSound :
    (j : Recorded) (o : Outcome) (r : Recorder) → IsSound r → IsSound (after_process j o r)
unfolding after_process
after_process-IsSound j wrote r w = record { room = w.room; bounded = w.bounded; open_ = w.open_ }
after_process-IsSound j gave_up r w = drop_job-IsSound j r w
after_process-IsSound j abandoned r w = w

pub Step-IsSound : {r r' : Recorder} {e : Event} → Step r e r' → IsSound r → IsSound r'
unfolding start stop take finish
Step-IsSound (start_step h) w = record { room = w.room; bounded = w.bounded; open_ = λ e. refl }
Step-IsSound {r} stop_step w = record {
  room = ground arith;
  bounded = ground arith;
  open_ = ground arith;
}
Step-IsSound {r} (offer_step j) w = enqueue-IsSound j r w
Step-IsSound {r} (send_step j h) w = send-IsSound j r w
Step-IsSound {r} (take_step j js v b q) w = record {
  room = w.room;
  bounded = let h : length (j ∷ js) ≤ r.capacity = rw q at w.bounded in omega arith;
  open_ = w.open_;
}
Step-IsSound {r} (finish_step j fate b f) w =
    after_process-IsSound j (process fate).0 _
      (record { room = w.room; bounded = w.bounded; open_ = w.open_ })
Step-IsSound (drain_step v b c) w = record { room = w.room; bounded = w.bounded; open_ = w.open_ }
Step-IsSound (end_step v b) w = record { room = w.room; bounded = w.bounded; open_ = w.open_ }

pub Run-IsSound : {r r' : Recorder} {es : List Event} → Run r es r' → IsSound r → IsSound r'
Run-IsSound at_rest w = w
Run-IsSound (followed s rest) w = Run-IsSound rest (Step-IsSound s w)

pub new_recorder-IsSound : (size : ℤ) → IsSound (new_recorder size)
unfolding new_recorder
new_recorder-IsSound size = record { room = ground arith; bounded = omega arith; open_ = λ h. refl }

after_process-capacity :
    (j : Recorded) (o : Outcome) (r : Recorder) → (after_process j o r).capacity ≡ r.capacity
unfolding after_process drop_job
after_process-capacity j wrote r = refl
after_process-capacity j gave_up r = refl
after_process-capacity j abandoned r = refl

Step-capacity : {r r' : Recorder} {e : Event} → Step r e r' → r'.capacity ≡ r.capacity
unfolding start stop take finish enqueue send drop_job after_process
Step-capacity (start_step h) = refl
Step-capacity {r} stop_step = ground arith
Step-capacity {r} (offer_step j) = ground arith
Step-capacity {r} (send_step j h) = ground arith
Step-capacity (take_step j js v b q) = refl
Step-capacity {r} (finish_step j fate b f) = after_process-capacity j (process fate).0 _
Step-capacity (drain_step v b c) = refl
Step-capacity (end_step v b) = refl

pub Run-capacity : {r r' : Recorder} {es : List Event} → Run r es r' → r'.capacity ≡ r.capacity
Run-capacity at_rest = refl
Run-capacity (followed s rest) = Run-capacity rest ∙ Step-capacity s

-- Whatever is offered and whatever the database does, the recorder never holds more jobs than its
-- buffer size, or 4096 if that is not positive, and the one in process.
pub Run-bounded :
    (size : ℤ) {r : Recorder} {es : List Event}
    → Run (new_recorder size) es r
    → length r.queue ≤ (new_recorder size).capacity
Run-bounded size run =
    let sound = Run-IsSound run (new_recorder-IsSound size) in rw (← Run-capacity run) sound.bounded
