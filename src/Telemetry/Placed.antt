-- ===== src/Telemetry/Placed.antt =====
-- Where the goroutine of the recorder is, and what the steps of others leave alone.
use chainmesh.Base.{◌≡◌, ◌≢◌, refl, sym, ◌∙◌, true, none, List, arith}
use chainmesh.Base.Int.{ℤ}
use chainmesh.Proxy.{Recorded}
use chainmesh.Telemetry.{
  Worker, absent, running, draining, ended, Recorder, new_recorder, start, stop, drop_job, send,
  enqueue, Outcome, wrote, gave_up, abandoned, process, after_process, finish, take, Event,
  Receives, in_loop, in_drain, Step, start_step, stop_step, offer_step, send_step, take_step,
  finish_step, drain_step, end_step, Run, at_rest, followed,
}

-- The goroutine is there from Start on, and it returns without a job in process.
pub record IsPlaced (r : Recorder) : Type 0 where
  pub present : r.started ≡ true → r.worker ≢ absent
  pub empty_handed : r.worker ≡ ended → r.busy ≡ none

-- What Stop, `enqueue` and `process` leave alone.
pub record Same (r r' : Recorder) : Type 0 where
  pub same_started : r'.started ≡ r.started
  pub same_worker : r'.worker ≡ r.worker
  pub same_busy : r'.busy ≡ r.busy

pub enqueue-Same : (j : Recorded) (r : Recorder) → Same r (enqueue j r)
unfolding enqueue send drop_job
enqueue-Same j r = record {
  same_started = ground arith;
  same_worker = ground arith;
  same_busy = ground arith;
}

pub send-Same : (j : Recorded) (r : Recorder) → Same r (send j r)
unfolding send drop_job
send-Same j r = record {
  same_started = ground arith;
  same_worker = ground arith;
  same_busy = ground arith;
}

pub after_process-Same : (j : Recorded) (o : Outcome) (r : Recorder) → Same r (after_process j o r)
unfolding after_process drop_job
after_process-Same j wrote r = record { same_started = refl; same_worker = refl; same_busy = refl }
after_process-Same j gave_up r = record {
  same_started = refl;
  same_worker = refl;
  same_busy = refl;
}
after_process-Same j abandoned r = record {
  same_started = refl;
  same_worker = refl;
  same_busy = refl;
}

stop-Same : (r : Recorder) → Same r (stop r)
unfolding stop
stop-Same r = record {
  same_started = ground arith;
  same_worker = ground arith;
  same_busy = ground arith;
}

running-present : running ≢ absent
running-present e = ground arith

draining-present : draining ≢ absent
draining-present e = ground arith

ended-present : ended ≢ absent
ended-present e = ground arith

Receives-open : {w : Worker} → Receives w → w ≢ ended
Receives-open in_loop e = ground arith
Receives-open in_drain e = ground arith

Step-IsPlaced : {r r' : Recorder} {e : Event} → Step r e r' → IsPlaced r → IsPlaced r'
unfolding start stop take finish
Step-IsPlaced (start_step h) p = record {
  present = λ s. running-present;
  empty_handed = λ e. absurd (ground arith);
}
Step-IsPlaced {r} stop_step p =
    let s = stop-Same r in
    record {
      present = λ h e. p.present (sym s.same_started ∙ h) (sym s.same_worker ∙ e);
      empty_handed = λ e. s.same_busy ∙ p.empty_handed (sym s.same_worker ∙ e);
    }
Step-IsPlaced {r} (offer_step j) p =
    let s = enqueue-Same j r in
    record {
      present = λ h e. p.present (sym s.same_started ∙ h) (sym s.same_worker ∙ e);
      empty_handed = λ e. s.same_busy ∙ p.empty_handed (sym s.same_worker ∙ e);
    }
Step-IsPlaced {r} (send_step j on) p =
    let s = send-Same j r in
    record {
      present = λ h e. p.present (sym s.same_started ∙ h) (sym s.same_worker ∙ e);
      empty_handed = λ e. s.same_busy ∙ p.empty_handed (sym s.same_worker ∙ e);
    }
Step-IsPlaced {r} (take_step j js v b q) p = record {
  present = p.present;
  empty_handed = λ e. absurd (Receives-open v e);
}
Step-IsPlaced {r} (finish_step j fate b f) p =
    let s = after_process-Same j (process fate).0 _ in
    record {
      present = λ h e. p.present (sym s.same_started ∙ h) (sym s.same_worker ∙ e);
      empty_handed = λ e. s.same_busy;
    }
Step-IsPlaced (drain_step v b c) p = record {
  present = λ s. draining-present;
  empty_handed = λ e. b;
}
Step-IsPlaced (end_step v b) p = record { present = λ s. ended-present; empty_handed = λ e. b }

pub Run-IsPlaced : {r r' : Recorder} {es : List Event} → Run r es r' → IsPlaced r → IsPlaced r'
Run-IsPlaced at_rest p = p
Run-IsPlaced (followed s rest) p = Run-IsPlaced rest (Step-IsPlaced s p)

pub new_recorder-IsPlaced : (size : ℤ) → IsPlaced (new_recorder size)
unfolding new_recorder
new_recorder-IsPlaced size = record {
  present = λ s. absurd (ground arith);
  empty_handed = λ e. refl;
}
