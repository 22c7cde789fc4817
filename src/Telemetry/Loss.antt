-- ===== src/Telemetry/Loss.antt =====
-- What the recorder loses, and when.
use mathlib.Core.Bool.{false≢true}
use chainmesh.Base.{
  ℕ, zero, suc, ◌+◌, ◌≡◌, refl, sym, ◌∙◌, Bool, true, false, not, List, arith, eqb, if◌then◌else◌,
  inl, inr, Bool-cases,
}
use chainmesh.Base.Int.{ℤ}
use chainmesh.Proxy.{Recorded}
use chainmesh.Telemetry.{
  Kind, Recorder, new_recorder, start, stop, drop_job, send, enqueue, Fate, Outcome, wrote, gave_up,
  abandoned, attempts, process, after_process, finish, take, Event, finishes, IsFeasible, Step,
  start_step, stop_step, offer_step, send_step, take_step, finish_step, drain_step, end_step, Run,
  at_rest, followed,
}
use chainmesh.Telemetry.Conservation.{
  accounted, offered, is_abandoned, forgotten, total, Run-accounted,
}
use chainmesh.Telemetry.Bounds.{IsSound, Step-IsSound, new_recorder-IsSound}

-- `process` gives a job up silently only when the context is done in one of its waits.
later : (good last closed : Bool) → Outcome × ℕ → Outcome × ℕ
later good last closed (o, n) =
    if good
    then (wrote, 0)
    else if last
    then (gave_up, 1)
    else if closed
    then (abandoned, 1)
    else (o, suc n)

later-abandoned :
    (good last : Bool) (rest : Outcome × ℕ)
    → (later good last false rest).0 ≡ abandoned
    → rest.0 ≡ abandoned
unfolding later
later-abandoned good last rest h = ground arith

attempts-abandoned :
    (fate : Fate) (left i : ℕ)
    → (attempts fate left i).0 ≡ abandoned
    → (j : ℕ) × (fate.done j ≡ true)
unfolding attempts later
attempts-abandoned fate zero i h = absurd (ground arith)
attempts-abandoned fate (suc left) i h = elim (Bool-cases (fate.done i)) [
  | inl e ↦ (i, e)
  | inr e ↦ attempts-abandoned fate left (suc i) (
      later-abandoned (not (fate.fails i)) (eqb left 0) (attempts fate left (suc i))
        (rw (e, attempts) at h))
]

process-abandoned : (fate : Fate) → (process fate).0 ≡ abandoned → (j : ℕ) × (fate.done j ≡ true)
unfolding process
process-abandoned fate h = attempts-abandoned fate 3 1 h

is_abandoned-lem : (o : Outcome) → is_abandoned o ≡ true → o ≡ abandoned
unfolding is_abandoned
is_abandoned-lem abandoned h = refl
is_abandoned-lem wrote h = absurd (ground arith)
is_abandoned-lem gave_up h = absurd (ground arith)

not_forgotten :
    (k : Kind) (j : Recorded) (fate : Fate) (r : Recorder)
    → IsFeasible fate r
    → r.cancelled ≡ false
    → forgotten k (finishes j fate) ≡ 0
unfolding forgotten
not_forgotten k j fate r f c = elim (Bool-cases (is_abandoned (process fate).0)) [
  | inr e ↦ rw (e, forgotten) refl
  | inl e ↦
      let (i, d) = process-abandoned fate (is_abandoned-lem (process fate).0 e) in
      absurd (false≢true (sym c ∙ f.after_stop i d))
]

pub after_process-cancelled :
    (j : Recorded) (o : Outcome) (r : Recorder) → (after_process j o r).cancelled ≡ r.cancelled
unfolding after_process drop_job
after_process-cancelled j wrote r = refl
after_process-cancelled j gave_up r = refl
after_process-cancelled j abandoned r = refl

pub enqueue-cancelled : (j : Recorded) (r : Recorder) → (enqueue j r).cancelled ≡ r.cancelled
unfolding enqueue send drop_job
enqueue-cancelled j r = ground arith

pub send-cancelled : (j : Recorded) (r : Recorder) → (send j r).cancelled ≡ r.cancelled
unfolding send drop_job
send-cancelled j r = ground arith

-- What a step that ends before Stop says of the step.
Step-kept :
    (k : Kind) {r r' : Recorder} {e : Event}
    → Step r e r'
    → IsSound r
    → r'.cancelled ≡ false
    → (r.cancelled ≡ false) × (forgotten k e ≡ 0)
unfolding start stop take finish forgotten
Step-kept k (start_step h) w c = (w.open_ h, refl)
Step-kept k {r} stop_step w c = (ground arith, refl)
Step-kept k {r} (offer_step j) w c = (sym (enqueue-cancelled j r) ∙ c, refl)
Step-kept k {r} (send_step j h) w c = (sym (send-cancelled j r) ∙ c, refl)
Step-kept k (take_step j js v b q) w c = (c, refl)
Step-kept k {r} (finish_step j fate b f) w c =
    let c' = sym (after_process-cancelled j (process fate).0 _) ∙ c in
    (c', not_forgotten k j fate r f c')
Step-kept k (drain_step v b d) w c = (c, refl)
Step-kept k (end_step v b) w c = (c, refl)

Run-kept :
    (k : Kind) {r r' : Recorder} {es : List Event}
    → Run r es r'
    → IsSound r
    → r'.cancelled ≡ false
    → (r.cancelled ≡ false) × (total (forgotten k) es ≡ 0)
unfolding total
Run-kept k at_rest w c = (c, refl)
Run-kept k (followed s rest) w c =
    let (c', none_later) = Run-kept k rest (Step-IsSound s w) c in
    let (c'', none_now) = Step-kept k s w c' in (c'', omega (arith, none_later, none_now))

new_recorder-accounted : (k : Kind) (size : ℤ) → accounted k (new_recorder size) ≡ 0
unfolding new_recorder
new_recorder-accounted k size = refl

-- Every usage record and every request log that was offered, late sends included, and no other, is written, counted as
-- dropped, in the channel, in process, or one that `process` returned from without counting it, each
-- kind for itself.
pub Run-all_accounted :
    (k : Kind) (size : ℤ) {r : Recorder} {es : List Event}
    → Run (new_recorder size) es r
    → accounted k r + total (forgotten k) es ≡ total (offered k) es
Run-all_accounted k size run =
    let all = Run-accounted k run in
    let empty = new_recorder-accounted k size in omega (arith, all, empty)

-- Until Stop, none is missing: the jobs of a kind that are written, counted as dropped, in the channel
-- or in process are as many as were offered.
pub Run-conserved :
    (k : Kind) (size : ℤ) {r : Recorder} {es : List Event}
    → Run (new_recorder size) es r
    → r.cancelled ≡ false
    → accounted k r ≡ total (offered k) es
Run-conserved k size run c =
    let all = Run-all_accounted k size run in
    let kept = Run-kept k run (new_recorder-IsSound size) c in omega (arith, all, kept.1)
