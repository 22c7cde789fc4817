-- ===== src/Telemetry/Order.antt =====
-- In which order the jobs are written.
use mathlib.Core.List
use mathlib.Core.List.Sublistᴰ
use mathlib.Core.List.{Sublistᴰ}
use chainmesh.Base.{
  ◌≡◌, refl, not, ◌||◌, Option, none, some, List, [], ◌∷◌, ◌++◌, arith, ltb, length, inl, inr,
  Bool-cases,
}
use chainmesh.Base.Int.{ℤ}
use chainmesh.Proxy.{Recorded}
use chainmesh.Telemetry.{
  Kind, Recorder, new_recorder, start, stop, drop_job, send, enqueue, Outcome, wrote, gave_up,
  abandoned, process, after_process, finish, take, Event, offers, sends, Step, start_step,
  stop_step, offer_step, send_step, take_step, finish_step, drain_step, end_step, Run, at_rest,
  followed,
}

-- One element in the middle left out.
without :
    {A : Type 0} (xs : List A) (x : A) (ys zs : List A)
    → Sublistᴰ (xs ++ (x ∷ ys)) zs
    → Sublistᴰ (xs ++ ys) zs
without xs x ys zs w =
    Sublistᴰ.trans (Sublistᴰ.append (Sublistᴰ.refl xs) (Sublistᴰ.cons (Sublistᴰ.refl ys))) w

abbrev offered_by : Event → List Recorded → List Recorded
offered_by (offers j) js = j ∷ js
offered_by (sends j) js = j ∷ js
offered_by _ js = js

-- All that is offered in a run, the newest first, before what was offered earlier.
abbrev pub offered_since : List Event → List Recorded → List Recorded
offered_since [] js = js
offered_since (e ∷ es) js = offered_since es (offered_by e js)

abbrev pub in_hand : Option Recorded → List Recorded
in_hand none = []
in_hand (some j) = j ∷ []

-- The jobs in the channel, in process and written, the newest first.
abbrev on_the_way : Recorder → List Recorded
on_the_way r = List.reverse r.queue ++ (in_hand r.busy ++ r.written)

enqueued :
    (j : Recorded) (r : Recorder) (js : List Recorded)
    → Sublistᴰ (on_the_way r) js
    → Sublistᴰ (on_the_way (enqueue j r)) (j ∷ js)
unfolding enqueue send drop_job
enqueued j r js w = elim (Bool-cases (not r.started || r.cancelled)) [
  | inl closed ↦ rw (closed, enqueue, send) (Sublistᴰ.cons w)
  | inr open_ ↦ elim (Bool-cases (ltb (length r.queue) r.capacity)) [
    | inl room ↦
        rw (open_, room, enqueue, send, List.reverse-append r.queue (j ∷ []))
          (Sublistᴰ.cons-cons refl w)
    | inr full ↦ rw (open_, full, enqueue, send) (Sublistᴰ.cons w)
  ]
]

sent :
    (j : Recorded) (r : Recorder) (js : List Recorded)
    → Sublistᴰ (on_the_way r) js
    → Sublistᴰ (on_the_way (send j r)) (j ∷ js)
unfolding send drop_job
sent j r js w = elim (Bool-cases (ltb (length r.queue) r.capacity)) [
  | inl room ↦ rw (room, send, List.reverse-append r.queue (j ∷ [])) (Sublistᴰ.cons-cons refl w)
  | inr full ↦ rw (full, send) (Sublistᴰ.cons w)
]

-- The end of a job keeps it, where it was, or leaves it out.
finished :
    (j : Recorded) (o : Outcome) (ks : List Kind) (r : Recorder) (js : List Recorded)
    → r.busy ≡ some j
    → Sublistᴰ (on_the_way r) js
    → Sublistᴰ (on_the_way (after_process j o (record r { busy = none; failures = ks }))) js
unfolding after_process drop_job
finished j wrote ks r js b w = rw b at w
finished j gave_up ks r js b w = without (List.reverse r.queue) j r.written js (rw b at w)
finished j abandoned ks r js b w = without (List.reverse r.queue) j r.written js (rw b at w)

stop-on_the_way : (r : Recorder) → on_the_way (stop r) ≡ on_the_way r
unfolding stop
stop-on_the_way r = ground arith

taken :
    (j : Recorded) (rest : List Recorded) (r : Recorder) (js : List Recorded)
    → r.busy ≡ none
    → r.queue ≡ j ∷ rest
    → Sublistᴰ (on_the_way r) js
    → Sublistᴰ (on_the_way (take j rest r)) js
unfolding take
taken j rest r js b q w =
    rw (← List.append_assoc (List.reverse rest) (j ∷ []) r.written)
      (rw (b, q, List.reverse-cons j rest) at w)

Step-ordered :
    {r r' : Recorder} {e : Event} (js : List Recorded)
    → Step r e r'
    → Sublistᴰ (on_the_way r) js
    → Sublistᴰ (on_the_way r') (offered_by e js)
unfolding start stop take finish
Step-ordered js (start_step h) w = w
Step-ordered {r} js stop_step w = rw (stop-on_the_way r) w
Step-ordered {r} js (offer_step j) w = enqueued j r js w
Step-ordered {r} js (send_step j h) w = sent j r js w
Step-ordered {r} js (take_step j rest v b q) w = taken j rest r js b q w
Step-ordered {r} js (finish_step j fate b f) w = finished j (process fate).0 _ r js b w
Step-ordered js (drain_step v b c) w = w
Step-ordered js (end_step v b) w = w

Run-ordered :
    {r r' : Recorder} {es : List Event} (js : List Recorded)
    → Run r es r'
    → Sublistᴰ (on_the_way r) js
    → Sublistᴰ (on_the_way r') (offered_since es js)
Run-ordered js at_rest w = w
Run-ordered js (followed {e = e} s rest) w =
    Run-ordered (offered_by e js) rest (Step-ordered js s w)

-- The jobs in the channel, the one in process and those written, from the last that was offered to the first
-- that was written, are jobs that were offered, in the order in which they were offered, others left
-- out. A late send counts where it is sent.
pub Run-in_order :
    (size : ℤ) {r : Recorder} {es : List Event}
    → Run (new_recorder size) es r
    → Sublistᴰ (List.reverse r.queue ++ (in_hand r.busy ++ r.written)) (offered_since es [])
unfolding new_recorder
Run-in_order size run = Run-ordered [] run Sublistᴰ.slnil
