-- ===== src/Telemetry.antt =====
-- backend/shared/telemetry/recorder.go: the queue between the gateway's requests and the database.
-- Its goroutines take steps on one state; the two writes of the database are parameters of a step.
-- A write's duration and the context's deadline of five seconds are in whether the write fails.
pub mod Conservation
pub mod Bounds
pub mod Loss
pub mod Placed
pub mod Shutdown
pub mod Order
use chainmesh.Base.{
  ℕ, zero, suc, String, ◌≡◌, Bool, true, false, not, ◌||◌, Option, none, some, List, [], ◌∷◌, ◌++◌,
  ltb, eqb, length, if◌then◌else◌,
}
use chainmesh.Base.Int.{ℤ, is_pos, pos_part}
use chainmesh.Model.{Usage, RequestLog}
use chainmesh.Proxy.{Recorded, usage, request_log}

pub data Kind : Type 0 where
  kind_usage kind_request_log : Kind

-- A job's kind. The jobs are what the proxy records.
unfoldable pub kind_of : Recorded → Kind
kind_of (usage u) = kind_usage
kind_of (request_log l) = kind_request_log

-- The goroutine of `worker`: not there, in its own loop, in `drain`, or at its end.
pub data Worker : Type 0 where
  absent running draining ended : Worker

-- `busy` is the job that `process` has taken from the channel. `written` is what the database got,
-- `dropped` and `failures` are the increments of TelemetryDroppedTotal and
-- TelemetryWriteFailuresTotal with their label, each the newest first.
pub record Recorder : Type 0 where
  pub capacity : ℕ
  pub started : Bool
  pub cancelled : Bool
  pub worker : Worker
  pub queue : List Recorded
  pub busy : Option Recorded
  pub written : List Recorded
  pub dropped : List Kind
  pub failures : List Kind

unfoldable pub new_recorder : ℤ → Recorder
new_recorder buffer_size = record {
  capacity = if is_pos buffer_size then pos_part buffer_size else 4096;
  started = false;
  cancelled = false;
  worker = absent;
  queue = [];
  busy = none;
  written = [];
  dropped = [];
  failures = [];
}

unfoldable pub start : Recorder → Recorder
start r = record r { started = true; cancelled = false; worker = running }

-- What Stop changes; its wait for the goroutine changes nothing.
unfoldable pub stop : Recorder → Recorder
stop r = if r.started then record r { cancelled = true } else r

unfoldable pub drop_job : Recorded → Recorder → Recorder
drop_job j r = record r { dropped = kind_of j ∷ r.dropped }

-- a send on the channel that does not block
unfoldable pub send : Recorded → Recorder → Recorder
unfolding drop_job
send j r =
    if ltb (length r.queue) r.capacity
    then record r { queue = r.queue ++ (j ∷ []) }
    else drop_job j r

-- enqueue, when nothing comes between its look at the context and its send
unfoldable pub enqueue : Recorded → Recorder → Recorder
unfolding drop_job send
enqueue j r = if not r.started || r.cancelled then drop_job j r else send j r

unfoldable pub record_usage : Usage → Recorder → Recorder
record_usage u r = enqueue (usage u) r

unfoldable pub record_request_log : RequestLog → Recorder → Recorder
record_request_log l r = enqueue (request_log l) r

-- What one `process` meets: whether attempt i fails, and whether the context is done in the wait
-- after attempt i.
pub record Fate : Type 0 where
  pub fails : ℕ → Bool
  pub done : ℕ → Bool

-- How `process` ends: the write was made, all attempts failed and the drop was counted, or the
-- context was done in a wait and it returned.
pub data Outcome : Type 0 where
  wrote gave_up abandoned : Outcome

-- The loop of `process` with the attempts left: its end, and the number of failures counted.
unfoldable pub attempts : Fate → ℕ → ℕ → Outcome × ℕ
attempts fate zero i = (gave_up, 0)
attempts fate (suc left) i =
    let (o, n) = attempts fate left (suc i) in
    if not (fate.fails i)
    then (wrote, 0)
    else if eqb left 0
    then (gave_up, 1)
    else if fate.done i
    then (abandoned, 1)
    else (o, suc n)

abbrev pub max_attempts : ℕ
max_attempts = 3

unfoldable pub process : Fate → Outcome × ℕ
process fate = attempts fate max_attempts 1

pub times : ℕ → Kind → List Kind → List Kind
times zero k ks = ks
times (suc n) k ks = k ∷ times n k ks

-- What `process` leaves.
pub after_process : Recorded → Outcome → Recorder → Recorder
after_process j wrote r = record r { written = j ∷ r.written }
after_process j gave_up r = drop_job j r
after_process j abandoned r = r

unfoldable pub finish : Recorded → Fate → Recorder → Recorder
unfolding times after_process
finish j fate r =
    let (o, n) = process fate in
    after_process j o (record r { busy = none; failures = times n (kind_of j) r.failures })

-- The next job, received from the channel.
unfoldable pub take : Recorded → List Recorded → Recorder → Recorder
take j js r = record r { queue = js; busy = some j }

pub data Event : Type 0 where
  starts stops drains ends : Event
  offers sends takes : Recorded → Event
  finishes : Recorded → Fate → Event

-- The context is done only after Stop, and it is done in every wait of a job taken by `drain`.
pub record IsFeasible (fate : Fate) (r : Recorder) : Type 0 where
  pub after_stop : (i : ℕ) → fate.done i ≡ true → r.cancelled ≡ true
  pub in_drain : (i : ℕ) → r.worker ≡ draining → fate.done i ≡ true

pub data Receives : Worker → Type 0 where
  in_loop : Receives running
  in_drain : Receives draining

-- One step of a caller or of the goroutine. `offers` is a whole `enqueue`; `sends` is the send of one whose
-- look at the context came earlier, before other steps, Stop among them. `drain` ends when the channel is empty or at its
-- deadline, which may come at any time.
pub data Step (r : Recorder) : Event → Recorder → Type 0 where
  start_step : r.started ≡ false → Step r starts (start r)
  stop_step : Step r stops (stop r)
  offer_step : (j : Recorded) → Step r (offers j) (enqueue j r)
  send_step : (j : Recorded) → r.started ≡ true → Step r (sends j) (send j r)
  take_step :
      (j : Recorded) (js : List Recorded)
      → Receives r.worker
      → r.busy ≡ none
      → r.queue ≡ j ∷ js
      → Step r (takes j) (take j js r)
  finish_step :
      (j : Recorded) (fate : Fate)
      → r.busy ≡ some j
      → IsFeasible fate r
      → Step r (finishes j fate) (finish j fate r)
  drain_step :
      r.worker ≡ running
      → r.busy ≡ none
      → r.cancelled ≡ true
      → Step r drains (record r { worker = draining })
  end_step : r.worker ≡ draining → r.busy ≡ none → Step r ends (record r { worker = ended })

pub data Run : Recorder → List Event → Recorder → Type 0 where
  at_rest : {r : Recorder} → Run r [] r
  followed :
      {r r' r'' : Recorder} {e : Event} {es : List Event}
      → Step r e r'
      → Run r' es r''
      → Run r (e ∷ es) r''
