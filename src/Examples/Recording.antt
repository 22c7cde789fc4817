-- ===== src/Examples/Recording.antt =====
-- A recorder with room for one job, and two jobs offered.
use chainmesh.Base.{◌+◌, ◌≤◌, ◌≡◌, refl, true, false, List, [], ◌∷◌, arith, eqb, tally, ◌*◌, ◌⊎◌}
use chainmesh.Base.Int.{pos}
use chainmesh.Proxy.{Recorded, usage}
use chainmesh.Telemetry.{
  kind_usage, draining, stops, drains, stop, drain_step, stop_step, Recorder, new_recorder, start,
  enqueue, send, drop_job, process, attempts, take, finish, Fate, Event, starts, offers, sends,
  takes, finishes, IsFeasible, Receives, start_step, offer_step, send_step, take_step, finish_step,
  Run, at_rest, followed,
}
use chainmesh.Telemetry.Conservation.{accounted, offered, forgotten, total}
use chainmesh.Telemetry.Order.{Run-in_order}
use chainmesh.Telemetry.Shutdown.{is_work, is_late, IsIdle, CanWork, Run-ends}
use mathlib.Core.List.{Sublistᴰ}
use chainmesh.Telemetry.Loss.{Run-all_accounted}

abbrev job : Recorded
job =
    usage (record { tenant_id = "t1"; method = "eth_chainId"; count = 1; bytes_in = 9; period = 0 })

-- The first attempt fails.
abbrev fate : Fate
fate = record { fails = λ i. eqb i 1; done = λ i. false }

abbrev events : List Event
events = starts ∷ offers job ∷ offers job ∷ takes job ∷ finishes job fate ∷ []

abbrev last : Recorder
last = finish job fate (take job [] (enqueue job (enqueue job (start (new_recorder (pos 1))))))

run : Run (new_recorder (pos 1)) events last
unfolding new_recorder start enqueue send drop_job take
run = followed (start_step refl) (
    followed (offer_step job) (
      followed (offer_step job) (
        followed (take_step job [] Receives.in_loop refl refl)
          (followed (finish_step job fate refl feasible) at_rest))))
  where
    feasible :
        IsFeasible fate (take job [] (enqueue job (enqueue job (start (new_recorder (pos 1))))))
    feasible = record { after_stop = λ i h. absurd (ground arith); in_drain = λ i h. ground arith }

Run-all_accounted_example :
    accounted kind_usage last + total (forgotten kind_usage) events
    ≡ total (offered kind_usage) events
Run-all_accounted_example = Run-all_accounted kind_usage (pos 1) run

still_open : last.cancelled ≡ false
unfolding finish process attempts new_recorder start enqueue send drop_job take
still_open = refl

-- The request that is offered a second time is dropped.
Run-in_order_example : Sublistᴰ (job ∷ []) (job ∷ job ∷ [])
unfolding finish process attempts new_recorder start enqueue send drop_job take
Run-in_order_example = Run-in_order (pos 1) run

abbrev stopped : Recorder
stopped = stop (enqueue job (start (new_recorder (pos 1))))

run_to_stop : Run (new_recorder (pos 1)) (starts ∷ offers job ∷ stops ∷ []) stopped
unfolding new_recorder
run_to_stop = followed (start_step refl) (followed (offer_step job) (followed stop_step at_rest))

abbrev drained : Recorder
drained = record stopped { worker = draining }

run_after_stop :
    Run stopped (sends job ∷ drains ∷ []) (record (send job stopped) { worker = draining })
unfolding new_recorder start stop enqueue send drop_job
run_after_stop = followed (send_step job refl) (followed (drain_step refl refl refl) at_rest)

on : stopped.started ≡ true
unfolding new_recorder start stop enqueue send
on = refl

off : stopped.cancelled ≡ true
unfolding new_recorder start stop enqueue send
off = refl

Run-ends_example :
    (tally is_work (sends job ∷ drains ∷ [])
      ≤ 2 * ((new_recorder (pos 1)).capacity + tally is_late (sends job ∷ drains ∷ [])) + 3)
    × (IsIdle (record (send job stopped) { worker = draining })
        ⊎ CanWork (record (send job stopped) { worker = draining }))
Run-ends_example = Run-ends (pos 1) run_to_stop on off run_after_stop
