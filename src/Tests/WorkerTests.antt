-- ===== src/Tests/WorkerTests.antt =====
-- The coordinator's parts at concrete runs.
use lightroom_sync.Common.{
  ◌+◌, ◌≤◌, ◌≡◌, refl, true, false, some, [], ◌∷◌, ◌++◌, length, if◌then◌else◌,
}
use lightroom_sync.Common.Text.{lit}
use lightroom_sync.Common.Dict.{NodupKeys}
use lightroom_sync.Coordinator.State.{new_app_state}
use lightroom_sync.Coordinator.State.Colors.{due_color}
use lightroom_sync.Coordinator.Watchdog.{new_watchdog, start}
use lightroom_sync.Coordinator.Watchdog.Alerts.{
  scans, alerts_for, some_after, limit_of, IsKeyed, start_alerts,
}
use lightroom_sync.Coordinator.Worker.{
  Job, Worker, new_worker, enqueue, pause, do_enqueue, do_pause, receive, act, Run, here, step,
  receiving, testing,
}
use lightroom_sync.Coordinator.Worker.Invariant.{IsWell, new_worker-IsWell, Run-IsWell}
use lightroom_sync.Coordinator.Worker.Order.{begun, accepted, in_hand, Run-order}
use lightroom_sync.Coordinator.Worker.Pausing.{let_through, paused_begins}
use lightroom_sync.Coordinator.Worker.Progress.{rounds, all_jobs_done}

abbrev nightly : Job
nightly = record { name = lit "nightly"; operation_id = []; max_run = 0; executable = true }

abbrev fresh : Worker
fresh = new_worker 4 new_app_state (record { buffered = []; size = 8 })

abbrev queued : Worker
queued = (enqueue nightly fresh).0

abbrev paused_queued : Worker
paused_queued = pause queued

fresh-queued : act (do_enqueue nightly) fresh ≡ some queued
unfolding act
fresh-queued = refl

queued_paused : act do_pause queued ≡ some paused_queued
unfolding act
queued_paused = refl

abbrev two_steps : Run fresh (do_pause ∷ do_enqueue nightly ∷ []) paused_queued
two_steps = step (step here fresh-queued) queued_paused

fresh-IsWell : IsWell fresh
unfolding new_app_state
fresh-IsWell = new_worker-IsWell 4 new_app_state (record { buffered = []; size = 8 }) refl refl

Run-order_example :
    begun two_steps ++ (in_hand paused_queued.phase ++ paused_queued.queue)
    ≡ (in_hand fresh.phase ++ fresh.queue) ++ accepted two_steps
Run-order_example = Run-order two_steps

Run-IsWell_example : IsWell paused_queued
Run-IsWell_example = Run-IsWell fresh-IsWell two_steps

queued_idle : queued.phase ≡ receiving
unfolding enqueue new_worker lit
queued_idle = refl

queued_not_paused : queued.is_paused ≡ false
unfolding enqueue new_worker lit
queued_not_paused = refl

all_jobs_done_example :
    (v : Worker) × (r : Run queued (rounds 5 (λ _. some (lit "failed")) queued.queue) v) × (v.queue
      ≡ [])
    × (v.phase ≡ receiving)
    × (begun r ≡ queued.queue)
all_jobs_done_example =
    all_jobs_done 5 (λ _. some (lit "failed")) queued queued_idle queued_not_paused

paused_is_paused : paused_queued.is_paused ≡ true
unfolding pause enqueue new_worker lit
paused_is_paused = refl

abbrev in_test : Worker
in_test = record paused_queued { queue = []; phase = testing nightly }

received : act receive paused_queued ≡ some in_test
unfolding act pause enqueue new_worker lit
received = refl

paused_begins_example : length (begun (step here received)) ≤ let_through paused_queued.phase
paused_begins_example = paused_begins (step here received) tt paused_is_paused

fresh_color : new_app_state.tray_color ≡ due_color new_app_state
unfolding new_app_state
fresh_color = refl

no_entries : NodupKeys (new_watchdog 0).entries
unfolding new_watchdog
no_entries = tt

no_keys : IsKeyed (new_watchdog 0).entries
unfolding new_watchdog
no_keys = tt

start_alerts_example :
    alerts_for
      (lit "op")
      (scans (20 ∷ 60 ∷ []) (start (lit "op") (lit "sync") 40 10 (new_watchdog 0))).0
    ≡ (if some_after (10 + limit_of 40) (20 ∷ 60 ∷ [])
        then record {
          id = lit "op";
          name = lit "sync";
          started_at = 10;
          deadline_at = 10 + limit_of 40;
        }
          ∷ []
        else [])
start_alerts_example =
    start_alerts (lit "op") (20 ∷ 60 ∷ []) (new_watchdog 0) no_entries no_keys (lit "sync") 40 10
