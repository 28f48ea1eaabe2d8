-- ===== src/Coordinator/Worker.antt =====
-- SyncWorker (internal/coordinator/sync_worker.go): one goroutine that runs queued jobs one at a
-- time, with a bounded queue, Pause and Resume. An `Action` is one step of one of the goroutines:
-- the worker's own, a caller's (Pause, Resume, Enqueue), or an update of the state by another part.
pub mod Invariant
pub mod Order
pub mod Pausing
pub mod Progress
pub mod Queue
use lightroom_sync.Common.{
  ℕ, suc, ◌≡◌, Bool, true, false, ◌||◌, Option, none, some, is_some, List, [], ◌∷◌, ◌++◌, ltb, ◌==◌,
  if◌then◌else◌, length,
}
use lightroom_sync.Common.Int64.{le64, minus_one64}
use lightroom_sync.Common.Text.{Text, lit, is_empty, decimal}
use lightroom_sync.Coordinator.State.{
  AppState, set_syncing, set_sync_paused, set_warning, set_current_job_name, set_restore_progress,
}
use lightroom_sync.Coordinator.State.Colors.{Update, update, is_other}
use lightroom_sync.Coordinator.Bus.{
  Bus, emit, text_payload, result_payload, sync_requested, sync_completed, sync_failed,
}
use lightroom_sync.Coordinator.Watchdog.{Watchdog, start, stop}

-- A job. What `Execute` does is the environment's: its updates of the state and its outcome are
-- actions. `executable` says that the function is not nil.
pub record Job : Type 0 where
  pub name : Text
  pub operation_id : Text
  pub max_run : ℕ  -- time.Duration
  pub executable : Bool

pub data EnqueueError : Type 0 where
  invalid_job queue_full : EnqueueError

-- Where the worker's goroutine stands.
pub data Phase : Type 0 where
  receiving : Phase  -- in the select of `Run`
  testing : Job → Phase  -- about to read `paused` in `waitUntilResumed`
  blocked : Job → ℕ → Phase  -- in the select of `waitUntilResumed`, on the channel that was read
  cleared : Job → Phase  -- `waitUntilResumed` returned true
  running : Job → Text → Phase  -- in `job.Execute`, with the watchdog's operation ID
  stopped : List Job → Phase  -- returned, with the job that was received and not run

-- `resume_ch` names the current channel, and `closed` says which channels have been closed.
pub record Worker : Type 0 where
  pub app : AppState
  pub bus : Bus
  pub queue : List Job
  pub queue_size : ℕ
  pub watchdog : Option Watchdog
  pub is_paused : Bool
  pub resume_ch : ℕ
  pub closed : ℕ → Bool
  pub phase : Phase

unfoldable pub new_worker : ℕ → AppState → Bus → Worker
new_worker queue_size app bus = record {
  app = app;
  bus = bus;
  queue = [];
  queue_size = if le64 queue_size 0 then 16 else queue_size;
  watchdog = none;
  is_paused = false;
  resume_ch = 0;
  closed = λ _. true;
  phase = receiving;
}

unfoldable pub set_watchdog : Watchdog → Worker → Worker
set_watchdog wd w = record w { watchdog = some wd }

-- A channel that is made is open.
abbrev pub make_channel : ℕ → (ℕ → Bool) → ℕ → Bool
make_channel c closed d = if d == c then false else closed d

abbrev pub close_channel : ℕ → (ℕ → Bool) → ℕ → Bool
close_channel c closed d = if d == c then true else closed d

unfoldable pub pause : Worker → Worker
pause w = if w.is_paused then w else record w {
  is_paused = true;
  resume_ch = suc w.resume_ch;
  closed = make_channel (suc w.resume_ch) w.closed;
  app = set_sync_paused true w.app;
}

unfoldable pub resume : Worker → Worker
resume w =
    if w.is_paused
    then record w {
      is_paused = false;
      closed = close_channel w.resume_ch w.closed;
      app = set_sync_paused false w.app;
    }
    else w

unfoldable pub enqueue : Job → Worker → Worker × Option EnqueueError
enqueue job w =
    if job.executable
    then (if is_empty job.name
        then (w, some invalid_job)
        else if ltb (length w.queue) w.queue_size
        then (record w { queue = w.queue ++ (job ∷ []) }, none)
        else (w, some queue_full))
    else (w, some invalid_job)

-- The operation ID under which the watchdog tracks the job.
unfoldable pub operation_of : Job → ℕ → Text
operation_of job now =
    if is_empty job.operation_id then job.name ++ lit "-" ++ decimal now else job.operation_id

abbrev pub watch : Text → Job → ℕ → Option Watchdog → Option Watchdog
watch op job now none = none
watch op job now (some wd) =
    some (start op job.name (if le64 job.max_run 0 then 30_000_000_000 else job.max_run) now wd)

abbrev pub unwatch : Text → Option Watchdog → Option Watchdog
unwatch op none = none
unwatch op (some wd) = some (stop op wd)

-- `process` up to the call of `Execute`.
unfoldable pub begin_job : Job → ℕ → Worker → Worker
begin_job job now w =
    let op = operation_of job now in
    record w {
      app = set_restore_progress 0 (set_current_job_name job.name (set_syncing true w.app));
      bus = emit (record { kind = sync_requested; payload = text_payload job.name }) w.bus;
      watchdog = watch op job now w.watchdog;
      phase = running job op;
    }

-- `process` from the return of `Execute` on, the deferred `stopWatch` included.
unfoldable pub end_job : Job → Text → Option Text → Worker → Worker
end_job job op err w = record w {
  bus = elim err [
    | some text ↦ emit (record { kind = sync_failed; payload = result_payload job.name text }) w.bus
    | none ↦ emit (record { kind = sync_completed; payload = result_payload job.name [] }) w.bus
  ];
  app = set_current_job_name [] (set_restore_progress minus_one64 (set_syncing false w.app));
  watchdog = unwatch op w.watchdog;
  phase = receiving;
}

pub data Action : Type 0 where
  do_pause do_resume receive test wake cancel : Action
  do_enqueue : Job → Action
  begin : ℕ → Action
  finish : Option Text → Action
  other : Update → Action
  warn : Text → Action

receive_step : List Job → Worker → Option Worker
receive_step [] w = none
receive_step (job ∷ rest) w = some (record w { queue = rest; phase = testing job })

-- The worker's own steps, by where it stands; `none` where it cannot take the step.
worker_step : Action → Phase → Worker → Option Worker
unfolding receive_step
worker_step receive receiving w = receive_step w.queue w
worker_step cancel receiving w = some (record w { phase = stopped [] })
worker_step test (testing job) w =
    some (record w { phase = if w.is_paused then blocked job w.resume_ch else cleared job })
worker_step wake (blocked job ch) w =
    if w.closed ch then some (record w { phase = testing job }) else none
worker_step cancel (blocked job ch) w = some (record w { phase = stopped (job ∷ []) })
worker_step (begin now) (cleared job) w = some (begin_job job now w)
worker_step (finish err) (running job op) w = some (end_job job op err w)
worker_step _ _ w = none

unfoldable pub act : Action → Worker → Option Worker
unfolding worker_step
act do_pause w = some (pause w)
act do_resume w = some (resume w)
act (do_enqueue job) w = some (enqueue job w).0
act (other u) w = if is_other u then some (record w { app = update u w.app }) else none
act (warn text) w = some (record w { app = set_warning text w.app })
act a w = worker_step a w.phase w

-- A run of the actions, one after the other.
pub data Run (w : Worker) : List Action → Worker → Type 0 where
  here : Run w [] w
  step :
      {as' : List Action} {u v : Worker} {a : Action}
      → Run w as' u
      → act a u ≡ some v
      → Run w (a ∷ as') v
