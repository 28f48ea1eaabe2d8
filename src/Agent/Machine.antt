-- ===== src/Agent/Machine.antt =====
-- The agent as one machine: the hooks of its monitors, the event loop, the goroutines, the sync worker
-- and the requests of cmd/agent/main.go, as steps in any order.
pub mod Restores
pub mod Caution
pub mod Pending
use lightroom_sync.Common.{
  ℕ, ◌≡◌, Bool, true, false, Option, none, some, List, [], ◌∷◌, ◌++◌, if◌then◌else◌,
}
use lightroom_sync.Common.Text.{Text, lit}
use lightroom_sync.Coordinator.State.{
  AppState, set_lightroom_running, set_warning, set_last_backup, set_lock,
  inc_lightroom_monitor_error, inc_backup_monitor_error, inc_network_monitor_error,
  inc_lock_monitor_error, set_last_resume_gap_seconds, refresh_derived_status,
}
use lightroom_sync.Coordinator.Bus.{
  Event, EventType, Payload, no_payload, text_payload, dispatch, lightroom_started,
  lightroom_stopped, new_backup_detected, network_lost, network_available,
}
use lightroom_sync.Coordinator.Watchdog.{Alert, Watchdog, scan_expired}
use lightroom_sync.Coordinator.Worker.{
  Worker, Action, receive, test, wake, cancel, begin, finish, other,
}
use lightroom_sync.Coordinator.State.Colors.{progress, error, clear}
use lightroom_sync.Agent.Server.{AgentState}
use lightroom_sync.Agent.Requests.{on_app, enqueue_sync_now}
use lightroom_sync.Agent.Download.{AgentAction, work, agent_act, pick}
use lightroom_sync.Agent.Wiring.{
  Task, Machine, World, on_agent, emit_event, run_task, check_startup, enqueue_preset_sync,
  handlers,
}

-- What the resume detector's hook finds of the share.
pub data Revalidation : Type 0 where
  no_probe probe_fine : Revalidation
  probe_failed : Text → Revalidation

pub data Step (P : Type 0) : Type 0 where
  deliver startup_manifest startup_presets : World → Step P
  run : World → ℕ → Step P
  lightroom : Bool → Step P
  lightroom_error backup_error network_recovered heartbeat_error tray_sync_now tray_exit : Step P
  backup_found : Text → Text → Step P  -- path, label
  network_failed : Text → Step P
  resumed : ℕ → Revalidation → Step P
  heartbeat : Text → Text → Step P  -- machine, status
  scan : ℕ → Step P
  agent : AgentAction P → Step P

-- The worker's own steps, and what Execute does to the state.
abbrev pub is_own : Action → Bool
is_own receive = true
is_own test = true
is_own wake = true
is_own cancel = true
is_own (begin now) = true
is_own (finish err) = true
is_own (other (progress n)) = true
is_own (other (error t)) = true
is_own (other clear) = true
is_own _ = false

abbrev pub is_allowed : {P : Type 0} → AgentAction P → Bool
is_allowed (work a) = is_own a
is_allowed _ = true

abbrev pub event : EventType → Payload → Event
event kind payload = record { kind = kind; payload = payload }

-- `OnStarted` and `OnStopped`.
abbrev pub lightroom_hook : Bool → AgentState → AgentState
lightroom_hook v s =
    emit_event (event (if v then lightroom_started else lightroom_stopped) no_payload)
      (on_app (set_lightroom_running v) s)

abbrev lost : Text → Text → AgentState → AgentState
lost warning err s =
    emit_event (event network_lost (text_payload err))
      (on_app (λ a. set_warning warning (inc_network_monitor_error a)) s)

-- `OnResume`.
abbrev pub revalidated : Revalidation → AgentState → AgentState
revalidated no_probe s = on_app refresh_derived_status s
revalidated probe_fine s =
    emit_event (event network_available (text_payload (lit "resume_revalidated")))
      (on_app refresh_derived_status s)
revalidated (probe_failed err) s = lost (lit "Network share not ready after resume") err s

abbrev pub resume_hook : ℕ → Revalidation → AgentState → AgentState
resume_hook gap r s =
    let text = lit "Đang kiểm tra lại network sau sleep/resume" in
    revalidated r (on_app (λ a. set_warning text (set_last_resume_gap_seconds gap a)) s)

-- The calls of the watchdog's hook in one scan.
unfoldable pub alerted : List Alert → AppState → AppState
alerted [] a = a
alerted (x ∷ xs) a = alerted xs (set_warning (lit "Một thao tác đồng bộ đang chậm bất thường") a)

abbrev scanned_worker : ℕ → Option Watchdog → Worker → Worker
scanned_worker now none w = w
scanned_worker now (some wd) w =
    let (alerts, left) = scan_expired now wd in
    record w { watchdog = some left; app = alerted alerts w.app }

-- The tray's `OnSyncNow`.
abbrev tray_hook : AgentState × Option Text → AgentState
tray_hook (s, none) = s
tray_hook (s, some err) = on_app (set_warning (lit "Sync Now failed: " ++ err)) s

abbrev without_event : List Event → AgentState → AgentState
without_event rest s = record s {
  worker = record s.worker { bus = record s.worker.bus { buffered = rest } };
}

abbrev delivered : World → List Event → Machine → Option Machine
delivered o [] m = none
delivered o (e ∷ rest) m = some (dispatch (handlers o m) e (on_agent (without_event rest) m))

abbrev task_run : World → Machine → Option (Task × List Task) → Option Machine
task_run o m none = none
task_run o m (some (t, rest)) = some (run_task o t (record m { tasks = rest }))

abbrev agent_step : Machine → Option AgentState → Option Machine
agent_step m none = none
agent_step m (some s) = some (record m { agent = s })

-- One step, or none where it cannot be taken.
unfoldable pub take_step : {P : Type 0} → Step P → Machine → Option Machine
unfolding alerted
take_step (deliver o) m = delivered o m.agent.worker.bus.buffered m
take_step (startup_manifest o) m = if m.is_orchestrated then some (check_startup o m) else none
take_step (startup_presets o) m =
    some
      (if m.agent.worker.app.lightroom_running then m else enqueue_preset_sync o (lit "startup") m)
take_step (run o n) m = task_run o m (pick n m.tasks)
take_step (lightroom v) m = some (on_agent (lightroom_hook v) m)
take_step lightroom_error m = some (on_agent (on_app inc_lightroom_monitor_error) m)
take_step backup_error m = some (on_agent (on_app inc_backup_monitor_error) m)
take_step network_recovered m = some (
    on_agent
      (λ s. emit_event (event network_available no_payload) (on_app refresh_derived_status s)) m)
take_step heartbeat_error m =
    some (on_agent (on_app (λ a. set_lock m.host (lit "ERROR") (inc_lock_monitor_error a))) m)
take_step tray_sync_now m = some (on_agent (λ s. tray_hook (enqueue_sync_now s)) m)
take_step tray_exit m = some (on_agent (λ s. record s { is_stopping = true }) m)
take_step (backup_found path label) m = some (
    on_agent
      (λ s.
        emit_event (event new_backup_detected (text_payload path))
          (on_app (set_last_backup label) s))
      m)
take_step (network_failed err) m = some (on_agent (lost (lit "Mất kết nối network share") err) m)
take_step (resumed gap r) m = some (on_agent (resume_hook gap r) m)
take_step (heartbeat machine status) m = some (on_agent (on_app (set_lock machine status)) m)
take_step (scan now) m =
    some (on_agent (λ s. record s { worker = scanned_worker now s.worker.watchdog s.worker }) m)
take_step (agent a) m = if is_allowed a then agent_step m (agent_act a m.agent) else none

pub data MachineRun (P : Type 0) (m : Machine) : Machine → Type 0 where
  here : MachineRun P m m
  step : {u v : Machine} (a : Step P) → MachineRun P m u → take_step a u ≡ some v → MachineRun P m v
