-- ===== src/Agent/Wiring.antt =====
-- How main in cmd/agent/main.go connects the parts of the agent: the event handlers, the goroutines
-- that they start, and the calls of the orchestrator, whose jobs go to the sync worker.
pub mod Startup
use lightroom_sync.Common.{
  ℕ, Bool, true, false, ◌&&◌, ◌||◌, not, Option, none, some, is_some, List, [], ◌∷◌, ◌++◌,
  if◌then◌else◌,
}
use lightroom_sync.Common.Text.{Text, lit, is_empty, trim_space, to_lower, decimal}
use lightroom_sync.Config.{Config, Files, Manager, set_last_synced_timestamp}
use lightroom_sync.Logstream.{new_buffer}
use lightroom_sync.Coordinator.State.{
  AppState, new_app_state, set_auto_sync, set_migration_hint, set_warning,
}
use lightroom_sync.Coordinator.Bus.{
  Event, Payload, result_payload, text_payload, no_payload, emit, Handler, Handlers, on,
  lightroom_stopped, new_backup_detected, sync_completed,
}
use lightroom_sync.Coordinator.Watchdog.{new_watchdog}
use lightroom_sync.Coordinator.Worker.{Job, Worker, new_worker, set_watchdog, pause, enqueue}
use lightroom_sync.Coordinator.Catalog.{
  NetworkJob, Orchestrator, Result, Published, job_name, run_pending_if_any, check_startup_manifest,
  on_local_backup_created, is_network_sync_job,
}
use lightroom_sync.Sync.Manifest.{Manifest, ManifestFile, Outcome}
use lightroom_sync.Agent.Server.{AgentState}
use lightroom_sync.Agent.Requests.{job_of, on_app}

-- A goroutine that a handler has started and that has not run.
pub data Task : Type 0 where
  run_pending : Task
  publish : Text → Task
  sync_presets : Text → Task

-- `is_orchestrated` says that both paths were configured at the start, when they were copied to the
-- orchestrator; `pending` is its pendingManifest, `published` what it gave to WriteManifest.
pub record Machine : Type 0 where
  pub agent : AgentState
  pub host : Text
  pub is_orchestrated : Bool
  pub catalog_dir : Text
  pub backup_dir : Text
  pub pending : Option Manifest
  pub local_root : Text
  pub tasks : List Task
  pub published : List Manifest

-- What a step meets outside of the machine: the clock, the files of the network folder, and what
-- becomes of the writes.
pub record World : Type 0 where
  pub now : ℕ
  pub time_text : Text
  pub marshal : Config → Text
  pub unmarshal : Text → Config → Config × Bool
  pub is_cancelled : Bool
  pub manifest_file : ManifestFile
  pub zip_size : Text → Option ℕ
  pub relative : Text → Option Text
  pub stat_size : Text → Option ℕ
  pub writes : Manifest → Option Outcome

abbrev pub on_agent : (AgentState → AgentState) → Machine → Machine
on_agent f m = record m { agent = f m.agent }

abbrev pub with_worker : Worker → Machine → Machine
with_worker w m = record m { agent = record m.agent { worker = w } }

abbrev pub emit_event : Event → AgentState → AgentState
emit_event e s = record s { worker = record s.worker { bus = emit e s.worker.bus } }

-- The orchestrator with the functions that main gives it.
abbrev pub orchestrator_of : Machine → Orchestrator
orchestrator_of m = record {
  machine = m.host;
  catalog_dir = m.catalog_dir;
  backup_dir = m.backup_dir;
  app = some m.agent.worker.app;
  has_worker = true;
  has_manifest = true;
  auto_sync = some m.agent.manager.cfg.auto_sync;
  last_synced = some m.agent.manager.cfg.last_synced_timestamp;
  has_set_last_synced = true;
  pending = m.pending;
  jobs = [];
}

-- The job of `enqueueManifestLocked`.
abbrev pub network_job : ℕ → Text → Job
network_job now name = job_of name (name ++ lit "_" ++ decimal now) 120_000_000_000

unfoldable pub refuses : ℕ → Text → Machine → Bool
refuses now reason m = is_some (enqueue (network_job now (job_name reason)) m.agent.worker).1

unfoldable pub enqueue_all : ℕ → List NetworkJob → Worker → Worker
enqueue_all now [] w = w
enqueue_all now (j ∷ js) w = enqueue_all now js (enqueue (network_job now j.name) w).0

abbrev pub app_or : AppState → Option AppState → AppState
app_or a none = a
app_or a (some b) = b

-- A call of the orchestrator, on the machine.
unfoldable pub orchestrated : ℕ → Result → Machine → Machine
unfolding enqueue_all
orchestrated now r m =
    let w = enqueue_all now r.after.jobs m.agent.worker in
    record (with_worker (record w { app = app_or w.app r.after.app }) m) {
      pending = r.after.pending;
    }

unfoldable pub enqueue_preset_sync : World → Text → Machine → Machine
enqueue_preset_sync o trigger m =
    let current = m.agent.manager.cfg in
    let name = lit "preset_sync_" ++ to_lower (trim_space trigger) in
    let job = job_of name (name ++ lit "_" ++ decimal o.now) 90_000_000_000 in
    if not current.preset_sync_enabled
    then m
    else if is_empty (trim_space current.backup_folder) || is_empty (trim_space m.local_root)
    then m
    else with_worker (enqueue job m.agent.worker).0 m

abbrev published_by : Machine → Option Published → Machine
published_by m none = m
published_by m (some p) = elim p.written [
  | none ↦ m
  | some x ↦ record m { published = m.published ++ (x ∷ []) }
]

unfoldable pub run_task : World → Task → Machine → Machine
unfolding refuses orchestrated enqueue_preset_sync
run_task o run_pending m =
    orchestrated o.now (run_pending_if_any (refuses o.now (lit "pending") m) (orchestrator_of m)) m
run_task o (publish path) m = published_by m (
    on_local_backup_created o.writes o.time_text (o.relative path) (o.stat_size path)
      (orchestrator_of m))
run_task o (sync_presets trigger) m = enqueue_preset_sync o trigger m

-- The goroutine that checks the manifest when the agent starts.
unfoldable pub check_startup : World → Machine → Machine
unfolding refuses orchestrated
check_startup o m =
    orchestrated o.now
      (check_startup_manifest o.is_cancelled o.manifest_file o.zip_size
        (refuses o.now (lit "startup") m) (orchestrator_of m))
      m

abbrev pub spawn : Task → Machine → Machine
spawn t m = record m { tasks = m.tasks ++ (t ∷ []) }

-- `OnSyncCompleted` with the manager's SetLastSyncedTimestamp, and the presets behind it.
unfoldable pub complete : World → Text → Machine → Machine
complete o name m =
    let stored =
      set_last_synced_timestamp o.marshal o.unmarshal o.time_text m.agent.manager m.agent.files in
    if is_network_sync_job name
    then spawn (sync_presets (lit "after_network_sync"))
        (record m { agent = record m.agent { manager = stored.manager; files = stored.files } })
    else m

unfoldable pub on_completed : World → Event → Machine → Machine
unfolding complete
on_completed o e m = elim e.payload [
  | no_payload ↦ m
  | text_payload t ↦ m
  | result_payload name err ↦ complete o name m
]

unfoldable pub on_backup : Event → Machine → Machine
on_backup e m = elim e.payload [
  | no_payload ↦ m
  | text_payload path ↦ if is_empty (trim_space path) then m else spawn (publish path) m
  | result_payload name err ↦ m
]

abbrev pub quietly : (Event → Machine → Machine) → Handler Machine
quietly f e m = (f e m, false)

abbrev pub orchestrator_handlers : World → Handlers Machine
orchestrator_handlers o = on sync_completed (quietly (on_completed o)) (
    on new_backup_detected (quietly on_backup)
      (on lightroom_stopped (quietly (λ e m. spawn run_pending m)) []))

-- The registrations, in the order of main.
unfoldable pub handlers : World → Machine → Handlers Machine
unfolding on_completed on_backup
handlers o m =
    on lightroom_stopped (quietly (λ e n. spawn (sync_presets (lit "lightroom_stopped")) n))
      (if m.is_orchestrated then orchestrator_handlers o else [])
