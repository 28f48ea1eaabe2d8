-- ===== src/Lib.antt =====
-- Lightroom Sync: what the synchronization of catalogs and presets does, and that it is right.
--
-- The program is an agent that runs beside Adobe Lightroom on several machines and shares the
-- catalog's backups and the presets through a network folder. A backup monitor sees a new zip
-- that Lightroom wrote and publishes a manifest for it; the orchestrator decides on a manifest
-- of another machine, waits while Lightroom runs, and queues a job with the sync worker; the job
-- zips the catalog's files and restores the published zip. Presets are synchronized in cycles,
-- by jobs of the same worker. Monitors for
-- the network, for Lightroom, for the machine's sleep and a heartbeat in a lock file report to
-- the event bus; a watchdog reports operations that take too long; the state behind the tray
-- icon sums all this up. A UI turns its actions into requests, which the agent answers over a
-- named pipe; a request can queue a restore, pause the worker, change the configuration, read the
-- log buffer or start the download of an update.
--
-- Which file is about which code:
--
-- Common            lists, associations, text and insertion sort, and 64-bit arithmetic (Int64).
-- Logstream         internal/logstream/buffer.go: Buffer.Add and Buffer.Since as add and since,
--                   the writer's text as write. Invariant, Since, History prove its laws.
-- Coordinator.State internal/coordinator/state.go: AppState as a record, one function for each
--                   setter, recomputeDerivedStatusLocked as recompute.
-- Coordinator.Bus   internal/coordinator/events.go: Emit with its bounded channel, On,
--                   and dispatch with handlers that panic.
-- Coordinator.Watchdog   internal/coordinator/watchdog.go: Start, the stop function, the scan.
-- Coordinator.Worker     internal/coordinator/sync_worker.go: Enqueue, Pause, Resume and the
--                   worker's goroutine as actions (act) on one state. A step is what happens
--                   between two points at which the Go program can be interrupted.
-- Coordinator.Catalog    internal/coordinator/catalog_sync_orchestrator.go: pending manifests,
--                   OnSyncCompleted, OnLocalBackupCreated, and execute, the closure of the queued job.
-- Monitor.Breaker   internal/monitor/network_health.go, with NewPathProbe in Monitor.PathProbe.
--                   Monitor.Lightroom: lightroom.go and resume_detector.go. Monitor.Heartbeat:
--                   heartbeat.go, with Run in Beats.
--                   Monitor.Lock: lock.go, with ParseLock and ReadLock in Parse.
--                   Monitor.Backup: backup.go (all of internal/monitor).
-- Preset            internal/sync/preset_sync.go: the scans, pull_change and push_change for the
--                   two loops over files, push_deletion and pull_deletion for the two over
--                   deletions, sync for the cycle. Preset.Paths: its logo paths and names.
--                   Preset.Categories: what Sync does before it reads its state (begin_sync), with
--                   DiscoverPresetCategories and ResolvePresetCategories. Preset.Watermarks:
--                   pullWatermark and pushWatermark, with the copies of the logos, over files by
--                   their full paths; the cycle takes what they make of a text as a function.
--                   Preset.Watermarks.Template: watermarkImagePathPattern.
-- Sync.Retention    internal/sync/retention.go, the pre-sync backup
--                   included. Sync.Manifest: internal/sync/manifest.go.
--                   Sync.Archive and Sync.Restore: internal/sync/catalog_restore.go.
-- Update.Version    internal/update/version.go. Update.Token, Update.Checker and Update.Download:
--                   internal/update/checker.go, its version tokens, its choice of a release and an
--                   asset, and DownloadToFile.
-- Config            internal/config/config.go and its migration of old paths.
-- Ipc               internal/ipc/contract.go and handleConn of internal/ipc/server.go. Ipc.Wait:
--                   WaitForAgent of internal/ipc/client.go, on fuel: more of it than the number of
--                   the round in which the context ends is enough.
-- Agent             cmd/agent/main.go: the configuration patch and the log subscription.
--                   Agent.Server has the commands, payloads and shared variables (AgentState) and
--                   what stands outside of them (Outside); Agent.Requests the helpers of the
--                   commands; Agent.Handler the function that NewServer is given, one function for
--                   each larger case. Agent.Download: the goroutine of a download as steps between
--                   requests and steps of the worker (agent_act). Agent.Cleanup:
--                   cleanupDownloadedUpdates with the pattern of its file names.
--                   Agent.Manual: the Execute functions of sync_now and sync_backup.
--                   Agent.Wiring: the event handlers that main registers, the goroutines that they
--                   start (Task), and the orchestrator's calls, whose jobs go to the worker.
--                   Agent.Machine: the hooks of the monitors, the event loop, the goroutines, the
--                   worker and the requests as steps of one state (take_step).
-- Ui                internal/uiapi: ExecuteAction as a plan for each action (plan_of), which
--                   carry_out performs with a call of the agent. Ui.Honest connects it, by Call of
--                   internal/ipc/client.go (call_agent), with the server and the handler.
-- Tests             runs of the definitions at concrete inputs.
--
-- How the code is read:
--
-- - Numbers are natural numbers; 64-bit counters and epochs keep their wrap-around. A time is a
--   number of nanoseconds, also where the Go code converts it to a float64 of seconds. A
--   timestamp without a value is an Option. Text is a list of characters; letter case is folded
--   for ASCII letters only.
-- - A folder is an association of relative paths with contents and times, or a list of entries
--   in the order in which the operating system gives them. Globs are those without brackets.
--   A path from a walk is already clean.
-- - What the operating system, a library or another machine decides is an argument: whether a
--   read, a write, a rename or a removal succeeds, what a probe finds, what archive/zip reads,
--   how YAML and JSON are encoded. A theorem that needs such a thing to be so says it in a
--   hypothesis.
-- - A request is one step of the agent: no other request or goroutine comes between its parts,
--   but for the mark that download_update sets after it has started its goroutine, which is an
--   action of its own. The parts of a path are joined by a parameter (join). The length of a text
--   in bytes is that of its UTF-8.
-- - A step of the machine is a whole handler, hook or goroutine. The lock of the orchestrator
--   orders its calls; RunPendingIfAny and CheckStartupManifest test for Lightroom and queue the
--   job in one step.
-- - A JSON payload is a value of any type; decoding it is a parameter of Outside and Json.
-- - sort.Slice is an insertion sort with the comparison of the source.
-- - Loops over a slice or a folder are structural recursion. The retries of the heartbeat and of
--   the rename recur on the attempts that are left. The loop around the manifest's lock has no
--   bound of its own: it recurs on the list of what its attempts meet. Decimal
--   printing and parsing recur on the digits.
--
-- Not modelled: the named pipe between agent and UI, the tray, the calls of the operating system
-- in platform packages and the window of the UI have no logic of their own. Also left out are the
-- HTTP requests of the update checker, what main writes to the log, and its flags, its log file,
-- its guard against a second instance and its shutdown. Contexts that are cancelled are modelled
-- where a loop tests them.

pub mod Common
pub mod Logstream
pub mod Coordinator
pub mod Monitor
pub mod Preset
pub mod Sync
pub mod Update
pub mod Config
pub mod Ipc
pub mod Ui
pub mod Agent
pub mod Tests
