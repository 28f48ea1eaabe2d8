-- ===== src/Coordinator/Catalog.antt =====
-- CatalogSyncOrchestrator (internal/coordinator/catalog_sync_orchestrator.go): when a manifest's
-- backup is queued for a restore, kept pending, or skipped, and what the queued job does.
pub mod Laws
use lightroom_sync.Common.{
  ℕ, zero, suc, Bool, true, false, ◌&&◌, ◌||◌, not, Option, none, some, List, [], ◌∷◌, ◌++◌, ltb,
  or_default, if◌then◌else◌,
}
use lightroom_sync.Common.Text.{Text, lit, is_empty, has_prefix, to_lower, trim_space}
use lightroom_sync.Coordinator.State.{
  AppState, set_warning, set_error, clear_error, refresh_derived_status,
}
use lightroom_sync.Sync.Manifest.{
  Manifest, ManifestFile, ReadResult, no_manifest, read_error, manifest, SkipReason, Outcome,
  read_manifest, new_manifest_for_backup, should_sync_from_network,
}
use lightroom_sync.Sync.Archive.{ZipEntry}
use lightroom_sync.Sync.Restore.{
  Folder, RestoreFaults, BackupFaults, default_patterns, restore_catalog_from_zip,
  create_pre_sync_backup,
}

-- A job that `Enqueue` took: the manifest is captured by its `Execute`.
pub record NetworkJob : Type 0 where
  pub name : Text
  pub source : Manifest

-- The functions given as options are the values that they return, `none` where they are nil;
-- `jobs` are those that the worker accepted, and `last_synced` is what `setLastSynced` stored.
pub record Orchestrator : Type 0 where
  pub machine : Text
  pub catalog_dir : Text
  pub backup_dir : Text
  pub app : Option AppState
  pub has_worker : Bool
  pub has_manifest : Bool
  pub auto_sync : Option Bool
  pub last_synced : Option Text
  pub has_set_last_synced : Bool
  pub pending : Option Manifest
  pub jobs : List NetworkJob

-- The orchestrator behind a call, and whether the call returned an error.
pub record Result : Type 0 where
  pub after : Orchestrator
  pub is_failed : Bool

abbrev pub fine : Orchestrator → Result
fine o = record { after = o; is_failed = false }

abbrev pub failed : Orchestrator → Result
failed o = record { after = o; is_failed = true }

-- `o.appState != nil && o.appState.Snapshot().LightroomRunning`.
abbrev pub is_running : Orchestrator → Bool
is_running o = elim o.app [ none ↦ false | some s ↦ s.lightroom_running ]

abbrev on_app : (AppState → AppState) → Orchestrator → Option AppState
on_app f o = elim o.app [ none ↦ none | some s ↦ some (f s) ]

abbrev pub job_name : Text → Text
job_name reason = lit "network_sync_" ++ reason

-- `refuses` says that the worker's `Enqueue` returns an error.
unfoldable pub enqueue_manifest : Bool → Manifest → Text → Orchestrator → Result
enqueue_manifest refuses m reason o =
    if is_empty o.backup_dir || is_empty o.catalog_dir
    then failed o
    else if refuses
    then failed o
    else fine (record o {
      jobs = o.jobs ++ (record { name = job_name reason; source = m } ∷ []);
      app = on_app refresh_derived_status o;
    })

abbrev forget_pending : Result → Result
forget_pending r = if r.is_failed then r else fine (record r.after { pending = none })

unfoldable pub queue_or_pend : Bool → Manifest → Text → Orchestrator → Result
queue_or_pend refuses m reason o =
    if is_running o
    then fine (record o {
      pending = some m;
      app = on_app (set_warning (lit "Đã phát hiện backup mới, chờ Lightroom đóng để sync")) o;
    })
    else forget_pending (enqueue_manifest refuses m reason o)

unfoldable pub run_pending_if_any : Bool → Orchestrator → Result
run_pending_if_any refuses o = if not o.has_worker then fine o else elim o.pending [
  | none ↦ fine o
  | some m ↦
      if is_running o then fine o else forget_pending (enqueue_manifest refuses m (lit "pending") o)
]

-- `file` is the manifest as it is read, `zip_size` what `os.Stat` says of a zip in the backup folder.
unfoldable pub check_startup_manifest :
    Bool → ManifestFile → (Text → Option ℕ) → Bool → Orchestrator → Result
check_startup_manifest is_cancelled file zip_size refuses o =
    let read : Text → Result = λ last. elim (read_manifest is_cancelled file) [
      | read_error ↦ failed o
      | no_manifest ↦ fine o
      | manifest m ↦ elim (should_sync_from_network (some m) o.machine last zip_size) [
        | some reason ↦ fine o
        | none ↦ queue_or_pend refuses m (lit "startup") o
      ]
    ] in
    if not o.has_manifest || not o.has_worker then fine o else elim o.auto_sync [
      | none ↦ fine o
      | some is_on ↦ elim o.last_synced [
        | none ↦ fine o
        | some last ↦ if is_on then read last else fine o
      ]
    ]

-- What `OnLocalBackupCreated` makes of a new zip: the manifest that it gives to `WriteManifest`, and
-- whether it returns an error, with `writes` what the write says of a manifest.
pub record Published : Type 0 where
  pub written : Option Manifest
  pub is_failed : Bool

unfoldable pub on_local_backup_created :
    (Manifest → Option Outcome) → Text → Option Text → Option ℕ → Orchestrator → Option Published
on_local_backup_created writes now relative size o =
    let write : Manifest → Option Published = λ m. elim (writes m) [
      | none ↦ none
      | some w ↦ some (record { written = some m; is_failed = w.is_failed })
    ] in
    if not o.has_manifest
    then some (record { written = none; is_failed = false })
    else if is_empty o.backup_dir
    then some (record { written = none; is_failed = true })
    else elim (new_manifest_for_backup o.machine now relative size) [
      | none ↦ some (record { written = none; is_failed = true })
      | some m ↦ write m
    ]

unfoldable pub is_network_sync_job : Text → Bool
is_network_sync_job name = has_prefix (to_lower (trim_space name)) (lit "network_sync_")

-- `now` is the formatted local time; `refuses` says that `setLastSynced` fails.
unfoldable pub on_sync_completed : Bool → Text → Text → Orchestrator → Result
on_sync_completed refuses now name o =
    if not o.has_set_last_synced
    then fine o
    else if not (is_network_sync_job name)
    then fine o
    else if refuses
    then failed o
    else fine (record o { last_synced = some now })

-- What fails in a job's `Execute`. The removal of old backups may fail too: this is only logged.
pub record JobFaults : Type 0 where
  pub is_corrupted : Bool
  pub backup : BackupFaults
  pub restore : RestoreFaults

-- The catalog's folder and the state behind it, with the zip that it added to the pre-sync backups.
pub record Execution : Type 0 where
  pub files : Folder
  pub archive : Option Folder
  pub app : Option AppState
  pub is_failed : Bool

-- The function that `enqueueManifestLocked` gives to the job: `es` are the entries of the manifest's
-- zip, `dest` the parts of the catalog's folder.
unfoldable pub execute : JobFaults → Orchestrator → List Text → List ZipEntry → Folder → Execution
execute faults o dest es files =
    let b = create_pre_sync_backup faults.backup o.catalog_dir files in
    let r =
      restore_catalog_from_zip faults.restore default_patterns true (λ _ _. true) dest es files in
    if faults.is_corrupted
    then record {
      files = files;
      archive = none;
      app = on_app (set_error (lit "Network Backup Corrupted!")) o;
      is_failed = true;
    }
    else if b.is_failed
    then record { files = files; archive = b.archive; app = on_app clear_error o; is_failed = true }
    else record {
      files = r.files;
      archive = b.archive;
      app = on_app clear_error o;
      is_failed = r.is_failed;
    }
