-- ===== src/Agent/Manual.antt =====
-- What the jobs of the manual restores do (the Execute functions of sync_now and sync_backup in
-- cmd/agent/main.go). Their reports of the progress are actions of the worker's job.
use lightroom_sync.Common.{ℕ, ◌≡◌, refl, Bool, true, false, ◌⊎◌, none, some, List, [], ◌∷◌, All}
use mathlib.Core.List.{Permᴰ}
use lightroom_sync.Common.Text.{Text, lit}
use lightroom_sync.Monitor.Backup.{BackupInfo, Root, newer, list_zip_backups}
use lightroom_sync.Sync.Archive.{ZipEntry}
use lightroom_sync.Sync.Restore.{
  Folder, RestoreFaults, Restored, stopped, restore_catalog_from_zip, create_pre_sync_backup,
}
use lightroom_sync.Coordinator.Catalog.{Orchestrator, JobFaults, execute}

abbrev pub manual_patterns : List Text
manual_patterns =
    lit "*.lrcat"
    ∷ lit "*.lrcat-data"
    ∷ lit "*.lrcat-journal"
    ∷ lit "*.lrcat.lock"
    ∷ lit "*.lrdata"
    ∷ lit "lightroom_lock.txt"
    ∷ lit "*-lock"
    ∷ lit "*-shm"
    ∷ lit "*-wal"
    ∷ []

-- `alive` says for each file whether the job's context has not ended at its report.
unfoldable pub restore_zip :
    RestoreFaults → (ℕ → Bool) → List Text → List ZipEntry → Folder → Restored
restore_zip faults alive dest es files =
    restore_catalog_from_zip faults manual_patterns true (λ current total. alive current) dest es
      files

-- `archive` has the entries of the zips by their paths.
module _ (faults : RestoreFaults) (alive : ℕ → Bool) (archive : Text → List ZipEntry)
    (dest : List Text) (files : Folder) where
  abbrev pub restore_first : List BackupInfo → Restored
  restore_first [] = stopped files
  restore_first (b ∷ bs) = restore_zip faults alive dest (archive b.path) files

  unfoldable pub restore_latest : Text → Root → Restored
  restore_latest backup_folder root = elim (list_zip_backups backup_folder root) [
    | none ↦ stopped files
    | some backups ↦ restore_first backups
  ]

-- A manual restore does to the catalog's folder what the job of the orchestrator does to it behind its
-- snapshot, and fails where that fails, as long as the job's context does not end.
pub restore_zip-execute :
    (faults : JobFaults) (o : Orchestrator) (dest : List Text) (es : List ZipEntry) (files : Folder)
    → faults.is_corrupted ≡ false
    → (create_pre_sync_backup faults.backup o.catalog_dir files).is_failed ≡ false
    → let e = execute faults o dest es files in
      let r = restore_zip faults.restore (λ _. true) dest es files in
      (e.files ≡ r.files) × (e.is_failed ≡ r.is_failed)
unfolding execute restore_zip
restore_zip-execute faults o dest es files sound saved =
    (rw (sound, saved) refl, rw (sound, saved) refl)

abbrev pub IsNewest : BackupInfo → List BackupInfo → Type 0
IsNewest i infos =
    (others : List BackupInfo) × Permᴰ (i ∷ others) infos × All (λ o. newer o i ≡ false) others

module _ (faults : RestoreFaults) (alive : ℕ → Bool) (archive : Text → List ZipEntry)
    (dest : List Text) (files : Folder) where
  -- The newest backup is restored, or there is none.
  abbrev pub RestoresNewest : List BackupInfo → Restored → Type 0
  RestoresNewest infos r =
      ((infos ≡ []) × (r ≡ stopped files))
      ⊎ ((i : BackupInfo) × IsNewest i infos
          × (r ≡ restore_zip faults alive dest (archive i.path) files))
