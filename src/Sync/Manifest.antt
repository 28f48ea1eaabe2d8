-- ===== src/Sync/Manifest.antt =====
-- The network manifest (internal/sync/manifest.go): reading it, writing it under `.manifest_lock`,
-- and the rules that decide on a sync.
pub mod Laws
use lightroom_sync.Common.{
  ℕ, zero, suc, Bool, true, false, ◌&&◌, ◌||◌, not, Option, none, some, List, [], ◌∷◌, ◌++◌, ltb,
  ◌==◌, if◌then◌else◌,
}
use lightroom_sync.Common.Text.{Text, lit, is_empty, equal_fold, text_ltb, replace_rune}

pub record Manifest : Type 0 where
  pub machine : Text
  pub timestamp : Text
  pub zip_file : Text
  pub zip_size : ℕ

-- `manifestJSON`: what `json.Unmarshal` makes of the file.
pub record RawManifest : Type 0 where
  pub machine : Text
  pub timestamp : Text
  pub zip_file : Text
  pub zip_path : Text
  pub zip_size : ℕ

-- The file as `os.ReadFile` and `json.Unmarshal` find it.
pub data ManifestFile : Type 0 where
  absent : ManifestFile
  unreadable : ManifestFile
  malformed : ManifestFile
  holds : RawManifest → ManifestFile

pub data ReadResult : Type 0 where
  no_manifest : ReadResult
  read_error : ReadResult
  manifest : Manifest → ReadResult

unfoldable pub read_manifest : Bool → ManifestFile → ReadResult
read_manifest cancelled file = if cancelled then read_error else elim file [
  | absent ↦ no_manifest
  | unreadable ↦ read_error
  | malformed ↦ read_error
  | holds raw ↦ manifest (record {
    machine = raw.machine;
    timestamp = raw.timestamp;
    zip_file = if is_empty raw.zip_file then raw.zip_path else raw.zip_file;
    zip_size = raw.zip_size;
  })
]

-- What `json.MarshalIndent` of a manifest holds for a later `json.Unmarshal`.
abbrev pub marshalled : Manifest → RawManifest
marshalled m = record {
  machine = m.machine;
  timestamp = m.timestamp;
  zip_file = m.zip_file;
  zip_path = [];
  zip_size = m.zip_size;
}

-- One attempt at the exclusive creation of the lock file.
pub data Open : Type 0 where
  created : Open
  exists : Open
  open_error : Open

-- Which case of the `select` is taken after an attempt that found the file; a timeout has a second
-- attempt with it.
pub data Wake : Type 0 where
  cancelled : Wake
  timeout : Open → Wake
  tick : Wake

pub data Effect : Type 0 where
  create_lock : Effect
  remove_lock : Effect
  write_file : Effect

pub record Outcome : Type 0 where
  pub effects : List Effect
  pub is_failed : Bool

abbrev pub failed_after : List Effect → Outcome
failed_after effects = record { effects = effects; is_failed = true }

-- The deferred removal comes after the write, whether this succeeds or fails.
abbrev write_locked : Bool → List Effect → Outcome
write_locked write_fails effects = record {
  effects = effects ++ (write_file ∷ remove_lock ∷ []);
  is_failed = write_fails;
}

-- The loop, on the attempts it makes: `none` when the list ends before the loop does.
unfoldable pub acquire_and_write : Bool → List (Open × Wake) → Option Outcome
acquire_and_write write_fails [] = none
acquire_and_write write_fails ((created, wake) ∷ polls) =
    some (write_locked write_fails (create_lock ∷ []))
acquire_and_write write_fails ((open_error, wake) ∷ polls) = some (failed_after [])
acquire_and_write write_fails ((exists, cancelled) ∷ polls) = some (failed_after [])
acquire_and_write write_fails ((exists, timeout created) ∷ polls) =
    some (write_locked write_fails (remove_lock ∷ create_lock ∷ []))
acquire_and_write write_fails ((exists, timeout exists) ∷ polls) =
    some (failed_after (remove_lock ∷ []))
acquire_and_write write_fails ((exists, timeout open_error) ∷ polls) =
    some (failed_after (remove_lock ∷ []))
acquire_and_write write_fails ((exists, tick) ∷ polls) = acquire_and_write write_fails polls

unfoldable pub write_manifest : Bool → Bool → Bool → List (Open × Wake) → Option Outcome
write_manifest is_cancelled mkdir_fails write_fails polls =
    if is_cancelled || mkdir_fails
    then some (failed_after [])
    else acquire_and_write write_fails polls

-- `relative` is what `filepath.Rel` gives for the zip, `size` what `os.Stat` says of it, `now` the
-- formatted local time; `none` is an error.
unfoldable pub new_manifest_for_backup : Text → Text → Option Text → Option ℕ → Option Manifest
new_manifest_for_backup machine now none size = none
new_manifest_for_backup machine now (some relative) none = none
new_manifest_for_backup machine now (some relative) (some size) = some (record {
  machine = machine;
  timestamp = now;
  zip_file = replace_rune b'\\' b'/' relative;
  zip_size = size;
})

pub data SkipReason : Type 0 where
  without_manifest : SkipReason
  self_backup : SkipReason
  already_synced : SkipReason
  zip_missing : SkipReason
  zip_size_mismatch : SkipReason

-- `zip_size` is the size that `os.Stat` finds for the manifest's zip in the backup folder. A size of
-- the manifest that is not positive is not checked. `none` stands for a sync.
unfoldable pub should_sync_from_network :
    Option Manifest → Text → Text → (Text → Option ℕ) → Option SkipReason
should_sync_from_network none local_machine last_synced zip_size = some without_manifest
should_sync_from_network (some m) local_machine last_synced zip_size =
    let found : Option SkipReason = elim (zip_size m.zip_file) [
      | none ↦ some zip_missing
      | some size ↦
          if ltb 0 m.zip_size && not (size == m.zip_size) then some zip_size_mismatch else none
    ] in
    if equal_fold m.machine local_machine
    then some self_backup
    else if not (is_empty last_synced) && not (text_ltb last_synced m.timestamp)
    then some already_synced
    else found
