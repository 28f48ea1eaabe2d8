-- ===== src/Sync/Restore.antt =====
-- Restoring a catalog (internal/sync/catalog_restore.go): cleanup patterns, CleanupCatalogArtifacts,
-- RestoreCatalogFromZip; and the snapshot that CreatePreSyncBackup (internal/sync/retention.go)
-- takes before. A folder is the list of its files, each with the parts of its path below the folder.
pub mod Laws
use lightroom_sync.Common.{
  ℕ, zero, suc, Bool, true, false, ◌&&◌, ◌||◌, not, Option, none, some, List, [], ◌∷◌, ◌++◌, length,
  drop, ◌==◌, if◌then◌else◌,
}
use lightroom_sync.Common.Text.{
  Text, lit, text_eq, is_empty, trim_space, to_lower, contains_text, replace_rune,
}
use lightroom_sync.Sync.Archive.{
  ZipEntry, Write, make_dir, write_file, Extraction, extract_zip_safe,
}

abbrev pub Folder : Type 0
Folder = List (List Text × Text)

-- `*` of `filepath.Match`: the rest of the pattern matches some tail, and no separator is passed.
unfoldable pub match_star : (Text → Bool) → Text → Bool
match_star rest [] = rest []
match_star rest (c ∷ s) =
    let later = match_star rest s in rest (c ∷ s) || (not (c == b'/') && later)

unfoldable pub match_rune : ℕ → (Text → Bool) → Text → Bool
match_rune p rest [] = false
match_rune p rest (c ∷ s) = (if p == b'?' then not (c == b'/') else p == c) && rest s

-- `filepath.Match`, for patterns without brackets and escapes.
unfoldable pub glob : Text → Text → Bool
glob [] s = is_empty s
glob (p ∷ ps) s = if p == b'*' then match_star (glob ps) s else match_rune p (glob ps) s

unfoldable pub cleanup_pattern_matches : Text → Text → Text → Bool
cleanup_pattern_matches pattern rel_path base_name =
    let target =
      if contains_text pattern (lit "/") || contains_text pattern (lit "\\")
      then rel_path
      else base_name in
    glob pattern target
    || glob (to_lower (replace_rune b'\\' b'/' pattern)) (to_lower (replace_rune b'\\' b'/' target))

unfoldable pub matches_some : List Text → Text → Text → Bool
matches_some [] rel base = false
matches_some (p ∷ patterns) rel base =
    cleanup_pattern_matches p rel base || matches_some patterns rel base

-- A file goes with the file or folder on its path that the walk collects; `above` is the path so far.
unfoldable pub is_collected : List Text → Text → List Text → Bool
is_collected patterns above [] = false
is_collected patterns above (part ∷ parts) =
    let rel = if is_empty above then part else above ++ lit "/" ++ part in
    matches_some patterns rel part || is_collected patterns rel parts

unfoldable pub keep_files : (List Text → Bool) → Folder → Folder
keep_files test [] = []
keep_files test ((path, body) ∷ files) =
    let rest = keep_files test files in if test path then (path, body) ∷ rest else rest

-- The folder behind `CleanupCatalogArtifacts`.
unfoldable pub cleaned : List Text → Folder → Folder
cleaned patterns files = keep_files (λ path. not (is_collected patterns [] path)) files

abbrev pub default_patterns : List Text
default_patterns =
    lit "*.lrcat"
    ∷ lit "*.lrcat-data"
    ∷ lit "*.lrcat-journal"
    ∷ lit "*.lrcat.lock"
    ∷ lit "*.lrdata"
    ∷ lit "lightroom_lock.txt"
    ∷ lit "*-lock"
    ∷ lit "*-shm"
    ∷ lit "*-wal"
    ∷ []

unfoldable pub is_transient : Text → Bool
is_transient pattern =
    let p = to_lower (trim_space pattern) in
    text_eq p (lit "*.lrcat.lock")
    || text_eq p (lit "*.lrcat-journal")
    || text_eq p (lit "lightroom_lock.txt")
    || text_eq p (lit "*-lock")
    || text_eq p (lit "*-shm")
    || text_eq p (lit "*-wal")

unfoldable pub transient_cleanup_patterns : List Text → List Text
transient_cleanup_patterns [] = []
transient_cleanup_patterns (p ∷ patterns) =
    let rest = transient_cleanup_patterns patterns in if is_transient p then p ∷ rest else rest

abbrev pub is_parts : List Text → List Text → Bool
is_parts [] [] = true
is_parts [] (_ ∷ _) = false
is_parts (_ ∷ _) [] = false
is_parts (p ∷ ps) (q ∷ qs) = text_eq p q && is_parts ps qs

unfoldable pub write_to : List Text → Text → Folder → Folder
write_to path body [] = (path, body) ∷ []
write_to path body ((q, old) ∷ files) =
    if is_parts q path then (path, body) ∷ files else (q, old) ∷ write_to path body files

-- The writes of an extraction, whose targets lie below `dest`.
unfoldable pub written : List Text → List Write → Folder → Folder
written dest [] files = files
written dest (make_dir target mode ∷ ws) files = written dest ws files
written dest (write_file target body mode ∷ ws) files =
    written dest ws (write_to (drop (length dest) target) body files)

-- What fails. A cleanup that fails has removed the files that `removed_before` says.
pub record RestoreFaults : Type 0 where
  pub is_corrupted : Bool
  pub mkdir_fails : Bool
  pub cleanup_fails : Bool
  pub removed_before : List Text → Bool
  pub last_cleanup_fails : Bool
  pub removed_at_last : List Text → Bool

pub record Restored : Type 0 where
  pub files : Folder
  pub is_failed : Bool

-- A failing cleanup leaves what is not collected, and what it did not come to.
abbrev partly_cleaned : (List Text → Bool) → List Text → Folder → Folder
partly_cleaned removed patterns files =
    keep_files (λ path. not (is_collected patterns [] path && removed path)) files

abbrev pub stopped : Folder → Restored
stopped files = record { files = files; is_failed = true }

unfoldable pub restore_catalog_from_zip :
    RestoreFaults
    → List Text
    → Bool
    → (ℕ → ℕ → Bool)
    → List Text
    → List ZipEntry
    → Folder
    → Restored
restore_catalog_from_zip faults patterns flatten progress dest es files =
    let x = extract_zip_safe dest flatten progress es in
    let extracted = written dest x.writes (cleaned patterns files) in
    let transient = transient_cleanup_patterns patterns in
    if faults.is_corrupted || faults.mkdir_fails
    then stopped files
    else if faults.cleanup_fails
    then stopped (partly_cleaned faults.removed_before patterns files)
    else if x.is_failed
    then stopped extracted
    else if faults.last_cleanup_fails
    then stopped (partly_cleaned faults.removed_at_last transient extracted)
    else record { files = cleaned transient extracted; is_failed = false }

abbrev pub catalog_artifact_patterns : List Text
catalog_artifact_patterns =
    lit "*.lrcat"
    ∷ lit "*.lrcat-data"
    ∷ lit "*.lrcat-journal"
    ∷ lit "*.lrcat.lock"
    ∷ lit "*.lrdata"
    ∷ []

unfoldable pub globs_some : List Text → Text → Bool
globs_some [] name = false
globs_some (p ∷ patterns) name = glob p name || globs_some patterns name

-- `discoverCatalogArtifacts` looks at the names in the folder itself; a folder goes in with its files.
unfoldable pub is_discovered : List Text → Bool
is_discovered [] = false
is_discovered (part ∷ parts) = globs_some catalog_artifact_patterns part

unfoldable pub discover_catalog_artifacts : Folder → Folder
discover_catalog_artifacts files = keep_files is_discovered files

abbrev pub is_nil : Folder → Bool
is_nil [] = true
is_nil (_ ∷ _) = false

pub record BackupFaults : Type 0 where
  pub is_cancelled : Bool
  pub mkdir_fails : Bool
  pub zip_fails : Bool
  pub retention_fails : Bool

-- The zip, where one was completed, and whether an error is returned.
pub record Backup : Type 0 where
  pub archive : Option Folder
  pub is_failed : Bool

unfoldable pub create_pre_sync_backup : BackupFaults → Text → Folder → Backup
create_pre_sync_backup faults catalog_dir files =
    let found = discover_catalog_artifacts files in
    if faults.is_cancelled || is_empty catalog_dir || faults.mkdir_fails
    then record { archive = none; is_failed = true }
    else if is_nil found
    then record { archive = none; is_failed = false }
    else if faults.zip_fails
    then record { archive = none; is_failed = true }
    else record { archive = some found; is_failed = faults.retention_fails }
