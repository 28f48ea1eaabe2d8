-- ===== src/Sync/Retention.antt =====
-- Backup retention (internal/sync/retention.go): CleanupZipRetention, sanitizeFileName and
-- CreatePreSyncBackup.
pub mod Laws
use lightroom_sync.Common.{
  ℕ, zero, suc, Bool, true, false, ◌||◌, Option, none, some, List, [], ◌∷◌, ◌++◌, map, ltb, leb,
  ◌==◌, length, take, drop, if◌then◌else◌,
}
use lightroom_sync.Common.Text.{Text, lit, is_empty, trim_space, equal_fold, text_ltb, ext}
use lightroom_sync.Common.Sort.{sort}

pub record ZipFile : Type 0 where
  pub path : Text
  pub mtime : ℕ

-- What the walk visits.
pub record Entry : Type 0 where
  pub path : Text
  pub name : Text
  pub is_dir : Bool
  pub info_fails : Bool
  pub mtime : ℕ

pub data Root : Type 0 where
  missing : Root
  unreadable : Root
  folder : List Entry → Root
  -- The walk meets an error behind the entries.
  broken : List Entry → Root

abbrev is_zip : Text → Bool
is_zip name = equal_fold (ext name) (lit ".zip")

-- The walk's callback, on one entry after another.
unfoldable pub collect_zips : List Entry → Option (List ZipFile)
collect_zips [] = some []
collect_zips (e ∷ es) =
    let rest = collect_zips es in
    let found : Option (List ZipFile) = elim rest [
      | none ↦ none
      | some files ↦ some (record { path = e.path; mtime = e.mtime } ∷ files)
    ] in
    if e.is_dir
    then rest
    else if is_zip e.name
    then (if e.info_fails then none else found)
    else rest

-- Newest first, then the greater path.
unfoldable pub before : ZipFile → ZipFile → Bool
before a b = if a.mtime == b.mtime then text_ltb b.path a.path else ltb b.mtime a.mtime

pub record Removal : Type 0 where
  pub removed : List Text
  pub is_failed : Bool

unfoldable pub remove_all : (Text → Bool) → List ZipFile → Removal
remove_all remove_fails [] = record { removed = []; is_failed = false }
remove_all remove_fails (f ∷ fs) =
    let rest = remove_all remove_fails fs in
    if remove_fails f.path
    then record { removed = []; is_failed = true }
    else record rest { removed = f.path ∷ rest.removed }

abbrev nothing : Removal
nothing = record { removed = []; is_failed = false }

abbrev refused : Removal
refused = record { removed = []; is_failed = true }

-- A limit that is not positive counts as 1; so does the 0 it is here.
abbrev pub at_least_one : ℕ → ℕ
at_least_one zero = 1
at_least_one (suc n) = suc n

unfoldable pub remove_old : (Text → Bool) → ℕ → List ZipFile → Removal
unfolding remove_all
remove_old remove_fails max_backups files =
    if leb (length files) (at_least_one max_backups)
    then nothing
    else remove_all remove_fails (drop (at_least_one max_backups) (sort before files))

unfoldable pub cleanup_zip_retention : (Text → Bool) → Text → Root → ℕ → Removal
unfolding collect_zips remove_old
cleanup_zip_retention remove_fails root_dir root max_backups =
    if is_empty root_dir then nothing else elim root [
      | missing ↦ nothing
      | unreadable ↦ refused
      | broken _ ↦ refused
      | folder es ↦ elim (collect_zips es) [
        | none ↦ refused
        | some files ↦ remove_old remove_fails max_backups files
      ]
    ]

unfoldable pub is_forbidden : ℕ → Bool
is_forbidden c =
    c == b'\\'
    || c == b'/'
    || c == b':'
    || c == b'*'
    || c == b'?'
    || c == b'"'
    || c == b'<'
    || c == b'>'
    || c == b'|'
    || c == b' '

unfoldable pub sanitize_file_name : Text → Text
unfolding is_forbidden
sanitize_file_name raw =
    let trimmed = trim_space raw in
    if is_empty trimmed
    then lit "UNKNOWN"
    else map (λ c. if is_forbidden c then b'_' else c) trimmed
