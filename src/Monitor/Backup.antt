-- ===== src/Monitor/Backup.antt =====
-- BackupMonitor (internal/monitor/backup.go): the scan for zips, and the notice of a new latest one.
-- `filepath.Clean` of a path that the walk made is the path itself.
pub mod Latest
use lightroom_sync.Common.{
  ℕ, zero, suc, Bool, true, false, ◌||◌, not, Option, none, some, List, [], ◌∷◌, ◌++◌, ltb, ◌==◌,
  if◌then◌else◌,
}
use lightroom_sync.Common.Text.{Text, lit, text_eq, is_empty, equal_fold, text_ltb, ext, decimal}
use lightroom_sync.Common.Sort.{sort}

pub record BackupInfo : Type 0 where
  pub path : Text
  pub size : ℕ
  pub mod_time : ℕ

-- What the walk visits.
pub record Entry : Type 0 where
  pub path : Text
  pub name : Text
  pub is_dir : Bool
  pub info_fails : Bool
  pub size : ℕ
  pub mod_time : ℕ

-- The root as `os.Stat` and the walk find it; a broken walk meets an error.
pub data Root : Type 0 where
  missing : Root
  unreadable : Root
  folder : List Entry → Root
  broken : Root

unfoldable pub collect_backups : List Entry → Option (List BackupInfo)
collect_backups [] = some []
collect_backups (e ∷ es) =
    let rest = collect_backups es in
    let found : Option (List BackupInfo) = elim rest [
      | none ↦ none
      | some infos ↦ some (record { path = e.path; size = e.size; mod_time = e.mod_time } ∷ infos)
    ] in
    if e.is_dir
    then rest
    else if equal_fold (ext e.name) (lit ".zip")
    then (if e.info_fails then none else found)
    else rest

-- Newest first, then by path.
unfoldable pub newer : BackupInfo → BackupInfo → Bool
newer a b = if a.mod_time == b.mod_time then text_ltb a.path b.path else ltb b.mod_time a.mod_time

unfoldable pub list_zip_backups : Text → Root → Option (List BackupInfo)
list_zip_backups root_name root = if is_empty root_name then some [] else elim root [
  | missing ↦ some []
  | unreadable ↦ none
  | broken ↦ none
  | folder es ↦ elim (collect_backups es) [ none ↦ none | some infos ↦ some (sort newer infos) ]
]

unfoldable pub backup_signature : BackupInfo → Text
backup_signature i = i.path ++ lit "|" ++ decimal i.size ++ lit "|" ++ decimal i.mod_time

abbrev pub first_of : List BackupInfo → Option (BackupInfo × Text)
first_of [] = none
first_of (i ∷ _) = some (i, backup_signature i)

-- `scanLatest`: `none` is an error, `some none` no backup.
unfoldable pub scan_latest : Text → Root → Option (Option (BackupInfo × Text))
scan_latest root_name root = elim (list_zip_backups root_name root) [
  | none ↦ none
  | some infos ↦ some (first_of infos)
]

pub record BackupMonitor : Type 0 where
  pub ready : Bool
  pub last_sig : Text
  pub last_known : Option BackupInfo

unfoldable pub new_backup_monitor : BackupMonitor
new_backup_monitor = record { ready = false; last_sig = []; last_known = none }

pub data Hook : Type 0 where
  on_new_backup : BackupInfo → Hook
  on_error : Hook

-- On what `scanFn` returned.
unfoldable pub dispatch :
    Option (Option (BackupInfo × Text)) → BackupMonitor → BackupMonitor × List Hook
dispatch none m = (m, on_error ∷ [])
dispatch (some none) m =
    if not m.ready
    then (record { ready = true; last_sig = []; last_known = none }, [])
    else (record m { last_sig = []; last_known = none }, [])
dispatch (some (some (info, sig))) m =
    let now : BackupMonitor = record { ready = true; last_sig = sig; last_known = some info } in
    if not m.ready
    then (now, [])
    else if is_empty sig
    then (record m { last_sig = []; last_known = none }, [])
    else if text_eq sig m.last_sig
    then (m, [])
    else (record m { last_sig = sig; last_known = some info }, on_new_backup info ∷ [])

-- The scans of `Run`, one after another.
unfoldable pub watch : Text → List Root → BackupMonitor → List Hook
watch root_name [] m = []
watch root_name (root ∷ roots) m =
    let (m', hooks) = dispatch (scan_latest root_name root) m in hooks ++ watch root_name roots m'
