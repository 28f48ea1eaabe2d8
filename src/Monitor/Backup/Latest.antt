-- ===== src/Monitor/Backup/Latest.antt =====
-- The latest backup, and when it is announced.
use lightroom_sync.Common.{
  ℕ, ◌≡◌, refl, true, false, Option, none, some, List, [], ◌∷◌, ◌++◌, arith, All,
}
use lightroom_sync.Common.Text.{
  Text, text_eq_refl, text_eq_iff, is_empty, lit, decimal, text_ltb_asym, text_ltb_negtrans,
}
use lightroom_sync.Common.Sort.{sort, Sorted, sort-Perm, sort-Sorted, IsOrder, length-Perm}
use mathlib.Core.List.{Permᴰ}
use lightroom_sync.Monitor.Backup.{
  BackupInfo, Entry, folder, first_of, collect_backups, newer, list_zip_backups, backup_signature,
  scan_latest, BackupMonitor, dispatch, new_backup_monitor,
}

newer_asym : (a b : BackupInfo) → newer a b ≡ true → newer b a ≡ false
unfolding newer
newer_asym a b h = ground (arith, text_ltb_asym a.path b.path)

newer_negtrans : (a b c : BackupInfo) → newer b a ≡ false → newer c b ≡ false → newer c a ≡ false
unfolding newer
newer_negtrans a b c h k = ground (arith, text_ltb_negtrans a.path b.path c.path)

pub newer-IsOrder : IsOrder newer
newer-IsOrder = record { asym = newer_asym; negtrans = newer_negtrans }

-- The first of a list, where it is one of these and none of the others is newer.
pub data IsLatest (infos : List BackupInfo) : Option (Option (BackupInfo × Text)) → Type 0 where
  no_backup : infos ≡ [] → IsLatest infos (some none)
  latest :
      (i : BackupInfo) (others : List BackupInfo)
      → Permᴰ (i ∷ others) infos
      → All (λ o. newer o i ≡ false) others
      → IsLatest infos (some (some (i, backup_signature i)))

pub Perm-nil : (infos : List BackupInfo) → Permᴰ [] infos → infos ≡ []
Perm-nil [] p = refl
Perm-nil (i ∷ infos) p = absurd (omega (arith, length-Perm [] (i ∷ infos) p))

first_of-IsLatest :
    (infos sorted : List BackupInfo)
    → Permᴰ sorted infos
    → Sorted newer sorted
    → IsLatest infos (some (first_of sorted))
first_of-IsLatest infos [] p s = no_backup (Perm-nil infos p)
first_of-IsLatest infos (i ∷ others) p s = latest i others p s.0

module _ (root_name : Text) (es : List Entry) (infos : List BackupInfo)
    (named : is_empty root_name ≡ false) (found : collect_backups es ≡ some infos) where
  pub list_zip_backups-folder : list_zip_backups root_name (folder es) ≡ some (sort newer infos)
  unfolding list_zip_backups
  list_zip_backups-folder = rw (named, found)

  scan_latest-folder : scan_latest root_name (folder es) ≡ some (first_of (sort newer infos))
  unfolding scan_latest
  scan_latest-folder = rw (scan_latest, list_zip_backups-folder)

-- A scan of a folder whose entries can be read finds the newest zip there, of several of the same
-- time the one with the first path, or no backup if it has no zip.
pub scan_latest-IsLatest :
    (root_name : Text) (es : List Entry) (infos : List BackupInfo)
    → is_empty root_name ≡ false
    → collect_backups es ≡ some infos
    → IsLatest infos (scan_latest root_name (folder es))
scan_latest-IsLatest root_name es infos named found =
    rw (scan_latest-folder root_name es infos named found) (
      first_of-IsLatest infos (sort newer infos) (sort-Perm newer infos)
        (sort-Sorted newer newer-IsOrder infos))

is_empty-append : (s t : Text) → is_empty s ≡ false → is_empty (s ++ t) ≡ false
is_empty-append [] t h = absurd cc
is_empty-append (c ∷ s) t h = refl

is_empty-append_right : (s : Text) (c : ℕ) (t : Text) → is_empty (s ++ (c ∷ t)) ≡ false
is_empty-append_right [] c t = refl
is_empty-append_right (x ∷ s) c t = refl

backup_signature-nonempty : (i : BackupInfo) → is_empty (backup_signature i) ≡ false
unfolding backup_signature lit
backup_signature-nonempty i = is_empty-append _ (decimal i.mod_time) (
    is_empty-append _ (lit "|")
      (is_empty-append _ (decimal i.size) (is_empty-append_right i.path b'|' [])))

-- A scan that finds what the last one found announces nothing and changes nothing, and neither does
-- the first scan announce anything: it is the baseline.
pub dispatch-again :
    (infos : List BackupInfo) (m : BackupMonitor)
    → let scan = some (first_of infos) in
      (dispatch scan (dispatch scan m).0 ≡ ((dispatch scan m).0, []))
      × ((dispatch scan new_backup_monitor).1 ≡ [])
unfolding dispatch new_backup_monitor
dispatch-again [] m = (ground arith, refl)
dispatch-again (i ∷ infos) m = (
  ground (
    arith,
    backup_signature-nonempty i,
    text_eq_refl (backup_signature i),
    text_eq_iff (backup_signature i) m.last_sig,
  ),
  refl,
)
