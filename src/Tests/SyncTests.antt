-- ===== src/Tests/SyncTests.antt =====
-- Retention, manifests and archives at concrete inputs.
use lightroom_sync.Common.{ℕ, ◌≡◌, refl, true, false, none, some, inr, List, [], ◌∷◌, All}
use lightroom_sync.Common.Text.{Text, lit, text_eq, equal_fold, to_lower, lower_rune, text_ltb}
use lightroom_sync.Sync.Retention.{ZipFile, remove_old, at_least_one}
use lightroom_sync.Sync.Retention.Laws.{Retained, remove_old-Retained}
use lightroom_sync.Sync.Manifest.{
  Manifest, Open, Wake, created, exists, timeout, tick, should_sync_from_network,
  new_manifest_for_backup, read_manifest, marshalled, manifest, holds,
}
use lightroom_sync.Sync.Manifest.Laws.{new_manifest_for_backup-accepted}
use lightroom_sync.Sync.Archive.{ZipEntry, is_within_base, extract_zip_safe}
use lightroom_sync.Sync.Archive.Safety.{target_of, extract_zip_safe-within}
use lightroom_sync.Sync.Restore.{
  RestoreFaults, default_patterns, catalog_artifact_patterns, globs_some, glob, match_star,
  match_rune, cleaned, discover_catalog_artifacts,
}
use lightroom_sync.Sync.Restore.Laws.{find, nested_catalog_unsaved}

abbrev zip_at : ℕ → ZipFile
zip_at n = record { path = n ∷ []; mtime = n }

remove_old-Retained_example :
    Retained
      (λ _. false)
      (at_least_one 1)
      (zip_at 3 ∷ zip_at 9 ∷ zip_at 5 ∷ [])
      (remove_old (λ _. false) 1 (zip_at 3 ∷ zip_at 9 ∷ zip_at 5 ∷ []))
remove_old-Retained_example =
    remove_old-Retained (λ _. false) 1 (zip_at 3 ∷ zip_at 9 ∷ zip_at 5 ∷ [])

abbrev studio : Manifest
studio = record {
  machine = lit "STUDIO";
  timestamp = lit "2024-05-02T10:00:00";
  zip_file = lit "2024/c.zip";
  zip_size = 7;
}

abbrev stale_lock : List (Open × Wake)
stale_lock = (exists, tick) ∷ (exists, timeout created) ∷ []

studio_is_not_laptop : equal_fold (lit "STUDIO") (lit "LAPTOP") ≡ false
unfolding equal_fold to_lower lower_rune text_eq lit
studio_is_not_laptop = refl

may_second : text_ltb (lit "2024-05-01T09:00:00") (lit "2024-05-02T10:00:00") ≡ true
unfolding text_ltb lit
may_second = refl

new_manifest_for_backup-accepted_example :
    (m : Manifest) × ((new_manifest_for_backup
          (lit "STUDIO")
          (lit "2024-05-02T10:00:00")
          (some (lit "May\\2.zip"))
          (some 7)
        ≡ some m)
      × ((read_manifest false (holds (marshalled m)) ≡ manifest m)
          × (should_sync_from_network
                (some m)
                (lit "LAPTOP")
                (lit "2024-05-01T09:00:00")
                (λ _. some 7)
              ≡ none)))
new_manifest_for_backup-accepted_example =
    new_manifest_for_backup-accepted (lit "STUDIO") (lit "2024-05-02T10:00:00") (lit "May\\2.zip")
      (lit "LAPTOP") (lit "2024-05-01T09:00:00") 7 (λ _. some 7) studio_is_not_laptop
      (inr may_second) refl

abbrev entry : Text → ZipEntry
entry name = record {
  name = name;
  is_dir = false;
  body = lit "db";
  mode = 0;
  is_cancelled = false;
  write_fails = false;
}

abbrev wrapped : List ZipEntry
wrapped = entry (lit "Backup/Main.lrcat") ∷ entry (lit "Backup\\Help.txt") ∷ []

extract_zip_safe-within_example :
    All
      (λ w. is_within_base (target_of w) (lit "C" ∷ []) ≡ true)
      (extract_zip_safe (lit "C" ∷ []) true (λ _ _. true) (entry (lit "../evil") ∷ wrapped)).writes
extract_zip_safe-within_example =
    extract_zip_safe-within (lit "C" ∷ []) true (λ _ _. true) (entry (lit "../evil") ∷ wrapped)

abbrev no_faults : RestoreFaults
no_faults = record {
  is_corrupted = false;
  mkdir_fails = false;
  cleanup_fails = false;
  removed_before = λ _. false;
  last_cleanup_fails = false;
  removed_at_last = λ _. false;
}

abbrev any_file : List Text
any_file = lit "*" ∷ []

old_catalog : glob (lit "*.lrcat") (lit "Old.lrcat") ≡ true
unfolding glob match_star match_rune lit
old_catalog = refl

plain_folder : globs_some catalog_artifact_patterns (lit "Sub") ≡ false
unfolding globs_some glob match_star match_rune lit
plain_folder = refl

nested_catalog_unsaved_example :
    (find
        (lit "Sub" ∷ lit "Old.lrcat" ∷ [])
        (cleaned default_patterns ((lit "Sub" ∷ lit "Old.lrcat" ∷ [], lit "db") ∷ []))
      ≡ none)
    × (find
          (lit "Sub" ∷ lit "Old.lrcat" ∷ [])
          (discover_catalog_artifacts ((lit "Sub" ∷ lit "Old.lrcat" ∷ [], lit "db") ∷ []))
        ≡ none)
nested_catalog_unsaved_example =
    nested_catalog_unsaved (lit "Sub") (lit "Old.lrcat")
      ((lit "Sub" ∷ lit "Old.lrcat" ∷ [], lit "db") ∷ []) old_catalog plain_folder
