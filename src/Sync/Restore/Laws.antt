-- ===== src/Sync/Restore/Laws.antt =====
-- What a restore leaves in the catalog's folder, and what no snapshot covers.
use lightroom_sync.Common.{
  ◌≡◌, ◌↔◌, refl, ◌∙◌, Bool, true, false, not, Option, none, some, List, [], ◌∷◌, ◌++◌, arith,
  if◌then◌else◌,
}
use lightroom_sync.Common.Text.{Text, lit, text_eq_iff, is_empty, contains_text, has_prefix}
use lightroom_sync.Sync.Restore.{
  Folder, glob, cleanup_pattern_matches, matches_some, is_collected, keep_files, cleaned,
  default_patterns, is_parts, catalog_artifact_patterns, globs_some, is_discovered,
  discover_catalog_artifacts,
}

is_parts_iff : (ps qs : List Text) → (is_parts ps qs ≡ true) ↔ (ps ≡ qs)
is_parts_iff [] [] = (λ _. refl, λ _. refl)
is_parts_iff [] (q ∷ qs) = (λ h. cc, λ h. cc)
is_parts_iff (p ∷ ps) [] = (λ h. cc, λ h. cc)
is_parts_iff (p ∷ ps) (q ∷ qs) = (
  λ h. ground (arith, text_eq_iff p q, is_parts_iff ps qs),
  λ h. ground (arith, text_eq_iff p q, is_parts_iff ps qs),
)

-- The file at a path.
unfoldable pub find : List Text → Folder → Option Text
find path [] = none
find path ((q, body) ∷ files) = if is_parts q path then some body else find path files

find-keep_files :
    (test : List Text → Bool) (path : List Text) (files : Folder)
    → find path (keep_files test files) ≡ (if test path then find path files else none)
unfolding find keep_files
find-keep_files test path [] = ground arith
find-keep_files test path ((q, body) ∷ files) =
    ground (arith, is_parts_iff q path, find-keep_files test path files)

find-cleaned :
    (patterns : List Text) (path : List Text) (files : Folder)
    → find path (cleaned patterns files)
      ≡ (if is_collected patterns [] path then none else find path files)
unfolding cleaned
find-cleaned patterns path files = find-keep_files _ path files ∙ swapped
  where
    swapped :
        (if not (is_collected patterns [] path) then find path files else none)
        ≡ (if is_collected patterns [] path then none else find path files)
    swapped = ground arith

find-discovered :
    (folder : Text) (rest : List Text) (files : Folder)
    → globs_some catalog_artifact_patterns folder ≡ false
    → find (folder ∷ rest) (discover_catalog_artifacts files) ≡ none
unfolding discover_catalog_artifacts is_discovered
find-discovered folder rest files plain =
    find-keep_files is_discovered (folder ∷ rest) files ∙ rw plain

lrcat_collected :
    (rel name : Text)
    → glob (lit "*.lrcat") name ≡ true
    → matches_some default_patterns rel name ≡ true
unfolding matches_some cleanup_pattern_matches contains_text lit has_prefix
lrcat_collected rel name h = rw h

nested_collected :
    (folder name : Text)
    → glob (lit "*.lrcat") name ≡ true
    → is_collected default_patterns [] (folder ∷ name ∷ []) ≡ true
unfolding is_collected
nested_collected folder name h =
    ground
      (arith, lrcat_collected (if is_empty folder then name else folder ++ lit "/" ++ name) name h)

-- A catalog in a folder that is no catalog artifact itself is removed by the cleanup of a restore,
-- and is not in the snapshot that is taken before it.
pub nested_catalog_unsaved :
    (folder name : Text) (files : Folder)
    → glob (lit "*.lrcat") name ≡ true
    → globs_some catalog_artifact_patterns folder ≡ false
    → (find (folder ∷ name ∷ []) (cleaned default_patterns files) ≡ none)
      × (find (folder ∷ name ∷ []) (discover_catalog_artifacts files) ≡ none)
nested_catalog_unsaved folder name files catalog plain = (
  find-cleaned default_patterns (folder ∷ name ∷ []) files
      ∙ rw (nested_collected folder name catalog),
  find-discovered folder (name ∷ []) files plain,
)
