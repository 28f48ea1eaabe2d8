-- ===== src/Preset/Categories.antt =====
-- The categories of a preset cycle (DiscoverPresetCategories, ResolvePresetCategories,
-- uniqueStringsOrdered and the checks at the start of Sync in internal/sync/preset_sync.go).
pub mod Choice
use lightroom_sync.Common.{
  Bool, true, false, ◌&&◌, ◌||◌, not, Option, none, some, List, [], ◌∷◌, ◌++◌, if◌then◌else◌,
}
use lightroom_sync.Common.Text.{
  Text, lit, text_eq, is_empty, trim_space, to_lower, equal_fold, contains_text, text_ltb,
}
use lightroom_sync.Common.Sort.{sort}
use lightroom_sync.Common.Unique.{unique_onto}
use lightroom_sync.Preset.{Disk, Env}
use lightroom_sync.Preset.Cycle.{sync, succeeds}

abbrev pub default_preset_categories : List Text
default_preset_categories =
    lit "Export Presets"
    ∷ lit "Develop Presets"
    ∷ lit "Watermarks"
    ∷ lit "Metadata Presets"
    ∷ lit "Filename Templates"
    ∷ []

pub record DirEntry : Type 0 where
  pub name : Text
  pub is_dir : Bool

-- What `os.ReadDir` says of Lightroom's folder.
pub data Listing : Type 0 where
  not_exist : Listing
  unreadable : Listing
  entries : List DirEntry → Listing

unfoldable pub is_preset_category_name : Text → Bool
is_preset_category_name name =
    contains_text (to_lower name) (lit "preset")
    || contains_text (to_lower name) (lit "template")
    || equal_fold name (lit "Watermarks")

abbrev pub is_excluded_dir : Text → Bool
is_excluded_dir key =
    text_eq key (lit "preferences")
    || text_eq key (lit ".lightroom-sync")
    || text_eq key (lit "lightroom presets")

-- The entries that the loop takes, by their names.
abbrev pub is_category_dir : DirEntry → Bool
is_category_dir e =
    let name = trim_space e.name in
    e.is_dir
    && not (is_empty name)
    && not (is_excluded_dir (to_lower name))
    && is_preset_category_name name

unfoldable pub category_dirs : List DirEntry → List Text
unfolding is_preset_category_name
category_dirs [] = []
category_dirs (e ∷ es) =
    let rest = category_dirs es in if is_category_dir e then trim_space e.name ∷ rest else rest

unfoldable pub unique_strings_ordered : List Text → List Text
unique_strings_ordered items = unique_onto [] items

abbrev with_defaults : List Text → List Text
with_defaults [] = default_preset_categories
with_defaults (c ∷ cs) = unique_strings_ordered ((c ∷ cs) ++ default_preset_categories)

-- `none` is an error.
unfoldable pub discover_preset_categories : Text → Listing → Option (List Text)
discover_preset_categories root listing =
    if is_empty (trim_space root) then some default_preset_categories else elim listing [
      | not_exist ↦ some default_preset_categories
      | unreadable ↦ none
      | entries es ↦ some (with_defaults (sort text_ltb (category_dirs es)))
    ]

-- The names that are not blank.
unfoldable pub filled_names : List Text → List Text
filled_names [] = []
filled_names (item ∷ items) =
    let name = trim_space item in
    let rest = filled_names items in if is_empty name then rest else name ∷ rest

abbrev pub or_else : List Text → List Text → List Text
or_else [] other = other
or_else (c ∷ cs) other = c ∷ cs

unfoldable pub resolve_preset_categories : List Text → List Text → List Text
unfolding unique_strings_ordered
resolve_preset_categories configured discovered =
    or_else (unique_strings_ordered (filled_names configured))
      (or_else (unique_strings_ordered discovered) default_preset_categories)

-- What `Sync` meets before it reads the state.
pub record Start : Type 0 where
  pub backup_dir : Text
  pub local_root : Text
  pub configured : List Text
  pub is_cancelled : Bool
  pub mkdir_fails : Bool
  pub listing : Listing
  pub bootstrap_fails : Text → Bool

-- `ensureRemoteCategoryBootstrap`: whether it fails.
unfoldable pub bootstrap_failed : (Text → Bool) → List Text → Bool
bootstrap_failed fails [] = false
bootstrap_failed fails (c ∷ cs) =
    let name = trim_space c in (not (is_empty name) && fails name) || bootstrap_failed fails cs

-- The categories with which the cycle goes on; `none` is an error.
unfoldable pub begin_sync : Start → Option (List Text)
begin_sync s =
    let chosen : Option (List Text) = elim (discover_preset_categories s.local_root s.listing) [
      | none ↦ none
      | some found ↦
          let categories = resolve_preset_categories s.configured found in
          if bootstrap_failed s.bootstrap_fails categories then none else some categories
    ] in
    if is_empty (trim_space s.backup_dir)
    then none
    else if is_empty (trim_space s.local_root)
    then none
    else if s.is_cancelled || s.mkdir_fails
    then none
    else chosen

-- The whole of `Sync`: the disk behind it, and whether it returns a nil error.
unfoldable pub sync_from : Start → Env → Disk → Disk × Bool
sync_from s env d = elim (begin_sync s) [
  | none ↦ (d, false)
  | some [] ↦ (d, true)
  | some (c ∷ cs) ↦
      let chosen : Env = record env { categories = c ∷ cs } in (sync chosen d, succeeds chosen d)
]
