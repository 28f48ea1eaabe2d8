-- ===== src/Config.antt =====
-- Configuration (internal/config/config.go). The two directions of the YAML library are parameters:
-- `unmarshal` overlays a configuration with a text's keys and says whether it failed, which may leave
-- some of them set.
pub mod Laws
use lightroom_sync.Common.{
  ℕ, Bool, true, false, ◌||◌, Option, none, some, List, [], ◌∷◌, ◌++◌, or_default, if◌then◌else◌,
}
use lightroom_sync.Common.Int64.{le64}
use lightroom_sync.Common.Text.{Text, lit, is_empty, to_lower, text_eq, equal_fold}
use lightroom_sync.Common.Dict.{Dict, lookup, insert}

-- Numbers are 64-bit patterns; a nil slice is `none`.
pub record Config : Type 0 where
  pub backup_folder : Text
  pub catalog_path : Text
  pub start_with_windows : Bool
  pub start_minimized : Bool
  pub minimize_to_tray : Bool
  pub auto_sync : Bool
  pub heartbeat_interval : ℕ  -- int
  pub check_interval : ℕ  -- int
  pub lock_timeout : ℕ  -- int
  pub max_catalog_backups : ℕ  -- int
  pub preset_sync_enabled : Bool
  pub preset_categories : Option (List Text)
  pub last_synced_timestamp : Text

abbrev pub default_categories : List Text
default_categories = lit "Export Presets" ∷ lit "Develop Presets" ∷ lit "Watermarks" ∷ []

unfoldable pub default_config : Config
default_config = record {
  backup_folder = [];
  catalog_path = [];
  start_with_windows = false;
  start_minimized = false;
  minimize_to_tray = true;
  auto_sync = false;
  heartbeat_interval = 30;
  check_interval = 60;
  lock_timeout = 120;
  max_catalog_backups = 5;
  preset_sync_enabled = true;
  preset_categories = some default_categories;
  last_synced_timestamp = [];
}

unfoldable pub apply_defaults : Config → Config
unfolding default_config
apply_defaults c = record c {
  heartbeat_interval =
      if le64 c.heartbeat_interval 0
      then default_config.heartbeat_interval
      else c.heartbeat_interval;
  check_interval =
      if le64 c.check_interval 0 then default_config.check_interval else c.check_interval;
  lock_timeout = if le64 c.lock_timeout 0 then default_config.lock_timeout else c.lock_timeout;
  preset_categories = some (or_default c.preset_categories default_categories);
}

-- The files by their paths; reading and writing may fail.
pub record Files : Type 0 where
  pub content : Dict Text
  pub unreadable : Text → Bool
  pub unwritable : Text → Bool

pub record Manager : Type 0 where
  pub cfg : Config
  pub file_path : Text

unfoldable pub new_manager : Text → Manager
new_manager file_path = record { cfg = default_config; file_path = file_path }

-- What `os.ReadFile` returns.
pub data Read : Type 0 where
  not_exist : Read
  read_error : Read
  read_text : Text → Read

unfoldable pub read_file : Files → Text → Read
read_file files path =
    if files.unreadable path
    then read_error
    else elim (lookup path files.content) [ none ↦ not_exist | some text ↦ read_text text ]

-- A call's effect, and whether it returned an error.
pub record Step : Type 0 where
  pub manager : Manager
  pub files : Files
  pub is_failed : Bool

abbrev pub yaml_header : Text
yaml_header =
    lit "# LightroomSync Configuration\n# This file is saved in your Local AppData directory\n\n"

-- `samePath`, on cleaned paths.
abbrev pub same_path : Text → Text → Bool
same_path a b = equal_fold a b

unfoldable pub unique_onto : List Text → List Text → List Text
unique_onto seen [] = []
unique_onto seen (p ∷ ps) =
    let key = to_lower p in
    let rest = unique_onto seen ps in
    let more = p ∷ unique_onto (key ∷ seen) ps in
    if is_empty p then rest else if is_seen key seen then rest else more
  where
    is_seen : Text → List Text → Bool
    is_seen key [] = false
    is_seen key (s ∷ seen) = text_eq s key || is_seen key seen

module _ (marshal : Config → Text) (unmarshal : Text → Config → Config × Bool) where
  -- `Load`, on what it read.
  unfoldable pub load_read : Read → Manager → Files → Step
  load_read not_exist m files = record {
    manager = record m { cfg = default_config };
    files = files;
    is_failed = false;
  }
  load_read read_error m files = record {
    manager = record m { cfg = default_config };
    files = files;
    is_failed = true;
  }
  load_read (read_text text) m files =
      let (c, bad) = unmarshal text default_config in
      record {
        manager = record m { cfg = if bad then c else apply_defaults c };
        files = files;
        is_failed = bad;
      }

  unfoldable pub load : Manager → Files → Step
  load m files = load_read (read_file files m.file_path) m files

  unfoldable pub save : Manager → Files → Step
  save m files =
      if files.unwritable m.file_path
      then record { manager = m; files = files; is_failed = true }
      else record {
        manager = m;
        files = record files {
          content = insert m.file_path (yaml_header ++ marshal m.cfg) files.content;
        };
        is_failed = false;
      }

  unfoldable pub update : Config → Manager → Files → Step
  update c m files = save (record m { cfg = c }) files

  unfoldable pub set_last_synced_timestamp : Text → Manager → Files → Step
  set_last_synced_timestamp ts m files =
      save (record m { cfg = record m.cfg { last_synced_timestamp = ts } }) files

  -- `backupLegacyFile`, on what it read; `backup_name` is the path that it makes of the time and the
  -- source.
  unfoldable pub backup_read : (Text → Text) → Text → Read → Manager → Files → Step
  backup_read backup_name source not_exist m files = record {
    manager = m;
    files = files;
    is_failed = true;
  }
  backup_read backup_name source read_error m files = record {
    manager = m;
    files = files;
    is_failed = true;
  }
  backup_read backup_name source (read_text text) m files =
      if files.unwritable (backup_name source)
      then record { manager = m; files = files; is_failed = true }
      else record {
        manager = m;
        files = record files { content = insert (backup_name source) text files.content };
        is_failed = false;
      }

  -- The migration from the candidate that could be read.
  unfoldable pub migrate_text : (Text → Text) → Text → Text → Manager → Files → Step
  migrate_text backup_name source text m files =
      let (c, bad) = unmarshal text default_config in
      let saved = save (record m { cfg = apply_defaults c }) files in
      if bad
      then record { manager = m; files = files; is_failed = true }
      else if saved.is_failed
      then saved
      else backup_read backup_name source (read_file saved.files source) saved.manager saved.files

  -- One candidate, on what was read; `next` is the rest of the loop.
  unfoldable pub migrate_read :
      (Text → Text) → Text → Read → Manager → Files → Step × Option Text → Step × Option Text
  migrate_read backup_name p not_exist m files next = next
  migrate_read backup_name p read_error m files next =
      (record { manager = m; files = files; is_failed = true }, none)
  migrate_read backup_name p (read_text text) m files next =
      let s = migrate_text backup_name p text m files in (s, if s.is_failed then none else some p)

  -- The loop over the candidates; the source that was migrated, where there was one.
  unfoldable pub migrate_from : (Text → Text) → List Text → Manager → Files → Step × Option Text
  migrate_from backup_name [] m files =
      (record { manager = m; files = files; is_failed = false }, none)
  migrate_from backup_name (p ∷ ps) m files =
      let next = migrate_from backup_name ps m files in
      let reading = migrate_read backup_name p (read_file files p) m files next in
      if is_empty p then next else if same_path p m.file_path then next else reading

  -- A target that exists, or that `os.Stat` cannot tell about, is left alone.
  unfoldable pub migrate_from_legacy_paths :
      (Text → Text) → List Text → Manager → Files → Step × Option Text
  migrate_from_legacy_paths backup_name paths m files = elim (lookup m.file_path files.content) [
    | some _ ↦ (record { manager = m; files = files; is_failed = false }, none)
    | none ↦
        if files.unreadable m.file_path
        then (record { manager = m; files = files; is_failed = true }, none)
        else migrate_from backup_name paths m files
  ]
