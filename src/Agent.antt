-- ===== src/Agent.antt =====
-- Request handlers of the agent (cmd/agent/main.go): the configuration patch, and the log stream.
pub mod Patch
pub mod Logs
pub mod Server
pub mod Requests
pub mod Handler
pub mod Download
pub mod Cleanup
pub mod Wiring
pub mod Machine
pub mod Manual
use lightroom_sync.Common.{
  ℕ, ◌+◌, Bool, true, false, ◌&&◌, ◌||◌, not, Option, none, some, List, [], ◌∷◌, ◌++◌, length, ltb,
  leb, or_default, if◌then◌else◌,
}
use lightroom_sync.Common.Int64.{le64, lt64}
use lightroom_sync.Common.Text.{
  Text, lit, text_eq, is_empty, trim_space, to_lower, to_upper, equal_fold,
}
use lightroom_sync.Common.Unique.{unique_onto}
use lightroom_sync.Config.{Config, Files, Manager, Step, default_categories, update}
use lightroom_sync.Logstream.{Entry, Buffer, since}

-- `ipc.SaveConfigPayload`: a field that is nil is `none`.
pub record SaveConfigPayload : Type 0 where
  pub backup_folder : Option Text
  pub catalog_path : Option Text
  pub start_with_windows : Option Bool
  pub start_minimized : Option Bool
  pub minimize_to_tray : Option Bool
  pub auto_sync : Option Bool
  pub heartbeat_interval : Option ℕ
  pub check_interval : Option ℕ
  pub lock_timeout : Option ℕ
  pub max_catalog_backups : Option ℕ
  pub preset_sync_enabled : Option Bool
  pub preset_categories : Option (List Text)
  pub last_synced_timestamp : Option Text

abbrev pub is_nil {ℓ} : {A : Type ℓ} → Option A → Bool
is_nil none = true
is_nil (some _) = false

unfoldable pub is_empty_config_patch : SaveConfigPayload → Bool
is_empty_config_patch p =
    is_nil p.backup_folder
    && is_nil p.catalog_path
    && is_nil p.start_with_windows
    && is_nil p.start_minimized
    && is_nil p.minimize_to_tray
    && is_nil p.auto_sync
    && is_nil p.heartbeat_interval
    && is_nil p.check_interval
    && is_nil p.lock_timeout
    && is_nil p.max_catalog_backups
    && is_nil p.preset_sync_enabled
    && is_nil p.preset_categories
    && is_nil p.last_synced_timestamp

unfoldable pub normalize_categories : List Text → List Text
normalize_categories raw = unique_onto [] raw

-- A number of the patch that is not positive.
abbrev pub is_invalid : Option ℕ → Bool
is_invalid none = false
is_invalid (some n) = le64 n 0

abbrev pub trimmed_or : Option Text → Text → Text
trimmed_or none old = old
trimmed_or (some t) old = trim_space t

-- `cfg.PresetCategories`, once an empty list has been replaced.
abbrev pub filled : List Text → List Text
filled [] = default_categories
filled (c ∷ cs) = c ∷ cs

-- `cfg` behind the patch.
unfoldable pub patched : SaveConfigPayload → Config → Config
patched p c = record {
  backup_folder = trimmed_or p.backup_folder c.backup_folder;
  catalog_path = trimmed_or p.catalog_path c.catalog_path;
  start_with_windows = or_default p.start_with_windows c.start_with_windows;
  start_minimized = or_default p.start_minimized c.start_minimized;
  minimize_to_tray = or_default p.minimize_to_tray c.minimize_to_tray;
  auto_sync = or_default p.auto_sync c.auto_sync;
  heartbeat_interval = or_default p.heartbeat_interval c.heartbeat_interval;
  check_interval = or_default p.check_interval c.check_interval;
  lock_timeout = or_default p.lock_timeout c.lock_timeout;
  max_catalog_backups = or_default p.max_catalog_backups c.max_catalog_backups;
  preset_sync_enabled = or_default p.preset_sync_enabled c.preset_sync_enabled;
  preset_categories = some (
      filled (elim p.preset_categories [
        | none ↦ or_default c.preset_categories []
        | some raw ↦ normalize_categories raw
      ]));
  last_synced_timestamp = trimmed_or p.last_synced_timestamp c.last_synced_timestamp;
}

abbrev pub has_invalid : SaveConfigPayload → Bool
has_invalid p =
    is_invalid p.heartbeat_interval
    || is_invalid p.check_interval
    || is_invalid p.lock_timeout
    || is_invalid p.max_catalog_backups

-- The four numbers are tested before anything is stored.
unfoldable pub apply_config_patch :
    (Config → Text) → (Text → Config → Config × Bool) → SaveConfigPayload → Manager → Files → Step
apply_config_patch marshal unmarshal p m files =
    if has_invalid p
    then record { manager = m; files = files; is_failed = true }
    else update marshal unmarshal (patched p m.cfg) m files

unfoldable pub normalize_log_level_filter : Text → Text
normalize_log_level_filter raw =
    let level = to_upper (trim_space raw) in
    if text_eq level (lit "INFO")
    then lit "INFO"
    else if text_eq level (lit "WARN") || text_eq level (lit "WARNING")
    then lit "WARN"
    else if text_eq level (lit "ERROR")
    then lit "ERROR"
    else if text_eq level (lit "DEBUG")
    then lit "DEBUG"
    else []

-- `payload.Limit`, which is cut to 500.
unfoldable pub stream_limit : ℕ → ℕ
stream_limit limit = if le64 limit 0 then 200 else if lt64 500 limit then 500 else limit

abbrev pub passes : Text → Entry → Bool
passes level_filter e = if is_empty level_filter then true else equal_fold e.level level_filter

-- The loop that fills `stream`, which has `count` entries and stops at the limit.
unfoldable pub fill_stream : Text → ℕ → ℕ → List Entry → List Entry
fill_stream level_filter limit count [] = []
fill_stream level_filter limit count (e ∷ es) =
    let skip = fill_stream level_filter limit count es in
    let keep = e ∷ fill_stream level_filter limit (count + 1) es in
    let last = e ∷ [] in
    if passes level_filter e then (if leb limit (count + 1) then last else keep) else skip

-- The answer to what `Since` returned.
abbrev pub stream_answer : Text → ℕ → Option (List Entry × ℕ) → Option (List Entry × ℕ)
stream_answer level_filter limit none = none
stream_answer level_filter limit (some (entries, cursor)) =
    some (fill_stream level_filter limit 0 entries, cursor)

-- The entries of the answer, and its `LastID`.
unfoldable pub subscribe_logs : Text → ℕ → ℕ → Buffer → Option (List Entry × ℕ)
subscribe_logs level after limit b =
    let level_filter = normalize_log_level_filter level in
    let scan_limit = if is_empty level_filter then stream_limit limit else 500 in
    stream_answer level_filter (stream_limit limit) (since after scan_limit b)
