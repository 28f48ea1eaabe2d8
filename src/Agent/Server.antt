-- ===== src/Agent/Server.antt =====
-- What the agent's request handler in cmd/agent/main.go works on: the commands and payloads of the
-- contract (internal/ipc/contract.go), the shared variables, and what stands outside of them.
use lightroom_sync.Common.{ℕ, Bool, Option, none, List, [], ◌∷◌, if◌then◌else◌}
use lightroom_sync.Common.Text.{Text, lit, text_eq}
use lightroom_sync.Config.{Config, Files, Manager}
use lightroom_sync.Logstream.{Entry, Buffer}
use lightroom_sync.Coordinator.State.{AppState}
use lightroom_sync.Coordinator.Worker.{Worker}
use lightroom_sync.Monitor.Backup.{Root}
use lightroom_sync.Preset.Categories.{Listing}
use lightroom_sync.Update.Checker.{LatestRelease}
use lightroom_sync.Agent.{SaveConfigPayload}

pub data Command : Type 0 where
  ping get_status get_config save_config sync_now sync_backup get_backups : Command
  subscribe pause_sync resume_sync check_update download_update : Command
  shutdown_agent discover_presets unknown : Command

-- The strings of the contract.
abbrev pub commands : List (Text × Command)
commands =
    (lit "ping", ping)
    ∷ (lit "get_status", get_status)
    ∷ (lit "get_config", get_config)
    ∷ (lit "save_config", save_config)
    ∷ (lit "sync_now", sync_now)
    ∷ (lit "sync_backup", sync_backup)
    ∷ (lit "get_backups", get_backups)
    ∷ (lit "subscribe_logs", subscribe)
    ∷ (lit "pause_sync", pause_sync)
    ∷ (lit "resume_sync", resume_sync)
    ∷ (lit "check_update", check_update)
    ∷ (lit "download_update", download_update)
    ∷ (lit "shutdown_agent", shutdown_agent)
    ∷ (lit "discover_presets", discover_presets)
    ∷ []

unfoldable pub command_in : List (Text × Command) → Text → Command
command_in [] text = unknown
command_in ((name, c) ∷ cs) text =
    let rest = command_in cs text in if text_eq name text then c else rest

unfoldable pub command_of : Text → Command
unfolding command_in
command_of text = command_in commands text

-- `decodePayload` of a payload that is there: what encoding/json makes of it, or its error.
pub data Decoded (A : Type 0) : Type 0 where
  decoded : A → Decoded A
  undecodable : Text → Decoded A

pub record LogsPayload : Type 0 where
  pub after_id : ℕ
  pub limit : ℕ
  pub level : Text

pub record DownloadPayload : Type 0 where
  pub asset_url : Text
  pub asset_name : Text

abbrev pub empty_patch : SaveConfigPayload
empty_patch = record {
  backup_folder = none;
  catalog_path = none;
  start_with_windows = none;
  start_minimized = none;
  minimize_to_tray = none;
  auto_sync = none;
  heartbeat_interval = none;
  check_interval = none;
  lock_timeout = none;
  max_catalog_backups = none;
  preset_sync_enabled = none;
  preset_categories = none;
  last_synced_timestamp = none;
}

pub record UpdateResult : Type 0 where
  pub current_version : Text
  pub latest_version : Text
  pub has_update : Bool
  pub release_notes : Text
  pub release_url : Text
  pub published_at : Text
  pub asset_name : Text
  pub asset_url : Text
  pub checked_at : Text
  pub download_in_progress : Bool

pub record BackupItem : Type 0 where
  pub path : Text
  pub catalog_name : Text
  pub size : ℕ
  pub mod_time : ℕ

-- The data of the responses. A configuration snapshot has the fields of the configuration.
pub data Answer : Type 0 where
  pong queued shutting_down : Answer
  status : AppState → Answer
  config : Config → Answer
  backups : List BackupItem → Answer
  logs : List Entry → ℕ → Answer
  update_info : UpdateResult → Answer
  download_started : Text → Answer
  queued_zip : Text → Answer
  categories : List Text → Answer

-- A download's goroutine, before or after its first call of `SetWarning`.
pub record Transfer : Type 0 where
  pub url : Text
  pub destination : Text
  pub is_begun : Bool

-- The variables that the handler shares with the rest of main. `marks` counts the handlers that
-- have started a goroutine and not yet marked the cached result.
pub record AgentState : Type 0 where
  pub manager : Manager
  pub files : Files
  pub worker : Worker
  pub log_buffer : Buffer
  pub cached_update : Option UpdateResult
  pub is_downloading : Bool
  pub transfers : List Transfer
  pub marks : ℕ
  pub is_stopping : Bool

-- What the handler meets outside of these: decoders, the file system, the release server, the
-- clock and the environment variables. `join` and `base` are those of path/filepath, `url_base` is
-- the last part of a URL's path, if the URL parses.
pub record Outside (P : Type 0) : Type 0 where
  pub marshal : Config → Text
  pub unmarshal : Text → Config → Config × Bool
  pub save_payload : P → Decoded SaveConfigPayload
  pub logs_payload : P → Decoded LogsPayload
  pub download_payload : P → Decoded DownloadPayload
  pub zip_payload : P → Decoded Text
  pub save_error : Text
  pub backup_root : Root
  pub walk_error : Text
  pub stat_error : Text → Option Text
  pub release : Decoded LatestRelease
  pub app_data : Text
  pub local_app_data : Text
  pub preset_listing : Listing
  pub join : List Text → Text
  pub base : Text → Text
  pub url_base : Text → Option Text
  pub now : ℕ
