-- ===== src/Tests/ServerTests.antt =====
-- The agent's requests, its downloads and the UI's actions at concrete inputs.
use lightroom_sync.Common.{◌≡◌, refl, inl, true, false, none, some, List, [], ◌∷◌, ◌++◌}
use lightroom_sync.Common.Text.{
  Text, lit, text_eq, to_lower, lower_rune, has_prefix, trim_space, trim_left, is_space,
}
use lightroom_sync.Config.{new_manager}
use lightroom_sync.Logstream.{new_buffer}
use lightroom_sync.Coordinator.State.{new_app_state}
use lightroom_sync.Coordinator.Worker.{new_worker}
use lightroom_sync.Preset.Categories.{
  Start, Listing, begin_sync, discover_preset_categories, bootstrap_failed,
  resolve_preset_categories, filled_names,
}
use lightroom_sync.Common.Unique.{unique_onto}
use lightroom_sync.Preset.Categories.Choice.{IsChoice, begin_sync-IsChoice}
use lightroom_sync.Ipc.{Request}
use lightroom_sync.Monitor.Backup.{missing}
use lightroom_sync.Agent.Server.{
  AgentState, Outside, decoded, undecodable, empty_patch, command_of, command_in,
}
use lightroom_sync.Agent.Requests.{
  decode_payload, wanted_asset, resolve_asset_name, default_update_download_dir,
}
use lightroom_sync.Agent.Handler.{handle, handle_command, handle_download_update}
use lightroom_sync.Agent.Download.{
  AgentAction, pick, agent_act, receive_request, begin_transfer, AgentRun, here, step,
}
use lightroom_sync.Agent.Download.Single.{IsSingle, AgentRun-IsSingle}
use lightroom_sync.Update.Version.{
  compare_versions, parse_version, parse_segments, cut_at, parse_segment, leading_digits, atoi_from,
  compare_segments,
}
use lightroom_sync.Common.Text.{split}
use lightroom_sync.Sync.Archive.{trim_prefix}
use lightroom_sync.Update.Token.{count_digits, match_groups, match_number}
use lightroom_sync.Agent.Cleanup.{
  last_number, is_installer, is_at_most, cleanup_downloaded_updates, Folder,
}
use lightroom_sync.Agent.Cleanup.Numbers.{IsApart, version_text}
use lightroom_sync.Agent.Cleanup.Stale.{file_name, is_in, downloaded, installer_removed}
use lightroom_sync.Ui.{Json}
use lightroom_sync.Ui.Honest.{Honest}

abbrev last_of : List Text → Text
last_of [] = []
last_of (t ∷ []) = t
last_of (t ∷ u ∷ ts) = last_of (u ∷ ts)

abbrev outside : Outside Text
outside = record {
  marshal = λ c. c.backup_folder;
  unmarshal = λ t c. (record c { backup_folder = t }, true);
  save_payload = λ t. decoded (record empty_patch { backup_folder = some t });
  logs_payload = λ t. decoded (record { after_id = 0; limit = 10; level = [] });
  download_payload = λ t. decoded (record { asset_url = t; asset_name = lit "a.exe" });
  zip_payload = decoded;
  save_error = lit "disk";
  backup_root = missing;
  walk_error = lit "walk";
  stat_error = λ t. none;
  release = undecodable (lit "offline");
  app_data = lit "A";
  local_app_data = lit "L";
  preset_listing = Listing.entries [];
  join = last_of;
  base = λ t. t;
  url_base = λ t. none;
  now = 0;
}

abbrev idle : AgentState
idle = record {
  manager = new_manager (lit "new.yaml");
  files = record { content = []; unreadable = λ t. false; unwritable = λ t. false };
  worker = new_worker 4 new_app_state (record { buffered = []; size = 8 });
  log_buffer = new_buffer 2;
  cached_update = none;
  is_downloading = false;
  transfers = [];
  marks = 0;
  is_stopping = false;
}

abbrev request : Text → Text → Request Text
request command payload = record { id = []; command = command; payload = some payload }

-- The state behind an action that can be taken.
abbrev after : AgentAction Text → AgentState → AgentState
after a s = elim (agent_act a s) [ none ↦ s | some s' ↦ s' ]

abbrev download : AgentAction Text
download = receive_request outside (request (lit "download_update") (lit "http://h/a.exe"))

abbrev begin_first : AgentAction Text
begin_first = begin_transfer 0

abbrev asked : AgentState
asked = after download idle

abbrev loading : AgentState
loading = after begin_first asked

asked_next : agent_act download idle ≡ some asked
unfolding agent_act handle handle_command command_of command_in handle_download_update
    decode_payload wanted_asset resolve_asset_name default_update_download_dir lit text_eq
    trim_space trim_left is_space
asked_next = refl

loading_next : agent_act begin_first asked ≡ some loading
unfolding agent_act handle handle_command command_of command_in handle_download_update
    decode_payload wanted_asset resolve_asset_name default_update_download_dir lit text_eq
    trim_space trim_left is_space pick
loading_next = refl

run : AgentRun Text idle loading
run = step begin_first (step download here asked_next) loading_next

AgentRun-IsSingle_example : IsSingle loading
AgentRun-IsSingle_example = AgentRun-IsSingle idle loading (inl (refl, refl)) run

abbrev json : Json Text
json = record {
  parse_map = decoded;
  parse_logs = λ t p. decoded p;
  parse_download = λ t p. decoded (record p { asset_url = t });
  of_logs = λ p. p.level;
  of_download = λ p. p.asset_url;
  of_zip_path = λ t. t;
}

abbrev first_start : Start
first_start = record {
  backup_dir = lit "B";
  local_root = lit "L";
  configured = lit " Watermarks" ∷ lit "watermarks" ∷ [];
  is_cancelled = false;
  mkdir_fails = false;
  listing = Listing.entries [];
  bootstrap_fails = λ t. false;
}

watermarks_chosen : begin_sync first_start ≡ some (lit "Watermarks" ∷ [])
unfolding begin_sync lit trim_space discover_preset_categories bootstrap_failed
    resolve_preset_categories unique_onto filled_names text_eq to_lower
watermarks_chosen = refl

begin_sync-IsChoice_example : IsChoice first_start.configured (lit "Watermarks" ∷ [])
begin_sync-IsChoice_example =
    begin_sync-IsChoice first_start (lit "Watermarks" ∷ []) watermarks_chosen

-- The installer of version 2.1.0.9, named as the releases are.
abbrev setup_name : Text
setup_name = file_name (lit "Setup-v2.") b'1' (lit "0") (lit "9") (lit "-windows-amd64.exe")

setup_name-trimmed : trim_space setup_name ≡ setup_name
unfolding trim_space trim_left is_space lit
setup_name-trimmed = refl

rest-IsApart : IsApart (lit "-windows-amd64.exe")
unfolding count_digits match_groups match_number last_number lit
rest-IsApart = record { no_digits = refl; no_group = refl; no_number = refl }

setup_name-is_installer : is_installer setup_name ≡ true
unfolding is_installer lit has_prefix to_lower lower_rune
setup_name-is_installer = refl

-- It is taken for 1.0.9, which is before the running version.
seems_old :
    is_at_most
      (compare_versions (λ c. false) (version_text b'1' (lit "0") (lit "9")) (lit "2.0.7.5"))
    ≡ true
unfolding compare_versions lit parse_version trim_space parse_segments split cut_at trim_prefix
    has_prefix parse_segment leading_digits atoi_from compare_segments
seems_old = refl

installer_removed_example :
    is_in setup_name
      (cleanup_downloaded_updates
        (λ c. false)
        (lit "2.0.7.5")
        last_of
        (lit "L")
        (Folder.entries ([] ++ (downloaded setup_name none ∷ [])))).0
    ≡ false
unfolding default_update_download_dir trim_space lit
installer_removed_example =
    installer_removed (λ c. false) (lit "2.0.7.5") last_of (lit "L") (lit "updates") b'1'
      (lit "Setup-v2.") (lit "0") (lit "9") (lit "-windows-amd64.exe") none [] [] refl refl refl
      refl rest-IsApart setup_name-trimmed setup_name-is_installer seems_old
