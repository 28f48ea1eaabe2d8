-- ===== src/Agent/Requests.antt =====
-- What the request handler of cmd/agent/main.go computes with: decodePayload, enqueueSyncNow, the
-- folders and names of updates, and the data of its responses.
use lightroom_sync.Common.{
  ℕ, zero, suc, ◌+◌, ◌-◌, Bool, true, ◌||◌, not, Option, none, some, List, [], ◌∷◌, ◌++◌, reverse,
  length, ltb, leb, drop, if◌then◌else◌,
}
use lightroom_sync.Common.Text.{Text, lit, text_eq, is_empty, trim_space, contains_text, ext}
use lightroom_sync.Coordinator.State.{AppState, set_current_job_name, set_restore_progress}
use lightroom_sync.Coordinator.Worker.{Job, EnqueueError, invalid_job, queue_full, enqueue}
use lightroom_sync.Monitor.Backup.{BackupInfo}
use lightroom_sync.Update.Checker.{LatestRelease, has_suffix}
use lightroom_sync.Ipc.{code_bad_request, code_internal_error}
use lightroom_sync.Agent.Server.{
  Decoded, decoded, DownloadPayload, UpdateResult, BackupItem, AgentState,
}

-- `decodePayload`: a request without a payload gives the zero value.
unfoldable pub decode_payload : {P A : Type 0} → (P → Decoded A) → A → Option P → Decoded A
decode_payload decode zero_value none = decoded zero_value
decode_payload decode zero_value (some raw) = decode raw

abbrev pub on_app : (AppState → AppState) → AgentState → AgentState
on_app f s = record s { worker = record s.worker { app = f s.worker.app } }

-- The bytes of a character in UTF-8.
abbrev pub utf8_width : ℕ → ℕ
utf8_width c = if ltb c 0x80 then 1 else if ltb c 0x800 then 2 else if ltb c 0x10000 then 3 else 4

unfoldable pub utf8_length : Text → ℕ
utf8_length [] = 0
utf8_length (c ∷ s) = utf8_width c + utf8_length s

abbrev marks_of : ℕ → Text
marks_of zero = []
marks_of (suc n) = 0xfffd ∷ marks_of n

-- The first bytes of a text; each byte of a character that is cut in two reads U+FFFD in JSON.
unfoldable pub take_bytes : ℕ → Text → Text
take_bytes n [] = []
take_bytes n (c ∷ s) =
    let rest = c ∷ take_bytes (n - utf8_width c) s in
    if leb (utf8_width c) n then rest else marks_of n

unfoldable pub to_ipc_update_result : LatestRelease → Bool → UpdateResult
unfolding utf8_length take_bytes
to_ipc_update_result r in_progress =
    let notes = trim_space r.release_notes in
    record {
      current_version = trim_space r.current_version;
      latest_version = trim_space r.latest_version;
      has_update = r.has_update;
      release_notes =
          if ltb 6000 (utf8_length notes)
          then take_bytes 6000 notes ++ 10 ∷ lit "...(truncated)"
          else notes;
      release_url = trim_space r.release_url;
      published_at = trim_space r.published_at;
      asset_name = trim_space r.asset_name;
      asset_url = trim_space r.asset_url;
      checked_at = trim_space r.checked_at;
      download_in_progress = in_progress;
    }

-- `strings.TrimSuffix`.
abbrev trim_suffix : Text → Text → Text
trim_suffix s t = if has_suffix s t then reverse (drop (length t) (reverse s)) else s

unfoldable pub backup_items : (Text → Text) → List BackupInfo → List BackupItem
backup_items base [] = []
backup_items base (i ∷ is) =
    record {
      path = i.path;
      catalog_name = trim_suffix (base i.path) (ext i.path);
      size = i.size;
      mod_time = i.mod_time;
    }
    ∷ backup_items base is

abbrev pub error_text : EnqueueError → Text
error_text invalid_job = lit "invalid sync job"
error_text queue_full = lit "sync queue is full"

-- A job whose Execute is given.
abbrev pub job_of : Text → Text → ℕ → Job
job_of name operation_id max_run = record {
  name = name;
  operation_id = operation_id;
  max_run = max_run;
  executable = true;
}

-- The state behind the two settings and the call of `Enqueue`, and the error's text.
unfoldable pub start_job : Job → AgentState → AgentState × Option Text
start_job job s =
    let shown = on_app (λ a. set_restore_progress 0 (set_current_job_name job.name a)) s in
    let (w, e) = enqueue job shown.worker in
    (record shown { worker = w }, elim e [ none ↦ none | some err ↦ some (error_text err) ])

abbrev pub sync_now_job : Job
sync_now_job = job_of (lit "Syncing latest backup") (lit "manual_sync_now") 120_000_000_000

unfoldable pub enqueue_sync_now : AgentState → AgentState × Option Text
unfolding start_job
enqueue_sync_now s =
    if is_empty (trim_space s.manager.cfg.backup_folder)
      || is_empty (trim_space s.manager.cfg.catalog_path)
    then (s, some (lit "backup/catalog paths are not configured"))
    else start_job sync_now_job s

abbrev pub sync_now_code : Text → Text
sync_now_code err =
    if contains_text err (lit "not configured") then code_bad_request else code_internal_error

-- `DefaultLightroomPresetRoot` and `defaultUpdateDownloadDir`; `none` is an error.
unfoldable pub default_lightroom_preset_root : (List Text → Text) → Text → Option Text
default_lightroom_preset_root join app_data =
    let root = trim_space app_data in
    if is_empty root then none else some (join (root ∷ lit "Adobe" ∷ lit "Lightroom" ∷ []))

unfoldable pub default_update_download_dir : (List Text → Text) → Text → Option Text
default_update_download_dir join local_app_data =
    let root = trim_space local_app_data in
    if is_empty root then none else some (join (root ∷ lit "LightroomSync" ∷ lit "updates" ∷ []))

abbrev pub update_defaults_name : Text
update_defaults_name = lit "lightroomsync_update.bin"

unfoldable pub resolve_asset_name : (Text → Text) → (Text → Option Text) → Text → Text → Text
resolve_asset_name base url_base asset_url fallback =
    let name = trim_space fallback in
    if not (is_empty name) then base name else elim (url_base (trim_space asset_url)) [
      | none ↦ update_defaults_name
      | some raw ↦
          let last = trim_space raw in
          if is_empty last || text_eq last (lit ".") || text_eq last (lit "/")
          then update_defaults_name
          else last
    ]

-- The asset that a download request means: its URL and its name.
unfoldable pub wanted_asset : DownloadPayload → Option UpdateResult → Text × Text
wanted_asset p cached =
    let url = trim_space p.asset_url in
    let name = trim_space p.asset_name in
    if not (is_empty url) then (url, name) else elim cached [
      | none ↦ (url, name)
      | some u ↦ (trim_space u.asset_url, if is_empty name then trim_space u.asset_name else name)
    ]
