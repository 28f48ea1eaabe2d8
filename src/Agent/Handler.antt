-- ===== src/Agent/Handler.antt =====
-- The agent's request handler, the function that cmd/agent/main.go gives to the IPC server. Its
-- result is `none` where reading the log panics.
pub mod Effects
pub mod Replies
use lightroom_sync.Common.{
  ℕ, zero, suc, ◌+◌, ◌-◌, Bool, true, false, ◌&&◌, ◌||◌, not, Option, none, some, List, [], ◌∷◌,
  ◌++◌, reverse, length, ltb, leb, drop, if◌then◌else◌,
}
use lightroom_sync.Common.Text.{
  Text, lit, text_eq, is_empty, trim_space, equal_fold, contains_text, has_prefix, ext, decimal,
}
use lightroom_sync.Coordinator.State.{
  AppState, set_auto_sync, set_current_job_name, set_restore_progress,
}
use lightroom_sync.Coordinator.Worker.{
  Worker, Job, EnqueueError, invalid_job, queue_full, enqueue, pause, resume,
}
use lightroom_sync.Monitor.Backup.{BackupInfo, list_zip_backups}
use lightroom_sync.Preset.Categories.{default_preset_categories, discover_preset_categories}
use lightroom_sync.Update.Checker.{LatestRelease, has_suffix}
use lightroom_sync.Ipc.{
  Request, Response, succeeded, refused, code_bad_request, code_unknown_cmd, code_internal_error,
}
use lightroom_sync.Agent.{
  SaveConfigPayload, is_empty_config_patch, apply_config_patch, is_invalid, subscribe_logs,
}
use lightroom_sync.Agent.Server.{
  Command, ping, get_status, get_config, save_config, sync_now, sync_backup, get_backups, subscribe,
  pause_sync, resume_sync, check_update, download_update, shutdown_agent, discover_presets, unknown,
  command_of, Decoded, decoded, undecodable, LogsPayload, DownloadPayload, empty_patch,
  UpdateResult, BackupItem, Answer, pong, queued, shutting_down, status, config, backups, logs,
  update_info, download_started, queued_zip, categories, Transfer, AgentState, Outside,
}
use lightroom_sync.Agent.Requests.{
  decode_payload, on_app, to_ipc_update_result, backup_items, job_of, start_job, enqueue_sync_now,
  sync_now_code, default_lightroom_preset_root, default_update_download_dir, resolve_asset_name,
  wanted_asset,
}

abbrev pub Reply : Type 0
Reply = AgentState × Response Answer

abbrev pub bad_request : AgentState → Text → Reply
bad_request s error = (s, refused code_bad_request error)

abbrev pub internal_error : AgentState → Text → Reply
internal_error s error = (s, refused code_internal_error error)

abbrev pub answered : AgentState → Answer → Reply
answered s a = (s, succeeded (some a))

-- Which number of the patch is not positive, or the error of `Update`.
abbrev patch_error : Text → SaveConfigPayload → Text
patch_error save_error p =
    if is_invalid p.heartbeat_interval
    then lit "heartbeat_interval must be > 0"
    else if is_invalid p.check_interval
    then lit "check_interval must be > 0"
    else if is_invalid p.lock_timeout
    then lit "lock_timeout must be > 0"
    else if is_invalid p.max_catalog_backups
    then lit "max_catalog_backups must be > 0"
    else save_error

module _ {P : Type 0} (o : Outside P) where
  unfoldable pub handle_save_config : Option P → AgentState → Reply
  unfolding decode_payload
  handle_save_config payload s = elim (decode_payload o.save_payload empty_patch payload) [
    | undecodable err ↦ bad_request s (lit "invalid save_config payload: " ++ err)
    | decoded p ↦
        let step = apply_config_patch o.marshal o.unmarshal p s.manager s.files in
        let after = record s { manager = step.manager; files = step.files } in
        let shown = on_app (set_auto_sync step.manager.cfg.auto_sync) after in
        if is_empty_config_patch p
        then bad_request s (lit "save_config payload is empty")
        else if step.is_failed
        then bad_request after (patch_error o.save_error p)
        else answered shown (config step.manager.cfg)
  ]

  unfoldable pub handle_get_backups : AgentState → Reply
  unfolding backup_items
  handle_get_backups s =
      let folder = s.manager.cfg.backup_folder in
      let listed : Reply = elim (list_zip_backups folder o.backup_root) [
        | none ↦ internal_error s o.walk_error
        | some infos ↦ answered s (backups (backup_items o.base infos))
      ] in
      if is_empty (trim_space folder)
      then bad_request s (lit "backup folder is not configured")
      else listed

  unfoldable pub handle_subscribe_logs : Option P → AgentState → Option Reply
  unfolding decode_payload
  handle_subscribe_logs payload s =
      elim (decode_payload o.logs_payload (record { after_id = 0; limit = 0; level = [] })
        payload) [
          | undecodable err ↦ some (bad_request s (lit "invalid subscribe_logs payload: " ++ err))
          | decoded p ↦ elim (subscribe_logs p.level p.after_id p.limit s.log_buffer) [
            | none ↦ none
            | some (entries, last_id) ↦ some (answered s (logs entries last_id))
          ]
        ]

  unfoldable pub handle_check_update : AgentState → Reply
  unfolding to_ipc_update_result
  handle_check_update s = elim o.release [
    | undecodable err ↦ internal_error s (lit "check_update failed: " ++ err)
    | decoded r ↦
        let result = to_ipc_update_result r s.is_downloading in
        answered (record s { cached_update = some result }) (update_info result)
  ]

  -- The state once the goroutine of the download is started.
  abbrev pub spawned : Text → Text → AgentState → AgentState
  spawned url destination s = record s {
    is_downloading = true;
    transfers = record { url = url; destination = destination; is_begun = false } ∷ s.transfers;
    marks = suc s.marks;
  }

  unfoldable pub handle_download_update : Option P → AgentState → Reply
  unfolding decode_payload wanted_asset resolve_asset_name default_update_download_dir
  handle_download_update payload s =
      let start : DownloadPayload → Reply = λ p.
        let (url, name) = wanted_asset p s.cached_update in
        let go : Text → Reply = λ dir.
          let destination = o.join (dir ∷ resolve_asset_name o.base o.url_base url name ∷ []) in
          answered (spawned url destination s) (download_started destination) in
        let found : Reply = elim (default_update_download_dir o.join o.local_app_data) [
          | none ↦
              internal_error s
                (lit "resolve update directory: LOCALAPPDATA environment variable is not set")
          | some dir ↦ go dir
        ] in
        if s.is_downloading
        then bad_request s (lit "update download is already in progress")
        else if is_empty url
        then bad_request s (lit "asset_url is required (run check_update first or pass payload)")
        else found in
      elim (decode_payload o.download_payload (record { asset_url = []; asset_name = [] })
        payload) [
          | undecodable err ↦ bad_request s (lit "invalid download_update payload: " ++ err)
          | decoded p ↦ start p
        ]

  unfoldable pub handle_sync_now : AgentState → Reply
  unfolding enqueue_sync_now
  handle_sync_now s =
      let (s', e) = enqueue_sync_now s in
      elim e [ none ↦ answered s' queued | some err ↦ (s', refused (sync_now_code err) err) ]

  abbrev pub sync_backup_job : Job
  sync_backup_job =
      job_of (lit "Restoring backup") (lit "manual_sync_backup_" ++ decimal o.now) 120_000_000_000

  unfoldable pub handle_sync_backup : Option P → AgentState → Reply
  unfolding decode_payload start_job
  handle_sync_backup payload s =
      let enqueue_zip : Text → Reply = λ zip_path.
        let (s', e) = start_job sync_backup_job s in
        elim e [ none ↦ answered s' (queued_zip zip_path) | some err ↦ internal_error s' err ] in
      let checked : Text → Reply = λ raw.
        let zip_path = trim_space raw in
        let accessible : Reply = elim (o.stat_error zip_path) [
          | some err ↦ bad_request s (lit "backup zip not accessible: " ++ err)
          | none ↦ enqueue_zip zip_path
        ] in
        if is_empty zip_path
        then bad_request s (lit "zip_path is required")
        else if not (equal_fold (ext zip_path) (lit ".zip"))
        then bad_request s (lit "zip_path must point to a .zip file")
        else accessible in
      let taken : Reply = elim (decode_payload o.zip_payload [] payload) [
        | undecodable err ↦ bad_request s (lit "invalid sync_backup payload: " ++ err)
        | decoded raw ↦ checked raw
      ] in
      if is_empty (trim_space s.manager.cfg.catalog_path)
      then bad_request s (lit "catalog path is not configured")
      else taken

  abbrev pub shown_categories : List Text → List Text
  shown_categories [] = default_preset_categories
  shown_categories (c ∷ cs) = c ∷ cs

  unfoldable pub discovered_dirs : List Text
  unfolding default_lightroom_preset_root
  discovered_dirs = elim (default_lightroom_preset_root o.join o.app_data) [
    | none ↦ []
    | some root ↦ elim (discover_preset_categories root o.preset_listing) [
      | none ↦ []
      | some dirs ↦ dirs
    ]
  ]

  -- The switch on the command.
  unfoldable pub handle_command : Command → Option P → AgentState → Option Reply
  unfolding handle_save_config handle_get_backups handle_subscribe_logs handle_check_update
      handle_download_update handle_sync_now handle_sync_backup discovered_dirs
  handle_command ping payload s = some (answered s pong)
  handle_command get_status payload s = some (answered s (status s.worker.app))
  handle_command get_config payload s = some (answered s (config s.manager.cfg))
  handle_command save_config payload s = some (handle_save_config payload s)
  handle_command sync_now payload s = some (handle_sync_now s)
  handle_command sync_backup payload s = some (handle_sync_backup payload s)
  handle_command get_backups payload s = some (handle_get_backups s)
  handle_command subscribe payload s = handle_subscribe_logs payload s
  handle_command pause_sync payload s =
      let s' = record s { worker = pause s.worker } in some (answered s' (status s'.worker.app))
  handle_command resume_sync payload s =
      let s' = record s { worker = resume s.worker } in some (answered s' (status s'.worker.app))
  handle_command check_update payload s = some (handle_check_update s)
  handle_command download_update payload s = some (handle_download_update payload s)
  handle_command shutdown_agent payload s =
      some (answered (record s { is_stopping = true }) shutting_down)
  handle_command discover_presets payload s =
      some (answered s (categories (shown_categories discovered_dirs)))
  handle_command unknown payload s = some (s, refused code_unknown_cmd (lit "unsupported command"))

  unfoldable pub handle : AgentState → Request P → Option Reply
  unfolding handle_command command_of
  handle s req = handle_command (command_of req.command) req.payload s
