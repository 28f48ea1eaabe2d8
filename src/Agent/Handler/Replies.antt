-- ===== src/Agent/Handler/Replies.antt =====
-- The codes of the handler's responses, and when a manual restore is taken.
use lightroom_sync.Common.{
  ◌≡◌, refl, subst, Bool, true, false, ◌||◌, Option, some, not, arith, inl, inr, Option-cases,
  if◌then◌else◌,
}
use lightroom_sync.Common.Text.{Text, lit, text_eq, is_empty, trim_space}
use lightroom_sync.Ipc.{
  Request, Response, succeeded, complete, handle_conn, code_ok, code_bad_request, code_unknown_cmd,
  code_internal_error,
}
use lightroom_sync.Agent.Server.{
  Command, ping, get_status, get_config, save_config, sync_now, sync_backup, get_backups, subscribe,
  pause_sync, resume_sync, check_update, download_update, shutdown_agent, discover_presets, unknown,
  command_of, Answer, AgentState, Outside,
}
use lightroom_sync.Agent.Handler.{
  Reply, handle, handle_command, handle_save_config, handle_get_backups, handle_subscribe_logs,
  handle_check_update, handle_download_update, handle_sync_now, handle_sync_backup,
}

-- Both paths of the configuration are given.
abbrev pub is_configured : AgentState → Bool
is_configured s = not (
    is_empty (trim_space s.manager.cfg.backup_folder)
    || is_empty (trim_space s.manager.cfg.catalog_path))

-- A response's code is ok just if it is a success, and its ID is left to the server.
pub record IsCoded (r : Response Answer) : Type 0 where
  pub coded : text_eq r.code code_ok ≡ r.success
  pub unnamed : is_empty r.id ≡ true

abbrev CodesDiffer : Type 0
CodesDiffer =
    (text_eq code_ok code_ok ≡ true)
    × (text_eq code_bad_request code_ok ≡ false)
    × (text_eq code_internal_error code_ok ≡ false)
    × (text_eq code_unknown_cmd code_ok ≡ false)

codes_differ : CodesDiffer
unfolding text_eq lit
codes_differ = (refl, refl, refl, refl)

module _ {P : Type 0} (o : Outside P) (payload : Option P) (s : AgentState) where
  save_config-IsCoded : IsCoded (handle_save_config o payload s).1
  unfolding handle_save_config
  save_config-IsCoded = ground (arith, codes_differ)

  get_backups-IsCoded : IsCoded (handle_get_backups o s).1
  unfolding handle_get_backups
  get_backups-IsCoded = ground (arith, codes_differ)

  check_update-IsCoded : IsCoded (handle_check_update o s).1
  unfolding handle_check_update
  check_update-IsCoded = ground (arith, codes_differ)

  download-IsCoded : IsCoded (handle_download_update o payload s).1
  unfolding handle_download_update
  download-IsCoded = ground (arith, codes_differ)

  sync_now-IsCoded : IsCoded (handle_sync_now o s).1
  unfolding handle_sync_now
  sync_now-IsCoded = ground (arith, codes_differ)

  sync_backup-IsCoded : IsCoded (handle_sync_backup o payload s).1
  unfolding handle_sync_backup
  sync_backup-IsCoded = ground (arith, codes_differ)

  subscribe-IsCoded :
      (reply : Reply) → handle_subscribe_logs o payload s ≡ some reply → IsCoded reply.1
  unfolding handle_subscribe_logs
  subscribe-IsCoded reply h = ground (arith, codes_differ, h)

  quiet-IsCoded : (a : Option Answer) → IsCoded (succeeded a)
  quiet-IsCoded a = ground (arith, codes_differ)

  returned : (x reply : Reply) → IsCoded x.1 → some x ≡ some reply → IsCoded reply.1
  returned x reply h e = let same : x ≡ reply = cc in subst (λ (r : Reply). IsCoded r.1) same h

  handle_command-IsCoded :
      (c : Command) (reply : Reply) → handle_command o c payload s ≡ some reply → IsCoded reply.1
  unfolding handle_command
  handle_command-IsCoded ping reply h = returned _ reply (quiet-IsCoded _) h
  handle_command-IsCoded get_status reply h = returned _ reply (quiet-IsCoded _) h
  handle_command-IsCoded get_config reply h = returned _ reply (quiet-IsCoded _) h
  handle_command-IsCoded save_config reply h = returned _ reply save_config-IsCoded h
  handle_command-IsCoded sync_now reply h = returned _ reply sync_now-IsCoded h
  handle_command-IsCoded sync_backup reply h = returned _ reply sync_backup-IsCoded h
  handle_command-IsCoded get_backups reply h = returned _ reply get_backups-IsCoded h
  handle_command-IsCoded subscribe reply h = subscribe-IsCoded reply h
  handle_command-IsCoded pause_sync reply h = returned _ reply (quiet-IsCoded _) h
  handle_command-IsCoded resume_sync reply h = returned _ reply (quiet-IsCoded _) h
  handle_command-IsCoded check_update reply h = returned _ reply check_update-IsCoded h
  handle_command-IsCoded download_update reply h = returned _ reply download-IsCoded h
  handle_command-IsCoded shutdown_agent reply h = returned _ reply (quiet-IsCoded _) h
  handle_command-IsCoded discover_presets reply h = returned _ reply (quiet-IsCoded _) h
  handle_command-IsCoded unknown reply h = ground (arith, codes_differ, h)

-- The response to a request that can be decoded has the ID of the request, or the one that the server
-- made for a request without one, and its code is ok just if it is a success.
pub handle_conn-coded :
    {P : Type 0} (o : Outside P) (fresh_id : Text) (req : Request P) (s : AgentState)
    (reply : Reply)
    → handle_conn (some (handle o)) fresh_id (some req) s ≡ some reply
    → (reply.1.id ≡ (if is_empty req.id then fresh_id else req.id))
      × (text_eq reply.1.code code_ok ≡ reply.1.success)
unfolding handle_conn complete handle
handle_conn-coded o fresh_id req s reply h =
    elim (Option-cases (handle_command o (command_of req.command) req.payload s)) [
      | inl e ↦ absurd (ground (arith, e, h))
      | inr (found, e) ↦
          let c = handle_command-IsCoded o req.payload s (command_of req.command) found e in
          ground (arith, e, h, c, codes_differ)
    ]
