-- ===== src/Agent/Download/Single.antt =====
-- There is one download of an update at a time.
use lightroom_sync.Common.{
  ℕ, zero, suc, ◌≡◌, ◌⊎◌, inl, inr, refl, true, false, Option, some, List, [], ◌∷◌, length, arith,
  subst, Option-cases,
}
use lightroom_sync.Ipc.{Request}
use lightroom_sync.Agent.Server.{
  Command, ping, get_status, get_config, save_config, sync_now, sync_backup, get_backups, subscribe,
  pause_sync, resume_sync, check_update, download_update, shutdown_agent, discover_presets, unknown,
  command_of, AgentState, Outside, Transfer,
}
use lightroom_sync.Agent.Requests.{start_job, enqueue_sync_now}
use lightroom_sync.Agent.Handler.{
  Reply, handle, handle_command, handle_save_config, handle_get_backups, handle_subscribe_logs,
  handle_check_update, handle_download_update, handle_sync_now, handle_sync_backup,
}
use lightroom_sync.Agent.Download.{
  AgentAction, receive_request, mark_cached, refresh, begin_transfer, end_transfer, work, pick,
  Ending, agent_act, AgentRun, here, step,
}

-- The flag is set exactly while one goroutine downloads; there are never two.
abbrev pub IsSingle : AgentState → Type 0
IsSingle s =
    ((s.is_downloading ≡ false) × (s.transfers ≡ []))
    ⊎ ((s.is_downloading ≡ true) × (length s.transfers ≡ 1))

module _ {P : Type 0} (o : Outside P) (payload : Option P) (s : AgentState)
    (single : IsSingle s) where
  save_config-IsSingle : IsSingle (handle_save_config o payload s).0
  unfolding handle_save_config
  save_config-IsSingle = ground (arith, single)

  get_backups-IsSingle : IsSingle (handle_get_backups o s).0
  unfolding handle_get_backups
  get_backups-IsSingle = ground (arith, single)

  check_update-IsSingle : IsSingle (handle_check_update o s).0
  unfolding handle_check_update
  check_update-IsSingle = ground (arith, single)

  download-IsSingle : IsSingle (handle_download_update o payload s).0
  unfolding handle_download_update
  download-IsSingle = ground (arith, single)

  sync_now-IsSingle : IsSingle (handle_sync_now o s).0
  unfolding handle_sync_now enqueue_sync_now start_job
  sync_now-IsSingle = ground (arith, single)

  sync_backup-IsSingle : IsSingle (handle_sync_backup o payload s).0
  unfolding handle_sync_backup start_job
  sync_backup-IsSingle = ground (arith, single)

  subscribe-IsSingle :
      (reply : Reply) → handle_subscribe_logs o payload s ≡ some reply → IsSingle reply.0
  unfolding handle_subscribe_logs
  subscribe-IsSingle reply h = ground (arith, single, h)

  returned : (x reply : Reply) → IsSingle x.0 → some x ≡ some reply → IsSingle reply.0
  returned x reply h e = let same : x ≡ reply = cc in subst (λ (r : Reply). IsSingle r.0) same h

  handle_command-IsSingle :
      (c : Command) (reply : Reply) → handle_command o c payload s ≡ some reply → IsSingle reply.0
  unfolding handle_command
  handle_command-IsSingle ping reply h = returned _ reply single h
  handle_command-IsSingle get_status reply h = returned _ reply single h
  handle_command-IsSingle get_config reply h = returned _ reply single h
  handle_command-IsSingle save_config reply h = returned _ reply save_config-IsSingle h
  handle_command-IsSingle sync_now reply h = returned _ reply sync_now-IsSingle h
  handle_command-IsSingle sync_backup reply h = returned _ reply sync_backup-IsSingle h
  handle_command-IsSingle get_backups reply h = returned _ reply get_backups-IsSingle h
  handle_command-IsSingle subscribe reply h = subscribe-IsSingle reply h
  handle_command-IsSingle pause_sync reply h = returned _ reply single h
  handle_command-IsSingle resume_sync reply h = returned _ reply single h
  handle_command-IsSingle check_update reply h = returned _ reply check_update-IsSingle h
  handle_command-IsSingle download_update reply h = returned _ reply download-IsSingle h
  handle_command-IsSingle shutdown_agent reply h = returned _ reply single h
  handle_command-IsSingle discover_presets reply h = returned _ reply single h
  handle_command-IsSingle unknown reply h = returned _ reply single h

pick-length :
    (n : ℕ) (ts : List Transfer) (t : Transfer) (rest : List Transfer)
    → pick n ts ≡ some (t, rest)
    → length ts ≡ suc (length rest)
unfolding pick
pick-length n [] t rest h = absurd cc
pick-length zero (u ∷ ts) t rest h = ground (arith, h)
pick-length (suc n) (u ∷ ts) t rest h = elim (Option-cases (pick n ts)) [
  | inl e ↦ absurd (ground (arith, e, h))
  | inr ((v, others), e) ↦ ground (arith, e, h, pick-length n ts v others e)
]

length-zero : (ts : List Transfer) → length ts ≡ 0 → ts ≡ []
length-zero [] h = refl
length-zero (t ∷ ts) h = absurd (omega arith)

module _ (P : Type 0) (s s' : AgentState) (single : IsSingle s) where
  begin_transfer-IsSingle : (n : ℕ) → agent_act {P = P} (begin_transfer n) s ≡ some s' → IsSingle s'
  unfolding agent_act
  begin_transfer-IsSingle n h = elim (Option-cases (pick n s.transfers)) [
    | inl e ↦ absurd (ground (arith, e, h))
    | inr ((t, rest), e) ↦ ground (arith, e, h, single, pick-length n s.transfers t rest e)
  ]

  end_transfer-IsSingle :
      (n : ℕ) (e : Ending) → agent_act {P = P} (end_transfer n e) s ≡ some s' → IsSingle s'
  unfolding agent_act
  end_transfer-IsSingle n ending h = elim (Option-cases (pick n s.transfers)) [
    | inl e ↦ absurd (ground (arith, e, h))
    | inr ((t, rest), e) ↦
        ground (arith, e, h, single, pick-length n s.transfers t rest e, length-zero rest)
  ]

  receive-IsSingle :
      (o : Outside P) (req : Request P)
      → agent_act (receive_request o req) s ≡ some s'
      → IsSingle s'
  unfolding agent_act handle
  receive-IsSingle o req h =
      elim (Option-cases (handle_command o (command_of req.command) req.payload s)) [
        | inl e ↦ absurd (ground (arith, e, h))
        | inr (reply, e) ↦
            let state : reply.0 ≡ s' = ground (arith, e, h) in
            subst IsSingle state
              (handle_command-IsSingle o req.payload s single (command_of req.command) reply e)
      ]

  agent_act-IsSingle : (a : AgentAction P) → agent_act a s ≡ some s' → IsSingle s'
  unfolding agent_act
  agent_act-IsSingle (receive_request o req) h = receive-IsSingle o req h
  agent_act-IsSingle mark_cached h = ground (arith, h, single)
  agent_act-IsSingle refresh h = ground (arith, h, single)
  agent_act-IsSingle (begin_transfer n) h = begin_transfer-IsSingle n h
  agent_act-IsSingle (end_transfer n e) h = end_transfer-IsSingle n e h
  agent_act-IsSingle (work a) h = ground (arith, h, single)

-- Whatever requests come, from however many callers, and in whatever order the goroutines take their
-- steps, at most one download is under way, and the flag updateDownloadInProgress is set exactly while
-- one is: no request is refused for a download that has ended.
pub AgentRun-IsSingle :
    {P : Type 0} (s s' : AgentState) → IsSingle s → AgentRun P s s' → IsSingle s'
AgentRun-IsSingle {P} s s' single here = single
AgentRun-IsSingle {P} s s' single (step {u = u} a run e) =
    agent_act-IsSingle P u s' (AgentRun-IsSingle s u single run) a e
