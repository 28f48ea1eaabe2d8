-- ===== src/Agent/Handler/Effects.antt =====
-- What each request does to the parts of the agent.
use mathlib.Core.List.{append-nil}
use lightroom_sync.Common.{
  ℕ, ◌+◌, ◌≡◌, refl, subst, Bool, true, false, ◌&&◌, ◌||◌, Option, some, List, [], ◌∷◌, ◌++◌,
  length, arith, if◌then◌else◌,
}
use lightroom_sync.Coordinator.Worker.{Job, enqueue, pause, resume}
use lightroom_sync.Agent.{is_nil}
use lightroom_sync.Agent.Server.{
  Command, ping, get_status, get_config, save_config, sync_now, sync_backup, get_backups, subscribe,
  pause_sync, resume_sync, check_update, download_update, shutdown_agent, discover_presets, unknown,
  AgentState, Outside,
}
use lightroom_sync.Agent.Requests.{start_job, enqueue_sync_now, sync_now_job}
use lightroom_sync.Agent.Handler.{
  Reply, handle_command, handle_save_config, handle_get_backups, handle_subscribe_logs,
  handle_check_update, handle_download_update, handle_sync_now, handle_sync_backup, sync_backup_job,
}

-- The jobs that a successful request queues.
abbrev pub job_of_command : {P : Type 0} → Outside P → Command → List Job
job_of_command o sync_now = sync_now_job ∷ []
job_of_command o sync_backup = sync_backup_job o ∷ []
job_of_command o _ = []

abbrev pub is_download : Command → Bool
is_download download_update = true
is_download _ = false

abbrev pub is_shutdown : Command → Bool
is_shutdown shutdown_agent = true
is_shutdown _ = false

-- Whether the worker is paused behind a command.
abbrev pub paused_by : Command → Bool → Bool
paused_by pause_sync paused = true
paused_by resume_sync paused = false
paused_by _ paused = paused

abbrev pub when {ℓ} : {A : Type ℓ} → Bool → List A → List A
when true xs = xs
when false xs = []

abbrev pub one_if : Bool → ℕ
one_if true = 1
one_if false = 0

-- What a request does between two states, where `done` is whether success is reported.
pub record HasEffect {P : Type 0} (o : Outside P) (c : Command) (s s' : AgentState) (done : Bool)
    : Type 0 where
  pub queues : s'.worker.queue ≡ s.worker.queue ++ when done (job_of_command o c)
  pub downloads : length s'.transfers ≡ length s.transfers + one_if (done && is_download c)
  pub pauses :
      s'.worker.is_paused ≡ (if done then paused_by c s.worker.is_paused else s.worker.is_paused)
  pub stops : s'.is_stopping ≡ s.is_stopping || (done && is_shutdown c)
  pub runs_on : s'.worker.phase ≡ s.worker.phase

-- The same for a reply, whose response reports it.
abbrev pub ReplyEffect : {P : Type 0} → Outside P → Command → AgentState → Reply → Type 0
ReplyEffect o c s (s', r) = HasEffect o c s s' r.success

module _ {P : Type 0} (o : Outside P) (payload : Option P) (s : AgentState) where
  save_config-HasEffect : ReplyEffect o save_config s (handle_save_config o payload s)
  unfolding handle_save_config
  save_config-HasEffect = ground (arith, append-nil s.worker.queue)

  get_backups-HasEffect : ReplyEffect o get_backups s (handle_get_backups o s)
  unfolding handle_get_backups
  get_backups-HasEffect = ground (arith, append-nil s.worker.queue)

  check_update-HasEffect : ReplyEffect o check_update s (handle_check_update o s)
  unfolding handle_check_update
  check_update-HasEffect = ground (arith, append-nil s.worker.queue)

  subscribe-HasEffect :
      (reply : Reply)
      → handle_subscribe_logs o payload s ≡ some reply
      → ReplyEffect o subscribe s reply
  unfolding handle_subscribe_logs
  subscribe-HasEffect reply h = ground (arith, append-nil s.worker.queue, h)

  download-HasEffect : ReplyEffect o download_update s (handle_download_update o payload s)
  unfolding handle_download_update
  download-HasEffect = ground (arith, append-nil s.worker.queue)

  -- A job is queued just if `Enqueue` returns no error.
  start_job-queue :
      (job : Job)
      → let (s', e) = start_job job s in
        (s'.worker.queue ≡ s.worker.queue ++ when (is_nil e) (job ∷ []))
        × (s'.transfers ≡ s.transfers)
        × (s'.worker.is_paused ≡ s.worker.is_paused)
        × (s'.is_stopping ≡ s.is_stopping)
        × (s'.worker.phase ≡ s.worker.phase)
  unfolding start_job enqueue
  start_job-queue job = ground (arith, append-nil s.worker.queue)

  sync_backup-HasEffect : ReplyEffect o sync_backup s (handle_sync_backup o payload s)
  unfolding handle_sync_backup
  sync_backup-HasEffect =
      ground (arith, append-nil s.worker.queue, start_job-queue (sync_backup_job o))

  sync_now-HasEffect : ReplyEffect o sync_now s (handle_sync_now o s)
  unfolding handle_sync_now enqueue_sync_now
  sync_now-HasEffect = ground (arith, append-nil s.worker.queue, start_job-queue sync_now_job)

  pause-HasEffect :
      (reply : Reply)
      → handle_command o pause_sync payload s ≡ some reply
      → ReplyEffect o pause_sync s reply
  unfolding handle_command pause
  pause-HasEffect reply h = ground (arith, append-nil s.worker.queue, h)

  resume-HasEffect :
      (reply : Reply)
      → handle_command o resume_sync payload s ≡ some reply
      → ReplyEffect o resume_sync s reply
  unfolding handle_command resume
  resume-HasEffect reply h = ground (arith, append-nil s.worker.queue, h)

  -- An answer that leaves the agent alone.
  quiet-HasEffect :
      (c : Command)
      → job_of_command o c ≡ []
      → is_download c ≡ false
      → is_shutdown c ≡ false
      → paused_by c s.worker.is_paused ≡ s.worker.is_paused
      → HasEffect o c s s true
  quiet-HasEffect c j d q p = ground (arith, append-nil s.worker.queue, j, d, q, p)

  -- Nothing done is reported as nothing done.
  pub undone-HasEffect : (c : Command) → HasEffect o c s s false
  undone-HasEffect c = ground (arith, append-nil s.worker.queue)

  returned :
      (c : Command) (x reply : Reply)
      → ReplyEffect o c s x
      → some x ≡ some reply
      → ReplyEffect o c s reply
  returned c x reply h e = let same : x ≡ reply = cc in subst (λ r. ReplyEffect o c s r) same h

  -- What the handler's response says is what was done: a job is queued just by a successful sync_now
  -- or sync_backup, a download started just by a successful download_update, the pause changed just by
  -- pause_sync and resume_sync and the shutdown asked for just by shutdown_agent. No request touches
  -- the job that runs.
  pub handle_command-HasEffect :
      (c : Command) (reply : Reply)
      → handle_command o c payload s ≡ some reply
      → ReplyEffect o c s reply
  unfolding handle_command
  handle_command-HasEffect ping reply h =
      returned ping _ reply (quiet-HasEffect ping refl refl refl refl) h
  handle_command-HasEffect get_status reply h =
      returned get_status _ reply (quiet-HasEffect get_status refl refl refl refl) h
  handle_command-HasEffect get_config reply h =
      returned get_config _ reply (quiet-HasEffect get_config refl refl refl refl) h
  handle_command-HasEffect save_config reply h =
      returned save_config _ reply save_config-HasEffect h
  handle_command-HasEffect sync_now reply h = returned sync_now _ reply sync_now-HasEffect h
  handle_command-HasEffect sync_backup reply h =
      returned sync_backup _ reply sync_backup-HasEffect h
  handle_command-HasEffect get_backups reply h =
      returned get_backups _ reply get_backups-HasEffect h
  handle_command-HasEffect subscribe reply h = subscribe-HasEffect reply h
  handle_command-HasEffect pause_sync reply h = pause-HasEffect reply h
  handle_command-HasEffect resume_sync reply h = resume-HasEffect reply h
  handle_command-HasEffect check_update reply h =
      returned check_update _ reply check_update-HasEffect h
  handle_command-HasEffect download_update reply h =
      returned download_update _ reply download-HasEffect h
  handle_command-HasEffect shutdown_agent reply h = ground (arith, append-nil s.worker.queue, h)
  handle_command-HasEffect discover_presets reply h =
      returned discover_presets _ reply (quiet-HasEffect discover_presets refl refl refl refl) h
  handle_command-HasEffect unknown reply h = ground (arith, append-nil s.worker.queue, h)
