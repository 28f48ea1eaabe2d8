-- ===== src/Agent/Machine/Restores.antt =====
-- What the parts of the agent add to the worker's queue while the agent knows that Lightroom runs.
use lightroom_sync.Common.{
  ℕ, suc, ◌≤◌, ◌≡◌, refl, ◌∙◌, true, false, some, List, [], ◌∷◌, ◌++◌, All, arith, Bool-cases, inl,
  inr, OnSome-some, if◌then◌else◌,
}
use lightroom_sync.Common.Text.{
  Text, lit, decimal, has_prefix, to_lower, lower_rune, trim_space, is_space,
}
use lightroom_sync.Common.Trim.{trim_space-prefix}
use lightroom_sync.Coordinator.Bus.{
  Event, EventType, EventType-discrete, Handler, Handlers, on, handlers_of, run_handlers, dispatch,
}
use lightroom_sync.Coordinator.Worker.{Job, Worker, Action, do_enqueue, act, enqueue}
use lightroom_sync.Coordinator.Worker.Queue.{Shrinks, is_enqueue, act-Shrinks}
use lightroom_sync.Coordinator.Catalog.{
  Result, is_network_sync_job, run_pending_if_any, check_startup_manifest,
}
use lightroom_sync.Coordinator.Catalog.Laws.{check_startup_manifest-running}
use lightroom_sync.Agent.Requests.{job_of}
use lightroom_sync.Agent.Wiring.{
  Task, Machine, World, run_task, check_startup, enqueue_preset_sync, handlers, orchestrated,
  on_completed, on_backup, complete, run_pending, publish, sync_presets, enqueue_all, refuses,
  orchestrator_of,
}
use lightroom_sync.Agent.Machine.{is_own}

-- How many restores from the network a queue has.
unfoldable pub network_count : List Job → ℕ
network_count [] = 0
network_count (j ∷ js) =
    let rest = network_count js in if is_network_sync_job j.name then suc rest else rest

pub network_count-append :
    (js : List Job) (j : Job)
    → is_network_sync_job j.name ≡ false
    → network_count (js ++ (j ∷ [])) ≡ network_count js
unfolding network_count
network_count-append [] j h = rw h refl
network_count-append (k ∷ js) j h = rw (network_count-append js j h) refl

-- Another first letter.
other_letter :
    (t q s : Text) → t ++ q ≡ b'p' ∷ s → has_prefix (to_lower t) (lit "network_sync_") ≡ false
unfolding has_prefix lit to_lower lower_rune
other_letter [] q s e = refl
other_letter (c ∷ t) q s e = ground (arith, e)

preset_job : (s : Text) → is_network_sync_job (lit "preset_sync_" ++ s) ≡ false
unfolding is_network_sync_job lit is_space
preset_job s =
    let (q, e) = trim_space-prefix (lit "preset_sync_" ++ s) refl in
    other_letter (trim_space (lit "preset_sync_" ++ s)) q _ e

pub enqueue-network_count :
    (j : Job) (w : Worker)
    → is_network_sync_job j.name ≡ false
    → network_count (enqueue j w).0.queue ≡ network_count w.queue
unfolding enqueue
enqueue-network_count j w h = ground (arith, network_count-append w.queue j h)

Shrinks-network_count :
    (before after : List Job) → Shrinks before after → network_count after ≤ network_count before
unfolding network_count
Shrinks-network_count before after (inl e) = rw e (omega arith)
Shrinks-network_count before after (inr (j, e)) = rw e (ground arith)

is_own-enqueue : (a : Action) → is_own a ≡ true → is_enqueue a ≡ false
is_own-enqueue (do_enqueue job) h = absurd cc
is_own-enqueue _ h = refl

pub own-network_count :
    (a : Action) (w v : Worker)
    → is_own a ≡ true
    → act a w ≡ some v
    → network_count v.queue ≤ network_count w.queue
own-network_count a w v h e =
    Shrinks-network_count w.queue v.queue
      (OnSome-some (λ u. Shrinks w.queue u.queue) e (act-Shrinks a w (is_own-enqueue a h)))

-- The handlers of the events leave the worker alone.
abbrev Quiet : Handler Machine → Type 0
Quiet h = (e : Event) (m : Machine) → (h e m).0.agent.worker ≡ m.agent.worker

run_handlers-Quiet :
    (hs : List (Handler Machine)) (e : Event) (m : Machine)
    → All Quiet hs
    → (run_handlers hs e m).agent.worker ≡ m.agent.worker
unfolding run_handlers
run_handlers-Quiet [] e m q = refl
run_handlers-Quiet (h ∷ hs) e m q = run_handlers-Quiet hs e (h e m).0 q.1 ∙ q.0 e m

handlers_of-Quiet :
    (kind : EventType) (hs : Handlers Machine)
    → All (λ r. Quiet r.1) hs
    → All Quiet (handlers_of kind hs)
unfolding handlers_of
handlers_of-Quiet kind [] q = tt
handlers_of-Quiet kind ((k, h) ∷ hs) q =
    let rest = handlers_of-Quiet kind hs q.1 in
    elim (EventType-discrete k kind)
      as (λ x.
        All Quiet (elim x [ yes _ ↦ h ∷ handlers_of kind hs | no _ ↦ handlers_of kind hs ])) [
          | yes x ↦ (q.0, rest)
          | no x ↦ rest
        ]

on_completed-worker :
    (o : World) (e : Event) (m : Machine) → (on_completed o e m).agent.worker ≡ m.agent.worker
unfolding on_completed complete
on_completed-worker o e m = ground arith

on_backup-worker : (e : Event) (m : Machine) → (on_backup e m).agent.worker ≡ m.agent.worker
unfolding on_backup
on_backup-worker e m = ground arith

handlers-Quiet : (o : World) (m : Machine) → All (λ r. Quiet r.1) (handlers o m)
unfolding handlers on
handlers-Quiet o m = elim (Bool-cases m.is_orchestrated) [
  | inl h ↦ rw h (
    λ e n. refl,
    (λ e n. on_backup-worker e n, (λ e n. on_completed-worker o e n, (λ e n. refl, tt))),
  )
  | inr h ↦ rw h (λ e n. refl, tt)
]

pub dispatched-worker :
    (o : World) (e : Event) (m n : Machine)
    → (dispatch (handlers o m) e n).agent.worker ≡ n.agent.worker
unfolding dispatch
dispatched-worker o e m n =
    run_handlers-Quiet (handlers_of e.kind (handlers o m)) e n
      (handlers_of-Quiet e.kind (handlers o m) (handlers-Quiet o m))

module _ (o : World) (m : Machine) (running : m.agent.worker.app.lightroom_running ≡ true) where
  -- A call of the orchestrator that queues nothing.
  orchestrated-queue :
      (now : ℕ) (r : Result)
      → r.after.jobs ≡ []
      → (orchestrated now r m).agent.worker.queue ≡ m.agent.worker.queue
  unfolding orchestrated enqueue_all
  orchestrated-queue now r h = rw h refl

  pub check_startup-queue : (check_startup o m).agent.worker.queue ≡ m.agent.worker.queue
  unfolding check_startup
  check_startup-queue =
      orchestrated-queue o.now
        (check_startup_manifest o.is_cancelled o.manifest_file o.zip_size
          (refuses o.now (lit "startup") m) (orchestrator_of m))
        (check_startup_manifest-running o.is_cancelled o.manifest_file o.zip_size
          (refuses o.now (lit "startup") m) (orchestrator_of m) running)

  run_pending-queue : (run_task o run_pending m).agent.worker.queue ≡ m.agent.worker.queue
  unfolding run_task run_pending_if_any
  run_pending-queue =
      orchestrated-queue o.now
        (run_pending_if_any (refuses o.now (lit "pending") m) (orchestrator_of m))
        (ground (arith, running))

  publish-queue :
      (path : Text) → (run_task o (publish path) m).agent.worker.queue ≡ m.agent.worker.queue
  unfolding run_task
  publish-queue path = ground arith

  pub presets-network_count :
      (trigger : Text)
      → network_count (enqueue_preset_sync o trigger m).agent.worker.queue
        ≡ network_count m.agent.worker.queue
  unfolding enqueue_preset_sync
  presets-network_count trigger =
      let name = lit "preset_sync_" ++ to_lower (trim_space trigger) in
      ground (
        arith,
        enqueue-network_count (job_of name (name ++ lit "_" ++ decimal o.now) 90_000_000_000)
            m.agent.worker (preset_job (to_lower (trim_space trigger))),
      )

  pub run_task-network_count :
      (t : Task)
      → network_count (run_task o t m).agent.worker.queue ≤ network_count m.agent.worker.queue
  unfolding run_task
  run_task-network_count run_pending = rw run_pending-queue (omega arith)
  run_task-network_count (publish path) = rw (publish-queue path) (omega arith)
  run_task-network_count (sync_presets trigger) = rw (presets-network_count trigger) (omega arith)
