-- ===== src/Agent/Machine/Pending.antt =====
-- From the end of Lightroom to the restore that waited for it.
use lightroom_sync.Common.{
  ◌<◌, ◌≡◌, true, false, Option, none, some, List, [], ◌∷◌, ◌++◌, length, arith,
}
use lightroom_sync.Common.Text.{lit, is_empty}
use lightroom_sync.Coordinator.Bus.{Event, lightroom_stopped, no_payload}
use lightroom_sync.Coordinator.Worker.{enqueue}
use lightroom_sync.Sync.Manifest.{Manifest}
use lightroom_sync.Agent.Wiring.{
  run_pending, sync_presets, Machine, World, on_agent, run_task, refuses, spawn,
}
use lightroom_sync.Agent.Machine.{Step, lightroom_hook, event, without_event, take_step}

abbrev stop_event : Event
stop_event = event lightroom_stopped no_payload

module _ (o : World) (u : Machine) (x : Manifest) (waits : u.pending ≡ some x)
    (closed : u.agent.worker.app.lightroom_running ≡ false)
    (queue_room : length u.agent.worker.queue < u.agent.worker.queue_size)
    (named : is_empty u.backup_dir ≡ false) (placed : is_empty u.catalog_dir ≡ false) where
  accepted : refuses o.now (lit "pending") u ≡ false
  unfolding refuses enqueue lit
  accepted = ground (arith, queue_room)

-- Steps one after the other.
unfoldable pub take_steps : {P : Type 0} → List (Step P) → Machine → Option Machine
take_steps [] m = some m
take_steps (a ∷ as') m = elim (take_step a m) [ none ↦ none | some u ↦ take_steps as' u ]

-- The machine in which Lightroom has stopped, and what the event loop makes of it.
abbrev stopped : Machine → Machine
stopped m = on_agent (lightroom_hook false) m

abbrev told : Machine → Machine
told m =
    spawn (sync_presets (lit "lightroom_stopped"))
      (spawn run_pending (on_agent (without_event []) (stopped m)))

module _ (P : Type 0) (o : World) (m : Machine) (x : Manifest) (wired : m.is_orchestrated ≡ true)
    (waits : m.pending ≡ some x) (no_events : m.agent.worker.bus.buffered ≡ [])
    (has_room : 0 < m.agent.worker.bus.size)
    (queue_room : length m.agent.worker.queue < m.agent.worker.queue_size)
    (named : is_empty m.backup_dir ≡ false) (placed : is_empty m.catalog_dir ≡ false) where
  -- The goroutine of RunPendingIfAny runs.
  abbrev begun : Machine
  begun =
      run_task o run_pending
        (record (told m) { tasks = m.tasks ++ (sync_presets (lit "lightroom_stopped") ∷ []) })
