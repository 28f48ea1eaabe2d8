-- ===== src/Agent/Machine/Caution.antt =====
-- The agent queues no restore from the network while it knows that Lightroom runs.
use lightroom_sync.Common.{◌≡◌, true, List}
use lightroom_sync.Coordinator.Watchdog.{Watchdog}
use lightroom_sync.Coordinator.Worker.{Worker}
use lightroom_sync.Agent.Wiring.{Machine}
use lightroom_sync.Agent.Machine.{agent, MachineRun, here, step}

-- At every state of a run from which a step is taken, the agent knows that Lightroom runs.
abbrev pub KnownOpen : {P : Type 0} {m m' : Machine} → MachineRun P m m' → Type 0
KnownOpen here = Unit
KnownOpen (step {u = u} a before e) =
    (u.agent.worker.app.lightroom_running ≡ true) × KnownOpen before
