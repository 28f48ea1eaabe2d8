-- ===== src/Agent/Download/Refines.antt =====
-- The agent's requests and goroutines work on the sync worker by its operations alone.
use lightroom_sync.Common.{List}
use lightroom_sync.Common.Text.{Text}
use lightroom_sync.Coordinator.Worker.{Worker, Action, Run}

-- Some steps of the worker and its callers lead from one state of the worker to the other.
abbrev pub Reaches : Worker → Worker → Type 0
Reaches w v = (as' : List Action) × Run w as' v
