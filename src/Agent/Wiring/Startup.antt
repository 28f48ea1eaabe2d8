-- ===== src/Agent/Wiring/Startup.antt =====
-- What main in cmd/agent/main.go sets up before it starts the loops.
use lightroom_sync.Common.{◌&&◌, false, not, none, [], if◌then◌else◌}
use lightroom_sync.Common.Text.{Text, lit, is_empty, trim_space}
use lightroom_sync.Config.{Files, Manager}
use lightroom_sync.Logstream.{new_buffer}
use lightroom_sync.Coordinator.State.{new_app_state, set_auto_sync, set_migration_hint, set_warning}
use lightroom_sync.Coordinator.Watchdog.{new_watchdog}
use lightroom_sync.Coordinator.Worker.{new_worker, set_watchdog, pause}
use lightroom_sync.Agent.Wiring.{Machine}

-- The machine when main has set it up, with the configuration loaded.
unfoldable pub new_machine : Manager → Files → Text → Text → Text → Machine
new_machine manager files host local_root migration_hint =
    let cfg = manager.cfg in
    let shown = set_auto_sync cfg.auto_sync new_app_state in
    let app = if is_empty migration_hint then shown else set_migration_hint migration_hint shown in
    let w = new_worker 16 app (record { buffered = []; size = 64 }) in
    let held = pause w in
    let first = record held {
      app = set_warning (lit "Vui lòng cấu hình lần đầu (Onboarding)") held.app;
    } in
    let worker =
      set_watchdog (new_watchdog 250_000_000)
        (if is_empty cfg.last_synced_timestamp then first else w) in
    record {
      agent = record {
        manager = manager;
        files = files;
        worker = worker;
        log_buffer = new_buffer 800;
        cached_update = none;
        is_downloading = false;
        transfers = [];
        marks = 0;
        is_stopping = false;
      };
      host = host;
      is_orchestrated =
          not (is_empty (trim_space cfg.catalog_path))
          && not (is_empty (trim_space cfg.backup_folder));
      catalog_dir = cfg.catalog_path;
      backup_dir = cfg.backup_folder;
      pending = none;
      local_root = local_root;
      tasks = [];
      published = [];
    }
