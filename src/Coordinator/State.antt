-- ===== src/Coordinator/State.antt =====
-- AppState (internal/coordinator/state.go): the state cache that tray and IPC read.
-- A method is one critical section under the mutex, so it is a function on the record.
use lightroom_sync.Common.{ℕ, [], Bool, true, false, ◌++◌, if◌then◌else◌}
pub mod Colors
use lightroom_sync.Common.Int64.{add64, lt64}
use lightroom_sync.Common.Text.{Text, lit, is_empty}

-- The values that `trayColor` takes.
pub data Color : Type 0 where
  green blue orange red : Color

pub record AppState : Type 0 where
  pub lightroom_running : Bool
  pub sync_in_progress : Bool
  pub sync_paused : Bool
  pub tray_color : Color
  pub status_text : Text
  pub last_backup : Text
  pub lock_machine : Text
  pub lock_status : Text
  pub migration_hint : Text
  pub lightroom_monitor_errors : ℕ  -- int
  pub backup_monitor_errors : ℕ  -- int
  pub network_monitor_errors : ℕ  -- int
  pub lock_monitor_errors : ℕ  -- int
  pub last_resume_gap_seconds : ℕ  -- int
  pub auto_sync : Bool
  pub critical_error : Text
  pub restore_progress : ℕ  -- int
  pub current_job_name : Text

unfoldable pub new_app_state : AppState
new_app_state = record {
  lightroom_running = false;
  sync_in_progress = false;
  sync_paused = false;
  tray_color = green;
  status_text = lit "Ready";
  last_backup = lit "";
  lock_machine = lit "";
  lock_status = lit "";
  migration_hint = lit "";
  lightroom_monitor_errors = 0;
  backup_monitor_errors = 0;
  network_monitor_errors = 0;
  lock_monitor_errors = 0;
  last_resume_gap_seconds = 0;
  auto_sync = false;
  critical_error = [];
  restore_progress = 0;
  current_job_name = [];
}

-- The `switch` of `recomputeDerivedStatusLocked`.
unfoldable pub recompute : AppState → AppState
recompute s =
    if is_empty s.critical_error
    then (if s.sync_in_progress
        then record s {
          tray_color = red;
          status_text =
              if is_empty s.current_job_name
              then lit "Syncing..."
              else lit "Syncing: " ++ s.current_job_name;
        }
        else if s.sync_paused
        then record s { tray_color = orange; status_text = lit "Sync Paused" }
        else if s.lightroom_running
        then record s { tray_color = blue; status_text = lit "Lightroom Running" }
        else record s { tray_color = green; status_text = lit "Ready" })
    else record s { tray_color = red; status_text = s.critical_error }

unfoldable pub set_lightroom_running : Bool → AppState → AppState
unfolding recompute
set_lightroom_running v s = recompute (record s { lightroom_running = v })

unfoldable pub set_syncing : Bool → AppState → AppState
unfolding recompute
set_syncing v s = recompute (record s { sync_in_progress = v })

unfoldable pub set_sync_paused : Bool → AppState → AppState
unfolding recompute
set_sync_paused v s = recompute (record s { sync_paused = v })

unfoldable pub set_warning : Text → AppState → AppState
set_warning text s = record s { tray_color = orange; status_text = text }

unfoldable pub set_error : Text → AppState → AppState
unfolding recompute
set_error text s = recompute (record s { critical_error = text })

unfoldable pub clear_error : AppState → AppState
unfolding recompute
clear_error s = recompute (record s { critical_error = [] })

unfoldable pub set_lock : Text → Text → AppState → AppState
set_lock machine status s = record s { lock_machine = machine; lock_status = status }

unfoldable pub set_last_backup : Text → AppState → AppState
set_last_backup info s = record s { last_backup = info }

unfoldable pub set_migration_hint : Text → AppState → AppState
set_migration_hint hint s = record s { migration_hint = hint }

unfoldable pub set_auto_sync : Bool → AppState → AppState
set_auto_sync v s = record s { auto_sync = v }

unfoldable pub set_restore_progress : ℕ → AppState → AppState
set_restore_progress progress s = record s { restore_progress = progress }

unfoldable pub set_current_job_name : Text → AppState → AppState
set_current_job_name name s = record s { current_job_name = name }

unfoldable pub inc_lightroom_monitor_error : AppState → AppState
inc_lightroom_monitor_error s = record s {
  lightroom_monitor_errors = add64 s.lightroom_monitor_errors 1;
}

unfoldable pub inc_backup_monitor_error : AppState → AppState
inc_backup_monitor_error s = record s { backup_monitor_errors = add64 s.backup_monitor_errors 1 }

unfoldable pub inc_network_monitor_error : AppState → AppState
inc_network_monitor_error s = record s { network_monitor_errors = add64 s.network_monitor_errors 1 }

unfoldable pub inc_lock_monitor_error : AppState → AppState
inc_lock_monitor_error s = record s { lock_monitor_errors = add64 s.lock_monitor_errors 1 }

unfoldable pub set_last_resume_gap_seconds : ℕ → AppState → AppState
set_last_resume_gap_seconds seconds s = record s {
  last_resume_gap_seconds = if lt64 seconds 0 then 0 else seconds;
}

unfoldable pub refresh_derived_status : AppState → AppState
unfolding recompute
refresh_derived_status s = recompute s
