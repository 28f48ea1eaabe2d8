-- ===== src/Coordinator/State/Colors.antt =====
-- What the tray shows after any sequence of state updates.
use lightroom_sync.Common.{ℕ, ◌≡◌, Bool, true, false, List, [], ◌∷◌, arith, if◌then◌else◌}
use lightroom_sync.Common.Text.{Text, is_empty}
use lightroom_sync.Coordinator.State.{
  Color, green, blue, orange, red, AppState, set_lightroom_running, set_syncing, set_sync_paused,
  set_warning, set_error, clear_error, set_lock, set_last_backup, set_migration_hint, set_auto_sync,
  set_restore_progress, set_current_job_name, inc_lightroom_monitor_error, inc_backup_monitor_error,
  inc_network_monitor_error, inc_lock_monitor_error, set_last_resume_gap_seconds,
  refresh_derived_status,
}

-- The calls that other parts make, but for `SetWarning`.
pub data Update : Type 0 where
  lightroom syncing paused auto : Bool → Update
  error backup hint job : Text → Update
  lock : Text → Text → Update
  progress gap : ℕ → Update
  clear lightroom_failed backup_failed network_failed lock_failed refresh : Update

unfoldable pub update : Update → AppState → AppState
update (lightroom v) = set_lightroom_running v
update (syncing v) = set_syncing v
update (paused v) = set_sync_paused v
update (auto v) = set_auto_sync v
update (error t) = set_error t
update (backup t) = set_last_backup t
update (hint t) = set_migration_hint t
update (job t) = set_current_job_name t
update (lock m t) = set_lock m t
update (progress n) = set_restore_progress n
update (gap n) = set_last_resume_gap_seconds n
update clear = clear_error
update lightroom_failed = inc_lightroom_monitor_error
update backup_failed = inc_backup_monitor_error
update network_failed = inc_network_monitor_error
update lock_failed = inc_lock_monitor_error
update refresh = refresh_derived_status

pub updates : List Update → AppState → AppState
updates [] s = s
updates (u ∷ us) s = updates us (update u s)

-- The documented order: an error, a running sync, a pause, Lightroom, idle.
abbrev pub due_color : AppState → Color
due_color s =
    if is_empty s.critical_error
    then (if s.sync_in_progress
        then red
        else if s.sync_paused
        then orange
        else if s.lightroom_running
        then blue
        else green)
    else red

update-due_color :
    (u : Update) (s : AppState)
    → s.tray_color ≡ due_color s
    → (update u s).tray_color ≡ due_color (update u s)
unfolding update set_lightroom_running set_syncing set_sync_paused set_error clear_error set_lock
    set_last_backup set_migration_hint set_auto_sync set_restore_progress set_current_job_name
    inc_lightroom_monitor_error inc_backup_monitor_error inc_network_monitor_error
    inc_lock_monitor_error set_last_resume_gap_seconds refresh_derived_status
update-due_color (lightroom v) s h = ground arith
update-due_color _ s h = ground arith

-- From a state whose colour is the due one, it stays the due one through any updates without a warning.
pub updates-due_color :
    (us : List Update) (s : AppState)
    → s.tray_color ≡ due_color s
    → (updates us s).tray_color ≡ due_color (updates us s)
unfolding updates
updates-due_color [] s h = h
updates-due_color (u ∷ us) s h = updates-due_color us (update u s) (update-due_color u s h)

-- A warning changes the display only: after any updates behind it, as soon as one of them
-- recomputes the status, the colour is the due one.
pub refresh_ends_warning :
    (text : Text) (us vs : List Update) (s : AppState)
    → (updates vs (refresh_derived_status (updates us (set_warning text s)))).tray_color
      ≡ due_color (updates vs (refresh_derived_status (updates us (set_warning text s))))
unfolding refresh_derived_status
refresh_ends_warning text us vs s = updates-due_color vs _ (ground arith)

-- The flags that only the worker sets.
abbrev pub is_other : Update → Bool
is_other (syncing _) = false
is_other (paused _) = false
is_other _ = true

pub update_flags :
    (s : AppState) (u : Update)
    → is_other u ≡ true
    → ((update u s).sync_paused ≡ s.sync_paused)
      × ((update u s).sync_in_progress ≡ s.sync_in_progress)
unfolding update set_lightroom_running set_syncing set_sync_paused set_error clear_error set_lock
    set_last_backup set_migration_hint set_auto_sync set_restore_progress set_current_job_name
    inc_lightroom_monitor_error inc_backup_monitor_error inc_network_monitor_error
    inc_lock_monitor_error set_last_resume_gap_seconds refresh_derived_status
update_flags s (lightroom v) h = ground arith
update_flags s _ h = ground arith

pub set_sync_paused_flags :
    (v : Bool) (s : AppState)
    → ((set_sync_paused v s).sync_paused ≡ v)
      × ((set_sync_paused v s).sync_in_progress ≡ s.sync_in_progress)
unfolding set_sync_paused
set_sync_paused_flags v s = ground arith

pub set_syncing_flags :
    (v : Bool) (s : AppState)
    → ((set_syncing v s).sync_paused ≡ s.sync_paused) × ((set_syncing v s).sync_in_progress ≡ v)
unfolding set_syncing
set_syncing_flags v s = ground arith
