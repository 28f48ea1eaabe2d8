-- ===== src/Tests/MonitorTests.antt =====
-- The monitors at concrete observations.
use lightroom_sync.Common.{
  ℕ, ◌+◌, ◌<◌, suc, ltb, ◌≡◌, ◌⊎◌, refl, true, false, none, some, [], ◌∷◌, arith, if◌then◌else◌,
}
use lightroom_sync.Common.Int64.{two64}
use lightroom_sync.Common.Text.{Text, lit}
use lightroom_sync.Common.Text.{is_space}
use lightroom_sync.Monitor.Lock.Parse.{parse_time, read_lock, lock_of}
use lightroom_sync.Monitor.Lock.RoundTrip.{IsWritable, read_lock-write_lock}
use lightroom_sync.Sync.Restore.{RestoreFaults}
use lightroom_sync.Monitor.Breaker.{
  CircuitBreaker, new_circuit_breaker, closed, failed, notices, Check, run_checks,
}
use lightroom_sync.Monitor.Breaker.Laws.{IsWell, new_circuit_breaker-IsWell}
use lightroom_sync.Monitor.Breaker.Health.{outage_after, Believed, run_checks-Believed}
use lightroom_sync.Monitor.Lightroom.{probe_error, reading, run}
use lightroom_sync.Monitor.Lightroom.Edges.{edges, run-edges}
use lightroom_sync.Monitor.Heartbeat.{Config, Write, written, write_error, Answers}
use lightroom_sync.Monitor.Lock.{LockInfo, LockManager, Renames, write_lock}
use lightroom_sync.Monitor.Lock.Epochs.{chosen, reach, Increasing, chosen-Increasing}
use lightroom_sync.Monitor.Backup.{BackupInfo, Entry}

abbrev breaker : CircuitBreaker
breaker = new_circuit_breaker (record { failure_threshold = 2; open_timeout = 10 })

abbrev outage : ℕ → Check
outage now = record { time = now; probe = failed (lit "timeout") }

breaker-IsWell : IsWell breaker
breaker-IsWell =
    new_circuit_breaker-IsWell (record { failure_threshold = 2; open_timeout = 10 }) (omega arith)

breaker_closed : breaker.state ≡ closed
unfolding new_circuit_breaker
breaker_closed = refl

breaker_threshold : suc (breaker.failures + 1) ≡ breaker.cfg.failure_threshold
unfolding new_circuit_breaker
breaker_threshold = refl

breaker-Believed : Believed breaker
unfolding new_circuit_breaker notices outage_after
breaker-Believed = refl

run_checks-Believed_example : Believed (run_checks (outage 1 ∷ outage 2 ∷ []) breaker)
run_checks-Believed_example =
    run_checks-Believed (outage 1 ∷ outage 2 ∷ []) breaker breaker-Believed

run-edges_example :
    run (probe_error ∷ reading true ∷ reading true ∷ reading false ∷ [])
    ≡ edges false (probe_error ∷ reading true ∷ reading true ∷ reading false ∷ [])
run-edges_example = run-edges (probe_error ∷ reading true ∷ reading true ∷ reading false ∷ [])

abbrev heartbeat : Config
heartbeat = record {
  interval = 30;
  retry_base = 2;
  retry_max = 5;
  max_retries = 3;
  shutdown_timeout = 2;
}

-- The first attempt fails.
abbrev answer : ℕ → Write
answer n = if ltb n 2 then write_error else written

abbrev answers : Answers
answers = record { writes = answer; cancelled_in_wait = λ _. false }

abbrev info : ℕ → LockInfo
info epoch = record {
  status = lit "ONLINE";
  machine = lit "STUDIO";
  timestamp = lit "2024-05-02T10:00:00";
  session_id = [];
  epoch = epoch;
}

abbrev manager : LockManager
manager = record { session_id = lit "abc"; epoch = 4 }

far_below : reach (info 0 ∷ info 9 ∷ info 0 ∷ []) manager.epoch < two64
unfolding reach
far_below = omega arith

chosen-Increasing_example : Increasing (chosen (info 0 ∷ info 9 ∷ info 0 ∷ []) manager)
chosen-Increasing_example = chosen-Increasing (info 0 ∷ info 9 ∷ info 0 ∷ []) manager far_below

-- The first rename finds the file locked.
abbrev busy_once : Renames
busy_once = record {
  cancelled_before = λ _. false;
  renamed = ltb 1;
  cancelled_in_wait = λ _. false;
}

abbrev zip : Text → ℕ → Entry
zip name mod_time = record {
  path = name;
  name = name;
  is_dir = false;
  info_fails = false;
  size = 7;
  mod_time = mod_time;
}

abbrev found : Text → ℕ → BackupInfo
found name mod_time = record { path = name; size = 7; mod_time = mod_time }

abbrev any_faults : RestoreFaults
any_faults = record {
  is_corrupted = false;
  mkdir_fails = false;
  cleanup_fails = true;
  removed_before = λ _. true;
  last_cleanup_fails = false;
  removed_at_last = λ _. false;
}

short_hour : parse_time (lit "2024-02-29T7:05:09.120") ≡ some (lit "2024-02-29T07:05:09.12")
unfolding parse_time lit
short_hour = refl

no_such_day : parse_time (lit "2023-02-29T07:05:09") ≡ none
unfolding parse_time lit
no_such_day = refl

info-IsWritable : IsWritable (info 0)
unfolding parse_time is_space lit
info-IsWritable = record {
  status_bare = refl;
  machine_bare = refl;
  status_solid = refl;
  time_solid = refl;
  is_time = refl;
}

read_lock-write_lock_example :
    let w =
      write_lock false none busy_once (info 0) manager (record { lock = none; temp = none }) in
    ((w.is_failed ≡ false)
      × (read_lock w.files.lock ≡ lock_of (record (info 0) { session_id = []; epoch = 0 })))
    ⊎ ((w.is_failed ≡ true) × (read_lock w.files.lock ≡ read_lock none))
read_lock-write_lock_example =
    read_lock-write_lock false none busy_once (info 0) manager (record { lock = none; temp = none })
      info-IsWritable
