-- ===== src/Coordinator/Watchdog.antt =====
-- Watchdog (internal/coordinator/watchdog.go): deadlines of running operations, times in
-- nanoseconds.
pub mod Alerts
use lightroom_sync.Common.{ℕ, ◌+◌, Bool, List, [], ◌∷◌, ltb, if◌then◌else◌}
use lightroom_sync.Common.Int64.{le64}
use lightroom_sync.Common.Text.{Text}
use lightroom_sync.Common.Dict.{Dict, insert, erase}

-- A `watchdogEntry`, and the `WatchdogAlert` made of it, which has the same four fields.
pub record Alert : Type 0 where
  pub id : Text
  pub name : Text
  pub started_at : ℕ
  pub deadline_at : ℕ

pub record Watchdog : Type 0 where
  pub entries : Dict Alert
  pub interval : ℕ  -- nanoseconds

unfoldable pub new_watchdog : ℕ → Watchdog
new_watchdog scan_interval = record {
  entries = [];
  interval = if le64 scan_interval 0 then 250_000_000 else scan_interval;
}

unfoldable pub start : Text → Text → ℕ → ℕ → Watchdog → Watchdog
start op name timeout now w =
    let t = if le64 timeout 0 then 30_000_000_000 else timeout in
    record w {
      entries =
          insert op (record { id = op; name = name; started_at = now; deadline_at = now + t })
            w.entries;
    }

-- The function that `Start` returns.
unfoldable pub stop : Text → Watchdog → Watchdog
stop op w = record w { entries = erase op w.entries }

abbrev pub is_expired : ℕ → Alert → Bool
is_expired now e = ltb e.deadline_at now

-- The two results of the loop of `scanExpired`: the alerts, in the order of the map, and the map
-- without their entries.
unfoldable pub expired : ℕ → Dict Alert → List Alert
expired now [] = []
expired now ((k, e) ∷ m) = let rest = expired now m in if is_expired now e then e ∷ rest else rest

unfoldable pub unexpired : ℕ → Dict Alert → Dict Alert
unexpired now [] = []
unexpired now ((k, e) ∷ m) =
    let rest = unexpired now m in if is_expired now e then rest else (k, e) ∷ rest

unfoldable pub scan_expired : ℕ → Watchdog → List Alert × Watchdog
unfolding expired unexpired
scan_expired now w = (expired now w.entries, record w { entries = unexpired now w.entries })
