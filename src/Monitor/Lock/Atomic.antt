-- ===== src/Monitor/Lock/Atomic.antt =====
-- The lock file is replaced whole or not at all.
use lightroom_sync.Common.{
  ℕ, zero, suc, ◌≤◌, ◌≡◌, ◌⊎◌, Bool, true, false, Option, none, some, arith,
}
use lightroom_sync.Common.Text.{Text}
use lightroom_sync.Monitor.Lock.{
  LockInfo, LockManager, lock_string, prepare_internal_metadata, Renames, rename_loop,
  rename_with_retry, LockFiles, write_lock,
}

rename_loop-calls :
    (answers : Renames) (left attempt : ℕ) → (rename_loop answers left attempt).calls ≤ left
unfolding rename_loop
rename_loop-calls answers zero attempt = omega arith
rename_loop-calls answers (suc left) attempt =
    ground (arith, rename_loop-calls answers left (suc attempt))

-- The rename is called at most as often as allowed, and once at least where no context ends before.
pub rename_with_retry-calls :
    (answers : Renames) (attempts : ℕ)
    → ((rename_with_retry answers attempts).calls ≤ attempts)
      ⊎ ((attempts ≡ 0) × ((rename_with_retry answers attempts).calls ≡ 1))
unfolding rename_with_retry
rename_with_retry-calls answers attempts = ground (arith, rename_loop-calls answers attempts 1)

pub write_lock-atomic :
    (temp_fails : Bool) (partial : Option Text) (answers : Renames) (info : LockInfo)
    (m : LockManager) (files : LockFiles)
    → let w = write_lock temp_fails partial answers info m files in
      ((w.is_failed ≡ false)
        × (w.files.lock ≡ some (lock_string (prepare_internal_metadata info m).0)))
      ⊎ ((w.is_failed ≡ true)
          × ((w.files.lock ≡ files.lock) × ((temp_fails ≡ true) ⊎ (w.files.temp ≡ none))))
unfolding write_lock
write_lock-atomic temp_fails partial answers info m files = ground arith
