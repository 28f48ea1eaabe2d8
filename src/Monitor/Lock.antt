-- ===== src/Monitor/Lock.antt =====
-- LockManager (internal/monitor/lock.go): the numbering of the writes, and the replacement of the
-- lock file by a rename that is tried again.
pub mod Epochs
pub mod Atomic
pub mod Parse
pub mod RoundTrip
use lightroom_sync.Common.{
  ℕ, zero, suc, ◌+◌, ◌*◌, ◌%◌, Bool, true, false, ◌||◌, Option, none, some, List, [], ◌∷◌, ◌++◌,
  ltb, leb, ◌==◌, max, if◌then◌else◌,
}
use lightroom_sync.Common.Int64.{two64}
use lightroom_sync.Common.Text.{Text, lit, is_empty, trim_space, decimal}

-- `timestamp` is the time as `String` formats it.
pub record LockInfo : Type 0 where
  pub status : Text
  pub machine : Text
  pub timestamp : Text
  pub session_id : Text
  pub epoch : ℕ

pub record LockManager : Type 0 where
  pub session_id : Text
  pub epoch : ℕ

unfoldable pub lock_string : LockInfo → Text
lock_string l = l.status ++ lit "|" ++ l.machine ++ lit "|" ++ l.timestamp

-- `m.epoch++` on a uint64.
abbrev pub next_epoch : ℕ → ℕ
next_epoch e = (e + 1) % two64

unfoldable pub prepare_internal_metadata : LockInfo → LockManager → LockInfo × LockManager
prepare_internal_metadata info m =
    let session = if is_empty info.session_id then m.session_id else info.session_id in
    if info.epoch == 0
    then (
      record info { session_id = session; epoch = next_epoch m.epoch },
      record { session_id = session; epoch = next_epoch m.epoch },
    )
    else (
      record info { session_id = session },
      record {
        session_id = session;
        epoch = if ltb m.epoch info.epoch then info.epoch else m.epoch;
      },
    )

-- The name in the folder of the lock; `session_id` is that of the manager.
unfoldable pub temp_lock_name : LockManager → LockInfo → Text
temp_lock_name m info =
    let own = trim_space info.session_id in
    lit ".lightroom_lock."
    ++ (if is_empty own then m.session_id else own)
    ++ lit "."
    ++ decimal info.epoch
    ++ lit ".tmp"

-- The answers to the attempts of `renameWithRetry`: whether the context has ended before one,
-- whether its rename succeeds, and whether the context ends while the timer after it runs.
pub record Renames : Type 0 where
  pub cancelled_before : ℕ → Bool
  pub renamed : ℕ → Bool
  pub cancelled_in_wait : ℕ → Bool

-- Whether the file was renamed, and how often `os.Rename` was called.
pub record Renaming : Type 0 where
  pub is_renamed : Bool
  pub calls : ℕ

abbrev renames_done : Bool → ℕ → Renaming
renames_done b n = record { is_renamed = b; calls = n }

unfoldable pub rename_loop : Renames → ℕ → ℕ → Renaming
rename_loop answers zero attempt = renames_done false 0
rename_loop answers (suc left) attempt =
    let rest = rename_loop answers left (suc attempt) in
    if answers.cancelled_before attempt
    then renames_done false 0
    else if answers.renamed attempt
    then renames_done true 1
    else if left == 0
    then renames_done false 1
    else if answers.cancelled_in_wait attempt
    then renames_done false 1
    else record rest { calls = suc rest.calls }

unfoldable pub rename_with_retry : Renames → ℕ → Renaming
rename_with_retry answers attempts =
    if leb attempts 1 then renames_done (answers.renamed 1) 1 else rename_loop answers attempts 1

-- The folder of the lock: the lock file and the temporary one.
pub record LockFiles : Type 0 where
  pub lock : Option Text
  pub temp : Option Text

pub record Written : Type 0 where
  pub files : LockFiles
  pub manager : LockManager
  pub is_failed : Bool

-- `partial` is what a failing write of the temporary file leaves there.
unfoldable pub write_lock :
    Bool → Option Text → Renames → LockInfo → LockManager → LockFiles → Written
write_lock temp_fails partial answers info m files =
    let (prepared, m') = prepare_internal_metadata info m in
    let r = rename_with_retry answers 20 in
    if temp_fails
    then record { files = record files { temp = partial }; manager = m'; is_failed = true }
    else if r.is_renamed
    then record {
      files = record { lock = some (lock_string prepared); temp = none };
      manager = m';
      is_failed = false;
    }
    else record { files = record files { temp = none }; manager = m'; is_failed = true }
