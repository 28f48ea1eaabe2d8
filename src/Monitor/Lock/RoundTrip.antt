-- ===== src/Monitor/Lock/RoundTrip.antt =====
-- What one machine writes into the lock file is what another one reads.
use mathlib.Core.List.{append_assoc, reverse-append}
use lightroom_sync.Common.{
  ℕ, ◌≡◌, refl, ap, ◌∙◌, Bool, true, false, ◌&&◌, not, Option, some, [], ◌∷◌, ◌++◌, reverse, ◌==◌,
  arith, ◌⊎◌, inl, inr, Bool-cases,
}
use lightroom_sync.Common.Text.{Text, lit, trim_space, is_space}
use lightroom_sync.Common.Trim.{starts_solid, trim_space-solid}
use lightroom_sync.Monitor.Lock.{
  LockInfo, LockManager, lock_string, prepare_internal_metadata, Renames, LockFiles, write_lock,
}
use lightroom_sync.Monitor.Lock.Atomic.{write_lock-atomic}
use lightroom_sync.Monitor.Lock.Parse.{parse_time, cut, parse_lock, lock_of, read_lock}

-- The text does not have a character.
abbrev pub lacks : ℕ → Text → Bool
lacks sep [] = true
lacks sep (c ∷ s) = not (c == sep) && lacks sep s

cut-append : (sep : ℕ) (s t : Text) → lacks sep s ≡ true → cut sep (s ++ (sep ∷ t)) ≡ some (s, t)
unfolding cut
cut-append sep [] t h = ground arith
cut-append sep (c ∷ s) t h = ground (arith, cut-append sep s t, h)

abbrev joined : Text → Text → Text → Text
joined status machine time = status ++ (b'|' ∷ machine ++ (b'|' ∷ time))

lock_string-joined : (l : LockInfo) → lock_string l ≡ joined l.status l.machine l.timestamp
unfolding lock_string lit
lock_string-joined l = simp append_assoc

-- A status and a time that can stand in the file.
pub record IsWritable (l : LockInfo) : Type 0 where
  pub status_bare : lacks b'|' l.status ≡ true
  pub machine_bare : lacks b'|' l.machine ≡ true
  pub status_solid : starts_solid l.status ≡ true
  pub time_solid : starts_solid (reverse l.timestamp) ≡ true
  pub is_time : parse_time l.timestamp ≡ some l.timestamp

starts_solid-before :
    (s t : Text) → starts_solid s ≡ true → starts_solid t ≡ true → starts_solid (s ++ t) ≡ true
starts_solid-before [] t h k = k
starts_solid-before (c ∷ s) t h k = h

bar_solid : (t : Text) → starts_solid (b'|' ∷ t) ≡ true
unfolding is_space
bar_solid t = refl

joined-ends_solid :
    (status machine time : Text)
    → starts_solid (reverse time) ≡ true
    → starts_solid (reverse (joined status machine time)) ≡ true
joined-ends_solid status machine time h =
    let front = status ++ (b'|' ∷ machine) in
    let split : joined status machine time ≡ (front ++ (b'|' ∷ [])) ++ time =
      rw (append_assoc, append_assoc) refl in
    rw (split, reverse-append (front ++ (b'|' ∷ [])) time)
      (starts_solid-before (reverse time) _ h
        (rw (reverse-append front (b'|' ∷ [])) (bar_solid (reverse front))))

joined-trimmed :
    (l : LockInfo)
    → IsWritable l
    → trim_space (joined l.status l.machine l.timestamp) ≡ joined l.status l.machine l.timestamp
joined-trimmed l w =
    trim_space-solid (joined l.status l.machine l.timestamp)
      (starts_solid-before l.status (b'|' ∷ l.machine ++ (b'|' ∷ l.timestamp)) w.status_solid
        (bar_solid (l.machine ++ (b'|' ∷ l.timestamp))))
      (joined-ends_solid l.status l.machine l.timestamp w.time_solid)

parse_lock-lock_string :
    (l : LockInfo)
    → IsWritable l
    → parse_lock (lock_string l) ≡ some (record l { session_id = []; epoch = 0 })
unfolding parse_lock
parse_lock-lock_string l w = rw (lock_string-joined l) (
    rw (joined-trimmed l w) (
      rw (cut-append b'|' l.status (l.machine ++ (b'|' ∷ l.timestamp)) w.status_bare)
        (rw (cut-append b'|' l.machine l.timestamp w.machine_bare) (rw w.is_time refl))))

-- The numbering of a write does not show in its text.
lock_string-prepare_internal_metadata :
    (info : LockInfo) (m : LockManager)
    → lock_string (prepare_internal_metadata info m).0 ≡ lock_string info
unfolding prepare_internal_metadata lock_string
lock_string-prepare_internal_metadata info m = elim (Bool-cases (info.epoch == 0)) [
  | inl h ↦ rw h refl
  | inr h ↦ rw h refl
]

read_lock-lock_string :
    (l : LockInfo)
    → IsWritable l
    → read_lock (some (lock_string l)) ≡ lock_of (record l { session_id = []; epoch = 0 })
unfolding read_lock
read_lock-lock_string l w = rw (parse_lock-lock_string l w, read_lock) refl

-- When WriteLock reports success, whatever failed before, another machine reads from the lock file the
-- status, machine and time that were to be written: provided that status and machine have no bar and
-- that neither end of the line is white space, and with a time as Format writes it. What a failed
-- write leaves reads as the file did before.
pub read_lock-write_lock :
    (temp_fails : Bool) (partial : Option Text) (answers : Renames) (info : LockInfo)
    (m : LockManager) (files : LockFiles)
    → IsWritable info
    → let w = write_lock temp_fails partial answers info m files in
      ((w.is_failed ≡ false)
        × (read_lock w.files.lock ≡ lock_of (record info { session_id = []; epoch = 0 })))
      ⊎ ((w.is_failed ≡ true) × (read_lock w.files.lock ≡ read_lock files.lock))
read_lock-write_lock temp_fails partial answers info m files ok =
    elim (write_lock-atomic temp_fails partial answers info m files) [
      | inl (fine, e) ↦ inl (
        fine,
        ap read_lock (e ∙ ap some (lock_string-prepare_internal_metadata info m))
            ∙ read_lock-lock_string info ok,
      )
      | inr (bad, (e, t)) ↦ inr (bad, ap read_lock e)
    ]
