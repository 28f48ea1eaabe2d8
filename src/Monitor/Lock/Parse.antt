-- ===== src/Monitor/Lock/Parse.antt =====
-- Reading the lock file (ParseLock and ReadLock in internal/monitor/lock.go), with time.Parse on its
-- layout `2006-01-02T15:04:05.999999`; the second layout takes nothing that this one refuses.
use lightroom_sync.Common.{
  ℕ, zero, suc, ◌+◌, ◌*◌, ◌-◌, ◌%◌, ◌/◌, Bool, ◌&&◌, ◌||◌, not, Option, none, some, [], ◌∷◌, ◌++◌,
  take, ltb, leb, ◌==◌, if◌then◌else◌, ◌>>=◌,
}
use lightroom_sync.Common.Text.{Text, lit, is_empty, trim_space}
use lightroom_sync.Monitor.Lock.{LockInfo}

abbrev pub is_digit : ℕ → Bool
is_digit c = leb b'0' c && leb c b'9'

-- The digits at the start, and the text behind them.
unfoldable pub digits_of : Text → Text × Text
digits_of [] = ([], [])
digits_of (c ∷ s) =
    let rest = digits_of s in if is_digit c then (c ∷ rest.0, rest.1) else ([], c ∷ s)

unfoldable pub value_of : ℕ → Text → ℕ
value_of acc [] = acc
value_of acc (c ∷ s) = value_of (acc * 10 + (c - b'0')) s

-- Exactly `n` digits: their value, and the rest.
unfoldable pub fixed_digits : ℕ → ℕ → Text → Option (ℕ × Text)
fixed_digits zero acc s = some (acc, s)
fixed_digits (suc n) acc [] = none
fixed_digits (suc n) acc (c ∷ s) =
    let rest = fixed_digits n (acc * 10 + (c - b'0')) s in if is_digit c then rest else none

-- Two digits, or one where no other follows (hours).
unfoldable pub hour_digits : Text → Option (ℕ × Text)
unfolding fixed_digits
hour_digits s = elim (fixed_digits 2 0 s) [ some r ↦ some r | none ↦ fixed_digits 1 0 s ]

abbrev pub skip : ℕ → Text → Option Text
skip c [] = none
skip c (d ∷ s) = if d == c then some s else none

abbrev pub is_leap : ℕ → Bool
is_leap y = (y % 4 == 0) && (not (y % 100 == 0) || (y % 400 == 0))

abbrev pub days_in : ℕ → ℕ → ℕ
days_in year month =
    if month == 2
    then (if is_leap year then 29 else 28)
    else if month == 4 || month == 6 || month == 9 || month == 11
    then 30
    else 31

-- The fraction of a second, cut to the six digits that `Format` writes, without zeros at its end.
unfoldable pub drop_zeros : Text → Text
drop_zeros [] = []
drop_zeros (c ∷ s) =
    let rest = drop_zeros s in
    if c == b'0' then (if is_empty rest then [] else c ∷ rest) else c ∷ rest

abbrev pub shown_fraction : Text → Text
shown_fraction [] = []
shown_fraction (c ∷ s) = b'.' ∷ c ∷ s

-- What stands behind the seconds: nothing, or a dot or comma with digits.
unfoldable pub fraction_of : Text → Option Text
unfolding digits_of drop_zeros
fraction_of [] = some []
fraction_of (c ∷ s) =
    let (ds, rest) = digits_of s in
    if (c == b'.' || c == b',') && not (is_empty ds) && is_empty rest
    then some (shown_fraction (drop_zeros (take 6 ds)))
    else none

-- A number with zeros in front, of two or four digits.
abbrev pub two_digits : ℕ → Text
two_digits n = (b'0' + n / 10) ∷ (b'0' + n % 10) ∷ []

abbrev pub four_digits : ℕ → Text
four_digits n = two_digits (n / 100) ++ two_digits (n % 100)

abbrev in_range : ℕ → ℕ → ℕ → ℕ → ℕ → ℕ → Bool
in_range year month day hour minute second =
    leb 1 month
    && leb month 12
    && leb 1 day
    && leb day (days_in year month)
    && ltb hour 24
    && ltb minute 60
    && ltb second 60

abbrev time_text : ℕ → ℕ → ℕ → ℕ → ℕ → ℕ → Text
time_text year month day hour minute second =
    four_digits year
    ++ lit "-"
    ++ two_digits month
    ++ lit "-"
    ++ two_digits day
    ++ lit "T"
    ++ two_digits hour
    ++ lit ":"
    ++ two_digits minute
    ++ lit ":"
    ++ two_digits second

-- `time.Parse`: the time, as `Format` writes it.
unfoldable pub parse_time : Text → Option Text
unfolding fixed_digits hour_digits fraction_of
parse_time s0 = do
  (year, s1) ← fixed_digits 4 0 s0
  s2 ← skip b'-' s1
  (month, s3) ← fixed_digits 2 0 s2
  s4 ← skip b'-' s3
  (day, s5) ← fixed_digits 2 0 s4
  s6 ← skip b'T' s5
  (hour, s7) ← hour_digits s6
  s8 ← skip b':' s7
  (minute, s9) ← fixed_digits 2 0 s8
  s10 ← skip b':' s9
  (second, s11) ← fixed_digits 2 0 s10
  fraction ← fraction_of s11
  if in_range year month day hour minute second
      then some (time_text year month day hour minute second ++ fraction)
      else none

-- The text before a separator and the one behind it.
unfoldable pub cut : ℕ → Text → Option (Text × Text)
cut sep [] = none
cut sep (c ∷ s) =
    if c == sep
    then some ([], s)
    else elim (cut sep s) [ none ↦ none | some (before, behind) ↦ some (c ∷ before, behind) ]

-- `ParseLock`; a lock that is read has no session and no epoch.
unfoldable pub parse_lock : Text → Option LockInfo
unfolding cut parse_time
parse_lock line = do
  (status, rest) ← cut b'|' (trim_space line)
  (machine, time) ← cut b'|' rest
  timestamp ← parse_time time
  some (record {
    status = status;
    machine = machine;
    timestamp = timestamp;
    session_id = [];
    epoch = 0;
  })

-- `ReadLock` on the lock file, where reading it does not fail: no lock, an error, or a lock.
pub data LockRead : Type 0 where
  no_lock bad_lock : LockRead
  lock_of : LockInfo → LockRead

unfoldable pub read_lock : Option Text → LockRead
unfolding parse_lock
read_lock none = no_lock
read_lock (some line) = elim (parse_lock line) [ none ↦ bad_lock | some l ↦ lock_of l ]
