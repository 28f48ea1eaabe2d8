-- ===== src/Logstream.antt =====
-- The bounded in-memory log (internal/logstream/buffer.go): Buffer, its Add and Since, and Writer.
pub mod Invariant
pub mod Since
pub mod History
use lightroom_sync.Common.{
  ℕ, suc, ◌+◌, ◌-◌, ◌≡◌, Bool, true, false, ◌||◌, Option, none, some, List, [], ◌∷◌, ◌++◌, ltb,
  ◌==◌, if◌then◌else◌, length, take, drop,
}
use lightroom_sync.Common.Int64.{add64, lt64, le64}
use lightroom_sync.Common.Text.{
  Text, lit, text_eq, is_empty, trim_space, to_upper, contains_text, split,
}

pub record Entry : Type 0 where
  pub id : ℕ  -- int64
  pub timestamp : ℕ
  pub level : Text
  pub message : Text

pub record Buffer : Type 0 where
  pub max_size : ℕ
  pub entries : List Entry
  pub next_id : ℕ  -- int64

unfoldable pub new_buffer : ℕ → Buffer
new_buffer max_size = record {
  max_size = if le64 max_size 0 then 500 else max_size;
  entries = [];
  next_id = 1;
}

unfoldable pub normalize_level : Text → Text
normalize_level level =
    let l = to_upper (trim_space level) in
    if text_eq l (lit "DEBUG")
    then lit "DEBUG"
    else if text_eq l (lit "WARN") || text_eq l (lit "WARNING")
    then lit "WARN"
    else if text_eq l (lit "ERROR")
    then lit "ERROR"
    else lit "INFO"

-- An empty message is kept as "-".
abbrev pub message_or_dash : Text → Text
message_or_dash m = let t = trim_space m in if is_empty t then lit "-" else t

-- The entry that `Add` makes at the time `now`.
unfoldable pub new_entry : Text → Text → ℕ → Buffer → Entry
new_entry level message now b = record {
  id = b.next_id;
  timestamp = now;
  level = normalize_level level;
  message = message_or_dash message;
}

-- The append of `Add`, and the cut from the front that follows it.
unfoldable pub push : Entry → Buffer → Buffer
push e b =
    let es = b.entries ++ (e ∷ []) in
    record b {
      next_id = add64 b.next_id 1;
      entries = if ltb b.max_size (length es) then drop (length es - b.max_size) es else es;
    }

unfoldable pub add : Text → Text → ℕ → Buffer → Buffer × Entry
unfolding push new_entry
add level message now b = let e = new_entry level message now b in (push e b, e)

-- The loop that moves `start` past the entries with ID <= afterID.
unfoldable pub start_after : ℕ → List Entry → ℕ
start_after after [] = 0
start_after after (e ∷ es) =
    let rest = suc (start_after after es) in if le64 e.id after then rest else 0

abbrev pub last_id : ℕ → List Entry → ℕ
last_id d [] = d
last_id d (e ∷ es) = last_id e.id es

-- The default for a limit that is not positive.
unfoldable pub effective_limit : ℕ → ℕ
effective_limit limit = if le64 limit 0 then 200 else limit

-- `start + limit`, cut to the length.
unfoldable pub end_index : ℕ → ℕ → ℕ → ℕ
end_index start limit len = let end = add64 start limit in if lt64 len end then len else end

-- The copy of `b.entries[start:end]` and its last ID. `none` is the panic of the slice expression,
-- which an overflow of `start + limit` provokes.
unfoldable pub window : ℕ → ℕ → ℕ → List Entry → Option (List Entry × ℕ)
window after start end es =
    let out = take (end - start) (drop start es) in
    if lt64 end start then none else some (out, last_id after out)

unfoldable pub since : ℕ → ℕ → Buffer → Option (List Entry × ℕ)
since after limit b =
    let start = start_after after b.entries in
    let len = length b.entries in
    if len == 0
    then some ([], after)
    else if le64 len start
    then some ([], after)
    else window after start (end_index start (effective_limit limit) len) b.entries

unfoldable pub infer_level : Text → Text
infer_level line =
    let upper = to_upper line in
    if contains_text upper (lit "[ERROR]")
    then lit "ERROR"
    else if contains_text upper (lit "[WARN]") || contains_text upper (lit "[WARNING]")
    then lit "WARN"
    else if contains_text upper (lit "[DEBUG]")
    then lit "DEBUG"
    else lit "INFO"

-- `strings.ReplaceAll(s, "\r\n", "\n")`.
unfoldable pub drop_cr : Text → Text
drop_cr [] = []
drop_cr (c ∷ []) = c ∷ []
drop_cr (c ∷ d ∷ s) =
    let rest = drop_cr (d ∷ s) in if c == 13 then (if d == 10 then rest else c ∷ rest) else c ∷ rest

-- The loop of `Write` over the lines.
unfoldable pub add_lines : List Text → ℕ → Buffer → Buffer
unfolding add
add_lines [] now b = b
add_lines (raw ∷ lines) now b =
    let line = trim_space raw in
    add_lines lines now (if is_empty line then b else (add (infer_level line) line now b).0)

unfoldable pub write : Text → ℕ → Buffer → Buffer
unfolding add_lines
write p now b = if is_empty p then b else add_lines (split 10 (drop_cr p)) now b
