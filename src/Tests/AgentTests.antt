-- ===== src/Tests/AgentTests.antt =====
-- Configuration, requests and log at concrete inputs.
use lightroom_sync.Common.{
  ◌+◌, ◌≤◌, ◌<◌, ◌≡◌, refl, Bool, false, some, [], ◌∷◌, ◌++◌, length, take, drop, last_n, All,
  arith,
}
use lightroom_sync.Common.Text.{Text, lit, text_eq}
use lightroom_sync.Config.{
  Config, default_config, apply_defaults, Files, Manager, new_manager, yaml_header, load, update,
}
use lightroom_sync.Config.Laws.{update-load}
use lightroom_sync.Agent.{normalize_log_level_filter, stream_limit, subscribe_logs}
use lightroom_sync.Agent.Logs.{matching, scanned, subscribe_logs-scanned}
use lightroom_sync.Logstream.{Entry, Buffer, new_buffer, add, push, new_entry, last_id}
use lightroom_sync.Logstream.Invariant.{IsWell, new_buffer-IsWell, add-IsWell}
use lightroom_sync.Logstream.History.{Message, number, add_all, add_all_history}

abbrev two_files : Files
two_files = record {
  content = (lit "old.yaml", lit "a: 1") ∷ [];
  unreadable = λ _. false;
  unwritable = λ _. false;
}

abbrev manager : Manager
manager = new_manager (lit "new.yaml")

-- A stand-in for YAML that writes the catalog's path only.
abbrev write_path : Config → Text
write_path c = c.catalog_path

abbrev read_path : Text → Config → Config × Bool
read_path text c = (record c { catalog_path = drop (length yaml_header) text }, false)

abbrev moved : Config
moved = record default_config { catalog_path = lit "D" }

moved_read : read_path (yaml_header ++ write_path moved) default_config ≡ (moved, false)
unfolding lit default_config
moved_read = refl

update-load_example :
    (load write_path read_path
      (new_manager manager.file_path)
      (update write_path read_path moved manager two_files).files).manager.cfg
    ≡ apply_defaults moved
update-load_example = update-load write_path read_path moved manager two_files moved_read refl refl

abbrev backup_name : Text → Text
backup_name source = lit "backup_" ++ source

other_file : text_eq manager.file_path (lit "old.yaml") ≡ false
unfolding new_manager lit text_eq
other_file = refl

other_backup : (source : Text) → text_eq (backup_name source) (lit "old.yaml") ≡ false
unfolding lit text_eq
other_backup source = refl

abbrev empty_log : Buffer
empty_log = new_buffer 2

abbrev one_line : Buffer
one_line = (add (lit "info") (lit "one") 5 empty_log).0

abbrev two_lines : Buffer
two_lines = (add (lit "warn") (lit "two") 6 one_line).0

two_lines-IsWell : IsWell two_lines
unfolding add new_buffer push new_entry
two_lines-IsWell =
    add-IsWell (lit "warn") (lit "two") 6 one_line
      (add-IsWell (lit "info") (lit "one") 5 empty_log (new_buffer-IsWell 2 (omega arith))
        (omega arith))
      (omega arith)

abbrev message : Text → Message
message t = record { level = lit "info"; text = t; time = 5 }

none_yet : length empty_log.entries ≤ empty_log.max_size
unfolding new_buffer
none_yet = omega arith

ids_left : empty_log.next_id + 3 < 9223372036854775808
unfolding new_buffer
ids_left = omega arith

add_all_history_example :
    (add_all (message (lit "a") ∷ message (lit "b") ∷ message (lit "c") ∷ []) empty_log).entries
    ≡ last_n empty_log.max_size (
        empty_log.entries
        ++ number empty_log.next_id
            (message (lit "a") ∷ message (lit "b") ∷ message (lit "c") ∷ []))
add_all_history_example =
    add_all_history (message (lit "a") ∷ message (lit "b") ∷ message (lit "c") ∷ []) empty_log
      none_yet ids_left

stream_room : 500 + length two_lines.entries < 9223372036854775808
unfolding add new_buffer push new_entry
stream_room = omega arith

subscribe_logs-scanned_example :
    let entries =
      scanned (lit "warn") 0 1 two_lines two_lines-IsWell (omega arith) (omega arith) stream_room in
    let level_filter = normalize_log_level_filter (lit "warn") in
    (subscribe_logs (lit "warn") 0 1 two_lines
      ≡ some (take (stream_limit 1) (matching level_filter entries), last_id 0 entries))
    × All
        (λ (e : Entry). e.id ≤ last_id 0 entries)
        (drop (stream_limit 1) (matching level_filter entries))
subscribe_logs-scanned_example =
    subscribe_logs-scanned (lit "warn") 0 1 two_lines two_lines-IsWell (omega arith) (omega arith)
      stream_room
