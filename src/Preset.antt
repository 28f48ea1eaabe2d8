-- ===== src/Preset.antt =====
-- Two-way preset synchronization (internal/sync/preset_sync.go): one cycle of PresetSyncManager.Sync.
-- Modification times are nanoseconds; the source compares them as float64 seconds. What the file
-- system makes of each operation is the environment's choice, `Env`.
pub mod Paths
pub mod Slots
pub mod Cycle
pub mod Categories
pub mod Watermarks
pub mod Outcome
pub mod Stable
pub mod Reconcile
pub mod Lost
use lightroom_sync.Common.{
  ℕ, zero, suc, ◌+◌, ◌-◌, Bool, true, false, ◌&&◌, ◌||◌, not, Option, none, some, List, [], ◌∷◌,
  ltb, leb, if◌then◌else◌, is_some,
}
use lightroom_sync.Common.Text.{Text, text_eq}
use lightroom_sync.Common.Dict.{Dict}
use lightroom_sync.Preset.Paths.{is_tracked, is_scanned, is_rewritten}

pub record File : Type 0 where
  pub mtime : ℕ
  pub body : Text

-- The two folders, and the two files that keep modification times between cycles.
pub record Disk : Type 0 where
  pub local : Dict File
  pub network : Dict File
  pub state : Dict ℕ
  pub tombstone : Dict ℕ

-- A failed copy leaves behind, at its destination, what the environment says.
pub data Copy : Type 0 where
  copied : Copy
  copy_failed : Option File → Copy

-- `tolerance` and the resolved categories of the manager, the time of the cycle, and what can fail.
-- The rewriting of the logo paths in a watermark template is the pair of functions on its text.
pub record Env : Type 0 where
  pub tolerance : ℕ
  pub categories : List Text
  pub now : ℕ
  pub stat_local_fails : Text → Bool
  pub stat_network_fails : Text → Bool
  pub remove_local_fails : Text → Bool
  pub remove_network_fails : Text → Bool
  pub pull_copy : Text → Copy
  pub push_copy : Text → Copy
  pub pull_watermark : Text → Text
  pub push_watermark : Text → Text
  pub state_read_fails : Bool
  pub tombstone_read_fails : Bool
  pub state_write_fails : Bool
  pub tombstone_write_fails : Bool

-- What a loop's body reads and changes: the entries of its path in the two folders, in `newState`
-- and in `tombstone`.
pub record Slot : Type 0 where
  pub local : Option File
  pub network : Option File
  pub seen : Option ℕ
  pub tomb : Option ℕ

-- The slot behind the body, with what it adds to the counters, to `cycleErr` and to
-- `tombstoneModified`.
pub record Effect : Type 0 where
  pub slot : Slot
  pub pulled : ℕ
  pub pushed : ℕ
  pub deleted : ℕ
  pub is_failed : Bool
  pub tomb_modified : Bool

abbrev pub quiet : Slot → Effect
quiet s = record {
  slot = s;
  pulled = 0;
  pushed = 0;
  deleted = 0;
  is_failed = false;
  tomb_modified = false;
}

abbrev pub failing : Slot → Effect
failing s = record {
  slot = s;
  pulled = 0;
  pushed = 0;
  deleted = 0;
  is_failed = true;
  tomb_modified = false;
}

abbrev pub abs_diff : ℕ → ℕ → ℕ
abs_diff a b = (a - b) + (b - a)

module _ (env : Env) where
  -- PULL A: a path of `state`, seen at `last`; `in_network` says whether the network scan has it.
  unfoldable pub pull_deletion : Bool → Text → ℕ → Slot → Effect
  pull_deletion in_network path last s =
      let gone = record s { seen = none } in
      let deletion : Effect = elim s.local [
        | none ↦ quiet gone
        | some f ↦
            if ltb (abs_diff f.mtime last) env.tolerance
            then (if env.remove_local_fails path
                then failing gone
                else record (quiet (record gone { local = none })) { deleted = 1 })
            else quiet gone
      ] in
      if is_tracked env.categories path && not in_network
      then (if env.stat_local_fails path then failing gone else deletion)
      else quiet s

  -- Whether PULL B copies a network file of the time `mtime`; `last_seen` is the entry of `state`.
  unfoldable pub needs_pull : Option ℕ → ℕ → Option File → Bool
  needs_pull last_seen mtime (some f) = ltb (f.mtime + env.tolerance) mtime
  needs_pull last_seen mtime none = elim last_seen [
    | some last ↦ ltb (last + env.tolerance) mtime
    | none ↦ true
  ]

  unfoldable pub pull_file : Text → Slot → Effect
  pull_file path s = elim (env.pull_copy path) [
    | copy_failed left ↦ failing (record s { local = left })
    | copied ↦ elim s.network [
      | none ↦ failing s
      | some f ↦
          let body = if is_rewritten path then env.pull_watermark f.body else f.body in
          record (quiet (record s {
            local = some (record { mtime = f.mtime; body = body });
            seen = some f.mtime;
          })) { pulled = 1 }
    ]
  ]

  -- PULL B: a network file.
  unfoldable pub pull_change : Option ℕ → Text → File → Slot → Effect
  unfolding needs_pull pull_file
  pull_change last_seen path meta s =
      if env.stat_local_fails path
      then failing s
      else if needs_pull last_seen meta.mtime s.local
      then pull_file path s
      else quiet s

  -- PUSH A: a path of `newState`; `in_local` says whether the local scan has it.
  unfoldable pub push_deletion : Bool → Text → ℕ → Slot → Effect
  push_deletion in_local path last s =
      let gone = record s { seen = none } in
      let deletion : Effect = elim s.network [
        | none ↦ quiet gone
        | some f ↦
            if env.remove_network_fails path
            then failing gone
            else record (quiet (record gone { network = none; tomb = some env.now })) {
              deleted = 1;
              tomb_modified = true;
            }
      ] in
      if is_tracked env.categories path && not in_local
      then (if env.stat_network_fails path then failing gone else deletion)
      else quiet s

  -- Whether PUSH B copies a local file of the time `mtime`.
  unfoldable pub needs_push : ℕ → Slot → Bool
  needs_push mtime s = elim s.network [
    | none ↦ true
    | some f ↦
        let edited : Bool = elim s.seen [
          | none ↦ true
          | some last ↦ ltb (last + env.tolerance) mtime
        ] in
        if edited then ltb f.mtime mtime else false
  ]

  -- A template is rewritten on both sides.
  unfoldable pub push_file : Text → Slot → Effect
  push_file path s = elim (env.push_copy path) [
    | copy_failed left ↦ failing (record s { network = left })
    | copied ↦ elim s.local [
      | none ↦ failing s
      | some f ↦
          let body = if is_rewritten path then env.push_watermark f.body else f.body in
          let g : File = record { mtime = f.mtime; body = body } in
          record (quiet (record s { local = some g; network = some g; seen = some f.mtime })) {
            pushed = 1;
          }
    ]
  ]

  -- A file that is not newer than the deletion of its path is deleted, not pushed.
  unfoldable pub push_unless_zombie : Text → ℕ → Slot → Effect
  unfolding push_file
  push_unless_zombie path mtime s = elim s.tomb [
    | none ↦ push_file path s
    | some deleted_at ↦
        if leb mtime (deleted_at + env.tolerance)
        then (if env.remove_local_fails path
            then failing s
            else record (quiet (record s { local = none })) { deleted = 1 })
        else record (push_file path (record s { tomb = none })) { tomb_modified = true }
  ]

  -- PUSH B: a local file.
  unfoldable pub push_change : Text → File → Slot → Effect
  unfolding needs_push push_unless_zombie
  push_change path meta s =
      if env.stat_network_fails path
      then failing s
      else if needs_push meta.mtime s
      then push_unless_zombie path meta.mtime s
      else quiet s
