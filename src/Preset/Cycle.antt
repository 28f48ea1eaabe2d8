-- ===== src/Preset/Cycle.antt =====
-- The loops of PresetSyncManager.Sync over their maps, and the cycle that they make.
use lightroom_sync.Common.{
  ℕ, ◌+◌, Bool, true, false, ◌||◌, Option, none, some, List, [], ◌∷◌, if◌then◌else◌,
}
use lightroom_sync.Common.Text.{Text}
use lightroom_sync.Common.Dict.{Dict, lookup, insert, erase, has_key}
use lightroom_sync.Preset.{
  File, Disk, Env, Slot, Effect, pull_deletion, pull_change, push_deletion, push_change,
}
use lightroom_sync.Preset.Paths.{is_scanned}

-- The variables of the cycle. `seen` is `newState`.
pub record Cycle : Type 0 where
  pub local : Dict File
  pub network : Dict File
  pub seen : Dict ℕ
  pub tombstone : Dict ℕ
  pub pulled : ℕ
  pub pushed : ℕ
  pub deleted : ℕ
  pub is_failed : Bool
  pub tomb_modified : Bool

abbrev pub slot : Text → Cycle → Slot
slot k c = record {
  local = lookup k c.local;
  network = lookup k c.network;
  seen = lookup k c.seen;
  tomb = lookup k c.tombstone;
}

-- An entry is written, or removed.
unfoldable pub put {ℓ} : {V : Type ℓ} → Text → Option V → Dict V → Dict V
put k none m = erase k m
put k (some v) m = insert k v m

-- One round of a loop: the body for the path `k`.
unfoldable pub at : Text → (Slot → Effect) → Cycle → Cycle
unfolding put
at k f c =
    let e = f (slot k c) in
    record {
      local = put k e.slot.local c.local;
      network = put k e.slot.network c.network;
      seen = put k e.slot.seen c.seen;
      tombstone = put k e.slot.tomb c.tombstone;
      pulled = c.pulled + e.pulled;
      pushed = c.pushed + e.pushed;
      deleted = c.deleted + e.deleted;
      is_failed = c.is_failed || e.is_failed;
      tomb_modified = c.tomb_modified || e.tomb_modified;
    }

-- A loop over a map: its order is that of the list.
unfoldable pub each {ℓ} : {V : Type ℓ} → (Text → V → Slot → Effect) → Dict V → Cycle → Cycle
each f [] c = c
each f ((k, v) ∷ m) c = each f m (at k (f k v) c)

-- `scanPresetFiles`.
unfoldable pub scan : List Text → Bool → Dict File → Dict File
scan categories skip_json [] = []
scan categories skip_json ((k, f) ∷ m) =
    let rest = scan categories skip_json m in
    if is_scanned categories skip_json k then (k, f) ∷ rest else rest

module _ (env : Env) where
  -- PULL A and PULL B: the scan of the network folder stands before both loops.
  unfoldable pub pull_phase : Dict ℕ → Cycle → Cycle
  pull_phase state c =
      let network_files = scan env.categories false c.network in
      each (λ k. pull_change env (lookup k state) k) network_files
        (each (λ k. pull_deletion env (has_key k network_files) k) state c)

  -- PUSH A and PUSH B, with the scan of the local folder.
  unfoldable pub push_phase : Cycle → Cycle
  push_phase c =
      let local_files = scan env.categories true c.local in
      each (push_change env) local_files
        (each (λ k. push_deletion env (has_key k local_files) k) c.seen c)

  abbrev pub start_cycle : Dict ℕ → Dict ℕ → Disk → Cycle
  start_cycle state tombstone d = record {
    local = d.local;
    network = d.network;
    seen = state;
    tombstone = tombstone;
    pulled = 0;
    pushed = 0;
    deleted = 0;
    is_failed = false;
    tomb_modified = false;
  }

  abbrev pub read_state : Disk → Dict ℕ
  read_state d = if env.state_read_fails then [] else d.state

  abbrev pub read_tombstone : Disk → Dict ℕ
  read_tombstone d = if env.tombstone_read_fails then [] else d.tombstone

  -- The loops of one cycle.
  unfoldable pub run_loops : Disk → Cycle
  run_loops d =
      push_phase (pull_phase (read_state d) (start_cycle (read_state d) (read_tombstone d) d))

  -- The two writes at the end, which an error of the loops forestalls.
  unfoldable pub save : Cycle → Disk → Disk
  save c d = record {
    local = c.local;
    network = c.network;
    state = if c.is_failed || env.state_write_fails then d.state else c.seen;
    tombstone =
        if c.is_failed || env.state_write_fails
        then d.tombstone
        else if c.tomb_modified
        then (if env.tombstone_write_fails then d.tombstone else c.tombstone)
        else d.tombstone;
  }

  unfoldable pub sync : Disk → Disk
  sync d = save (run_loops d) d

  -- Whether `Sync` returns a nil error.
  unfoldable pub succeeds : Disk → Bool
  succeeds d = if (run_loops d).is_failed || env.state_write_fails then false else true
