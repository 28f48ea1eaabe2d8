-- ===== src/Preset/Stable.antt =====
-- After a cycle without faults the two folders agree, and a second one changes neither.
use lightroom_sync.Common.{ℕ, ◌+◌, ◌≤◌, ◌≡◌, ◌∙◌, ap, ◌⊎◌, true, false, Option, none, some}
use lightroom_sync.Common.Text.{Text}
use lightroom_sync.Common.Dict.{lookup}
use lightroom_sync.Preset.{File, Disk, Env, copied, Slot}
use lightroom_sync.Preset.Paths.{is_scanned, is_tracked}
use lightroom_sync.Preset.Cycle.{slot, save, sync}
use lightroom_sync.Preset.Outcome.{after_pull, after_push, IsDisk, start, slot-run_loops}

-- Nothing fails at the path.
pub record IsCalm (env : Env) (k : Text) : Type 0 where
  pub local_stat : env.stat_local_fails k ≡ false
  pub network_stat : env.stat_network_fails k ≡ false
  pub local_remove : env.remove_local_fails k ≡ false
  pub network_remove : env.remove_network_fails k ≡ false
  pub pulls : env.pull_copy k ≡ copied
  pub pushes : env.push_copy k ≡ copied

-- The path takes part in the cycle: both scans report it, and its category is selected.
pub record TakesPart (env : Env) (k : Text) : Type 0 where
  pub in_network_scan : is_scanned env.categories false k ≡ true
  pub in_local_scan : is_scanned env.categories true k ≡ true
  pub tracked : is_tracked env.categories k ≡ true

-- A tombstone is kept only for a path that the network lacks.
abbrev pub TombRight : Slot → Type 0
TombRight s = (g : File) → s.network ≡ some g → s.tomb ≡ none

abbrev Unedited : ℕ → File → File → Option ℕ → Type 0
Unedited tol f g none = f.mtime ≤ g.mtime
Unedited tol f g (some last) = (f.mtime ≤ last + tol) ⊎ (f.mtime ≤ g.mtime)

-- Both folders have the path, neither side with a change to hand over, or neither has it.
abbrev pub Settled : ℕ → Option File → Option File → Option ℕ → Type 0
Settled tol none none seen = Unit
Settled tol (some f) (some g) seen = (g.mtime ≤ f.mtime + tol) × Unedited tol f g seen
Settled tol _ _ seen = ⊥

-- What the pull leaves to the push.
abbrev Pulled : ℕ → Option File → Option File → Option ℕ → Type 0
Pulled tol none none seen = Unit
Pulled tol (some f) none seen = Unit
Pulled tol none (some g) none = ⊥
Pulled tol none (some g) (some last) = Unit
Pulled tol (some f) (some g) seen = g.mtime ≤ f.mtime + tol

-- What the disk holds for the path, as the next cycle reads it.
abbrev pub disk_slot : Text → Disk → Slot
disk_slot k d = record {
  local = lookup k d.local;
  network = lookup k d.network;
  seen = lookup k d.state;
  tomb = lookup k d.tombstone;
}

-- The cycle's files are read and written without an error.
pub record Persists (env : Env) : Type 0 where
  pub reads_state : env.state_read_fails ≡ false
  pub reads_tombstone : env.tombstone_read_fails ≡ false
  pub writes_state : env.state_write_fails ≡ false

module _ (env : Env) (d : Disk) (u : IsDisk d) (p : Persists env) where
  start_slot : (k : Text) → slot k (start env d u) ≡ disk_slot k d
  start_slot k = rw (p.reads_state, p.reads_tombstone)

  -- What a cycle does to the folders.
  pub sync_folders :
      (k : Text)
      → let s' = after_push env k (after_pull env k (disk_slot k d)) in
        (lookup k (sync env d).local ≡ s'.local) × (lookup k (sync env d).network ≡ s'.network)
  unfolding sync save
  sync_folders k =
      let loops =
        slot-run_loops env d u k ∙ ap (λ t. after_push env k (after_pull env k t)) (start_slot k) in
      (ap (λ (t : Slot). t.local) loops, ap (λ (t : Slot). t.network) loops)
