-- ===== src/Preset/Lost.antt =====
-- A preset that only the network scan reports: scanPresetFiles leaves `.json` files out of the local
-- scan and keeps them in the network scan.
use lightroom_sync.Common.{ℕ, ◌≡◌, ◌∙◌, true, false, Option, none, some, arith}
use lightroom_sync.Common.Text.{Text}
use lightroom_sync.Common.Dict.{lookup}
use lightroom_sync.Preset.{
  File, Disk, Env, Slot, pull_deletion, pull_change, push_deletion, push_change,
}
use lightroom_sync.Preset.Paths.{is_scanned, is_tracked}
use lightroom_sync.Preset.Cycle.{sync}
use lightroom_sync.Preset.Outcome.{after_pull, after_push, IsDisk}
use lightroom_sync.Preset.Stable.{IsCalm, Persists, sync_folders}

module _ (env : Env) (k : Text) (calm : IsCalm env k)
    (in_network_scan : is_scanned env.categories false k ≡ true)
    (in_local_scan : is_scanned env.categories true k ≡ false)
    (tracked : is_tracked env.categories k ≡ true) where
  loops_lose :
      (g : File) (tm : Option ℕ)
      → let s : Slot = record { local = none; network = some g; seen = none; tomb = tm } in
        (after_push env k (after_pull env k s)).network ≡ none
  unfolding after_pull after_push pull_deletion pull_change push_deletion push_change
  loops_lose g tm = ground (arith, calm)

  -- A path that the network scan reports and the local scan leaves out, as both do with a `.json`
  -- preset, is deleted from the network by the very cycle that first sees it there, if the machine
  -- neither has it nor recorded it before and nothing fails.
  pub json_preset_lost :
      (d : Disk) (u : IsDisk d) (g : File)
      → Persists env
      → lookup k d.network ≡ some g
      → lookup k d.local ≡ none
      → lookup k d.state ≡ none
      → lookup k (sync env d).network ≡ none
  json_preset_lost d u g p on_network no_local no_state =
      (sync_folders env d u p k).1
      ∙ simp (on_network, no_local, no_state) (loops_lose g (lookup k d.tombstone))
