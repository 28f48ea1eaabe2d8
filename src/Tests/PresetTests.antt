-- ===== src/Tests/PresetTests.antt =====
-- Preset cycles at concrete folders.
use lightroom_sync.Common.{ℕ, ◌≡◌, refl, true, false, none, some, [], ◌∷◌}
use lightroom_sync.Common.Text.{
  Text, lit, text_eq, ext, ext_onto, to_lower, lower_rune, trim_space, trim_left, is_space, split,
  split_onto,
}
use lightroom_sync.Common.Dict.{lookup}
use lightroom_sync.Preset.{File, Disk, Env, copied}
use lightroom_sync.Preset.Paths.{
  is_scanned, is_tracked, category_of, in_category_dir, in_category_set, in_logos, skips_ext,
}
use lightroom_sync.Preset.Cycle.{sync}
use lightroom_sync.Preset.Outcome.{IsDisk}
use lightroom_sync.Preset.Stable.{IsCalm, Persists}
use lightroom_sync.Preset.Lost.{json_preset_lost}

abbrev path : Text
path = lit "Develop Presets/Soft.xmp"

abbrev json_path : Text
json_path = lit "Develop Presets/Soft.json"

abbrev calm_env : ℕ → Env
calm_env now = record {
  tolerance = 2;
  categories = lit "Develop Presets" ∷ [];
  now = now;
  stat_local_fails = λ _. false;
  stat_network_fails = λ _. false;
  remove_local_fails = λ _. false;
  remove_network_fails = λ _. false;
  pull_copy = λ _. copied;
  push_copy = λ _. copied;
  pull_watermark = λ t. t;
  push_watermark = λ t. t;
  state_read_fails = false;
  tombstone_read_fails = false;
  state_write_fails = false;
  tombstone_write_fails = false;
}

abbrev old_file : File
old_file = record { mtime = 100; body = lit "old" }

abbrev new_file : File
new_file = record { mtime = 200; body = lit "new" }

-- The local copy was edited behind the last cycle.
abbrev edited_disk : Disk
edited_disk = record {
  local = (path, new_file) ∷ [];
  network = (path, old_file) ∷ [];
  state = (path, 100) ∷ [];
  tombstone = [];
}

calm_env-IsCalm : (now : ℕ) (k : Text) → IsCalm (calm_env now) k
calm_env-IsCalm now k = record {
  local_stat = refl;
  network_stat = refl;
  local_remove = refl;
  network_remove = refl;
  pulls = refl;
  pushes = refl;
}

calm_env-Persists : (now : ℕ) → Persists (calm_env now)
calm_env-Persists now = record { reads_state = refl; reads_tombstone = refl; writes_state = refl }

abbrev json_disk : Disk
json_disk = record { local = []; network = (json_path, old_file) ∷ []; state = []; tombstone = [] }

json_disk-IsDisk : IsDisk json_disk
unfolding lookup
json_disk-IsDisk = record {
  local_keys = tt;
  network_keys = (refl, tt);
  state_keys = tt;
  tombstone_keys = tt;
}

json_scanned : is_scanned (lit "Develop Presets" ∷ []) false json_path ≡ true
unfolding lit is_scanned category_of in_category_dir in_logos skips_ext ext ext_onto to_lower
    lower_rune trim_space trim_left is_space split split_onto text_eq
json_scanned = refl

json_not_scanned : is_scanned (lit "Develop Presets" ∷ []) true json_path ≡ false
unfolding lit is_scanned category_of in_category_dir in_logos skips_ext ext ext_onto to_lower
    lower_rune trim_space trim_left is_space split split_onto text_eq
json_not_scanned = refl

json_tracked : is_tracked (lit "Develop Presets" ∷ []) json_path ≡ true
unfolding lit is_tracked category_of in_category_set to_lower lower_rune trim_space trim_left
    is_space split split_onto text_eq
json_tracked = refl

json_on_network : lookup json_path json_disk.network ≡ some old_file
unfolding lookup lit text_eq
json_on_network = refl

json_nowhere : lookup json_path json_disk.local ≡ none
unfolding lookup
json_nowhere = refl

json_no_state : lookup json_path json_disk.state ≡ none
unfolding lookup
json_no_state = refl

json_preset_lost_example : lookup json_path (sync (calm_env 300) json_disk).network ≡ none
json_preset_lost_example =
    json_preset_lost (calm_env 300) json_path (calm_env-IsCalm 300 json_path) json_scanned
      json_not_scanned json_tracked json_disk json_disk-IsDisk old_file (calm_env-Persists 300)
      json_on_network json_nowhere json_no_state
