-- ===== src/Tests/MachineTests.antt =====
-- Runs of the whole agent at concrete inputs.
use lightroom_sync.Common.{◌≡◌, refl, true, false, none, some, []}
use lightroom_sync.Common.Text.{Text, lit, trim_space}
use lightroom_sync.Config.{Manager, default_config}
use lightroom_sync.Sync.Manifest.{Manifest, ManifestFile}
use lightroom_sync.Agent.Wiring.{Machine, World, check_startup}
use lightroom_sync.Agent.Wiring.Startup.{new_machine}
use lightroom_sync.Agent.Machine.{lightroom, startup_manifest, take_step, MachineRun, here, step}

abbrev manager : Manager
manager = record {
  cfg = record default_config {
    backup_folder = lit "B";
    catalog_path = lit "C";
    auto_sync = true;
    last_synced_timestamp = lit "2024-05-01T09:00:00";
  };
  file_path = lit "new.yaml";
}

abbrev started : Machine
started =
    new_machine manager (record { content = []; unreadable = λ t. false; unwritable = λ t. false })
      (lit "LAPTOP") (lit "A") []

abbrev news : Manifest
news = record {
  machine = lit "STUDIO";
  timestamp = lit "2024-05-02T10:00:00";
  zip_file = lit "May/2.zip";
  zip_size = 7;
}

abbrev waiting : Machine
waiting = record started { pending = some news }

abbrev world : World
world = record {
  now = 5;
  time_text = lit "2024-05-02T11:00:00";
  marshal = λ c. c.backup_folder;
  unmarshal = λ t c. (c, true);
  is_cancelled = false;
  manifest_file = ManifestFile.holds (record {
    machine = lit "STUDIO";
    timestamp = lit "2024-05-02T10:00:00";
    zip_file = lit "May/2.zip";
    zip_path = [];
    zip_size = 7;
  });
  zip_size = λ t. some 7;
  relative = some;
  stat_size = λ t. some 7;
  writes = λ m. none;
}

-- Lightroom starts, and the manifest of the start is read then.
abbrev busy : Machine
busy = elim (take_step {P = Text} (lightroom true) started) [ none ↦ started | some m ↦ m ]

abbrev after_check : Machine
after_check = check_startup world busy

checked : take_step {P = Text} (startup_manifest world) busy ≡ some after_check
unfolding take_step new_machine lit trim_space
checked = refl

abbrev one_check : MachineRun Text busy after_check
one_check = step (startup_manifest world) here checked
