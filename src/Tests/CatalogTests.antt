-- ===== src/Tests/CatalogTests.antt =====
-- The orchestrator at a concrete manifest.
use lightroom_sync.Common.{ℕ, Option, ℕ, true, false, Option, some, [], ◌∷◌}
use lightroom_sync.Common.Text.{Text, lit}
use lightroom_sync.Coordinator.State.{AppState}
use lightroom_sync.Sync.Manifest.{Manifest}
use lightroom_sync.Sync.Restore.{Folder}
use lightroom_sync.Coordinator.Catalog.{Orchestrator, JobFaults}

abbrev studio : Manifest
studio = record {
  machine = lit "STUDIO";
  timestamp = lit "2024-05-02T10:00:00";
  zip_file = lit "2024/c.zip";
  zip_size = 7;
}

abbrev laptop : Option AppState → Option Manifest → Orchestrator
laptop app pending = record {
  machine = lit "LAPTOP";
  catalog_dir = lit "C";
  backup_dir = lit "B";
  app = app;
  has_worker = true;
  has_manifest = true;
  auto_sync = some true;
  last_synced = some (lit "2024-05-01T09:00:00");
  has_set_last_synced = true;
  pending = pending;
  jobs = [];
}

abbrev zip_there : Text → Option ℕ
zip_there _ = some 7

abbrev broken_cleanup : JobFaults
broken_cleanup = record {
  is_corrupted = false;
  backup = record {
    is_cancelled = false;
    mkdir_fails = false;
    zip_fails = false;
    retention_fails = false;
  };
  restore = record {
    is_corrupted = false;
    mkdir_fails = false;
    cleanup_fails = true;
    removed_before = λ _. true;
    last_cleanup_fails = false;
    removed_at_last = λ _. false;
  };
}

abbrev catalog_files : Folder
catalog_files = (lit "Main.lrcat" ∷ [], lit "db") ∷ []
