-- ===== src/Config/Laws.antt =====
-- A loaded configuration is usable, a saved one is loaded again, and a migration harms no other file.
use lightroom_sync.Common.{
  ◌≡◌, refl, ◌∙◌, Bool, true, false, Option, List, [], ◌∷◌, ◌++◌, arith, Bool-cases, is_some, inl,
  inr,
}
use lightroom_sync.Common.Int64.{le64}
use lightroom_sync.Common.Text.{Text, text_eq, text_eq_refl}
use lightroom_sync.Common.Dict.{lookup, lookup-insert}
use lightroom_sync.Config.{
  Config, default_config, apply_defaults, Files, Manager, new_manager, Read, not_exist, read_error,
  read_text, read_file, Step, yaml_header, load_read, load, save, update, backup_read, migrate_read,
  migrate_text, migrate_from, migrate_from_legacy_paths,
}

-- The intervals are positive, and there is a list of categories.
pub record IsUsable (c : Config) : Type 0 where
  pub heartbeat : le64 c.heartbeat_interval 0 ≡ false
  pub check : le64 c.check_interval 0 ≡ false
  pub timeout : le64 c.lock_timeout 0 ≡ false
  pub categories : is_some c.preset_categories ≡ true

default_config-IsUsable : IsUsable default_config
unfolding default_config
default_config-IsUsable = record {
  heartbeat = refl;
  check = refl;
  timeout = refl;
  categories = refl;
}

apply_defaults-IsUsable : (c : Config) → IsUsable (apply_defaults c)
unfolding apply_defaults default_config
apply_defaults-IsUsable c = record {
  heartbeat = ground arith;
  check = ground arith;
  timeout = ground arith;
  categories = refl;
}

module _ (marshal : Config → Text) (unmarshal : Text → Config → Config × Bool) where
  load_read-IsUsable :
      (r : Read) (m : Manager) (files : Files)
      → (load_read marshal unmarshal r m files).is_failed ≡ false
      → IsUsable (load_read marshal unmarshal r m files).manager.cfg
  unfolding load_read
  load_read-IsUsable not_exist m files ok = default_config-IsUsable
  load_read-IsUsable read_error m files ok = default_config-IsUsable
  load_read-IsUsable (read_text text) m files ok =
      rw ok (apply_defaults-IsUsable (unmarshal text default_config).0)

  -- Loading without an error gives positive intervals and a list of categories, whatever the file
  -- holds.
  pub load-IsUsable :
      (m : Manager) (files : Files)
      → (load marshal unmarshal m files).is_failed ≡ false
      → IsUsable (load marshal unmarshal m files).manager.cfg
  unfolding load
  load-IsUsable m files ok = load_read-IsUsable (read_file files m.file_path) m files ok

  read_file-update :
      (c : Config) (m : Manager) (files : Files)
      → files.unwritable m.file_path ≡ false
      → files.unreadable m.file_path ≡ false
      → read_file (update marshal unmarshal c m files).files m.file_path
        ≡ read_text (yaml_header ++ marshal c)
  unfolding update save read_file
  read_file-update c m files writable readable =
      simp (writable, readable, lookup-insert, text_eq_refl)

  -- What an update wrote is what the next start of the agent loads, with the defaults for what is not
  -- usable, if YAML reads back that configuration as it wrote it.
  pub update-load :
      (c : Config) (m : Manager) (files : Files)
      → unmarshal (yaml_header ++ marshal c) default_config ≡ (c, false)
      → files.unwritable m.file_path ≡ false
      → files.unreadable m.file_path ≡ false
      → (load marshal unmarshal
          (new_manager m.file_path)
          (update marshal unmarshal c m files).files).manager.cfg
        ≡ apply_defaults c
  unfolding load load_read new_manager
  update-load c m files round_trip writable readable =
      simp (read_file-update c m files writable readable, round_trip)

  module _ (backup_name : Text → Text) (q : Text) where
    save-others :
        (m : Manager) (files : Files)
        → text_eq m.file_path q ≡ false
        → lookup q (save marshal unmarshal m files).files.content ≡ lookup q files.content
    unfolding save
    save-others m files other = elim (Bool-cases (files.unwritable m.file_path)) [
      | inl locked ↦ simp locked
      | inr free ↦ simp (free, lookup-insert, other)
    ]

    backup-others :
        (source : Text) (r : Read) (m : Manager) (files : Files)
        → text_eq (backup_name source) q ≡ false
        → lookup q (backup_read marshal unmarshal backup_name source r m files).files.content
          ≡ lookup q files.content
    unfolding backup_read
    backup-others source not_exist m files other = refl
    backup-others source read_error m files other = refl
    backup-others source (read_text text) m files other =
        elim (Bool-cases (files.unwritable (backup_name source))) [
          | inl locked ↦ simp locked
          | inr free ↦ simp (free, lookup-insert, other)
        ]

    migrate_text-others :
        (source text : Text) (m : Manager) (files : Files)
        → text_eq m.file_path q ≡ false
        → text_eq (backup_name source) q ≡ false
        → lookup q (migrate_text marshal unmarshal backup_name source text m files).files.content
          ≡ lookup q files.content
    unfolding migrate_text
    migrate_text-others source text m files other other_backup =
        let target : Manager = record m {
          cfg = apply_defaults (unmarshal text default_config).0;
        } in
        let saved : Step = save marshal unmarshal target files in
        let kept = save-others target files other in
        let backed =
          backup-others source (read_file saved.files source) saved.manager saved.files
            other_backup in
        elim (Bool-cases (unmarshal text default_config).1) [
          | inl bad ↦ simp bad
          | inr good ↦ elim (Bool-cases saved.is_failed) [
            | inl failed ↦ simp (good, failed) kept
            | inr done ↦ simp (good, done) (backed ∙ kept)
          ]
        ]

    migrate_read-others :
        (p : Text) (r : Read) (m : Manager) (files : Files) (next : Step × Option Text)
        → text_eq m.file_path q ≡ false
        → text_eq (backup_name p) q ≡ false
        → lookup q next.0.files.content ≡ lookup q files.content
        → lookup q (migrate_read marshal unmarshal backup_name p r m files next).0.files.content
          ≡ lookup q files.content
    unfolding migrate_read
    migrate_read-others p not_exist m files next other other_backup rest = rest
    migrate_read-others p read_error m files next other other_backup rest = refl
    migrate_read-others p (read_text text) m files next other other_backup rest =
        migrate_text-others p text m files other other_backup

    migrate_from-others :
        (paths : List Text) (m : Manager) (files : Files)
        → text_eq m.file_path q ≡ false
        → ((source : Text) → text_eq (backup_name source) q ≡ false)
        → lookup q (migrate_from marshal unmarshal backup_name paths m files).0.files.content
          ≡ lookup q files.content
    unfolding migrate_from
    migrate_from-others [] m files other other_backup = refl
    migrate_from-others (p ∷ ps) m files other other_backup =
        let rest = migrate_from-others ps m files other other_backup in
        let here =
          migrate_read-others p (read_file files p) m files
            (migrate_from marshal unmarshal backup_name ps m files) other (other_backup p) rest in
        ground (arith, rest, here)

    -- A migration changes the target and the backup copy only: the legacy files it read, and all
    -- others, are as they were, whether it succeeds or fails.
    pub migrate-others :
        (paths : List Text) (m : Manager) (files : Files)
        → text_eq m.file_path q ≡ false
        → ((source : Text) → text_eq (backup_name source) q ≡ false)
        → lookup q
            (migrate_from_legacy_paths marshal unmarshal backup_name paths m files).0.files.content
          ≡ lookup q files.content
    unfolding migrate_from_legacy_paths
    migrate-others paths m files other other_backup =
        ground (arith, migrate_from-others paths m files other other_backup)
