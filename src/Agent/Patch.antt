-- ===== src/Agent/Patch.antt =====
-- A patch keeps the configuration usable, and its category list is free of blanks and repetitions.
use lightroom_sync.Common.{
  ◌≡◌, refl, sym, subst, Bool, true, false, some, List, [], ◌∷◌, arith, Bool-cases, inl, inr, All,
}
use lightroom_sync.Common.Text.{Text}
use lightroom_sync.Common.Unique.{Fresh, Covered, unique_onto-Fresh, unique_onto-covers}
use lightroom_sync.Config.{Config, Files, Manager, update, save}
use lightroom_sync.Config.Laws.{IsUsable}
use lightroom_sync.Agent.{
  SaveConfigPayload, is_empty_config_patch, normalize_categories, has_invalid, patched,
  apply_config_patch,
}

module _ (p : SaveConfigPayload) (c : Config) where
  patched-IsUsable : IsUsable c → has_invalid p ≡ false → IsUsable (patched p c)
  unfolding patched
  patched-IsUsable u h = record {
    heartbeat = ground (arith, u.heartbeat, h);
    check = ground (arith, u.check, h);
    timeout = ground (arith, u.timeout, h);
    categories = refl;
  }

  -- A patch without fields leaves the configuration alone, if it names categories.
  pub patched-empty :
      (first : Text) (others : List Text)
      → is_empty_config_patch p ≡ true
      → c.preset_categories ≡ some (first ∷ others)
      → patched p c ≡ c
  unfolding patched is_empty_config_patch
  patched-empty first others h k = ground (arith, h, k)

update-manager :
    (marshal : Config → Text) (unmarshal : Text → Config → Config × Bool) (c : Config) (m : Manager)
    (files : Files)
    → (update marshal unmarshal c m files).manager ≡ record m { cfg = c }
unfolding update save
update-manager marshal unmarshal c m files = ground arith

-- From a usable configuration a patch leads to a usable one, in memory; and a patch with a number
-- that is not positive changes neither the memory nor a file.
pub apply_config_patch-IsUsable :
    (marshal : Config → Text) (unmarshal : Text → Config → Config × Bool) (p : SaveConfigPayload)
    (m : Manager) (files : Files)
    → IsUsable m.cfg
    → let s = apply_config_patch marshal unmarshal p m files in
      IsUsable s.manager.cfg
      × ((has_invalid p ≡ true) → (s.is_failed ≡ true) × ((s.manager ≡ m) × (s.files ≡ files)))
unfolding apply_config_patch
apply_config_patch-IsUsable marshal unmarshal p m files u = elim (Bool-cases (has_invalid p)) [
  | inl bad ↦ simp bad (u, λ _. (refl, (refl, refl)))
  | inr good ↦ simp good (
    subst (λ (t : Manager). IsUsable t.cfg)
        (sym (update-manager marshal unmarshal (patched p m.cfg) m files))
        (patched-IsUsable p m.cfg u good),
    λ h. absurd cc,
  )
]

-- The list of a patch is stored without blanks and without repetitions, whatever the spelling, and
-- nothing else is lost.
pub normalize_categories-clean :
    (raw : List Text)
    → Fresh [] (normalize_categories raw) × All (Covered [] (normalize_categories raw)) raw
unfolding normalize_categories
normalize_categories-clean raw = (unique_onto-Fresh [] raw, unique_onto-covers [] raw)
