-- ===== src/Monitor/PathProbe.antt =====
-- The probe of the configured folders (NewPathProbe in internal/monitor/network_health.go). `Clean` of
-- path/filepath is a parameter, and so is what the file system shows at a path.
use lightroom_sync.Common.{
  ℕ, suc, ◌≡◌, refl, ◌∙◌, Bool, true, false, ◌&&◌, ◌||◌, Bool-cases, inl, inr, Option, none, some,
  List, [], ◌∷◌, ◌++◌, if◌then◌else◌, arith,
}
use lightroom_sync.Common.Text.{Text, lit, is_empty, text_eq, trim_space, to_lower}
use lightroom_sync.Common.Unique.{is_seen}
use lightroom_sync.Monitor.Breaker.{Probe, healthy, failed}

-- What `os.Stat` and `os.ReadDir` make of a path, with their errors.
pub data Look : Type 0 where
  file : Look
  folder : Option Text → Look
  missing : Text → Look

unfoldable pub probe_paths : (Text → Look) → (ℕ → Option Text) → ℕ → List Text → Probe
probe_paths look cancelled n [] = healthy
probe_paths look cancelled n (path ∷ paths) =
    let rest = probe_paths look cancelled (suc n) paths in
    let seen : Probe = elim (look path) [
      | file ↦ rest
      | folder none ↦ rest
      | folder (some e) ↦ failed (lit "read dir " ++ (path ++ (lit ": " ++ e)))
      | missing e ↦ failed (lit "stat path " ++ (path ++ (lit ": " ++ e)))
    ] in
    elim (cancelled n) [ some e ↦ failed e | none ↦ seen ]

module _ (clean : Text → Text) where
  unfoldable pub clean_paths_onto : List Text → List Text → List Text
  clean_paths_onto seen [] = []
  clean_paths_onto seen (raw ∷ paths) =
      let path = clean (trim_space raw) in
      let rest = clean_paths_onto seen paths in
      let more = path ∷ clean_paths_onto (to_lower path ∷ seen) paths in
      if is_empty (trim_space raw)
      then rest
      else if is_seen (to_lower path) seen
      then rest
      else more

  unfoldable pub unique_clean_paths : List Text → List Text
  unfolding clean_paths_onto
  unique_clean_paths paths = clean_paths_onto [] paths

  -- `cancelled n` is the context's error when the n-th path is about to be looked at.
  unfoldable pub new_path_probe : (Text → Look) → (ℕ → Option Text) → List Text → Probe
  unfolding probe_paths unique_clean_paths
  new_path_probe look cancelled paths = probe_paths look cancelled 0 (unique_clean_paths paths)

abbrev pub is_healthy : Probe → Bool
is_healthy Probe.absent = false
is_healthy healthy = true
is_healthy (failed e) = false

abbrev pub is_accessible : Look → Bool
is_accessible file = true
is_accessible (folder none) = true
is_accessible (folder (some e)) = false
is_accessible (missing e) = false

-- Each path that is not blank is accessible.
unfoldable pub is_all_accessible : (Text → Text) → (Text → Look) → List Text → Bool
is_all_accessible clean look [] = true
is_all_accessible clean look (raw ∷ paths) =
    (is_empty (trim_space raw) || is_accessible (look (clean (trim_space raw))))
    && is_all_accessible clean look paths

-- The file system does not tell letter cases apart.
abbrev pub IsCaseBlind : (Text → Look) → Type 0
IsCaseBlind look =
    (p q : Text)
    → text_eq (to_lower p) (to_lower q) ≡ true
    → is_accessible (look p) ≡ is_accessible (look q)

module _ (look : Text → Look) where
  unfoldable all_look : List Text → Bool
  all_look [] = true
  all_look (path ∷ paths) = is_accessible (look path) && all_look paths

  probe_paths-all_look :
      (cancelled : ℕ → Option Text)
      → ((n : ℕ) → cancelled n ≡ none)
      → (n : ℕ) (paths : List Text)
      → is_healthy (probe_paths look cancelled n paths) ≡ all_look paths
  unfolding probe_paths all_look
  probe_paths-all_look cancelled live n [] = refl
  probe_paths-all_look cancelled live n (path ∷ paths) =
      ground (arith, live n, probe_paths-all_look cancelled live (suc n) paths)

  -- The paths of a lower-case spelling that was seen are accessible.
  SeenAccessible : List Text → Type 0
  SeenAccessible seen =
      (p : Text) → is_seen (to_lower p) seen ≡ true → is_accessible (look p) ≡ true

  SeenAccessible-more :
      (case : IsCaseBlind look) (seen : List Text) (path : Text)
      → SeenAccessible seen
      → is_accessible (look path) ≡ true
      → SeenAccessible (to_lower path ∷ seen)
  unfolding SeenAccessible
  SeenAccessible-more case seen path known ok p h = ground (arith, ok, h, known p, case path p)

  known_at :
      (seen : List Text) (path : Text)
      → SeenAccessible seen
      → is_seen (to_lower path) seen ≡ true
      → is_accessible (look path) ≡ true
  unfolding SeenAccessible
  known_at seen path known h = known path h

  none_seen : SeenAccessible []
  unfolding SeenAccessible
  none_seen p h = ground (arith, h)

  module _ (clean : Text → Text) (case : IsCaseBlind look) where
    clean_paths-accessible :
        (seen paths : List Text)
        → SeenAccessible seen
        → all_look (clean_paths_onto clean seen paths) ≡ is_all_accessible clean look paths
    unfolding clean_paths_onto is_all_accessible all_look
    clean_paths-accessible seen [] known = refl
    clean_paths-accessible seen (raw ∷ paths) known =
        let path = clean (trim_space raw) in
        elim (Bool-cases (is_accessible (look path))) [
          | inl ok ↦ ground (
            arith,
            ok,
            clean_paths-accessible seen paths known,
            clean_paths-accessible (to_lower path ∷ seen) paths
                (SeenAccessible-more case seen path known ok),
          )
          | inr bad ↦
              ground (arith, bad, known_at seen path known, clean_paths-accessible seen paths known)
        ]

    -- On a file system that does not tell letter cases apart, and with a context that lives, the probe is
    -- healthy just if each configured path that is not blank is accessible: the paths that it leaves
    -- out, as repetitions, hide no failure.
    pub new_path_probe-accessible :
        (cancelled : ℕ → Option Text) (paths : List Text)
        → ((n : ℕ) → cancelled n ≡ none)
        → is_healthy (new_path_probe clean look cancelled paths)
          ≡ is_all_accessible clean look paths
    unfolding new_path_probe unique_clean_paths
    new_path_probe-accessible cancelled paths live =
        probe_paths-all_look cancelled live 0 (clean_paths_onto clean [] paths)
        ∙ clean_paths-accessible [] paths none_seen
