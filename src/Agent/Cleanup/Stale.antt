-- ===== src/Agent/Cleanup/Stale.antt =====
-- Which downloaded updates the agent's cleanup removes.
use mathlib.Core.List.{reverse_aux}
use lightroom_sync.Common.{
  ℕ, ◌≡◌, refl, ◌∙◌, Bool, true, false, ◌&&◌, ◌||◌, not, Option, some, List, [], ◌∷◌, ◌++◌, reverse,
  arith, Bool-cases, inl, inr,
}
use lightroom_sync.Common.Text.{
  Text, lit, text_eq, text_eq_iff, text_eq_refl, is_space, trim_space, to_lower, has_prefix,
  lower_rune,
}
use lightroom_sync.Common.Trim.{starts_solid, trim_space-solid}
use lightroom_sync.Update.Version.{is_ascii_digit, compare_versions}
use lightroom_sync.Update.Checker.{has_suffix}
use lightroom_sync.Agent.Requests.{default_update_download_dir}
use lightroom_sync.Agent.Cleanup.{
  after_app, last_number, number_of, is_installer, extracted_downloaded_update_version, Entry,
  entries, is_at_most, without, names_of, is_stale, clean, cleanup_downloaded_updates,
}
use lightroom_sync.Agent.Cleanup.Numbers.{
  is_number, is_number-all_digits, all_digits, IsApart, version_text, last_number-version_text,
}

no_other : (b : Bool) → (b && false) ≡ false
no_other true = refl
no_other false = refl

abbrev pub is_in : Text → List Text → Bool
is_in t [] = false
is_in t (n ∷ ns) = text_eq n t || is_in t ns

without-is_in :
    (name t : Text) (ns : List Text)
    → is_in t (without name ns) ≡ (is_in t ns && not (text_eq name t))
unfolding without
without-is_in name t [] = refl
without-is_in name t (n ∷ ns) =
    ground (arith, without-is_in name t ns, text_eq_iff n name, text_eq_iff n t, text_eq_iff name t)

-- A text that ends in an installer's letter does not end in that of a part.
other_letter :
    (r : Text)
    → (has_prefix r (reverse (lit ".exe")) || has_prefix r (reverse (lit ".msi"))) ≡ true
    → has_prefix r (reverse (lit ".part")) ≡ false
unfolding has_prefix lit
other_letter [] h = refl
other_letter (c ∷ r) h = ground (arith, h)

installer-not_part :
    (s : Text) → is_installer s ≡ true → has_suffix (to_lower s) (lit ".part") ≡ false
unfolding is_installer
installer-not_part s h = other_letter (reverse (to_lower s)) h

found_app : (s : Text) → after_app (lit "LightroomSync" ++ s) ≡ some s
unfolding after_app to_lower lower_rune has_prefix lit
found_app s = refl

abbrev all_solid : Text → Bool
all_solid [] = true
all_solid (c ∷ s) = not (is_space c) && all_solid s

all_solid-append :
    (s t : Text) → all_solid s ≡ true → all_solid t ≡ true → all_solid (s ++ t) ≡ true
all_solid-append [] t h k = k
all_solid-append (c ∷ s) t h k = ground (arith, all_solid-append s t, h, k)

all_solid-starts_solid : (s : Text) → all_solid s ≡ true → starts_solid s ≡ true
all_solid-starts_solid [] h = refl
all_solid-starts_solid (c ∷ s) h = ground (arith, h)

all_solid-reverse :
    (s r : Text)
    → all_solid s ≡ true
    → starts_solid r ≡ true
    → starts_solid (reverse_aux s r) ≡ true
all_solid-reverse [] r h k = k
all_solid-reverse (c ∷ s) r h k =
    all_solid-reverse s (c ∷ r) (ground (arith, h)) (ground (arith, h))

digit-solid : (c : ℕ) → is_ascii_digit c ≡ true → is_space c ≡ false
unfolding is_space
digit-solid c h = ground (arith, h)

digits-all_solid : (s : Text) → is_number s ≡ true → all_solid s ≡ true
digits-all_solid s h = all s (is_number-all_digits s h)
  where
    all : (s : Text) → all_digits s ≡ true → all_solid s ≡ true
    all [] h = refl
    all (c ∷ s) h = ground (arith, all s, digit-solid c, h)

dot-all_solid : (s : Text) → all_solid s ≡ true → all_solid (b'.' ∷ s) ≡ true
unfolding is_space
dot-all_solid s h = h

number_of_found : (rest v : Text) → last_number rest ≡ some v → number_of (some rest) ≡ trim_space v
number_of_found rest v h = rw (h, number_of) refl

version_text-all_solid :
    (c : ℕ) (y z : Text)
    → is_ascii_digit c ≡ true
    → is_number y ≡ true
    → is_number z ≡ true
    → all_solid (version_text c y z) ≡ true
version_text-all_solid c y z one ny nz =
    let tail =
      all_solid-append y (b'.' ∷ z) (digits-all_solid y ny)
        (dot-all_solid z (digits-all_solid z nz)) in
    ground (arith, digit-solid c one, dot-all_solid (y ++ (b'.' ∷ z)) tail)

abbrev pub file_name : Text → ℕ → Text → Text → Text → Text
file_name pre c y z post = lit "LightroomSync" ++ (pre ++ (version_text c y z ++ post))

-- The version that is read from a file of the application.
read_version :
    (c : ℕ) (pre y z post : Text)
    → is_ascii_digit c ≡ true
    → is_number y ≡ true
    → is_number z ≡ true
    → IsApart post
    → trim_space (file_name pre c y z post) ≡ file_name pre c y z post
    → is_installer (file_name pre c y z post) ≡ true
    → extracted_downloaded_update_version (file_name pre c y z post) ≡ version_text c y z
unfolding extracted_downloaded_update_version
read_version c pre y z post one ny nz apart trimmed installer =
    let v = version_text c y z in
    let rest = pre ++ (v ++ post) in
    let solid = version_text-all_solid c y z one ny nz in
    rw trimmed (
      rw installer (
        rw (found_app rest) (
          number_of_found rest v (last_number-version_text c y z post one ny nz apart pre)
          ∙ (trim_space-solid v (all_solid-starts_solid v solid)
              (all_solid-reverse v [] solid refl)))))

abbrev pub downloaded : Text → Option ℕ → Entry
downloaded name age = record { name = name; is_dir = false; age = age; remove_fails = false }

module _ (is_other_digit : ℕ → Bool) (current_version : Text) where
  -- An entry makes the loop remove a name.
  abbrev pub removes : Text → Entry → Bool
  removes t e =
      is_stale is_other_digit current_version e
      && not e.remove_fails
      && text_eq (trim_space e.name) t

  abbrev pub any_removes : Text → List Entry → Bool
  any_removes t [] = false
  any_removes t (e ∷ es) = removes t e || any_removes t es

  -- A name is left just if no stale entry has it.
  pub clean-is_in :
      (t : Text) (es : List Entry) (names : List Text)
      → is_in t (clean is_other_digit current_version es names)
        ≡ (is_in t names && not (any_removes t es))
  unfolding clean
  clean-is_in t [] names = ground arith
  clean-is_in t (e ∷ es) names =
      let name = trim_space e.name in
      elim (Bool-cases (is_stale is_other_digit current_version e && not e.remove_fails)) [
        | inl h ↦
            rw h (
              clean-is_in t es (without name names) ∙ ground (arith, h, without-is_in name t names))
        | inr h ↦ rw h (clean-is_in t es names ∙ ground (arith, h))
      ]

  any_removes-middle :
      (t : Text) (e : Entry) (before behind : List Entry)
      → removes t e ≡ true
      → any_removes t (before ++ (e ∷ behind)) ≡ true
  any_removes-middle t e [] behind h = ground (arith, h)
  any_removes-middle t e (b ∷ before) behind h =
      ground (arith, any_removes-middle t e before behind h)

  clean_folder :
      (join : List Text → Text) (local_app_data dir : Text) (es : List Entry)
      → default_update_download_dir join local_app_data ≡ some dir
      → (cleanup_downloaded_updates is_other_digit current_version join local_app_data
          (entries es)).0
        ≡ clean is_other_digit current_version es (names_of es)
  unfolding cleanup_downloaded_updates
  clean_folder join local_app_data dir es found = rw (found, cleanup_downloaded_updates) refl

  removes-installer :
      (c : ℕ) (pre y z post : Text) (age : Option ℕ)
      → is_ascii_digit c ≡ true
      → is_number y ≡ true
      → is_number z ≡ true
      → IsApart post
      → trim_space (file_name pre c y z post) ≡ file_name pre c y z post
      → is_installer (file_name pre c y z post) ≡ true
      → is_at_most (compare_versions is_other_digit (version_text c y z) current_version) ≡ true
      → removes (file_name pre c y z post) (downloaded (file_name pre c y z post) age) ≡ true
  unfolding is_stale
  removes-installer c pre y z post age one ny nz apart trimmed installer old =
      let t = file_name pre c y z post in
      let version = read_version c pre y z post one ny nz apart trimmed installer in
      rw trimmed (rw (installer-not_part t installer) (rw version (rw old (text_eq_refl t))))

  -- A downloaded installer of any version is removed if the last three numbers in its name, the first of
  -- them without all its digits but the last, are at most the running version: what is in front of them
  -- does not matter. So of a version with four numbers, or with a major number of two digits, the newer
  -- installer is removed as well.
  pub installer_removed :
      (join : List Text → Text) (local_app_data dir : Text) (c : ℕ) (pre y z post : Text)
      (age : Option ℕ) (before behind : List Entry)
      → default_update_download_dir join local_app_data ≡ some dir
      → is_ascii_digit c ≡ true
      → is_number y ≡ true
      → is_number z ≡ true
      → IsApart post
      → trim_space (file_name pre c y z post) ≡ file_name pre c y z post
      → is_installer (file_name pre c y z post) ≡ true
      → is_at_most (compare_versions is_other_digit (version_text c y z) current_version) ≡ true
      → is_in
          (file_name pre c y z post)
          (cleanup_downloaded_updates is_other_digit current_version join local_app_data
            (entries (before ++ (downloaded (file_name pre c y z post) age ∷ behind)))).0
        ≡ false
  installer_removed join local_app_data dir c pre y z post age before behind found one ny nz apart
        trimmed installer old =
      let t = file_name pre c y z post in
      let es = before ++ (downloaded t age ∷ behind) in
      rw (clean_folder join local_app_data dir es found) (
        clean-is_in t es (names_of es)
        ∙ rw
            (any_removes-middle t (downloaded t age) before behind
              (removes-installer c pre y z post age one ny nz apart trimmed installer old))
            (no_other (is_in t (names_of es))))
