-- ===== src/Agent/Cleanup.antt =====
-- The removal of downloaded updates when the agent starts (cleanupDownloadedUpdates and
-- extractedDownloadedUpdateVersion in cmd/agent/main.go). Of the pattern
-- `(?i)lightroomsync.*v?(\d+(?:\.\d+){2,3}).*\.(exe|msi)$` letters are folded in the ASCII range, and
-- a name has no line breaks.
pub mod Numbers
pub mod Stale
use lightroom_sync.Common.{
  ℕ, Bool, true, false, ◌&&◌, ◌||◌, not, Option, none, some, List, [], ◌∷◌, leb, take, drop, length,
  if◌then◌else◌,
}
use lightroom_sync.Common.Text.{Text, lit, text_eq, is_empty, trim_space, to_lower, has_prefix}
use lightroom_sync.Update.Version.{Sign, less, equal, greater, compare_versions}
use lightroom_sync.Update.Token.{match_number}
use lightroom_sync.Update.Checker.{has_suffix}
use lightroom_sync.Agent.Requests.{default_update_download_dir}

-- What is behind the first `lightroomsync`.
unfoldable pub after_app : Text → Option Text
after_app [] = none
after_app (c ∷ s) =
    let rest = after_app s in
    if has_prefix (to_lower (c ∷ s)) (lit "lightroomsync") then some (drop 13 (c ∷ s)) else rest

-- The number at a place of a text.
abbrev pub number_at : Text → Option Text
number_at s = elim (match_number s) [ none ↦ none | some n ↦ some (take n s) ]

-- The number that starts last: the `.*` before it takes as much as it can, the `v?` then nothing.
unfoldable pub last_number : Text → Option Text
last_number [] = none
last_number (c ∷ s) =
    let here = number_at (c ∷ s) in elim (last_number s) [ none ↦ here | some t ↦ some t ]

unfoldable pub is_installer : Text → Bool
is_installer s = let low = to_lower s in has_suffix low (lit ".exe") || has_suffix low (lit ".msi")

abbrev pub number_of : Option Text → Text
number_of none = []
number_of (some rest) = elim (last_number rest) [ none ↦ [] | some v ↦ trim_space v ]

-- The suffix has letters, so it is behind the number wherever the number stands.
unfoldable pub extracted_downloaded_update_version : Text → Text
extracted_downloaded_update_version raw =
    let name = trim_space raw in if is_installer name then number_of (after_app name) else []

-- A file of the folder; `age` is the time since its last change, none where `Info` fails.
pub record Entry : Type 0 where
  pub name : Text
  pub is_dir : Bool
  pub age : Option ℕ  -- ns
  pub remove_fails : Bool

pub data Folder : Type 0 where
  missing : Folder
  unreadable : Folder
  entries : List Entry → Folder

abbrev pub is_at_most : Option Sign → Bool
is_at_most none = false
is_at_most (some greater) = false
is_at_most (some _) = true

abbrev is_old : Option ℕ → Bool
is_old none = false
is_old (some age) = leb 1_800_000_000_000 age

-- The folder without a file.
unfoldable pub without : Text → List Text → List Text
without name [] = []
without name (n ∷ ns) = let rest = without name ns in if text_eq n name then rest else n ∷ rest

unfoldable pub names_of : List Entry → List Text
names_of [] = []
names_of (e ∷ es) = e.name ∷ names_of es

module _ (is_other_digit : ℕ → Bool) (current_version : Text) where
  -- Whether the loop calls `os.Remove` for an entry.
  unfoldable pub is_stale : Entry → Bool
  is_stale e =
      let name = trim_space e.name in
      let version = extracted_downloaded_update_version name in
      if e.is_dir
      then false
      else if has_suffix (to_lower name) (lit ".part")
      then is_old e.age
      else if is_empty version
      then false
      else is_at_most (compare_versions is_other_digit version current_version)

  -- The loop, on the names in the folder.
  unfoldable pub clean : List Entry → List Text → List Text
  unfolding is_stale without
  clean [] names = names
  clean (e ∷ es) names =
      let left =
        if is_stale e && not e.remove_fails then without (trim_space e.name) names else names in
      clean es left

  -- What is in the folder then, and whether an error is returned.
  unfoldable pub cleanup_downloaded_updates : (List Text → Text) → Text → Folder → List Text × Bool
  unfolding clean names_of default_update_download_dir
  cleanup_downloaded_updates join local_app_data folder =
      let done : List Text × Bool = elim folder [
        | missing ↦ ([], false)
        | unreadable ↦ ([], true)
        | entries es ↦ (clean es (names_of es), false)
      ] in
      elim (default_update_download_dir join local_app_data) [
        | none ↦ (elim folder [ missing ↦ [] | unreadable ↦ [] | entries es ↦ names_of es ], true)
        | some dir ↦ done
      ]
