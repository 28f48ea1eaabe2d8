-- ===== src/Update/Token.antt =====
-- Version tokens in names (extractVersionToken and its pattern in internal/update/checker.go):
-- the matches of `(?i)v?\d+(?:\.\d+){2,3}` from left to right, and the newest of them.
pub mod Newer
use lightroom_sync.Common.{
  ℕ, zero, suc, ◌+◌, Bool, true, false, ◌&&◌, ◌||◌, Option, none, some, List, [], ◌∷◌, ltb, leb,
  ◌==◌, take, drop, if◌then◌else◌,
}
use lightroom_sync.Common.Text.{Text, lit, is_empty, trim_space}
use lightroom_sync.Update.Version.{is_ascii_digit, Sign, less, equal, greater, compare_versions}

-- How many digits a text starts with.
unfoldable pub count_digits : Text → ℕ
count_digits [] = 0
count_digits (c ∷ s) = let rest = count_digits s in if is_ascii_digit c then suc rest else 0

-- Up to `left` groups of a dot and digits: how many there are, and how long they are.
unfoldable pub match_groups : ℕ → Text → ℕ × ℕ
unfolding count_digits
match_groups zero s = (0, 0)
match_groups (suc left) [] = (0, 0)
match_groups (suc left) (c ∷ s) =
    let digits = count_digits s in
    let rest = match_groups left (drop digits s) in
    if c == b'.' && ltb 0 digits then (suc rest.0, suc digits + rest.1) else (0, 0)

-- A match without its `v`: its length.
unfoldable pub match_number : Text → Option ℕ
unfolding match_groups count_digits
match_number s =
    let digits = count_digits s in
    let groups = match_groups 3 (drop digits s) in
    if ltb 0 digits && leb 2 groups.0 then some (digits + groups.1) else none

-- The length of a match at the start of a text.
unfoldable pub match_token : Text → Option ℕ
unfolding match_number
match_token [] = none
match_token (c ∷ s) =
    if c == b'v' || c == b'V'
    then elim (match_number s) [ none ↦ none | some n ↦ some (suc n) ]
    else match_number (c ∷ s)

-- `FindAllString`; `skip` characters still belong to the last match.
unfoldable pub find_tokens : ℕ → Text → List Text
unfolding match_token
find_tokens skip [] = []
find_tokens (suc skip) (c ∷ s) = find_tokens skip s
find_tokens zero (c ∷ s) = elim (match_token (c ∷ s)) [
  | none ↦ find_tokens 0 s
  | some zero ↦ find_tokens 0 s
  | some (suc n) ↦ take (suc n) (c ∷ s) ∷ find_tokens n s
]

abbrev pub is_greater : Option Sign → Bool
is_greater none = false
is_greater (some less) = false
is_greater (some equal) = false
is_greater (some greater) = true

module _ (is_other_digit : ℕ → Bool) where
  -- `err == nil && cmp > 0`.
  abbrev pub is_newer : Text → Text → Bool
  is_newer a b = is_greater (compare_versions is_other_digit a b)

  unfoldable pub newest_token : Text → List Text → Text
  newest_token best [] = best
  newest_token best (m ∷ ms) =
      let candidate = trim_space m in
      newest_token (if is_newer candidate best then candidate else best) ms

  unfoldable pub extract_version_token : Text → Text
  unfolding find_tokens newest_token
  extract_version_token raw = elim (find_tokens 0 (trim_space raw)) [
    | [] ↦ []
    | m ∷ ms ↦ newest_token (trim_space m) ms
  ]
