-- ===== src/Update/Version.antt =====
-- Versions (internal/update/version.go): ParseVersion and CompareVersions. `is_other_digit` says
-- which characters beyond ASCII `unicode.IsDigit` takes for digits; `strconv.Atoi` refuses them.
use lightroom_sync.Common.{
  ℕ, ◌+◌, ◌*◌, ◌-◌, Bool, ◌&&◌, ◌||◌, Option, none, some, List, [], ◌∷◌, ltb, leb, ◌==◌,
  if◌then◌else◌,
}
use lightroom_sync.Common.Int64.{two63}
use lightroom_sync.Common.Text.{Text, lit, is_empty, trim_space, split}
use lightroom_sync.Sync.Archive.{trim_prefix}

-- `[4]int`, of numbers that are not negative.
pub record Version : Type 0 where
  pub major : ℕ
  pub minor : ℕ
  pub patch : ℕ
  pub build : ℕ

-- The text before the first `sep`.
unfoldable pub cut_at : ℕ → Text → Text
cut_at sep [] = []
cut_at sep (c ∷ s) = let rest = cut_at sep s in if c == sep then [] else c ∷ rest

abbrev pub is_ascii_digit : ℕ → Bool
is_ascii_digit c = leb b'0' c && leb c b'9'

-- `strconv.Atoi` of a text of digits; `acc` is the value of those read.
unfoldable pub atoi_from : ℕ → Text → Option ℕ
atoi_from acc [] = if ltb acc two63 then some acc else none
atoi_from acc (c ∷ s) =
    let next = atoi_from (acc * 10 + (c - b'0')) s in if is_ascii_digit c then next else none

-- Up to four segments; the missing ones are zero.
abbrev pub version_of : List ℕ → Option Version
version_of [] = none
version_of (a ∷ []) = some (record { major = a; minor = 0; patch = 0; build = 0 })
version_of (a ∷ b ∷ []) = some (record { major = a; minor = b; patch = 0; build = 0 })
version_of (a ∷ b ∷ c ∷ []) = some (record { major = a; minor = b; patch = c; build = 0 })
version_of (a ∷ b ∷ c ∷ d ∷ []) = some (record { major = a; minor = b; patch = c; build = d })
version_of (_ ∷ _ ∷ _ ∷ _ ∷ _ ∷ _) = none

pub data Sign : Type 0 where
  less : Sign
  equal : Sign
  greater : Sign

abbrev pub sign : ℕ → ℕ → Sign → Sign
sign a b rest = if ltb a b then less else if ltb b a then greater else rest

-- The loop over the four segments.
unfoldable pub compare_segments : Version → Version → Sign
compare_segments a b =
    sign a.major b.major (sign a.minor b.minor (sign a.patch b.patch (sign a.build b.build equal)))

-- The first version's error comes first; `none` is an error.
abbrev pub compare_parsed : Option Version → Option Version → Option Sign
compare_parsed none b = none
compare_parsed (some a) none = none
compare_parsed (some a) (some b) = some (compare_segments a b)

module _ (is_other_digit : ℕ → Bool) where
  unfoldable pub leading_digits : Text → Text
  leading_digits [] = []
  leading_digits (c ∷ s) =
      let rest = leading_digits s in if is_ascii_digit c || is_other_digit c then c ∷ rest else []

  -- A segment: one without digits at its start is an error.
  unfoldable pub parse_segment : Text → Option ℕ
  parse_segment part =
      let token = leading_digits (trim_space part) in
      if is_empty token then none else atoi_from 0 token

  unfoldable pub parse_segments : List Text → Option (List ℕ)
  parse_segments [] = some []
  parse_segments (p ∷ ps) = elim (parse_segment p) [
    | none ↦ none
    | some n ↦ elim (parse_segments ps) [ none ↦ none | some ns ↦ some (n ∷ ns) ]
  ]

  unfoldable pub parse_version : Text → Option Version
  parse_version raw =
      let trimmed = trim_space raw in
      let bare = trim_prefix (trim_prefix trimmed (lit "v")) (lit "V") in
      let parts = split b'.' (cut_at b'+' (cut_at b'-' bare)) in
      let parsed : Option Version = elim (parse_segments parts) [
        | none ↦ none
        | some ns ↦ version_of ns
      ] in
      if is_empty trimmed then none else parsed

  unfoldable pub compare_versions : Text → Text → Option Sign
  compare_versions a b = compare_parsed (parse_version a) (parse_version b)
