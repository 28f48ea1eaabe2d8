-- ===== src/Preset/Watermarks/Template.antt =====
-- The text of watermark templates: watermarkImagePathPattern and the escapes of its paths
-- (internal/sync/preset_sync.go). The pattern is `imagePath\s*=\s*"([^"]+)"`.
use lightroom_sync.Common.{
  ℕ, zero, suc, ◌-◌, Bool, true, false, ◌&&◌, ◌||◌, Option, none, some, List, [], ◌∷◌, ◌++◌, take,
  drop, length, ◌==◌, if◌then◌else◌, ◌>>=◌,
}
use lightroom_sync.Common.Text.{Text, lit, is_empty, has_prefix}

-- `\s`.
abbrev pub is_blank : ℕ → Bool
is_blank c = c == 9 || c == 10 || c == 12 || c == 13 || c == 32

unfoldable pub skip_blanks : Text → Text
skip_blanks [] = []
skip_blanks (c ∷ s) = let rest = skip_blanks s in if is_blank c then rest else c ∷ s

abbrev pub expect : ℕ → Text → Option Text
expect c [] = none
expect c (d ∷ s) = if d == c then some s else none

-- What is in front of the next quote, and what is behind it.
unfoldable pub quoted : Text → Option (Text × Text)
quoted [] = none
quoted (c ∷ s) =
    if c == b'"'
    then some ([], s)
    else elim (quoted s) [ none ↦ none | some (inner, rest) ↦ some (c ∷ inner, rest) ]

-- A match at the start of a text: the path in it, and what is behind it.
unfoldable pub match_image : Text → Option (Text × Text)
unfolding skip_blanks quoted
match_image s0 = do
  s1 ← if has_prefix s0 (lit "imagePath") then some (skip_blanks (drop 9 s0)) else none
  s2 ← expect b'=' s1
  s3 ← expect b'"' (skip_blanks s2)
  (raw, rest) ← quoted s3
  if is_empty raw then none else some (raw, rest)

-- A text cut into the characters that stay, and the matches with their paths.
pub data Segment : Type 0 where
  kept : ℕ → Segment
  image : Text → Text → Segment

-- `skip` characters still belong to the last match.
unfoldable pub segments : ℕ → Text → List Segment
unfolding match_image
segments skip [] = []
segments (suc skip) (c ∷ s) = segments skip s
segments zero (c ∷ s) = elim (match_image (c ∷ s)) [
  | none ↦ kept c ∷ segments 0 s
  | some (raw, rest) ↦
      let n = length s - length rest in image (take (suc n) (c ∷ s)) raw ∷ segments n s
]

-- `strings.ReplaceAll` of a doubled backslash by one, and of one by two.
unfoldable pub halve : Text → Text
halve [] = []
halve (c ∷ []) = c ∷ []
halve (c ∷ d ∷ s) = elim (c == b'\\' && d == b'\\') [
  | true ↦ c ∷ halve s
  | false ↦ c ∷ halve (d ∷ s)
]

unfoldable pub double : Text → Text
double [] = []
double (c ∷ s) = if c == b'\\' then b'\\' ∷ b'\\' ∷ double s else c ∷ double s

abbrev pub image_path : Text → Text
image_path path = lit "imagePath = \"" ++ (path ++ lit "\"")
