-- ===== src/Update/Token/Newer.antt =====
-- The order of version tokens: which one CompareVersions puts after another.
use lightroom_sync.Common.{ℕ, ◌≡◌, refl, Bool, true, false, Option, none, some, [], ◌∷◌, arith}
use lightroom_sync.Common.Text.{Text, is_empty, trim_space}
use lightroom_sync.Update.Version.{
  Version, compare_segments, compare_parsed, compare_versions, parse_version,
}
use lightroom_sync.Update.Token.{is_greater, is_newer}

newer_parsed_trans :
    (u v w : Option Version)
    → is_greater (compare_parsed u v) ≡ true
    → is_greater (compare_parsed w v) ≡ false
    → is_greater (compare_parsed w u) ≡ false
unfolding compare_segments
newer_parsed_trans none v w h k = absurd cc
newer_parsed_trans (some a) none w h k = absurd cc
newer_parsed_trans (some a) (some b) none h k = refl
newer_parsed_trans (some a) (some b) (some c) h k = ground (arith, h, k)

newer_parsed_irrefl : (v : Option Version) → is_greater (compare_parsed v v) ≡ false
unfolding compare_segments
newer_parsed_irrefl none = refl
newer_parsed_irrefl (some a) = ground arith

-- `w` is not newer than `v`, and it is no version where `v` is none.
abbrev pub AtMost : (ℕ → Bool) → Text → Text → Type 0
AtMost is_other_digit w v =
    (is_newer is_other_digit w v ≡ false) × (is_empty v ≡ true → is_empty w ≡ true)

module _ (is_other_digit : ℕ → Bool) where
  newer_trans :
      (u v w : Text)
      → is_newer is_other_digit u v ≡ true
      → is_newer is_other_digit w v ≡ false
      → is_newer is_other_digit w u ≡ false
  unfolding compare_versions
  newer_trans u v w =
      newer_parsed_trans (parse_version is_other_digit u) (parse_version is_other_digit v)
        (parse_version is_other_digit w)

  -- A text without characters is not a version.
  pub newer_empty : (u v : Text) → is_empty u ≡ true → is_newer is_other_digit u v ≡ false
  unfolding compare_versions parse_version trim_space
  newer_empty [] v h = refl
  newer_empty (c ∷ u) v h = absurd cc

  newer_irrefl : (v : Text) → is_newer is_other_digit v v ≡ false
  unfolding compare_versions
  newer_irrefl v = newer_parsed_irrefl (parse_version is_other_digit v)

  pub AtMost-refl : (v : Text) → AtMost is_other_digit v v
  AtMost-refl v = (newer_irrefl v, λ e. e)

  -- A newer version, or the first one that is not empty, is above all that was below the old one.
  pub AtMost-newer :
      (w v u : Text)
      → AtMost is_other_digit w v
      → is_newer is_other_digit u v ≡ true
      → is_empty u ≡ false
      → AtMost is_other_digit w u
  AtMost-newer w v u h k e = (newer_trans u v w k h.0, λ t. cc)

  pub AtMost-first :
      (w v u : Text)
      → AtMost is_other_digit w v
      → is_empty v ≡ true
      → is_empty u ≡ false
      → AtMost is_other_digit w u
  AtMost-first w v u h k e = (newer_empty w u (h.1 k), λ t. cc)
