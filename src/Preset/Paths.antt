-- ===== src/Preset/Paths.antt =====
-- Which paths take part in preset synchronization, by their text: isTrackedCategory,
-- isWatermarkCategory, toCategorySet, and the filter of scanPresetFiles.
use lightroom_sync.Common.{Bool, false, ◌&&◌, ◌||◌, not, List, [], ◌∷◌, if◌then◌else◌}
use lightroom_sync.Common.Text.{
  Text, lit, text_eq, is_empty, trim_space, to_lower, equal_fold, split, ext,
}

-- `parts[0]` of the path.
abbrev pub first_part : List Text → Text
first_part [] = []
first_part (p ∷ ps) = p

unfoldable pub category_of : Text → Text
category_of path = first_part (split b'/' path)

-- Membership in `toCategorySet(categories)`.
unfoldable pub in_category_set : List Text → Text → Bool
in_category_set [] key = false
in_category_set (raw ∷ categories) key =
    let item = trim_space raw in
    (not (is_empty item) && text_eq (to_lower item) key) || in_category_set categories key

unfoldable pub is_tracked : List Text → Text → Bool
is_tracked categories path =
    let c = category_of path in
    if is_empty c then false else in_category_set categories (to_lower c)

unfoldable pub is_watermark_category : Text → Bool
is_watermark_category path =
    let c = category_of path in if is_empty c then false else equal_fold c (lit "Watermarks")

unfoldable pub is_watermark_template_file : Text → Bool
is_watermark_template_file path =
    let e = to_lower (ext path) in text_eq e (lit ".lrtemplate") || text_eq e (lit ".lrsmv")

-- Whether a copy rewrites the text.
unfoldable pub is_rewritten : Text → Bool
is_rewritten path = is_watermark_category path && is_watermark_template_file path

-- A folder of the path, between the category and the file's name, has the name Logos; so does the
-- category itself, which the walk visits first.
unfoldable pub in_logos : List Text → Bool
in_logos [] = false
in_logos (name ∷ []) = false
in_logos (folder ∷ p ∷ parts) = text_eq folder (lit "Logos") || in_logos (p ∷ parts)

-- The path lies in the folder of a category, spelled as the category is.
unfoldable pub in_category_dir : List Text → Text → Bool
in_category_dir [] c = false
in_category_dir (raw ∷ categories) c =
    let item = trim_space raw in
    (not (is_empty item) && text_eq item c) || in_category_dir categories c

unfoldable pub skips_ext : Bool → Text → Bool
skips_ext skip_json e =
    text_eq e (lit ".tmp") || text_eq e (lit ".lock") || (skip_json && text_eq e (lit ".json"))

-- Whether `scanPresetFiles` reports the path.
unfoldable pub is_scanned : List Text → Bool → Text → Bool
is_scanned categories skip_json path =
    in_category_dir categories (category_of path)
    && not (in_logos (split b'/' path))
    && not (skips_ext skip_json (to_lower (ext path)))
