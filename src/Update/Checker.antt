-- ===== src/Update/Checker.antt =====
-- The update checker (internal/update/checker.go): the choice of a release and of its asset, the
-- version of a release, and CheckLatest behind the HTTP request. `is_other_digit` is that of the
-- versions.
pub mod Choice
use lightroom_sync.Common.{
  ℕ, zero, suc, ◌+◌, Bool, true, false, ◌&&◌, ◌||◌, not, Option, none, some, List, [], ◌∷◌, ◌++◌,
  map, reverse, length, ◌==◌, if◌then◌else◌,
}
use lightroom_sync.Common.Int64.{add64, lt64}
use lightroom_sync.Common.Text.{
  Text, lit, is_empty, has_prefix, contains_text, trim_space, to_lower,
}
use lightroom_sync.Update.Version.{less, compare_versions}
use lightroom_sync.Update.Token.{is_newer, extract_version_token}

-- `size` is an int64.
pub record ReleaseItem : Type 0 where
  pub name : Text
  pub browser_download_url : Text
  pub size : ℕ

pub record ReleaseApiResponse : Type 0 where
  pub tag_name : Text
  pub name : Text
  pub body : Text
  pub html_url : Text
  pub published_at : Text
  pub assets : List ReleaseItem

pub record LatestRelease : Type 0 where
  pub current_version : Text
  pub latest_version : Text
  pub has_update : Bool
  pub release_notes : Text
  pub release_url : Text
  pub published_at : Text
  pub asset_name : Text
  pub asset_url : Text
  pub checked_at : Text

abbrev pub empty_item : ReleaseItem
empty_item = record { name = []; browser_download_url = []; size = 0 }

-- What the replacer of `normalizeAppKey` drops.
abbrev pub is_mark : ℕ → Bool
is_mark c = c == b' ' || c == b'-' || c == b'_' || c == b'.'

unfoldable pub without_marks : Text → Text
without_marks [] = []
without_marks (c ∷ s) = let rest = without_marks s in if is_mark c then rest else c ∷ rest

unfoldable pub normalize_app_key : Text → Text
unfolding without_marks
normalize_app_key raw = without_marks (to_lower (trim_space raw))

abbrev pub has_suffix : Text → Text → Bool
has_suffix s p = has_prefix (reverse s) (reverse p)

unfoldable pub any_asset : List ReleaseItem → Text → Bool
any_asset [] key = false
any_asset (a ∷ assets) key = contains_text (normalize_app_key a.name) key || any_asset assets key

unfoldable pub release_matches_app : ReleaseApiResponse → Text → Bool
unfolding any_asset
release_matches_app r key =
    is_empty key
    || contains_text (normalize_app_key r.tag_name) key
    || contains_text (normalize_app_key r.name) key
    || any_asset r.assets key

-- The points for what a name ends with, and for what it contains.
abbrev pub kind_score : Text → ℕ
kind_score name =
    if has_suffix name (lit ".exe")
    then 40
    else if has_suffix name (lit ".msi")
    then 35
    else if has_suffix name (lit ".zip")
    then 20
    else 0

abbrev pub app_score : Text → Text → ℕ
app_score name key =
    if not (is_empty key)
    then (if contains_text (normalize_app_key name) key then 60 else 0)
    else if contains_text name (lit "lightroomsync") || contains_text name (lit "lightroom-sync")
    then 30
    else 0

-- The pattern of -5.
abbrev minus_five64 : ℕ
minus_five64 = 18446744073709551611

-- An int, which may be negative.
unfoldable pub score_asset : ReleaseItem → Text → ℕ
score_asset a key =
    let name = to_lower (trim_space a.name) in
    let setup : Bool = contains_text name (lit "setup") || contains_text name (lit "installer") in
    let windows : Bool =
      contains_text name (lit "windows")
      || contains_text name (lit "win64")
      || contains_text name (lit "x64") in
    let gained =
      kind_score name
      + app_score name key
      + (if setup then 20 else 0)
      + (if windows then 5 else 0) in
    add64 (if lt64 0 a.size then 1 else 0)
      (add64 gained (if contains_text name (lit "portable") then minus_five64 else 0))

-- The loop over the other assets.
unfoldable pub best_asset : ReleaseItem → List ReleaseItem → Text → ReleaseItem
best_asset best [] key = best
best_asset best (a ∷ assets) key =
    best_asset (if lt64 (score_asset best key) (score_asset a key) then a else best) assets key

unfoldable pub select_preferred_asset : List ReleaseItem → Text → ReleaseItem
unfolding best_asset
select_preferred_asset [] app_name = empty_item
select_preferred_asset (a ∷ assets) app_name = best_asset a assets (normalize_app_key app_name)

module _ (is_other_digit : ℕ → Bool) where
  -- The names in which a version is looked for.
  abbrev pub candidates : ReleaseApiResponse → ReleaseItem → List Text
  candidates r selected = r.tag_name ∷ r.name ∷ selected.name ∷ map (λ a. a.name) r.assets

  -- One round of the loop over the candidates.
  unfoldable pub better_version : Text → Text → Text
  better_version best candidate =
      let version = extract_version_token is_other_digit candidate in
      if is_empty version
      then best
      else if is_empty best
      then version
      else if is_newer is_other_digit version best
      then version
      else best

  unfoldable pub best_version : Text → List Text → Text
  unfolding better_version
  best_version best [] = best
  best_version best (c ∷ cs) = best_version (better_version best c) cs

  unfoldable pub resolve_release_version : ReleaseApiResponse → ReleaseItem → Text
  unfolding best_version
  resolve_release_version r selected = best_version [] (candidates r selected)

  -- `best`, `bestVersion` and `bestVersionParsed`.
  pub record Best : Type 0 where
    pub release : ReleaseApiResponse
    pub version : Text
    pub is_parsed : Bool

  abbrev pub release_version : Text → ReleaseApiResponse → Text
  release_version app_name r = resolve_release_version r (select_preferred_asset r.assets app_name)

  -- The switch of the loop over the releases.
  unfoldable pub better_release : Best → ReleaseApiResponse → Text → Best
  better_release b r version =
      let parsed : Bool = not (is_empty version) in
      if parsed && not b.is_parsed
      then record { release = r; version = version; is_parsed = true }
      else if parsed && b.is_parsed && is_newer is_other_digit version b.version
      then record b { release = r; version = version }
      else b

  -- One round of the loop; `none` is a `best` that is not set.
  unfoldable pub consider : Text → Option Best → ReleaseApiResponse → Option Best
  unfolding better_release
  consider app_name best r =
      let version = release_version app_name r in
      if release_matches_app r (normalize_app_key app_name)
      then elim best [
        | none ↦
            some (record { release = r; version = version; is_parsed = not (is_empty version) })
        | some b ↦ some (better_release b r version)
      ]
      else best

  unfoldable pub consider_all : Text → Option Best → List ReleaseApiResponse → Option Best
  unfolding consider
  consider_all app_name best [] = best
  consider_all app_name best (r ∷ rs) = consider_all app_name (consider app_name best r) rs

  -- `none` is the error.
  unfoldable pub select_release_for_app : List ReleaseApiResponse → Text → Option ReleaseApiResponse
  unfolding consider_all
  select_release_for_app [] app_name = none
  select_release_for_app (r ∷ rs) app_name = elim (consider_all app_name none (r ∷ rs)) [
    | some b ↦ some b.release
    | none ↦ some r
  ]

  abbrev first_filled : Text → Text → Text
  first_filled s t = if is_empty s then t else s

  -- What `CheckLatest` makes of the selected release; `now` is the formatted time.
  unfoldable pub release_info : Text → Text → Text → ReleaseApiResponse → LatestRelease
  release_info app_name current now parsed =
      let selected = select_preferred_asset parsed.assets app_name in
      let latest =
        first_filled (resolve_release_version parsed selected)
          (first_filled (trim_space parsed.tag_name) (trim_space parsed.name)) in
      let version = trim_space current in
      let is_before : Bool = elim (compare_versions is_other_digit version latest) [
        | some less ↦ true
        | _ ↦ false
      ] in
      record {
        current_version = version;
        latest_version = latest;
        has_update = not (is_empty version) && not (is_empty latest) && is_before;
        release_notes = trim_space parsed.body;
        release_url = trim_space parsed.html_url;
        published_at = trim_space parsed.published_at;
        asset_name = trim_space selected.name;
        asset_url = trim_space selected.browser_download_url;
        checked_at = now;
      }

  -- `CheckLatest` from the decoded response on; `none` is an error, before it or here.
  unfoldable pub check_latest :
      Option (List ReleaseApiResponse) → Text → Text → Text → Option LatestRelease
  unfolding select_release_for_app release_info
  check_latest none app_name current now = none
  check_latest (some rs) app_name current now = elim (select_release_for_app rs app_name) [
    | none ↦ none
    | some parsed ↦ some (release_info app_name current now parsed)
  ]

-- The JSON decoders of a list and of one release are those of encoding/json.
unfoldable pub parse_release_responses :
    (Text → Option (List ReleaseApiResponse))
    → (Text → Option ReleaseApiResponse)
    → Text
    → Option (List ReleaseApiResponse)
parse_release_responses decode_list decode_single body =
    let trimmed = trim_space body in
    if is_empty trimmed
    then none
    else if has_prefix trimmed (lit "[")
    then decode_list trimmed
    else elim (decode_single trimmed) [ none ↦ none | some single ↦ some (single ∷ []) ]
