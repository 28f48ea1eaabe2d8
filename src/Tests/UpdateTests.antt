-- ===== src/Tests/UpdateTests.antt =====
-- Runs of the update checker.
use Prim.Native.String.{String}
use lightroom_sync.Common.{◌≡◌, refl, true, false, none, some, List, [], ◌∷◌, ◌⊎◌, All}
use lightroom_sync.Common.Text.{lit, to_lower, trim_space, contains_text, split, has_prefix}
use lightroom_sync.Sync.Archive.{trim_prefix}
use lightroom_sync.Update.Version.{
  compare_versions, parse_version, parse_segments, parse_segment, cut_at, leading_digits, atoi_from,
  compare_segments,
}
use lightroom_sync.Update.Token.{find_tokens, extract_version_token}
use lightroom_sync.Update.Checker.{
  ReleaseApiResponse, resolve_release_version, select_preferred_asset, normalize_app_key,
  release_matches_app, select_release_for_app,
}
use lightroom_sync.Update.Checker.Choice.{IsNewest, select_release_for_app-IsNewest}
use lightroom_sync.Update.Download.{Transfer, TargetFiles}

abbrev tagged : String → ReleaseApiResponse
tagged tag = record {
  tag_name = lit tag;
  name = [];
  body = [];
  html_url = [];
  published_at = [];
  assets = record { name = lit "setup.exe"; browser_download_url = []; size = 7 } ∷ [];
}

abbrev others : List ReleaseApiResponse
others = tagged "LightroomSync-v2.0.9.0" ∷ tagged "lightroom_sync-v2.0.10.0" ∷ []

tokens_run : find_tokens 0 (lit "app-v1.2 v2.0.10.4.5") ≡ lit "v2.0.10.4" ∷ []
unfolding find_tokens lit
tokens_run = refl

select_run :
    select_release_for_app (λ _. false) (tagged "toolbox-v9.0.0" ∷ others) (lit "LightroomSync")
    ≡ some (tagged "lightroom_sync-v2.0.10.0")
unfolding select_release_for_app lit normalize_app_key release_matches_app to_lower trim_space
    contains_text resolve_release_version extract_version_token select_preferred_asset
    compare_versions parse_version parse_segments split cut_at trim_prefix parse_segment
    leading_digits atoi_from compare_segments has_prefix
select_run = refl

select_release_for_app-IsNewest_example :
    (s : ReleaseApiResponse) × ((select_release_for_app
          (λ _. false)
          (tagged "toolbox-v9.0.0" ∷ others)
          (lit "LightroomSync")
        ≡ some s)
      × (((s ≡ tagged "toolbox-v9.0.0")
            × All
                (λ t. release_matches_app t (normalize_app_key (lit "LightroomSync")) ≡ false)
                (tagged "toolbox-v9.0.0" ∷ others))
          ⊎ IsNewest (λ _. false) (lit "LightroomSync") (tagged "toolbox-v9.0.0" ∷ others) s))
select_release_for_app-IsNewest_example =
    select_release_for_app-IsNewest (λ _. false) (lit "LightroomSync") (tagged "toolbox-v9.0.0")
      others

abbrev in_two_reads : Transfer
in_two_reads = record {
  status = some 200;
  total = 4;
  chunks = lit "ab" ∷ lit "cd" ∷ [];
  mkdir_fails = false;
  create_fails = false;
  copy_fails = false;
  close_fails = false;
  rename_fails = true;
}

abbrev old_setup : TargetFiles
old_setup = record { target = some (lit "old"); part = none }
