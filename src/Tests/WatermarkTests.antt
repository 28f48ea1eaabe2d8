-- ===== src/Tests/WatermarkTests.antt =====
-- Runs of the copies of watermark templates, and the instances of their theorems.
use lightroom_sync.Common.{◌≡◌, refl, true, false, List, [], ◌∷◌, ◌++◌, length}
use lightroom_sync.Common.Text.{
  Text, lit, split, text_eq, to_lower, ext, has_prefix, trim_space, replace_rune,
}
use lightroom_sync.Common.Dict.{Dict, lookup, insert}
use lightroom_sync.Preset.{File, copied}
use lightroom_sync.Preset.Paths.{is_watermark_template_file}
use lightroom_sync.Preset.Watermarks.{Library, Faults, Logos, pull_watermark, push_watermark}
use lightroom_sync.Preset.Watermarks.Agreement.{push_watermark-same}

abbrev last_part : List Text → Text
last_part [] = []
last_part (s ∷ []) = s
last_part (s ∷ t ∷ ss) = last_part (t ∷ ss)

abbrev path_library : Library
path_library = record {
  clean = λ p. p;
  base = λ p. last_part (split b'\\' p);
  join = λ dir name. dir ++ (b'\\' ∷ name);
  is_valid = λ s. true;
  size = λ s. length s;
}

abbrev no_faults : Faults
no_faults = record {
  mkdir_fails = λ p. false;
  stat_fails = λ p. false;
  read_fails = λ p. false;
  write = λ p. copied;
}

abbrev network_logos : Text
network_logos = lit "N:\\Logos"

abbrev local_logos : Text
local_logos = lit "C:\\Logos"

abbrev local_template : Text
local_template = lit "C:\\W\\a.lrtemplate"

abbrev network_template : Text
network_template = lit "N:\\W\\a.lrtemplate"

abbrev local_text : Text
local_text = lit "s = { imagePath=  \"D:\\\\my\\\\logo.png\", t = 1 }"

abbrev network_text : Text
network_text = lit "s = { imagePath = \"N:\\\\Logos\\\\logo.png\", t = 1 }"

abbrev logo : File
logo = record { mtime = 5; body = lit "png" }

abbrev files : Dict File
files =
    (local_template, record { mtime = 7; body = local_text }) ∷ (lit "D:\\my\\logo.png", logo) ∷ []

abbrev pushed : Logos
pushed =
    push_watermark path_library no_faults network_logos local_logos local_template network_template
      files

pushed_files :
    pushed.files
    ≡ (local_template, record { mtime = 7; body = network_text })
      ∷ (lit "D:\\my\\logo.png", logo)
      ∷ (lit "N:\\Logos\\logo.png", logo)
      ∷ (network_template, record { mtime = 7; body = network_text })
      ∷ []
unfolding push_watermark is_watermark_template_file text_eq to_lower ext lit lookup has_prefix
    trim_space insert replace_rune split
pushed_files = refl

abbrev known : Dict File
known =
    (network_template, record { mtime = 7; body = network_text })
    ∷ (lit "N:\\Logos\\logo.png", logo)
    ∷ (lit "C:\\W\\b.lrtemplate", logo)
    ∷ []

push_watermark-same_example :
    lookup network_template pushed.files ≡ lookup local_template pushed.files
unfolding push_watermark is_watermark_template_file text_eq to_lower ext lit lookup has_prefix
    trim_space insert replace_rune split
push_watermark-same_example =
    push_watermark-same no_faults path_library network_logos local_logos local_template
      network_template refl (λ name. refl) files refl

-- The pulled template names the machine's copy of the logo.
pulled_files :
    (pull_watermark path_library no_faults network_logos local_logos network_template local_template
      known).files
    ≡ known
      ++ ((lit "C:\\Logos\\logo.png", logo)
          ∷ (
            local_template,
            record {
              mtime = 7;
              body = lit "s = { imagePath = \"C:\\\\Logos\\\\logo.png\", t = 1 }";
            },
          )
          ∷ [])
unfolding pull_watermark is_watermark_template_file text_eq to_lower ext lit lookup has_prefix
    trim_space insert replace_rune split
pulled_files = refl
