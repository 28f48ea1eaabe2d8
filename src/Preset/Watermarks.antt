-- ===== src/Preset/Watermarks.antt =====
-- The logos of watermark templates (pullWatermark, pushWatermark and copyIfSizeDiff in
-- internal/sync/preset_sync.go): the copies of the logos, and what replaces the paths in the text.
-- What the code takes from path/filepath and unicode/utf8 is a parameter. Files have full paths; no
-- path is a folder's, and the `.tmp` files, which no call leaves behind, are not kept.
pub mod Template
pub mod Frame
pub mod Agreement
use lightroom_sync.Common.{
  ℕ, zero, suc, ◌+◌, ◌-◌, Bool, true, false, ◌&&◌, ◌||◌, not, Option, none, some, List, [], ◌∷◌,
  ◌++◌, take, drop, length, leb, is_some, ◌==◌, if◌then◌else◌, ◌>>=◌,
}
use lightroom_sync.Common.Text.{Text, lit, is_empty, text_eq, trim_space, has_prefix, replace_rune}
use lightroom_sync.Common.Dict.{Dict, lookup, insert, erase}
use lightroom_sync.Preset.Watermarks.Template.{
  Segment, kept, image, segments, halve, double, image_path,
}
use lightroom_sync.Preset.{File, Copy, copied, copy_failed}
use lightroom_sync.Preset.Paths.{is_watermark_template_file}

-- The files by their full paths, the counter of copied logos, and whether an error was met.
pub record Logos : Type 0 where
  pub files : Dict File
  pub copied : ℕ
  pub is_failed : Bool

-- `ReplaceAllStringFunc`.
unfoldable pub rewrite : (Text → Text → Logos → Logos × Text) → List Segment → Logos → Logos × Text
rewrite f [] l = (l, [])
rewrite f (kept c ∷ ss) l = let (l', rest) = rewrite f ss l in (l', c ∷ rest)
rewrite f (image whole raw ∷ ss) l =
    let (l1, text) = f whole raw l in let (l2, rest) = rewrite f ss l1 in (l2, text ++ rest)

-- `Clean`, `Base` and `Join` of path/filepath, `utf8.Valid`, and the number of bytes of a content.
pub record Library : Type 0 where
  pub clean : Text → Text
  pub base : Text → Text
  pub join : Text → Text → Text
  pub is_valid : Text → Bool
  pub size : Text → ℕ

-- What fails, by the path; a failed write leaves behind, at its path, what the environment says.
pub record Faults : Type 0 where
  pub mkdir_fails : Text → Bool
  pub stat_fails : Text → Bool
  pub read_fails : Text → Bool
  pub write : Text → Copy

-- The files behind a write, and whether it failed.
unfoldable pub after_write : Text → File → Copy → Dict File → Dict File × Bool
after_write path f copied files = (insert path f files, false)
after_write path f (copy_failed none) files = (erase path files, true)
after_write path f (copy_failed (some g)) files = (insert path g files, true)

-- The end of `copyFileWithMTime`, and `writeTextWithMTime`.
unfoldable pub put_file : Faults → Text → File → Dict File → Dict File × Bool
unfolding after_write
put_file faults path f files = after_write path f (faults.write path) files

unfoldable pub copy_from : Faults → Option File → Text → Text → Dict File → Dict File × Bool
unfolding put_file
copy_from faults none src dst files = (files, true)
copy_from faults (some f) src dst files =
    if faults.stat_fails src || faults.read_fails src
    then (files, true)
    else put_file faults dst f files

unfoldable pub copy_file : Faults → Text → Text → Dict File → Dict File × Bool
unfolding copy_from
copy_file faults src dst files = copy_from faults (lookup src files) src dst files

-- What a copy returns: the files, whether it copied, and whether it failed.
pub record Copying : Type 0 where
  pub files : Dict File
  pub is_new : Bool
  pub is_failed : Bool

abbrev copying : Dict File × Bool → Copying
copying (files, is_failed) = record { files = files; is_new = not is_failed; is_failed = is_failed }

abbrev idle : Dict File → Bool → Copying
idle files is_failed = record { files = files; is_new = false; is_failed = is_failed }

module _ (lib : Library) (faults : Faults) where
  unfoldable pub unescape_template_path : Text → Text
  unfolding halve
  unescape_template_path path = lib.clean (halve (trim_space path))

  unfoldable pub escape_template_path : Text → Text
  unfolding double
  escape_template_path path = double (replace_rune b'/' b'\\' (lib.clean path))

  -- `os.Stat` succeeds.
  abbrev pub is_found : Text → Dict File → Bool
  is_found path files = is_some (lookup path files) && not (faults.stat_fails path)

  unfoldable pub copy_if_size_diff : Text → Text → Dict File → Copying
  unfolding copy_file
  copy_if_size_diff src dst files = elim (lookup src files) [
    | none ↦ idle files true
    | some f ↦
        let copy = copying (copy_file faults src dst files) in
        let taken : Copying = elim (lookup dst files) [
          | none ↦ copy
          | some g ↦
              if lib.size g.body == lib.size f.body && leb f.mtime g.mtime
              then idle files false
              else copy
        ] in
        if faults.stat_fails src || faults.stat_fails dst then idle files true else taken
  ]

  abbrev stopped : Text → Logos → Logos × Text
  stopped whole l = (record l { is_failed = true }, whole)

  -- Behind the copy of a logo, the match becomes `text`.
  abbrev with_logo : Text → Text → Logos → Copying → Logos × Text
  with_logo whole text l c =
      let copies = if c.is_new then l.copied + 1 else l.copied in
      let l' : Logos = record { files = c.files; copied = copies; is_failed = c.is_failed } in
      if c.is_failed then (l', whole) else (l', text)

  module _ (network_logos local_logos : Text) where
    -- The function of pullWatermark.
    unfoldable pub pull_image : Text → Text → Logos → Logos × Text
    unfolding unescape_template_path escape_template_path copy_if_size_diff
    pull_image whole raw l =
        let name = lib.base (unescape_template_path raw) in
        let network_logo = lib.join network_logos name in
        let local_logo = lib.join local_logos name in
        let taken =
          with_logo whole (image_path (escape_template_path local_logo)) l
            (copy_if_size_diff network_logo local_logo l.files) in
        let checked = if faults.mkdir_fails local_logos then stopped whole l else taken in
        if l.is_failed || is_empty name || text_eq name (lit ".")
        then (l, whole)
        else if is_found network_logo l.files
        then checked
        else (l, image_path (escape_template_path network_logo))

    -- The function of pushWatermark.
    unfoldable pub push_image : Text → Text → Logos → Logos × Text
    unfolding unescape_template_path escape_template_path copy_if_size_diff
    push_image whole raw l =
        let local_logo = lib.clean (unescape_template_path raw) in
        let network_logo = lib.join network_logos (lib.base local_logo) in
        if l.is_failed || not (is_found local_logo l.files)
        then (l, whole)
        else with_logo whole (image_path (escape_template_path network_logo)) l
            (copy_if_size_diff local_logo network_logo l.files)

    abbrev fresh : Dict File → Logos
    fresh files = record { files = files; copied = 0; is_failed = false }

    -- `(0, copyFileWithMTime(…))`.
    abbrev whole_copy : Text → Text → Dict File → Logos
    whole_copy src dst files =
        let (files', is_failed) = copy_file faults src dst files in
        record { files = files'; copied = 0; is_failed = is_failed }

    abbrev written : Text → File → Logos → Logos
    written path f l =
        let (files, is_failed) = put_file faults path f l.files in
        record l { files = files; is_failed = is_failed }

    -- `pullWatermark` behind the rewriting, by what `os.Stat` looks at.
    unfoldable pub save_pull : Option File → Text → Text → Logos × Text → Logos
    unfolding put_file
    save_pull none network_path local_path (l, text) = record l { is_failed = true }
    save_pull (some f) network_path local_path (l, text) =
        if l.is_failed
        then l
        else if faults.stat_fails network_path
        then record l { is_failed = true }
        else written local_path (record { mtime = f.mtime; body = text }) l

    -- `pullWatermark` of a template, by what `os.ReadFile` looks at.
    unfoldable pub pull_template : Option File → Text → Text → Dict File → Logos
    unfolding segments rewrite pull_image copy_file save_pull
    pull_template none network_path local_path files = record (fresh files) { is_failed = true }
    pull_template (some f) network_path local_path files =
        let r = rewrite pull_image (segments 0 f.body) (fresh files) in
        if faults.read_fails network_path
        then record (fresh files) { is_failed = true }
        else if lib.is_valid f.body
        then save_pull (lookup network_path r.0.files) network_path local_path r
        else whole_copy network_path local_path files

    unfoldable pub pull_watermark : Text → Text → Dict File → Logos
    unfolding copy_file pull_template
    pull_watermark network_path local_path files =
        if is_watermark_template_file local_path
        then pull_template (lookup network_path files) network_path local_path files
        else whole_copy network_path local_path files

    -- `pushWatermark` behind the rewriting: the network's template, and the machine's if it changed.
    unfoldable pub finish_push : Text → Text → File → Logos × Text → Logos
    unfolding put_file
    finish_push local_path network_path f (l, text) =
        let g : File = record { mtime = f.mtime; body = text } in
        let pushed = written network_path g l in
        if l.is_failed
        then l
        else if pushed.is_failed || text_eq text f.body
        then pushed
        else written local_path g pushed

    -- `pushWatermark` of a template, by what `os.ReadFile` looks at.
    unfoldable pub push_template : Option File → Text → Text → Dict File → Logos
    unfolding segments rewrite push_image copy_file finish_push
    push_template none local_path network_path files = record (fresh files) { is_failed = true }
    push_template (some f) local_path network_path files =
        if faults.read_fails local_path
        then record (fresh files) { is_failed = true }
        else if not (lib.is_valid f.body)
        then whole_copy local_path network_path files
        else if faults.stat_fails local_path || faults.mkdir_fails network_logos
        then record (fresh files) { is_failed = true }
        else finish_push local_path network_path f
            (rewrite push_image (segments 0 f.body) (fresh files))

    unfoldable pub push_watermark : Text → Text → Dict File → Logos
    unfolding copy_file push_template
    push_watermark local_path network_path files =
        if is_watermark_template_file local_path
        then push_template (lookup local_path files) local_path network_path files
        else whole_copy local_path network_path files
