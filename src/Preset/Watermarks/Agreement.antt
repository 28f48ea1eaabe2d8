-- ===== src/Preset/Watermarks/Agreement.antt =====
-- The two copies of a watermark template behind pushWatermark (internal/sync/preset_sync.go).
use lightroom_sync.Common.{◌≡◌, refl, ◌∙◌, true, false, Option, none, some, arith}
use lightroom_sync.Common.Text.{Text, text_eq, text_eq_iff, text_eq_refl, text_eq-false_symm}
use lightroom_sync.Common.Dict.{Dict, lookup, lookup-insert}
use lightroom_sync.Preset.{File, Copy, copied, copy_failed}
use lightroom_sync.Preset.Watermarks.Template.{segments}
use lightroom_sync.Preset.Watermarks.{
  Library, Faults, Logos, rewrite, after_write, put_file, copy_from, copy_file, push_image,
  finish_push, push_template, push_watermark,
}
use lightroom_sync.Preset.Watermarks.Frame.{put_file-keeps, rewrite-keeps, push_image-keeps}

module _ (faults : Faults) where
  after_write-puts :
      (path : Text) (f : File) (c : Copy) (files : Dict File)
      → (after_write path f c files).1 ≡ false
      → lookup path (after_write path f c files).0 ≡ some f
  unfolding after_write
  after_write-puts path f copied files e =
      lookup-insert path path f files ∙ rw (text_eq_refl path) refl
  after_write-puts path f (copy_failed none) files e = ground (arith, e)
  after_write-puts path f (copy_failed (some g)) files e = ground (arith, e)

  put_file-puts :
      (path : Text) (f : File) (files : Dict File)
      → (put_file faults path f files).1 ≡ false
      → lookup path (put_file faults path f files).0 ≡ some f
  unfolding put_file
  put_file-puts path f files e = after_write-puts path f (faults.write path) files e

  copy_from-same :
      (o : Option File) (src dst : Text) (files : Dict File)
      → lookup src files ≡ o
      → text_eq dst src ≡ false
      → (copy_from faults o src dst files).1 ≡ false
      → lookup dst (copy_from faults o src dst files).0
        ≡ lookup src (copy_from faults o src dst files).0
  unfolding copy_from
  copy_from-same none src dst files is_source other e = ground (arith, e)
  copy_from-same (some f) src dst files is_source other e =
      ground (
        arith,
        e,
        is_source,
        put_file-puts dst f files,
        put_file-keeps faults src dst f files other,
      )

  copy_file-same :
      (src dst : Text) (files : Dict File)
      → text_eq dst src ≡ false
      → (copy_file faults src dst files).1 ≡ false
      → lookup dst (copy_file faults src dst files).0
        ≡ lookup src (copy_file faults src dst files).0
  unfolding copy_file
  copy_file-same src dst files other e =
      copy_from-same (lookup src files) src dst files refl other e

  module _ (lib : Library) (network_logos local_logos local_path network_path : Text)
      (apart : text_eq network_path local_path ≡ false)
      (no_logo : (name : Text) → text_eq (lib.join network_logos name) local_path ≡ false) where
    finish_push-same :
        (f : File) (l : Logos) (text : Text)
        → lookup local_path l.files ≡ some f
        → let l' =
            finish_push lib faults network_logos local_logos local_path network_path f (l, text) in
          l'.is_failed ≡ false → lookup network_path l'.files ≡ lookup local_path l'.files
    unfolding finish_push
    finish_push-same f l text is_source e =
        let g : File = record { mtime = f.mtime; body = text } in
        let pushed = (put_file faults network_path g l.files).0 in
        let same : text_eq text f.body ≡ true → some g ≡ some f =
          λ s. rw ((text_eq_iff text f.body).0 s) refl in
        ground (
          arith,
          e,
          same,
          is_source,
          put_file-puts network_path g l.files,
          put_file-puts local_path g pushed,
          put_file-keeps faults local_path network_path g l.files apart,
          put_file-keeps faults network_path local_path g pushed
              (text_eq-false_symm network_path local_path apart),
        )

    push_template-same :
        (o : Option File) (files : Dict File)
        → lookup local_path files ≡ o
        → let l' =
            push_template lib faults network_logos local_logos o local_path network_path files in
          l'.is_failed ≡ false → lookup network_path l'.files ≡ lookup local_path l'.files
    unfolding push_template
    push_template-same none files is_source e = ground (arith, e)
    push_template-same (some f) files is_source e =
        let l : Logos = record { files = files; copied = 0; is_failed = false } in
        let image = push_image lib faults network_logos local_logos in
        let r = rewrite image (segments 0 f.body) l in
        ground (
          arith,
          e,
          is_source,
          copy_file-same local_path network_path files apart,
          rewrite-keeps faults local_path lib image
              (push_image-keeps faults local_path lib network_logos local_logos no_logo)
              (segments 0 f.body) l,
          finish_push-same f r.0 r.1,
        )

    -- Behind a push of a watermark that reports no error, the machine and the network hold the same file,
    -- text and modification time, if their paths differ and the machine's is not one of the network's
    -- logos.
    pub push_watermark-same :
        (files : Dict File)
        → let l' =
            push_watermark lib faults network_logos local_logos local_path network_path files in
          l'.is_failed ≡ false → lookup network_path l'.files ≡ lookup local_path l'.files
    unfolding push_watermark
    push_watermark-same files e = ground (
      arith,
      e,
      copy_file-same local_path network_path files apart,
      push_template-same (lookup local_path files) files refl,
    )
