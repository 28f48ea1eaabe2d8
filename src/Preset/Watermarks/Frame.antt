-- ===== src/Preset/Watermarks/Frame.antt =====
-- What the copies of a watermark template leave alone (pullWatermark and pushWatermark in
-- internal/sync/preset_sync.go).
use lightroom_sync.Common.{◌≡◌, refl, ◌∙◌, false, Option, none, some, List, [], ◌∷◌, arith}
use lightroom_sync.Common.Text.{Text, text_eq}
use lightroom_sync.Common.Dict.{Dict, lookup, lookup-insert, lookup-erase}
use lightroom_sync.Preset.{File, Copy, copied, copy_failed}
use lightroom_sync.Preset.Watermarks.Template.{Segment, kept, image, segments}
use lightroom_sync.Preset.Watermarks.{
  unescape_template_path, Library, Faults, Logos, rewrite, after_write, put_file, copy_from,
  copy_file, copy_if_size_diff, push_image, finish_push, push_template, push_watermark,
}

module _ (faults : Faults) (q : Text) where
  after_write-keeps :
      (path : Text) (f : File) (c : Copy) (files : Dict File)
      → text_eq path q ≡ false
      → lookup q (after_write path f c files).0 ≡ lookup q files
  unfolding after_write
  after_write-keeps path f copied files other = lookup-insert q path f files ∙ rw other refl
  after_write-keeps path f (copy_failed none) files other =
      lookup-erase q path files ∙ rw other refl
  after_write-keeps path f (copy_failed (some g)) files other =
      lookup-insert q path g files ∙ rw other refl

  pub put_file-keeps :
      (path : Text) (f : File) (files : Dict File)
      → text_eq path q ≡ false
      → lookup q (put_file faults path f files).0 ≡ lookup q files
  unfolding put_file
  put_file-keeps path f files other = after_write-keeps path f (faults.write path) files other

  copy_from-keeps :
      (o : Option File) (src dst : Text) (files : Dict File)
      → text_eq dst q ≡ false
      → lookup q (copy_from faults o src dst files).0 ≡ lookup q files
  unfolding copy_from
  copy_from-keeps none src dst files other = refl
  copy_from-keeps (some f) src dst files other = ground (arith, put_file-keeps dst f files other)

  copy_file-keeps :
      (src dst : Text) (files : Dict File)
      → text_eq dst q ≡ false
      → lookup q (copy_file faults src dst files).0 ≡ lookup q files
  unfolding copy_file
  copy_file-keeps src dst files other = copy_from-keeps (lookup src files) src dst files other

  module _ (lib : Library) where
    copy_if_size_diff-keeps :
        (src dst : Text) (files : Dict File)
        → text_eq dst q ≡ false
        → lookup q (copy_if_size_diff lib faults src dst files).files ≡ lookup q files
    unfolding copy_if_size_diff
    copy_if_size_diff-keeps src dst files other =
        ground (arith, copy_file-keeps src dst files other)

    -- A function that keeps the file at each match keeps it behind all of them.
    pub rewrite-keeps :
        (f : Text → Text → Logos → Logos × Text)
        → ((whole raw : Text) (l : Logos) → lookup q (f whole raw l).0.files ≡ lookup q l.files)
        → (ss : List Segment) (l : Logos) → lookup q (rewrite f ss l).0.files ≡ lookup q l.files
    unfolding rewrite
    rewrite-keeps f keeps [] l = refl
    rewrite-keeps f keeps (kept c ∷ ss) l = rewrite-keeps f keeps ss l
    rewrite-keeps f keeps (image whole raw ∷ ss) l =
        rewrite-keeps f keeps ss (f whole raw l).0 ∙ keeps whole raw l

    module _ (network_logos local_logos : Text) where
      pub push_image-keeps :
          ((name : Text) → text_eq (lib.join network_logos name) q ≡ false)
          → (whole raw : Text) (l : Logos)
          → lookup q (push_image lib faults network_logos local_logos whole raw l).0.files
            ≡ lookup q l.files
      unfolding push_image
      push_image-keeps other whole raw l =
          let path = lib.clean (unescape_template_path lib faults raw) in
          let logo = lib.join network_logos (lib.base path) in
          ground (arith, copy_if_size_diff-keeps path logo l.files (other (lib.base path)))

      finish_push-keeps :
          (local_path network_path : Text) (f : File) (r : Logos × Text)
          → text_eq local_path q ≡ false
          → text_eq network_path q ≡ false
          → lookup q
              (finish_push lib faults network_logos local_logos local_path network_path f r).files
            ≡ lookup q r.0.files
      unfolding finish_push
      finish_push-keeps local_path network_path f (l, text) no_local no_network =
          let g : File = record { mtime = f.mtime; body = text } in
          let pushed = (put_file faults network_path g l.files).0 in
          ground (
            arith,
            put_file-keeps network_path g l.files no_network,
            put_file-keeps local_path g pushed no_local,
          )

      push_template-keeps :
          (o : Option File) (local_path network_path : Text) (files : Dict File)
          → ((name : Text) → text_eq (lib.join network_logos name) q ≡ false)
          → text_eq local_path q ≡ false
          → text_eq network_path q ≡ false
          → lookup q
              (push_template lib faults network_logos local_logos o local_path network_path
                files).files
            ≡ lookup q files
      unfolding push_template
      push_template-keeps none local_path network_path files no_logo no_local no_network = refl
      push_template-keeps (some f) local_path network_path files no_logo no_local no_network =
          let l : Logos = record { files = files; copied = 0; is_failed = false } in
          let image = push_image lib faults network_logos local_logos in
          let r = rewrite image (segments 0 f.body) l in
          ground (
            arith,
            copy_file-keeps local_path network_path files no_network,
            rewrite-keeps image (push_image-keeps no_logo) (segments 0 f.body) l,
            finish_push-keeps local_path network_path f r no_local no_network,
          )

      -- A push of a watermark changes no file but the network's template, the machine's template and files
      -- that `Join` puts into the network's folder of logos, whichever of its calls fail.
      pub push_watermark-keeps :
          (local_path network_path : Text) (files : Dict File)
          → ((name : Text) → text_eq (lib.join network_logos name) q ≡ false)
          → text_eq local_path q ≡ false
          → text_eq network_path q ≡ false
          → lookup q
              (push_watermark lib faults network_logos local_logos local_path network_path
                files).files
            ≡ lookup q files
      unfolding push_watermark
      push_watermark-keeps local_path network_path files no_logo no_local no_network = ground (
        arith,
        copy_file-keeps local_path network_path files no_network,
        push_template-keeps (lookup local_path files) local_path network_path files no_logo no_local
            no_network,
      )
