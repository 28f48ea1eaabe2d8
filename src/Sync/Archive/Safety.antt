-- ===== src/Sync/Archive/Safety.antt =====
-- Nothing is extracted outside the destination folder.
use lightroom_sync.Common.{
  ℕ, suc, ◌≤◌, ◌≡◌, refl, ap, ◌∙◌, Bool, true, false, Option, List, [], ◌∷◌, ◌++◌, reverse, arith,
  All,
}
use mathlib.Core.List.{reverse-append, reverse-reverse}
use lightroom_sync.Common.Text.{Text, lit, text_eq_refl, has_prefix, split}
use lightroom_sync.Sync.Archive.{
  ZipEntry, Write, make_dir, write_file, clean_relative, is_unsafe_relative_path, resolve, join,
  is_within_base, extract_all, extract_zip_safe,
}

abbrev pub target_of : Write → List Text
target_of (make_dir target mode) = target
target_of (write_file target body mode) = target

extract_all-within :
    (dest : List Text) (root : Option Text) (progress : ℕ → Bool) (current : ℕ) (es : List ZipEntry)
    → All
        (λ w. is_within_base (target_of w) dest ≡ true)
        (extract_all dest root progress current es).writes
unfolding extract_all
extract_all-within dest root progress current [] = tt
extract_all-within dest root progress current (e ∷ es) = ground (
  arith,
  extract_all-within dest root progress current es,
  extract_all-within dest root progress (suc current) es,
)

-- Whatever names an archive holds, each folder that is made and each file that is written lies in the
-- destination folder.
pub extract_zip_safe-within :
    (dest : List Text) (flatten : Bool) (progress : ℕ → ℕ → Bool) (es : List ZipEntry)
    → All
        (λ w. is_within_base (target_of w) dest ≡ true)
        (extract_zip_safe dest flatten progress es).writes
unfolding extract_zip_safe
extract_zip_safe-within dest flatten progress es = extract_all-within dest _ _ 0 es

ups_grow : (ups : ℕ) (stack parts : List Text) → ups ≤ (clean_relative ups stack parts).0
unfolding clean_relative
ups_grow ups stack [] = omega arith
ups_grow ups [] (part ∷ parts) =
    ground
      (arith, ups_grow ups [] parts, ups_grow (suc ups) [] parts, ups_grow ups (part ∷ []) parts)
ups_grow ups (s ∷ stack) (part ∷ parts) = ground (
  arith,
  ups_grow ups (s ∷ stack) parts,
  ups_grow ups stack parts,
  ups_grow ups (part ∷ s ∷ stack) parts,
)

-- A relative name that never leaves its folder is resolved above whatever it is joined to.
resolve-clean :
    (base stack parts : List Text)
    → (clean_relative 0 stack parts).0 ≡ 0
    → resolve (stack ++ base) parts ≡ (clean_relative 0 stack parts).1 ++ base
unfolding clean_relative resolve
resolve-clean base stack [] h = refl
resolve-clean base [] (part ∷ parts) h =
    ground (
      arith,
      resolve-clean base [] parts,
      ups_grow 1 [] parts,
      resolve-clean base (part ∷ []) parts,
    )
resolve-clean base (s ∷ stack) (part ∷ parts) h = ground (
  arith,
  resolve-clean base (s ∷ stack) parts,
  resolve-clean base stack parts,
  resolve-clean base (part ∷ s ∷ stack) parts,
)

within_append : (dest rest : List Text) → is_within_base (dest ++ rest) dest ≡ true
unfolding is_within_base
within_append [] rest = refl
within_append (d ∷ dest) rest = rw text_eq_refl (within_append dest rest)

-- For a name that does not start at the root, the test of its `..` alone already keeps the target
-- inside: the second test is needed only for the others.
pub relative_name_within :
    (dest : List Text) (name : Text)
    → has_prefix name (lit "/") ≡ false
    → is_unsafe_relative_path name ≡ false
    → is_within_base (join dest name) dest ≡ true
unfolding is_unsafe_relative_path join
relative_name_within dest name relative safe =
    let parts : List Text = split b'/' name in
    let ups : (clean_relative 0 [] parts).0 ≡ 0 = ground (arith, safe, relative) in
    let kept : List Text = (clean_relative 0 [] parts).1 in
    let inside : join dest name ≡ dest ++ reverse kept =
      ap reverse (resolve-clean (reverse dest) [] parts ups)
      ∙ reverse-append kept (reverse dest)
      ∙ ap (λ t. t ++ reverse kept) (reverse-reverse dest) in
    rw inside (within_append dest (reverse kept))
