-- ===== src/Sync/Retention/Laws.antt =====
-- What retention keeps and what it removes; file names without forbidden characters.
use lightroom_sync.Common.{
  ℕ, ◌≡◌, refl, sym, ap, ◌∙◌, inl, inr, Bool, true, false, List, [], ◌∷◌, ◌++◌, map, min, arith,
  leb, leb→le, length, take, drop, All, length-take, take-append-drop, Bool-cases, subst,
  if◌then◌else◌,
}
use lightroom_sync.Common.Text.{Text, lit, is_empty, trim_space, text_ltb_asym, text_ltb_negtrans}
use lightroom_sync.Common.Sort.{
  sort, Sorted, Sorted-append, sort-Perm, sort-Sorted, IsOrder, length-Perm,
}
use mathlib.Core.List.{Permᴰ}
use mathlib.Core.List.Permᴰ
use lightroom_sync.Sync.Retention.{
  ZipFile, Removal, before, remove_all, at_least_one, remove_old, is_forbidden, sanitize_file_name,
}

before_asym : (a b : ZipFile) → before a b ≡ true → before b a ≡ false
unfolding before
before_asym a b h = ground (arith, text_ltb_asym b.path a.path)

before_negtrans : (a b c : ZipFile) → before b a ≡ false → before c b ≡ false → before c a ≡ false
unfolding before
before_negtrans a b c h k = ground (arith, text_ltb_negtrans c.path b.path a.path)

before-IsOrder : IsOrder before
before-IsOrder = record { asym = before_asym; negtrans = before_negtrans }

-- A run of removals stops at the first one that fails.
pub data Stop (fails : Text → Bool) : List ZipFile → Bool → Type 0 where
  at_end : Stop fails [] false
  at_failure : (f : ZipFile) (fs : List ZipFile) → fails f.path ≡ true → Stop fails (f ∷ fs) true

record Split (fails : Text → Bool) (fs : List ZipFile) (r : Removal) : Type 0 where
  gone : List ZipFile
  left : List ZipFile
  whole : gone ++ left ≡ fs
  names : map (λ (f : ZipFile). f.path) gone ≡ r.removed
  stop : Stop fails left r.is_failed

remove_all-Split : (fails : Text → Bool) (fs : List ZipFile) → Split fails fs (remove_all fails fs)
unfolding remove_all
remove_all-Split fails [] = record {
  gone = [];
  left = [];
  whole = refl;
  names = refl;
  stop = at_end;
}
remove_all-Split fails (f ∷ fs) = elim (Bool-cases (fails f.path)) [
  | inl bad ↦
      rw bad (record {
        gone = [];
        left = f ∷ fs;
        whole = refl;
        names = refl;
        stop = at_failure f fs bad;
      })
  | inr good ↦
      let rest = remove_all-Split fails fs in
      rw good (record {
        gone = f ∷ rest.gone;
        left = rest.left;
        whole = ap (λ t. f ∷ t) rest.whole;
        names = ap (λ t. f.path ∷ t) rest.names;
        stop = rest.stop;
      })
]

append_nil : (fs : List ZipFile) → fs ++ [] ≡ fs
append_nil [] = refl
append_nil (f ∷ fs) = ap (λ t. f ∷ t) (append_nil fs)

All-nothing : (fs : List ZipFile) → All (λ k. All (λ g. before g k ≡ false) []) fs
All-nothing [] = tt
All-nothing (f ∷ fs) = (tt, All-nothing fs)

-- The files fall into those kept, those removed and those that an error left; the kept ones are as
-- many as the limit allows, and none of the others is newer than one of them.
pub record Retained (fails : Text → Bool) (limit : ℕ) (files : List ZipFile) (r : Removal)
    : Type 0 where
  pub kept : List ZipFile
  pub gone : List ZipFile
  pub left : List ZipFile
  pub all : Permᴰ (kept ++ (gone ++ left)) files
  pub count : length kept ≡ min limit (length files)
  pub names : map (λ (f : ZipFile). f.path) gone ≡ r.removed
  pub stop : Stop fails left r.is_failed
  pub newest : All (λ k. All (λ g. before g k ≡ false) (gone ++ left)) kept

-- Cleaning up keeps the newest files, as many as the limit allows and one at least, and removes all
-- the others, one after another until a removal fails.
pub remove_old-Retained :
    (fails : Text → Bool) (max_backups : ℕ) (files : List ZipFile)
    → Retained fails (at_least_one max_backups) files (remove_old fails max_backups files)
unfolding remove_old
remove_old-Retained fails max_backups files =
    elim (Bool-cases (leb (length files) (at_least_one max_backups))) [
      | inl few ↦ rw few (record {
        kept = files;
        gone = [];
        left = [];
        all = subst (λ t. Permᴰ t files) (sym (append_nil files)) (Permᴰ.refl files);
        count = omega (arith, leb→le (length files) (at_least_one max_backups) few);
        names = refl;
        stop = at_end;
        newest = All-nothing files;
      })
      | inr many ↦
          let sorted : List ZipFile = sort before files in
          let parts = remove_all-Split fails (drop (at_least_one max_backups) sorted) in
          let whole : take (at_least_one max_backups) sorted ++ (parts.gone ++ parts.left)
              ≡ sorted =
            rw parts.whole (take-append-drop (at_least_one max_backups) sorted) in
          rw many (record {
            kept = take (at_least_one max_backups) sorted;
            gone = parts.gone;
            left = parts.left;
            all = subst (λ t. Permᴰ t files) (sym whole) (sort-Perm before files);
            count =
                length-take (at_least_one max_backups) sorted
                ∙ ap (min (at_least_one max_backups))
                    (length-Perm sorted files (sort-Perm before files));
            names = parts.names;
            stop = parts.stop;
            newest =
                Sorted-append before before-IsOrder (take (at_least_one max_backups) sorted)
                  (parts.gone ++ parts.left)
                  (subst (Sorted before) (sym whole) (sort-Sorted before before-IsOrder files));
          })
    ]

unknown : All (λ c. is_forbidden c ≡ false) (lit "UNKNOWN")
unfolding is_forbidden lit
unknown = (refl, (refl, (refl, (refl, (refl, (refl, (refl, tt)))))))

mapped_clean :
    (s : Text) → All (λ c. is_forbidden c ≡ false) (map (λ c. if is_forbidden c then b'_' else c) s)
unfolding is_forbidden
mapped_clean [] = tt
mapped_clean (c ∷ s) = (ground arith, mapped_clean s)

mapped_nonempty :
    (s : Text)
    → is_empty s ≡ false
    → is_empty (map (λ c. if is_forbidden c then b'_' else c) s) ≡ false
mapped_nonempty [] h = h
mapped_nonempty (c ∷ s) h = refl

-- A sanitized name is not empty and has none of the characters that Windows forbids in names.
pub sanitize_file_name-clean :
    (raw : Text)
    → (is_empty (sanitize_file_name raw) ≡ false)
      × All (λ c. is_forbidden c ≡ false) (sanitize_file_name raw)
unfolding sanitize_file_name lit
sanitize_file_name-clean raw = elim (Bool-cases (is_empty (trim_space raw))) [
  | inl none_left ↦ rw none_left (refl, unknown)
  | inr some_left ↦
      rw some_left (mapped_nonempty (trim_space raw) some_left, mapped_clean (trim_space raw))
]
