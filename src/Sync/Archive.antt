-- ===== src/Sync/Archive.antt =====
-- Extraction of a backup (internal/sync/catalog_restore.go): ExtractZipSafe with its helpers on
-- entry names. A path of the file system is the list of its parts below the root, and `/` stands
-- for the separator.
pub mod Safety
pub mod Flatten
use lightroom_sync.Common.{
  ℕ, zero, suc, Bool, true, false, ◌&&◌, ◌||◌, not, Option, none, some, List, [], ◌∷◌, ◌++◌,
  reverse, ltb, ◌==◌, ◌+◌, ◌/◌, ◌%◌, if◌then◌else◌,
}
use lightroom_sync.Common.Text.{
  Text, lit, text_eq, is_empty, has_prefix, trim_space, split, replace_rune,
}

-- An entry of the archive; whether the context is cancelled when the loop comes to it, and whether
-- writing it fails.
pub record ZipEntry : Type 0 where
  pub name : Text
  pub is_dir : Bool
  pub body : Text
  pub mode : ℕ
  pub is_cancelled : Bool
  pub write_fails : Bool

unfoldable pub trim_prefix : Text → Text → Text
trim_prefix s [] = s
trim_prefix [] (y ∷ ys) = []
trim_prefix (x ∷ xs) (y ∷ ys) =
    let rest = trim_prefix xs ys in if has_prefix (x ∷ xs) (y ∷ ys) then rest else x ∷ xs

unfoldable pub normalize_zip_path : Text → Text
normalize_zip_path name =
    let slashed = trim_space (replace_rune b'\\' b'/' name) in
    trim_space (trim_prefix (trim_prefix slashed (lit "/")) (lit "./"))

-- The root folders that the names of several parts start with, and whether a file stands at the root,
-- where the loop stops; `none` for a second root.
abbrev pub Roots : Type 0
Roots = Option (Option Text × Bool)

-- One round, on the parts of a name; `later` is the rest of the loop.
unfoldable pub scan_parts : Option Text → List Text → Bool → (Option Text → Roots) → Roots
scan_parts root [] is_dir later = later root
scan_parts root (part ∷ []) is_dir later = if is_dir then later root else some (root, true)
scan_parts none (part ∷ _ ∷ _) is_dir later = later (some part)
scan_parts (some r) (part ∷ _ ∷ _) is_dir later = if text_eq r part then later (some r) else none

unfoldable pub scan_roots : Option Text → List (Text × Bool) → Roots
scan_roots root [] = some (root, false)
scan_roots root ((name, is_dir) ∷ es) =
    scan_parts root (split b'/' name) is_dir (λ t. scan_roots t es)

-- The names that are not empty once normalized.
unfoldable pub normalized : List ZipEntry → List (Text × Bool)
normalized [] = []
normalized (e ∷ es) =
    let rest = normalized es in
    let name = normalize_zip_path e.name in if is_empty name then rest else (name, e.is_dir) ∷ rest

-- `none` where the source returns `("", false)`.
unfoldable pub single_root : Roots → Option Text
single_root none = none
single_root (some (root, true)) = none
single_root (some (none, false)) = none
single_root (some (some r, false)) = some (r ++ lit "/")

unfoldable pub detect_single_root_prefix : List ZipEntry → Option Text
detect_single_root_prefix es = single_root (scan_roots none (normalized es))

unfoldable pub strip_root_prefix : Text → Text → Text
strip_root_prefix path prefix = if has_prefix path prefix then trim_prefix path prefix else path

-- A part that `filepath.Clean` drops.
abbrev pub is_idle : Text → Bool
is_idle part = is_empty part || text_eq part (lit ".")

abbrev pub is_up : Text → Bool
is_up part = text_eq part (lit "..")

-- `filepath.Clean` of a relative path: how many times it leaves the folder where it starts, and the
-- parts it ends with, the last one first.
unfoldable pub clean_relative : ℕ → List Text → List Text → ℕ × List Text
clean_relative ups stack [] = (ups, stack)
clean_relative ups stack (part ∷ parts) =
    let idle = clean_relative ups stack parts in
    let up : ℕ × List Text = elim stack [
      | [] ↦ clean_relative (suc ups) [] parts
      | _ ∷ below ↦ clean_relative ups below parts
    ] in
    let down = clean_relative ups (part ∷ stack) parts in
    if is_idle part then idle else if is_up part then up else down

-- A path that starts at the root cleans to no `..`.
unfoldable pub is_unsafe_relative_path : Text → Bool
is_unsafe_relative_path path =
    let (ups, stack) = clean_relative 0 [] (split b'/' path) in
    if has_prefix path (lit "/") then false else ltb 0 ups

-- `filepath.Clean` from the root, where `..` stays there; `stack` has the last part first.
unfoldable pub resolve : List Text → List Text → List Text
resolve stack [] = stack
resolve stack (part ∷ parts) =
    let idle = resolve stack parts in
    let up : List Text = elim stack [ [] ↦ resolve [] parts | _ ∷ below ↦ resolve below parts ] in
    let down = resolve (part ∷ stack) parts in
    if is_idle part then idle else if is_up part then up else down

-- `filepath.Join(destDir, relative)`.
unfoldable pub join : List Text → Text → List Text
join dest relative = reverse (resolve (reverse dest) (split b'/' relative))

-- `targetAbs == baseAbs`, or `targetAbs` goes on behind `baseAbs` and a separator.
unfoldable pub is_within_base : List Text → List Text → Bool
is_within_base target [] = true
is_within_base [] (b ∷ base) = false
is_within_base (t ∷ target) (b ∷ base) = text_eq t b && is_within_base target base

-- `writableMode`, on the nine permission bits: 0o700 = 448 or 0o600 = 384 are set.
abbrev or_bit : ℕ → ℕ → ℕ
or_bit bit mode = if (mode / bit) % 2 == 0 then mode + bit else mode

unfoldable pub writable_mode : ℕ → Bool → ℕ
writable_mode mode is_dir =
    let perm = mode % 512 in
    if is_dir
    then or_bit 64 (or_bit 128 (or_bit 256 (if perm == 0 then 0o755 else perm)))
    else or_bit 128 (or_bit 256 (if perm == 0 then 0o644 else perm))

-- A folder made or a file written, with its permissions.
pub data Write : Type 0 where
  make_dir : List Text → ℕ → Write
  write_file : List Text → Text → ℕ → Write

pub record Extraction : Type 0 where
  pub writes : List Write
  pub is_failed : Bool

abbrev pub finished : Extraction
finished = record { writes = []; is_failed = false }

abbrev pub blocked : Extraction
blocked = record { writes = []; is_failed = true }

abbrev pub before_all : Write → Extraction → Extraction
before_all w x = record x { writes = w ∷ x.writes }

-- The name under which an entry is extracted; empty when the entry is passed over.
unfoldable pub relative_name : Option Text → ZipEntry → Text
relative_name root e =
    let name = normalize_zip_path e.name in
    elim root [
      | none ↦ name
      | some prefix ↦ if is_empty name then name else strip_root_prefix name prefix
    ]

-- The second loop, on a folder that exists, behind `current` files. An entry whose write fails is
-- left out of the writes. A `progress` that returns false ends the loop with the context's error,
-- which is nil: the context was alive at the start of the round.
unfoldable pub extract_all : List Text → Option Text → (ℕ → Bool) → ℕ → List ZipEntry → Extraction
extract_all dest root progress current [] = finished
extract_all dest root progress current (e ∷ es) =
    let relative = relative_name root e in
    let target = join dest relative in
    let skip = extract_all dest root progress current es in
    let count = extract_all dest root progress (suc current) es in
    let with_dir = before_all (make_dir target (writable_mode e.mode true)) skip in
    let with_file = before_all (write_file target e.body (writable_mode e.mode false)) count in
    if e.is_cancelled
    then blocked
    else if is_empty relative
    then skip
    else if is_unsafe_relative_path relative
    then blocked
    else if not (is_within_base target dest)
    then blocked
    else if e.is_dir
    then (if e.write_fails then blocked else with_dir)
    else if not (progress (suc current))
    then finished
    else if e.write_fails
    then blocked
    else with_file

-- The number of files, for `progress`.
unfoldable pub count_files : List ZipEntry → ℕ
count_files [] = 0
count_files (e ∷ es) = let rest = count_files es in if e.is_dir then rest else suc rest

unfoldable pub extract_zip_safe : List Text → Bool → (ℕ → ℕ → Bool) → List ZipEntry → Extraction
extract_zip_safe dest flatten_single_root progress es =
    extract_all dest (if flatten_single_root then detect_single_root_prefix es else none)
      (λ current. progress current (count_files es)) 0 es
