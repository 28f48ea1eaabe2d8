-- ===== src/Update/Download.antt =====
-- DownloadToFile of the update checker (internal/update/checker.go): the download goes to a `.part`
-- file, which a rename puts in the place of the target.
use lightroom_sync.Common.{
  ℕ, Bool, true, false, ◌||◌, not, Option, none, some, List, [], ◌∷◌, ◌++◌, ◌&&◌, leb, ltb, length,
  if◌then◌else◌,
}
use lightroom_sync.Common.Int64.{add64}
use lightroom_sync.Common.Text.{Text, is_empty, trim_space}

-- What the server and the file system make of a download. `status` is none where the request fails;
-- `chunks` are what the body's reads give, `total` is its announced length.
pub record Transfer : Type 0 where
  pub status : Option ℕ
  pub total : ℕ
  pub chunks : List Text
  pub mkdir_fails : Bool
  pub create_fails : Bool
  pub copy_fails : Bool
  pub close_fails : Bool
  pub rename_fails : Bool

-- The target, and the `.part` file beside it.
pub record TargetFiles : Type 0 where
  pub target : Option Text
  pub part : Option Text

-- The files behind a call, what `onProgress` was called with, and whether an error was returned.
pub record Download : Type 0 where
  pub files : TargetFiles
  pub progress : List (ℕ × ℕ)
  pub is_failed : Bool

unfoldable pub joined : List Text → Text
joined [] = []
joined (c ∷ cs) = c ++ joined cs

-- The calls of `onProgress` behind `downloaded` bytes.
unfoldable pub reports : ℕ → ℕ → List Text → List (ℕ × ℕ)
reports downloaded total [] = []
reports downloaded total (c ∷ cs) =
    let sum = add64 downloaded (length c) in (sum, total) ∷ reports sum total cs

abbrev pub is_success : ℕ → Bool
is_success status = leb 200 status && ltb status 300

abbrev refused : TargetFiles → Download
refused files = record { files = files; progress = []; is_failed = true }

-- `DownloadToFile` from the answer on.
unfoldable pub receive_file : Transfer → ℕ → TargetFiles → Download
unfolding reports joined
receive_file t status files =
    let progress = reports 0 t.total t.chunks in
    if not (is_success status) || t.mkdir_fails || t.create_fails
    then refused files
    else if t.copy_fails || t.close_fails || t.rename_fails
    then record { files = record files { part = none }; progress = progress; is_failed = true }
    else record {
      files = record { target = some (joined t.chunks); part = none };
      progress = progress;
      is_failed = false;
    }

unfoldable pub download_to_file : Transfer → Text → Text → TargetFiles → Download
unfolding receive_file
download_to_file t asset_url destination files =
    if is_empty (trim_space asset_url) || is_empty (trim_space destination)
    then refused files
    else elim t.status [ none ↦ refused files | some status ↦ receive_file t status files ]
