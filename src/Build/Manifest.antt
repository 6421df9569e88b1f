-- ===== src/Build/Manifest.antt =====
-- `File`, `Plan` and `parse_manifest` of src/common/meta/store.h and store.cpp. What the calls of the
-- JSON library say of the manifest is the argument: a string, or nothing where there is none.
use rift_lift.Common.{
  ℕ, Bool, true, false, not, ◌&&◌, List, [], ◌∷◌, ◌++◌, Option, none, some, Text, codes, contains,
  ◌==◌, Result, ok, err, require, ◌>>=◌, ◌>>◌,
}
use rift_lift.Rules.Strings.{lower}
use rift_lift.Build.Names.{sha256_hex, safe_relative}

pub record Segment : Type 0 where
  pub sha256 : Text
  pub compressed : ℕ

pub record File : Type 0 where
  pub name : Text
  pub sha256 : Text
  pub size : ℕ
  pub segments : List Segment

pub record Plan : Type 0 where
  pub app_id : Text
  pub binary_id : Text
  pub package_name : Text
  pub version : Text
  pub version_code : Text
  pub name : Text
  pub canonical : Text
  pub launch_file : Text
  pub launch_parameters : Text
  pub files : List File

-- An element of "segments": its second element as a string, and its third as an unsigned number.
pub record SegmentJson : Type 0 where
  pub sha256 : Option Text
  pub compressed : Option ℕ

pub record FileJson : Type 0 where
  pub sha256 : Text
  pub size : Option ℕ
  pub segments : Option (List SegmentJson)

pub record ManifestJson : Type 0 where
  pub version : Text
  pub version_code : Text
  pub canonical : Text
  pub launch_file : Text
  pub launch_parameters : Text
  pub files : Option (List (Text × FileJson))

abbrev pub or_zero : Option ℕ → ℕ
or_zero none = 0
or_zero (some n) = n

abbrev pub segment_of : Text → SegmentJson → Option Text → Result Segment
segment_of name j none =
    err (codes "The build manifest has an invalid segment for " ++ (name ++ codes "."))
segment_of name j (some sha) =
    require (sha256_hex sha)
      (codes "The build manifest has an invalid segment for " ++ (name ++ codes "."))
    >> ok (record { sha256 = sha; compressed = or_zero j.compressed })

unfoldable pub parse_segments : Text → List SegmentJson → Result (List Segment)
parse_segments name [] = ok []
parse_segments name (j ∷ js) = do
  segment ← segment_of name j j.sha256
  segments ← parse_segments name js
  ok (segment ∷ segments)

abbrev no_segments : Text → Text
no_segments name = codes "The build manifest has no segments for " ++ (name ++ codes ".")

abbrev pub segments_of : Text → Option (List SegmentJson) → Result (List Segment)
segments_of name none = err (no_segments name)
segments_of name (some js) = parse_segments name js

abbrev pub is_none {ℓ} : {A : Type ℓ} → Option A → Bool
is_none none = true
is_none (some a) = false

abbrev pub no_list : List Segment → Bool
no_list [] = true
no_list (s ∷ ss) = false

-- The body of the loop behind the check of the name.
unfoldable pub parse_file : Text → FileJson → Result File
parse_file name j = do
  require (sha256_hex j.sha256 && not (is_none j.size))
      (codes "The build manifest has invalid details for " ++ (name ++ codes "."))
  segments ← segments_of name j.segments
  require (not (not (or_zero j.size == 0) && no_list segments)) (no_segments name)
  ok (record { name = name; sha256 = j.sha256; size = or_zero j.size; segments = segments })

-- The loop; `names` holds the names of the files before, in lower case.
unfoldable pub parse_files : List Text → List (Text × FileJson) → Result (List File)
parse_files names [] = ok []
parse_files names ((name0, j) ∷ items) = do
  name ← safe_relative name0
  require (not (contains names (lower name)))
      (codes "The build manifest lists " ++ (name ++ codes " twice."))
  file ← parse_file name j
  files ← parse_files (lower name ∷ names) items
  ok (file ∷ files)

abbrev pub files_of : Option (List (Text × FileJson)) → Result (List File)
files_of none = err (codes "The build manifest contains no file list.")
files_of (some items) = parse_files [] items

unfoldable pub parse_manifest : Text → Text → ManifestJson → Result Plan
parse_manifest app_id binary_id m = do
  files ← files_of m.files
  ok (record {
    app_id = app_id;
    binary_id = binary_id;
    package_name = [];
    version = m.version;
    version_code = m.version_code;
    name = [];
    canonical = m.canonical;
    launch_file = m.launch_file;
    launch_parameters = m.launch_parameters;
    files = files;
  })
