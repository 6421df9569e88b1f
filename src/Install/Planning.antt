-- ===== src/Install/Planning.antt =====
-- The first part of `Manager::install` (src/common/download/manager.cpp): which files are to be
-- rebuilt, which segments to be fetched, and whether there is room for them.
use rift_lift.Common.{
  ℕ, ◌+◌, ◌*◌, ◌%◌, ◌^◌, Bool, true, false, not, ◌&&◌, List, [], ◌∷◌, none, some, Text, codes,
  text_eq, ltb, ◌==◌, length, all, Result, ok, require, ◌>>=◌, ◌>>◌, if◌then◌else◌,
}
use rift_lift.Rules.Env.{Env, lookup}
use rift_lift.Build.Manifest.{File, Segment, Plan}

-- The game's folder, by names below it, and the cache of segments, by hash. Files that are written
-- in the cache before they are renamed have other names, and are left out.
pub record Disk : Type 0 where
  pub dir : Env
  pub cache : Env

-- `fs::space_info`
pub record Space : Type 0 where
  pub capacity : ℕ
  pub free : ℕ
  pub available : ℕ

abbrev pub word : ℕ
word = 2 ^ 64

abbrev pub margin : ℕ
margin = 256 * 1024 * 1024

abbrev pub present_at : Text → Env → Bool
present_at name files = elim (lookup name files) [ none ↦ false | some contents ↦ true ]

unfoldable pub add_segment : Segment → List (Text × ℕ) → List (Text × ℕ)
add_segment s [] = (s.sha256, s.compressed) ∷ []
add_segment s ((sha, compressed) ∷ rest) =
    if text_eq sha s.sha256
    then (sha, compressed) ∷ rest
    else (sha, compressed) ∷ add_segment s rest

-- `segments.emplace` for those of a file
unfoldable pub add_segments : List Segment → List (Text × ℕ) → List (Text × ℕ)
add_segments [] map = map
add_segments (s ∷ ss) map = add_segments ss (add_segment s map)

-- The map from each needed segment to its compressed size; the order of its keys is left out.
unfoldable pub segments_of_files : List File → List (Text × ℕ) → List (Text × ℕ)
segments_of_files [] map = map
segments_of_files (f ∷ fs) map = segments_of_files fs (add_segments f.segments map)

abbrev pub is_sized : List (Text × ℕ) → Bool
is_sized segments = all (λ (sha, compressed). ltb 0 compressed) segments

-- The segments that the cache lacks, and what they count for.
unfoldable pub to_fetch : Env → List (Text × ℕ) → List (Text × ℕ)
to_fetch cache [] = []
to_fetch cache ((sha, compressed) ∷ rest) =
    if present_at sha cache then to_fetch cache rest else (sha, compressed) ∷ to_fetch cache rest

unfoldable pub total_of : Bool → List (Text × ℕ) → ℕ
total_of sized [] = 0
total_of sized ((sha, compressed) ∷ rest) =
    ((if sized then compressed else 1) + total_of sized rest) % word

unfoldable pub remaining_of : List File → ℕ
remaining_of [] = 0
remaining_of (f ∷ fs) = (f.size + remaining_of fs) % word

abbrev pub shares_disk : Space → Space → Bool
shares_disk games cache = games.capacity == cache.capacity && games.free == cache.free

-- The two checks of the free space, in 64-bit arithmetic; the message's number is left out.
unfoldable pub check_space : Space → Space → ℕ → ℕ → Result (Unit {0})
check_space games cache remaining fetched =
    let shared = shares_disk games cache in
    let games_needed = (remaining + (if shared then fetched else 0)) % word in
    require (not (ltb games.available ((games_needed + margin) % word)))
      (codes "Not enough free space")
    >> require (not (not shared && ltb cache.available ((fetched + margin) % word)))
        (codes "Not enough free space for the download")

pub record Prepared : Type 0 where
  pub needed : List File
  pub segments : List (Text × ℕ)
  pub fetch : List (Text × ℕ)
  pub sized : Bool
  pub remaining : ℕ
  pub download_total : ℕ

-- `digest::sha256`, and `paths::within` for a name below the game's folder.
module _ (sha256 : Text → Text) (within : Text → Bool) where
  -- A file that has the size and the hash of the plan.
  unfoldable pub is_right : File → Text → Bool
  is_right f contents = length contents == f.size && text_eq (sha256 contents) f.sha256

  abbrev pub is_there : File → Env → Bool
  is_there f dir = elim (lookup f.name dir) [ none ↦ false | some contents ↦ is_right f contents ]

  unfoldable pub needed_files : Env → List File → Result (List File)
  needed_files dir [] = ok []
  needed_files dir (f ∷ fs) = do
    require (within f.name) (codes "A file path escapes the game folder.")
    rest ← needed_files dir fs
    ok (if is_there f dir then rest else f ∷ rest)

  unfoldable pub prepare : Disk → Plan → Space → Space → Result Prepared
  prepare disk plan games_space cache_space = do
    needed ← needed_files disk.dir plan.files
    let segments = segments_of_files needed []
    let sized = is_sized segments
    let fetch = to_fetch disk.cache segments
    let download_total = total_of sized fetch
    let remaining = remaining_of needed
    check_space games_space cache_space remaining (if sized then download_total else 0)
    ok (record {
      needed = needed;
      segments = segments;
      fetch = fetch;
      sized = sized;
      remaining = remaining;
      download_total = download_total;
    })
