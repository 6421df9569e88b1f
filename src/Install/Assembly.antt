-- ===== src/Install/Assembly.antt =====
-- The last part of `Manager::install` (src/common/download/manager.cpp): putting the files together
-- from their segments, and what marks a complete install.
use rift_lift.Common.{
  Bool, true, false, not, List, [], ◌∷◌, ◌++◌, none, some, Text, codes, Result, ok, err,
  if◌then◌else◌,
}
use rift_lift.Rules.Env.{Env, lookup, insert, erase}
use rift_lift.Build.Manifest.{File, Segment, Plan}
use rift_lift.Install.Planning.{Disk, Prepared, present_at, is_right}
use rift_lift.Install.Needs.{keys}

-- The folder and the cache at the end, or where an exception was thrown.
pub data Outcome : Type 0 where
  done : Disk → Outcome
  failed : Disk → Text → Outcome

abbrev pub marker : Text
marker = codes ".riftlift-download"

abbrev pub manifest_name : Text
manifest_name = codes "manifest.json"

abbrev pub part_name : Text → Text
part_name name = name ++ codes ".part"

-- The folder is marked while it has no manifest.
unfoldable pub mark : Plan → Disk → Disk
mark plan disk =
    if present_at manifest_name disk.dir
    then disk
    else record disk { dir = insert marker plan.binary_id disk.dir }

abbrev with_prefix : Text → Text × Bool → Text × Bool
with_prefix s (rest, complete) = (s ++ rest, complete)

-- What is written of a file, and whether all of its segments were there.
unfoldable pub join_segments : Env → List Segment → Text × Bool
join_segments cache [] = ([], true)
join_segments cache (s ∷ ss) = elim (lookup s.sha256 cache) [
  | none ↦ ([], false)
  | some contents ↦ with_prefix contents (join_segments cache ss)
]

abbrev pub hashes_of : List Segment → List Text
hashes_of [] = []
hashes_of (s ∷ ss) = s.sha256 ∷ hashes_of ss

-- `fs::remove` whose error is passed over: the name goes where it can be removed.
abbrev pub remove_as : (Text → Bool) → Text → Env → Env
remove_as can name files = if can name then erase name files else files

unfoldable pub remove_each : (Text → Bool) → List Text → Env → Env
remove_each can [] files = files
remove_each can (k ∷ ks) files = remove_each can ks (remove_as can k files)

-- `digest::sha256`; whether a stop is requested when a file comes up, whether a file of the folder
-- can be written to its end, and which names of the folder and of the cache can be removed.
module _ (sha256 : Text → Text) (within : Text → Bool)
    (stops writable removes drops : Text → Bool) where
  abbrev pub rename_part : File → Text → Disk → Disk
  rename_part f contents disk = record disk {
    dir = insert f.name contents (erase (part_name f.name) disk.dir);
  }

  abbrev pub finish_file : File → Disk → Text × Bool → Outcome
  finish_file f disk (contents, complete) =
      let written = record disk { dir = insert (part_name f.name) contents disk.dir } in
      if not complete
      then failed written (codes "A downloaded segment is missing. Resume to fetch it again.")
      else if not (writable f.name)
      then failed written (codes "Could not write " ++ (f.name ++ codes ". Check free space."))
      else if is_right sha256 within f contents
      then done (rename_part f contents written)
      else failed
          (record {
            dir = remove_as removes (part_name f.name) written.dir;
            cache = remove_each drops (hashes_of f.segments) written.cache;
          })
          (codes "Validation failed while assembling " ++ (f.name ++ codes ". Resume to retry."))

  unfoldable pub assemble_file : File → Disk → Outcome
  assemble_file f disk = finish_file f disk (join_segments disk.cache f.segments)

  unfoldable pub assemble_all : List File → Disk → Outcome
  assemble_all [] disk = done disk
  assemble_all (f ∷ fs) disk = elim (stops f.name) [
    | true ↦ failed disk (codes "Transfer paused.")
    | false ↦ elim (assemble_file f disk) [
      | done next ↦ assemble_all fs next
      | failed disk' what ↦ failed disk' what
    ]
  ]

  -- The manifest is in its place, and the mark is removed.
  abbrev pub manifest_placed : Text → Disk → Disk
  manifest_placed manifest disk = record disk {
    dir = remove_as removes marker (insert manifest_name manifest disk.dir);
  }

  abbrev pub tell_installed : Result (Unit {0}) → Prepared → Disk → Outcome
  tell_installed (err what) p disk = failed disk what
  tell_installed (ok _) p disk =
      done (record disk { cache = remove_each drops (keys p.segments) disk.cache })

  -- The manifest goes in last. `manifest` is what the store sends; `installed` is what
  -- `services_.installed` does, which may throw.
  unfoldable pub complete : Result Text → Result (Unit {0}) → Prepared → Disk → Outcome
  complete (err what) installed p disk = failed disk what
  complete (ok manifest) installed p disk =
      if writable manifest_name
      then tell_installed installed p (manifest_placed manifest disk)
      else failed disk (codes "Could not save local file. Check free space and folder permissions.")

  -- What `install` does when no segment is missing any more.
  unfoldable pub build : Result Text → Result (Unit {0}) → Prepared → Disk → Outcome
  build manifest installed p disk = elim (assemble_all p.needed disk) [
    | done next ↦ complete manifest installed p next
    | failed disk' what ↦ failed disk' what
  ]
