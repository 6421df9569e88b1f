-- ===== src/Update/Fetch.antt =====
-- `fetch` and `apply` of src/launcher/updater.cpp. The network, the digest and what the disk refuses
-- are parameters.
use rift_lift.Common.{
  Bool, true, false, not, Option, none, some, Text, codes, is_empty, text_eq, ◌++◌, Result, ok, err,
  if◌then◌else◌,
}
use rift_lift.Rules.Strings.{lower}
use rift_lift.Exec.{Exec, pure, throw, lift, gets, modify, check, ◌>>=◌, ◌>>◌}
use rift_lift.Update.Release.{Method, page, installer, appimage, expected_sum}

-- What the calls of `fetch` meet: the text of the sums, the folder, the download with what it leaves in
-- the file, the SHA-256 digest of the file, and whether a file can be removed.
pub record Network : Type 0 where
  pub sums_text : Result Text
  pub folder : Result (Unit {0})
  pub download : Option Text → Result (Unit {0}) × Option Text
  pub sha256 : Option Text → Text
  pub removes : Bool

abbrev pub mismatch_error : Text
mismatch_error = codes "The downloaded update did not match its checksum. Try again."

abbrev pub remove_file : Network → Option Text → Option Text
remove_file net file = if net.removes then none else file

abbrev pub compare_sum : Network → Text → Exec (Option Text) (Unit {0})
compare_sum net expected = gets (λ file. text_eq (lower (net.sha256 file)) expected) >>= λ same.
    if same then pure tt else (modify (remove_file net) >> throw mismatch_error)

-- The state is what stands under the file's name in the folder.
unfoldable pub fetch : Network → Text → Exec (Option Text) (Unit {0})
fetch net name = do
  text ← lift net.sums_text
  let expected = expected_sum text name
  check (not (is_empty expected))
      (codes "The release does not list a checksum for " ++ (name ++ codes "."))
  lift net.folder
  net.download
  compare_sum net expected

-- The files of an update: the one that was downloaded, its copy next to the launcher, the launcher, and
-- whether it was started.
pub record Images : Type 0 where
  pub file : Option Text
  pub staged : Option Text
  pub target : Option Text
  pub started : Bool

pub record Machine : Type 0 where
  pub image : Option Text
  pub copy_leaves : Option Text → Result (Unit {0}) × Option Text
  pub permits : Result (Unit {0})
  pub renamed : Result (Unit {0})
  pub removes : Bool
  pub starts : Result (Unit {0})

abbrev pub copy_file : Machine → Exec Images (Unit {0})
copy_file disk s = let (r, staged) = disk.copy_leaves s.file in (r, record s { staged = staged })

abbrev pub rename_staged : Result (Unit {0}) → Exec Images (Unit {0})
rename_staged (ok u) s = (ok tt, record s { target = s.staged; staged = none })
rename_staged (err what) s = (err what, s)

abbrev pub start_detached : Result (Unit {0}) → Exec Images (Unit {0})
start_detached (ok u) s = (ok tt, record s { started = true })
start_detached (err what) s = (err what, s)

abbrev pub remove_download : Bool → Images → Images
remove_download true s = record s { file = none }
remove_download false s = s

abbrev pub apply_image : Machine → Option Text → Exec Images (Unit {0})
apply_image disk none = throw (codes "Could not find this AppImage.")
apply_image disk (some image) =
    if is_empty image then throw (codes "Could not find this AppImage.") else (do
      copy_file disk
      lift disk.permits
      rename_staged disk.renamed
      modify (remove_download disk.removes)
      start_detached disk.starts)

unfoldable pub apply : Machine → Method → Exec Images (Unit {0})
apply disk installer = start_detached disk.starts
apply disk page = throw (codes "This copy of RiftLift updates from the release page.")
apply disk appimage = apply_image disk disk.image
