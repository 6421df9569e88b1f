-- ===== src/Update/Tests.antt =====
-- Updates with src/launcher/updater.cpp.
use rift_lift.Common.{
  true, false, [], ◌∷◌, ◌++◌, Option, none, some, Text, codes, replicate, contains, text_eq,
  starts_with, Result, ok, ◌≡◌, refl, ap, sym,
}
use rift_lift.Names.{is_digit}
use rift_lift.Rules.Strings.{lower, to_lower, split, drop_while, drop_while_end, ends_with}
use rift_lift.Exec.{pure, lift, gets, check, ◌>>=◌}
use rift_lift.Update.Release.{
  Asset, Url, appimage, domain, allowed_release, find_asset, pick, is_xdigit, trailing, sum_of,
  expected_sum,
}
use rift_lift.Update.Fetch.{Network, fetch, Images, Machine, apply}
use rift_lift.Update.Sums.{Lists, fetch-Lists}
use rift_lift.Update.Replaced.{Whole, apply-Whole}

abbrev hash : Text
hash = replicate 64 b'A'

abbrev sums_file : Text
sums_file = codes "short\n" ++ (hash ++ codes " *setup.exe\r\n")

abbrev network : Network
network = record {
  sums_text = ok sums_file;
  folder = ok tt;
  download = λ old. (ok tt, some (codes "data"));
  sha256 = λ file. hash;
  removes = true;
}

abbrev name : Text
name = codes "setup.exe"

abbrev fetched : Option Text
fetched = some (codes "data")

fetch-setup : fetch network name none ≡ (ok tt, fetched)
unfolding fetch expected_sum sum_of split drop_while drop_while_end lower to_lower is_xdigit
    is_digit text_eq ◌>>=◌ lift check gets pure
fetch-setup = refl

fetch-Lists_example :
    (text : Text) × (network.sums_text ≡ ok text)
    × (line : Text) × (contains (split b'\n' text) line ≡ true)
    × Lists name (drop_while_end trailing line) (lower (network.sha256 fetched))
fetch-Lists_example = fetch-Lists network name none fetched fetch-setup

abbrev disk : Machine
disk = record {
  image = some (codes "/home/user/RiftLift.AppImage");
  copy_leaves = λ file. (ok tt, file);
  permits = ok tt;
  renamed = ok tt;
  removes = true;
  starts = ok tt;
}

abbrev images : Images
images = record {
  file = some (codes "new");
  staged = none;
  target = some (codes "old");
  started = false;
}

copies : (copy : Option Text) → disk.copy_leaves images.file ≡ (ok tt, copy) → copy ≡ images.file
copies copy e = ap (λ r. r.1) (sym e)

apply-Whole_example : Whole images (apply disk appimage images)
apply-Whole_example = apply-Whole disk images copies

-- Only files of the release's hosts are picked.
abbrev evil_url : Text → Result Url
evil_url url =
    ok (record { scheme = codes "https"; user = []; password = []; port = []; host = url })

abbrev asset : Text → Asset
asset url = record { name = codes "RiftLift-1.2-linux-x86_64.AppImage"; url = url; size = 0 }

pick-hosts :
    pick evil_url
      (some (
        none
        ∷ some (asset (codes "notgithubusercontent.com"))
        ∷ some (asset (codes "objects.githubusercontent.com"))
        ∷ []))
      appimage
    ≡ some (asset (codes "objects.githubusercontent.com"))
unfolding pick find_asset allowed_release domain text_eq starts_with ends_with
pick-hosts = refl
