-- ===== src/Install/Tests.antt =====
-- A small build: one file that is there already, and one of two segments, of which one is fetched.
use rift_lift.Common.{
  ◌⊎◌, ℕ, zero, suc, ◌^◌, Bool, true, false, List, [], ◌∷◌, none, some, Text, codes, text_eq, All,
  length, replicate, keep, not, ok, err, ◌≡◌, refl, all, ◌≤◌,
}
use rift_lift.Rules.Env.{Env, lookup, insert, erase}
use rift_lift.Rules.Strings.{lower, split, ends_with}
use rift_lift.Build.Names.{safe_name, safe_relative, sha256_hex, is_reserved}
use rift_lift.Build.Contained.{walk, safe_relative_lem}
use rift_lift.Build.Manifest.{
  File, Plan, SegmentJson, ManifestJson, parse_segments, parse_file, parse_files, parse_manifest,
}
use rift_lift.Build.Accepted.{AcceptedFile, Distinct, parse_manifest-Accepted}
use rift_lift.Install.Planning.{
  Disk, Space, Prepared, prepare, is_there, is_right, needed_files, segments_of_files, add_segments,
  add_segment, to_fetch, total_of, remaining_of, check_space,
}
use rift_lift.Install.Needs.{keys, Available, prepare-covers}
use rift_lift.Install.Retry.{Answer, inflated, fetch_segment, fetch_segment_lem, GivesUp}
use rift_lift.Install.Assembly.{
  remove_each, done, marker, manifest_name, mark, build, assemble_all, assemble_file, complete,
  join_segments,
}
use rift_lift.Install.Complete.{NotOurs, install_verified}
use rift_lift.Install.Untouched.{Failed, Same, OursSame, build_leaves}
use mathlib.Core.List.{reverse}

-- A stand-in for the hash: the first byte, 64 times a digit.
abbrev digit_of : Text → ℕ
digit_of [] = b'0'
digit_of (c ∷ cs) = c

abbrev pub hash : Text → Text
hash s = replicate 64 (digit_of s)

abbrev pub anywhere : Text → Bool
anywhere name = true

abbrev never : Text → Bool
never name = false

abbrev segment_json : ℕ → ℕ → SegmentJson
segment_json digit compressed = record {
  sha256 = some (replicate 64 digit);
  compressed = some compressed;
}

abbrev manifest : ManifestJson
manifest = record {
  version = codes "1.0";
  version_code = codes "7";
  canonical = codes "game";
  launch_file = codes "game.exe";
  launch_parameters = [];
  files = some (
      (
        codes "game.exe",
        record {
          sha256 = replicate 64 b'1';
          size = some 3;
          segments = some (segment_json b'1' 3 ∷ []);
        },
      )
      ∷ (
        codes "data\\a.pak",
        record {
          sha256 = replicate 64 b'2';
          size = some 4;
          segments = some (segment_json b'2' 2 ∷ segment_json b'3' 2 ∷ []);
        },
      )
      ∷ []);
}

abbrev files : List File
files =
    record {
      name = codes "game.exe";
      sha256 = replicate 64 b'1';
      size = 3;
      segments = record { sha256 = replicate 64 b'1'; compressed = 3 } ∷ [];
    }
    ∷ record {
      name = codes "data/a.pak";
      sha256 = replicate 64 b'2';
      size = 4;
      segments =
          record { sha256 = replicate 64 b'2'; compressed = 2 }
          ∷ record { sha256 = replicate 64 b'3'; compressed = 2 }
          ∷ [];
    }
    ∷ []

abbrev pub plan : Plan
plan = record {
  app_id = codes "1234567";
  binary_id = codes "99";
  package_name = [];
  version = codes "1.0";
  version_code = codes "7";
  name = [];
  canonical = codes "game";
  launch_file = codes "game.exe";
  launch_parameters = [];
  files = files;
}

parse_manifest-manifest : parse_manifest (codes "1234567") (codes "99") manifest ≡ ok plan
unfolding parse_manifest parse_files parse_file parse_segments safe_relative
    rift_lift.Common.starts_with split safe_name ends_with text_eq rift_lift.Common.cut lower
    sha256_hex rift_lift.Names.is_digit
parse_manifest-manifest = refl

parse_manifest-Accepted_example : All AcceptedFile plan.files × Distinct plan.files
parse_manifest-Accepted_example =
    parse_manifest-Accepted (codes "1234567") (codes "99") manifest plan parse_manifest-manifest

abbrev pub disk : Disk
disk = record {
  dir = (codes "game.exe", codes "1ab") ∷ (codes "mods/own.txt", codes "mine") ∷ [];
  cache = (replicate 64 b'3', codes "3y") ∷ [];
}

abbrev pub games_disk : Space
games_disk = record { capacity = 10 ^ 12; free = 10 ^ 10; available = 10 ^ 10 }

abbrev pub prepared : Prepared
prepared = record {
  needed =
      record {
        name = codes "data/a.pak";
        sha256 = replicate 64 b'2';
        size = 4;
        segments =
            record { sha256 = replicate 64 b'2'; compressed = 2 }
            ∷ record { sha256 = replicate 64 b'3'; compressed = 2 }
            ∷ [];
      }
      ∷ [];
  segments = (replicate 64 b'2', 2) ∷ (replicate 64 b'3', 2) ∷ [];
  fetch = (replicate 64 b'2', 2) ∷ [];
  sized = true;
  remaining = 4;
  download_total = 2;
}

pub prepare-disk : prepare hash anywhere (mark plan disk) plan games_disk games_disk ≡ ok prepared
unfolding prepare mark needed_files is_right segments_of_files add_segments add_segment to_fetch
    total_of remaining_of check_space lookup insert text_eq
prepare-disk = refl

prepare-covers_example :
    (all (λ f. anywhere f.name) plan.files ≡ true)
    × (prepared.needed ≡ keep (λ f. not (is_there hash anywhere f (mark plan disk).dir)) plan.files)
    × All
        (λ f. All (Available (mark plan disk).cache (keys prepared.fetch)) f.segments)
        prepared.needed
prepare-covers_example =
    prepare-covers hash anywhere (mark plan disk) plan games_disk games_disk prepared prepare-disk

-- The first attempt gives bytes with a wrong hash, the second one the right ones.
abbrev pub answers : ℕ → Answer
answers zero = inflated (codes "9x")
answers (suc n) = inflated (codes "2x")

fetch_segment_lem_example :
    let (r, waits) = fetch_segment hash answers (λ n. false) (replicate 64 b'2') in
    ((clear : Text) → r ≡ ok clear → hash clear ≡ replicate 64 b'2')
    × (length waits ≤ 4)
    × ((what : Text) → r ≡ err what → GivesUp hash answers (λ n. false) (length waits))
fetch_segment_lem_example = fetch_segment_lem hash answers (λ n. false) (replicate 64 b'2')

abbrev transferred : Env
transferred = (replicate 64 b'2', codes "2x") ∷ (replicate 64 b'3', codes "3y") ∷ []

installed : Disk
installed = record {
  dir =
      (codes "game.exe", codes "1ab")
      ∷ (codes "mods/own.txt", codes "mine")
      ∷ (codes "data/a.pak", codes "2x3y")
      ∷ (manifest_name, codes "{}")
      ∷ [];
  cache = [];
}

build-installed :
    build hash anywhere never anywhere anywhere anywhere
      (ok (codes "{}"))
      (ok tt)
      prepared
      (record (mark plan disk) { cache = transferred })
    ≡ done installed
unfolding build installed assemble_all assemble_file complete mark join_segments is_right lookup
    insert erase remove_each text_eq
build-installed = refl

not_ours : NotOurs plan.files
unfolding text_eq
not_ours = ((refl, refl), ((refl, refl), tt))

install_verified_example :
    All (λ f. is_there hash anywhere f installed.dir ≡ true) plan.files
    × ((text : Text) → ok (codes "{}") ≡ ok text → lookup manifest_name installed.dir ≡ some text)
    × ((lookup marker installed.dir ≡ none) ⊎ (anywhere marker ≡ false))
install_verified_example =
    install_verified hash anywhere never anywhere anywhere anywhere (codes "1234567") (codes "99")
      manifest plan disk games_disk games_disk prepared transferred (ok (codes "{}")) (ok tt)
      installed parse_manifest-manifest not_ours prepare-disk build-installed

own_file-IsOther : All (λ f. text_eq f.name (codes "mods/own.txt") ≡ false) prepared.needed
unfolding text_eq
own_file-IsOther = (refl, tt)

own_file_unreserved : is_reserved (codes "mods/own.txt") ≡ false
unfolding text_eq ends_with lower rift_lift.Common.starts_with
own_file_unreserved = refl

build_leaves_example :
    let end =
      build hash anywhere never never anywhere anywhere
        (ok (codes "{}"))
        (ok tt)
        prepared
        (mark plan disk) in
    (text_eq manifest_name (codes "mods/own.txt") ≡ false
      → text_eq marker (codes "mods/own.txt") ≡ false
      → Same hash anywhere never never anywhere anywhere
          (codes "mods/own.txt")
          (mark plan disk)
          end)
    × (Failed end
        → OursSame hash anywhere never never anywhere anywhere
            (codes "mods/own.txt")
            (ok (codes "{}"))
            (ok tt)
            prepared
            (mark plan disk))
build_leaves_example =
    build_leaves hash anywhere never never anywhere anywhere (ok (codes "{}")) (ok tt) prepared
      (mark plan disk) (codes "mods/own.txt") own_file-IsOther own_file_unreserved

safe-own_file : safe_relative (codes "mods\\own.txt") ≡ ok (codes "mods/own.txt")
unfolding safe_relative rift_lift.Common.starts_with split safe_name ends_with text_eq
    rift_lift.Common.cut lower
safe-own_file = refl

safe_relative_lem_example :
    (walk [] (split b'/' (codes "mods/own.txt"))
      ≡ some (reverse (split b'/' (codes "mods/own.txt"))))
    × (is_reserved (codes "mods/own.txt") ≡ false)
    × (walk [] (split b'/' (codes "mods/own.txt")) ≡ walk [] (split b'/' (codes "mods/own.txt"))
        → codes "mods/own.txt" ≡ codes "mods/own.txt")
safe_relative_lem_example =
    safe_relative_lem (codes "mods\\own.txt") (codes "mods\\own.txt") (codes "mods/own.txt")
      (codes "mods/own.txt") safe-own_file safe-own_file
