-- ===== src/Update/Release.antt =====
-- `pick`, `sums` and `expected_sum` of src/launcher/updater.cpp, and the hosts of
-- src/common/http/client.cpp. libcurl's parser of URLs is a parameter, `parse_url`.
use rift_lift.Common.{
  ℕ, Bool, false, not, ◌&&◌, ◌||◌, List, [], ◌∷◌, Option, none, some, Text, codes, is_empty,
  text_eq, starts_with, ltb, leb, ◌==◌, length, take, drop, all, Result, ok, err, if◌then◌else◌,
}
use rift_lift.Names.{is_digit}
use rift_lift.Rules.Strings.{lower, split, ends_with, drop_while_end}

pub data Method : Type 0 where
  page : Method
  installer : Method
  appimage : Method

pub record Asset : Type 0 where
  pub name : Text
  pub url : Text
  pub size : ℕ

pub record Url : Type 0 where
  pub scheme : Text
  pub user : Text
  pub password : Text
  pub port : Text
  pub host : Text

unfoldable pub domain : Text → Text → Bool
domain host parent =
    text_eq host parent || (ltb (length parent) (length host) && ends_with host (b'.' ∷ parent))

-- https, without a user, and the usual port
abbrev pub plain_https : Url → Bool
plain_https u =
    text_eq u.scheme (codes "https")
    && is_empty u.user
    && is_empty u.password
    && (is_empty u.port || text_eq u.port (codes "443"))

abbrev pub allows : (Url → Bool) → Result Url → Bool
allows hosts (err what) = false
allows hosts (ok u) = plain_https u && hosts u

unfoldable pub allowed_release : (Text → Result Url) → Text → Bool
allowed_release parse_url url =
    allows
      (λ u. text_eq u.host (codes "github.com") || domain u.host (codes "githubusercontent.com"))
      (parse_url url)

abbrev pub release_test : (Text → Result Url) → (Text → Bool) → Asset → Bool
release_test parse_url matches a =
    not (is_empty a.name) && matches a.name && allowed_release parse_url a.url

-- The loop over the release's assets: `none` where an element is no object, and no list where
-- "assets" is missing or no array.
unfoldable pub find_asset : (Text → Result Url) → (Text → Bool) → List (Option Asset) → Option Asset
find_asset parse_url matches [] = none
find_asset parse_url matches (none ∷ rest) = find_asset parse_url matches rest
find_asset parse_url matches (some a ∷ rest) =
    let later = find_asset parse_url matches rest in
    if release_test parse_url matches a then some a else later

abbrev pub find_in :
    (Text → Result Url) → (Text → Bool) → Option (List (Option Asset)) → Option Asset
find_in parse_url matches none = none
find_in parse_url matches (some assets) = find_asset parse_url matches assets

unfoldable pub pick : (Text → Result Url) → Option (List (Option Asset)) → Method → Option Asset
pick parse_url release installer =
    find_in parse_url (λ n. text_eq n (codes "RiftLift-windows64-setup.exe")) release
pick parse_url release appimage =
    find_in parse_url
      (λ n. starts_with n (codes "RiftLift-") && ends_with n (codes "-linux-x86_64.AppImage"))
      release
pick parse_url release page = none

unfoldable pub sums : (Text → Result Url) → Option (List (Option Asset)) → Option Asset
sums parse_url release = find_in parse_url (λ n. text_eq n (codes "SHA256SUMS")) release

-- `isxdigit`
unfoldable pub is_xdigit : ℕ → Bool
is_xdigit c = is_digit c || (leb b'a' c && leb c b'f') || (leb b'A' c && leb c b'F')

abbrev pub trailing : ℕ → Bool
trailing c = c == b'\r' || c == b' '

abbrev pub without_mark : Text → Text
without_mark [] = []
without_mark (c ∷ file) = if c == b' ' || c == b'*' then file else c ∷ file

-- The digest that a line gives for the name.
abbrev pub sum_of_trimmed : Text → Text → Option Text
sum_of_trimmed name line =
    if ltb (length line) 66 || not (text_eq (take 1 (drop 64 line)) (codes " "))
    then none
    else if text_eq (without_mark (drop 65 line)) name && all is_xdigit (take 64 line)
    then some (lower (take 64 line))
    else none

unfoldable pub sum_of : Text → Text → Option Text
sum_of name line = sum_of_trimmed name (drop_while_end trailing line)

abbrev pub or_later : Option Text → Text → Text
or_later none later = later
or_later (some hex) later = hex

abbrev pub first_sum : Text → List Text → Text
first_sum name [] = []
first_sum name (line ∷ lines) = or_later (sum_of name line) (first_sum name lines)

-- The empty line that `split` gives behind a last newline is too short, as every line that is skipped.
unfoldable pub expected_sum : Text → Text → Text
expected_sum text name = first_sum name (split b'\n' text)
