-- ===== src/Build/Names.antt =====
-- `safe_name` and `safe_package` of src/common/paths.cpp; `sha256_hex` and `safe_relative` of
-- src/common/meta/store.cpp.
use rift_lift.Common.{
  ℕ, ◌-◌, Bool, false, not, ◌&&◌, ◌||◌, [], ◌∷◌, ◌++◌, map, none, some, Text, codes, text_eq,
  is_empty, starts_with, leb, ltb, ◌==◌, length, all, any, cut, Result, ok, require, ◌>>◌,
  if◌then◌else◌,
}
use rift_lift.Names.{is_digit, is_lower}
use rift_lift.Rules.Strings.{lower, split, ends_with}

abbrev one_of : Text → ℕ → Bool
one_of set c = any (λ x. x == c) set

-- `std::toupper` in the C locale
to_upper : ℕ → ℕ
to_upper c = if leb b'a' c && leb c b'z' then c - 32 else c

abbrev before : ℕ → Text → Text
before separator s = elim (cut separator s) [ none ↦ s | some (start, rest) ↦ start ]

abbrev is_device_digit : Text → Bool
is_device_digit (c ∷ []) = leb b'1' c && leb c b'9'
is_device_digit _ = false

abbrev behind_three : Text → Text
behind_three (a ∷ b ∷ c ∷ rest) = rest
behind_three _ = []

-- The names of devices on Windows, which may have an extension.
is_device : Text → Bool
unfolding to_upper
is_device s =
    let base = map to_upper (before b'.' s) in
    text_eq base (codes "CON")
    || text_eq base (codes "PRN")
    || text_eq base (codes "AUX")
    || text_eq base (codes "NUL")
    || ((starts_with base (codes "COM") || starts_with base (codes "LPT"))
        && is_device_digit (behind_three base))

unfoldable pub safe_name : Text → Bool
unfolding is_device
safe_name s =
    not (is_empty s || ltb 220 (length s) || ends_with s (codes ".") || ends_with s (codes " "))
    && not (any (one_of (codes "<>:\"/\\|?*")) s)
    && not (any (λ c. ltb c 32 || c == 127) s)
    && not (is_device s)

abbrev contains_text : Text → Text → Bool
contains_text [] t = is_empty t
contains_text (c ∷ s) t = starts_with (c ∷ s) t || contains_text s t

is_package_char : ℕ → Bool
is_package_char c = is_lower c || (leb b'A' c && leb c b'Z') || is_digit c || one_of (codes "._-") c

unfoldable pub safe_package : Text → Bool
unfolding is_package_char
safe_package s =
    safe_name s
    && not (starts_with s (codes "."))
    && not (starts_with s (codes "-"))
    && not (contains_text s (codes ".."))
    && all is_package_char s

unfoldable pub sha256_hex : Text → Bool
sha256_hex text = length text == 64 && all (λ c. is_digit c || (leb b'a' c && leb c b'f')) text

abbrev slash : ℕ → ℕ
slash c = if c == b'\\' then b'/' else c

abbrev pub safe_part : Text → Bool
safe_part part = safe_name part && not (text_eq part (codes ".") || text_eq part (codes ".."))

abbrev pub is_reserved : Text → Bool
is_reserved name =
    ends_with (lower name) (codes ".part") || text_eq (lower name) (codes "manifest.json.tmp")

unfoldable pub safe_relative : Text → Result Text
safe_relative name0 =
    let name = map slash name0 in
    require (not (is_empty name || starts_with name (codes "/") || ltb 1024 (length name)))
      (codes "Unsafe path in the build manifest: " ++ name)
    >> (require (all safe_part (split b'/' name))
          (codes "Unsafe path in the build manifest: " ++ name)
        >> (require (not (is_reserved name))
              (codes "The build manifest names a file RiftLift reserves: " ++ name)
            >> ok name))
