-- ===== src/Names.antt =====
-- The checks of identifiers that the library shares: src/common/json.h (`digits`),
-- src/common/rift/game.cpp (`valid_slug`) and src/common/meta/accounts.cpp (`valid_account_key`).
use rift_lift.Common.{
  ℕ, Bool, true, not, ◌&&◌, ◌||◌, [], ◌∷◌, Text, leb, ◌==◌, length, all, is_empty,
}

unfoldable pub is_digit : ℕ → Bool
is_digit c = leb b'0' c && leb c b'9'

unfoldable pub is_lower : ℕ → Bool
is_lower c = leb b'a' c && leb c b'z'

-- `s.find_first_not_of("0123456789") == s.npos`, with a length from `minimum` to `maximum`
unfoldable pub digits : Text → ℕ → ℕ → Bool
digits s minimum maximum = leb minimum (length s) && leb (length s) maximum && all is_digit s

unfoldable pub is_slug_char : ℕ → Bool
unfolding is_digit is_lower
is_slug_char c = is_lower c || is_digit c

-- The matcher of `[a-z0-9]+(?:-[a-z0-9]+)*`; the flag says that a letter or digit must follow.
unfoldable pub slug_from : Bool → Text → Bool
slug_from need [] = not need
slug_from need (c ∷ cs) = (is_slug_char c || (not need && c == b'-')) && slug_from (c == b'-') cs

unfoldable pub valid_slug : Text → Bool
valid_slug slug = not (is_empty slug) && leb (length slug) 120 && slug_from true slug

unfoldable pub is_hex : ℕ → Bool
unfolding is_digit
is_hex c = is_digit c || (leb b'a' c && leb c b'f')

unfoldable pub valid_account_key : Text → Bool
unfolding is_hex
valid_account_key key = length key == 12 && all is_hex key
