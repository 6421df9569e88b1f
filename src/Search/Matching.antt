-- ===== src/Search/Matching.antt =====
-- What `words` and `matches` of src/common/search.cpp do with words of plain letters and digits.
use rift_lift.Common.{
  ℕ, ◌+◌, Bool, true, false, ◌&&◌, ◌||◌, List, [], ◌∷◌, ◌++◌, Text, is_empty, map, All, leb, ◌≡◌,
  if◌then◌else◌,
}
use rift_lift.Names.{is_digit, is_lower}

abbrev is_capital : ℕ → Bool
is_capital c = leb b'A' c && leb c b'Z'

-- A digit or a letter without an accent.
abbrev pub is_plain : ℕ → Bool
is_plain c = is_digit c || is_lower c || is_capital c

abbrev pub PlainWord : Text → Type 0
PlainWord w = (is_empty w ≡ false) × All (λ c. is_plain c ≡ true) w

abbrev pub lower_case : ℕ → ℕ
lower_case c = if is_capital c then c + 32 else c

abbrev pub lowered : List Text → List Text
lowered ws = map (map lower_case) ws

-- The words with a space behind each.
abbrev pub spaced : List Text → Text
spaced [] = []
spaced (w ∷ ws) = w ++ b' ' ∷ spaced ws
