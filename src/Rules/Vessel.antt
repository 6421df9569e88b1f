-- ===== src/Rules/Vessel.antt =====
-- `parse_pressure_vessel_line` of src/runtime/rules.cpp: the variables that a line of the log of
-- Steam's container sets for a game.
use rift_lift.Common.{
  ℕ, zero, suc, Bool, true, false, not, ◌&&◌, ◌||◌, List, [], ◌∷◌, ◌++◌, Option, none, some, Text,
  codes, is_empty, text_eq, starts_with, cut, length, drop, all, leb, ◌==◌, if◌then◌else◌,
}
use rift_lift.Names.{is_digit, is_lower}
use rift_lift.Rules.Env.{Env, insert}
use rift_lift.Rules.Strings.{is_space, split}

abbrev pub marker : Text
marker = codes "set command to "

abbrev pub command : Text
command = codes "%command%"

-- `line.substr(line.find(s) + s.size())`, or nothing where `s` is not in the line.
unfoldable pub find_behind : Text → Text → Option Text
find_behind s [] = if starts_with [] s then some [] else none
find_behind s (c ∷ cs) =
    let rest = find_behind s cs in
    if starts_with (c ∷ cs) s then some (drop (length s) (c ∷ cs)) else rest

abbrev pub before : ℕ → Option Text → Option Text
before c none = none
before c (some cs) = some (c ∷ cs)

-- `remainder.erase(remainder.find("%command%"), 9)`, where it occurs.
unfoldable pub erase_first : Text → Option Text
erase_first [] = none
erase_first (c ∷ cs) =
    let rest = before c (erase_first cs) in
    if starts_with (c ∷ cs) command then some (drop 9 (c ∷ cs)) else rest

-- The loop ends, since each round makes the text shorter.
unfoldable pub erase_from : ℕ → Text → Text
erase_from zero s = s
erase_from (suc fuel) s = elim (erase_first s) [ none ↦ s | some s' ↦ erase_from fuel s' ]

unfoldable pub erase_commands : Text → Text
erase_commands s = erase_from (length s) s

abbrev pub add_word : Text → List Text → List Text
add_word word rest = if is_empty word then rest else word ∷ rest

-- The tokens between the white space; `word` is what has been read of one.
unfoldable pub words_from : Text → Text → List Text
words_from word [] = add_word word []
words_from word (c ∷ cs) = elim (is_space c) [
  | true ↦ add_word word (words_from [] cs)
  | false ↦ words_from (word ++ c ∷ []) cs
]

unfoldable pub tokens_of : Text → List Text
tokens_of = words_from []

unfoldable pub is_upper : ℕ → Bool
is_upper c = leb b'A' c && leb c b'Z'

unfoldable pub key_char : ℕ → Bool
key_char c = is_upper c || is_digit c || c == b'_'

abbrev pub prefix : Text
prefix = codes "PRESSURE_VESSEL_"

-- `PRESSURE_VESSEL_[A-Z0-9_]+`
unfoldable pub is_key : Text → Bool
is_key name =
    starts_with name prefix && not (is_empty (drop 16 name)) && all key_char (drop 16 name)

unfoldable pub path_char : ℕ → Bool
path_char c =
    is_upper c || is_lower c || is_digit c || c == b'_' || c == b'.' || c == b'/' || c == b'-'

-- `/[A-Za-z0-9_./-]+`
unfoldable pub is_path : Text → Bool
is_path [] = false
is_path (c ∷ cs) = c == b'/' && not (is_empty cs) && all path_char cs

-- `is_directory` asks the file system.
module _ (is_directory : Text → Bool) where
  unfoldable pub is_value : Text → Bool
  is_value value =
      text_eq value (codes "0")
      || text_eq value (codes "1")
      || all (λ part. is_path part && is_directory part) (split b':' value)

  unfoldable pub parse_token : Text → Option (Text × Text)
  parse_token token = elim (cut b'=' token) [
    | none ↦ none
    | some (name, value) ↦ if is_key name && is_value value then some (name, value) else none
  ]

  unfoldable pub parse_tokens : List Text → Env → Option Env
  parse_tokens [] pairs = some pairs
  parse_tokens (token ∷ tokens) pairs = elim (parse_token token) [
    | none ↦ none
    | some (name, value) ↦ parse_tokens tokens (insert name value pairs)
  ]

  abbrev pub unless_empty : Option Env → Option Env
  unless_empty none = none
  unless_empty (some []) = none
  unless_empty (some (p ∷ ps)) = some (p ∷ ps)

  unfoldable pub parse_pressure_vessel_line : Text → Option Env
  parse_pressure_vessel_line line = elim (find_behind marker line) [
    | none ↦ none
    | some remainder ↦ unless_empty (parse_tokens (tokens_of (erase_commands remainder)) [])
  ]
