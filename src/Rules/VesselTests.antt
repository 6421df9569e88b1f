-- ===== src/Rules/VesselTests.antt =====
-- A line with a flag, a list of two folders, and the place of the command.
use rift_lift.Common.{
  Bool, [], ◌∷◌, none, some, Text, codes, All, text_eq, contains, starts_with, cut, ◌≡◌, ◌≢◌, refl,
}
use rift_lift.Names.{is_digit, is_lower}
use rift_lift.Rules.Env.{Env, insert}
use rift_lift.Rules.Strings.{is_space, split}
use rift_lift.Rules.Vessel.{
  marker, find_behind, erase_first, erase_from, erase_commands, words_from, tokens_of, is_upper,
  key_char, is_key, path_char, is_path, is_value, parse_token, parse_tokens,
  parse_pressure_vessel_line,
}
use rift_lift.Rules.VesselSafety.{AcceptedPair, parse_pressure_vessel_line-Accepted}

abbrev exists : Text → Bool
exists = contains (codes "/usr/lib" ∷ codes "/opt/a-b" ∷ [])

abbrev line : Text
line =
    codes
      "12:00 set command to PRESSURE_VESSEL_VERBOSE=1  PRESSURE_VESSEL_RO=/usr/lib:/opt/a-b %command%\n"

abbrev pairs : Env
pairs =
    (codes "PRESSURE_VESSEL_VERBOSE", codes "1")
    ∷ (codes "PRESSURE_VESSEL_RO", codes "/usr/lib:/opt/a-b")
    ∷ []

parse-line : parse_pressure_vessel_line exists line ≡ some pairs
unfolding parse_pressure_vessel_line find_behind starts_with erase_commands erase_from erase_first
    tokens_of words_from is_space parse_tokens parse_token cut is_key key_char is_upper is_digit
    is_lower is_value text_eq split is_path path_char insert
parse-line = refl

parse_pressure_vessel_line-Accepted_example :
    All (AcceptedPair exists) pairs
    × (pairs ≢ [])
    × ((remainder : Text) × (find_behind marker line ≡ some remainder)
        × (erase_first (erase_commands remainder) ≡ none))
parse_pressure_vessel_line-Accepted_example =
    parse_pressure_vessel_line-Accepted exists line pairs parse-line
