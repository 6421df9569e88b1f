-- ===== src/Rules/Shell.antt =====
-- `shell_split` of src/runtime/rules.cpp as a machine that reads one byte at a time: where the
-- source looks ahead (to a closing quote, or behind a backslash) the mode remembers what was read.
use rift_lift.Common.{
  ℕ, Bool, true, false, ◌||◌, List, [], ◌∷◌, ◌++◌, Text, codes, ◌==◌, Result, ok, err,
  if◌then◌else◌,
}
use rift_lift.Rules.Strings.{is_space}

pub data Mode : Type 0 where
  plain in_single in_double after_backslash in_double_after_backslash : Mode

pub record Scan : Type 0 where
  pub mode : Mode
  pub words : List Text
  pub word : Text
  pub in_word : Bool

abbrev pub initial : Scan
initial = record { mode = plain; words = []; word = []; in_word = false }

abbrev pub add : ℕ → Scan → Scan
add c s = record s { word = s.word ++ c ∷ [] }

-- `if (in_word) words.push_back(std::exchange(word, {})); in_word = false;`
abbrev pub end_word : Scan → Scan
end_word s =
    if s.in_word then record s { words = s.words ++ s.word ∷ []; word = []; in_word = false } else s

step_plain : ℕ → Scan → Scan
step_plain c s =
    if is_space c
    then end_word s
    else if c == b'\''
    then record s { mode = in_single }
    else if c == b'"'
    then record s { mode = in_double; in_word = true }
    else if c == b'\\'
    then record s { mode = after_backslash }
    else record (add c s) { in_word = true }

-- The word is open once the quotation is closed.
step_single : ℕ → Scan → Scan
step_single c s = if c == b'\'' then record s { mode = plain; in_word = true } else add c s

step_double : ℕ → Scan → Scan
step_double c s =
    if c == b'"'
    then record s { mode = plain }
    else if c == b'\\'
    then record s { mode = in_double_after_backslash }
    else add c s

-- A backslash before another byte than `"` and `\` stands for itself.
step_double_escaped : ℕ → Scan → Scan
step_double_escaped c s =
    if c == b'"' || c == b'\\'
    then record (add c s) { mode = in_double }
    else record (add c (add b'\\' s)) { mode = in_double }

unfoldable pub step : Mode → ℕ → Scan → Scan
unfolding step_plain step_single step_double step_double_escaped
step plain c s = step_plain c s
step in_single c s = step_single c s
step in_double c s = step_double c s
step after_backslash c s = record (add c s) { mode = plain; in_word = true }
step in_double_after_backslash c s = step_double_escaped c s

unfoldable pub scan : Text → Scan → Scan
scan [] s = s
scan (c ∷ cs) s = scan cs (step s.mode c s)

unfoldable pub finish : Mode → Scan → Result (List Text)
finish plain s = ok (end_word s).words
finish after_backslash s = err (codes "No escaped character")
finish _ s = err (codes "No closing quotation")

unfoldable pub shell_split : Text → Result (List Text)
shell_split text = let s = scan text initial in finish s.mode s
