-- ===== src/Diagnosis/Lines.antt =====
-- `error_line`, `noisy_line` and `diagnose` of src/launcher/diagnosis.cpp. The regular expression of a
-- failed start is a parameter, `vr_failed`.
use rift_lift.Common.{
  ℕ, zero, suc, Bool, true, false, not, ◌&&◌, ◌||◌, List, [], ◌∷◌, map, Option, none, some, Text,
  codes, starts_with, leb, ◌==◌, length, drop, any, if◌then◌else◌,
}
use rift_lift.Names.{is_digit, is_lower}
use rift_lift.Rules.Strings.{lower}

-- `isalnum` of the C locale, or an underscore
unfoldable pub word_char : ℕ → Bool
unfolding is_digit is_lower
word_char c = is_digit c || is_lower c || (leb b'A' c && leb c b'Z') || c == b'_'

-- No word goes on over a place of the text, from what is before it and what follows.
abbrev pub starts_here : Option ℕ → Bool
starts_here none = true
starts_here (some c) = not (word_char c)

abbrev pub ends_here : Text → Bool
ends_here [] = true
ends_here (c ∷ cs) = not (word_char c)

-- Whether the place of the text is that of the word, and the word is whole there.
abbrev pub stands_here : Text → Option ℕ → Text → Bool
stands_here word before text =
    starts_with text word && starts_here before && ends_here (drop (length word) text)

-- The loop over the places where `text.find(word, at)` finds the word; behind one that is not whole it
-- goes on after the word, so that `skip` characters are passed over.
unfoldable pub search : Text → ℕ → Option ℕ → Text → Bool
search word skip before [] = false
search word (suc skip) before (c ∷ cs) = search word skip (some c) cs
search word zero before (c ∷ cs) =
    let behind = search word (length (drop 1 word)) (some c) cs in
    let next = search word zero (some c) cs in
    if starts_with (c ∷ cs) word
    then (if stands_here word before (c ∷ cs) then true else behind)
    else next

abbrev pub error_words : List Text
error_words = map codes (
    "error" ∷ "errors" ∷ "fail" ∷ "failed" ∷ "failure" ∷ "fatal" ∷ "panic" ∷ "crash" ∷ "crashed"
    ∷ "exception" ∷ "timed out" ∷ "time out" ∷ "timeout" ∷ "unsupported" ∷ "not supported"
    ∷ "not found" ∷ "device lost" ∷ "segfault" ∷ "denied" ∷ "gpu reset" ∷ "vm fault" ∷ "page fault"
    ∷ "hung" ∷ "oom" ∷ "xid" ∷ [])

unfoldable pub error_line : Text → Bool
error_line line = any (λ word. search word 0 none (lower line)) error_words

-- `text.find(part) != npos`
unfoldable pub has_part : Text → Text → Bool
has_part [] part = starts_with [] part
has_part (c ∷ cs) part = starts_with (c ∷ cs) part || has_part cs part

abbrev pub noises : List Text
noises = map codes (
    "Failed to parse bindings for ViveController"
    ∷ "Failed to parse bindings for Unknown(\"holographic_controller\")"
    ∷ "Unsupported application type: Utility" ∷ "riftlift-validate-" ∷ "riftlift-probe-"
    ∷ "Listening on systemd-oomd" ∷ "fixme:" ∷ [])

unfoldable pub noisy_line : Text → Bool
noisy_line line =
    any (has_part line) noises
    || (has_part line (codes "Registered") && has_part line (codes "drm panic"))
