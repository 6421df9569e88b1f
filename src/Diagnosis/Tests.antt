-- ===== src/Diagnosis/Tests.antt =====
-- Lines and logs for src/launcher/diagnosis.cpp.
use rift_lift.Common.{Bool, true, false, none, Text, codes, starts_with, contains, ◌≡◌, ◌↔◌, refl}
use rift_lift.Rules.Strings.{lower, to_lower}
use rift_lift.Names.{is_digit, is_lower}
use rift_lift.Diagnosis.Lines.{word_char, search, error_words, error_line, has_part, noisy_line}
use rift_lift.Diagnosis.Places.{Stands, error_line-Stands}

abbrev quiet_line : Text
quiet_line = codes "terrors: Timeouts 0, timeout"

error_line-quiet : error_line quiet_line ≡ true
unfolding error_line search lower to_lower starts_with word_char is_digit is_lower
error_line-quiet = refl

error_line-parts : error_line (codes "terrors: failsafe") ≡ false
unfolding error_line search lower to_lower starts_with word_char is_digit is_lower
error_line-parts = refl

noisy_line-fixme : noisy_line (codes "0024:fixme:ntdll") ≡ true
unfolding noisy_line has_part starts_with
noisy_line-fixme = refl

error_line-Stands_example :
    error_line quiet_line ≡ true
    ↔ ((word : Text) × (contains error_words word ≡ true) × Stands word none (lower quiet_line))
error_line-Stands_example = error_line-Stands quiet_line

abbrev no_line : Text → Bool
no_line line = false

abbrev gpu_log : Text
gpu_log = codes "amdgpu: Ring TIMEOUT, device lost"
