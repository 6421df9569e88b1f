-- ===== src/Haptics/Tests.antt =====
-- The haptics buffers on small inputs, and their theorems at them.
use rift_lift.Common.{
  ℕ, ◌+◌, ◌≡◌, ◌≢◌, refl, Bool, [], ◌∷◌, ◌++◌, pos, negsuc, arith, take, length, leb,
}
use rift_lift.Haptics.Ring.{HapticsBuffer, init, put, add_samples, level, get_sample, get_state}
use rift_lift.Haptics.Contents.{
  IsValid, contents, space, contents-add_samples, contents-get_sample, get_sample_overrun,
  get_state_counts,
}
use rift_lift.Haptics.Constant.{Buffer}

-- Two samples were added to a new buffer.
two_samples : HapticsBuffer
unfolding init add_samples put
two_samples = add_samples init (7 ∷ 9 ∷ [])

init-IsValid : IsValid init
unfolding init
init-IsValid = record { read_byte = omega arith; write_byte = omega arith }

two_samples-IsValid : IsValid two_samples
unfolding two_samples
two_samples-IsValid = record { read_byte = omega arith; write_byte = omega arith }

-- One place further on and empty.
used_up : HapticsBuffer
used_up = record { read_index = 4; write_index = 5; buffer = λ i. 3 }

used_up-IsValid : IsValid used_up
unfolding used_up
used_up-IsValid = record { read_byte = omega arith; write_byte = omega arith }

contents-add_samples_example :
    (contents (add_samples two_samples (4 ∷ []))
      ≡ contents two_samples ++ take (space two_samples) (4 ∷ []))
    × IsValid (add_samples two_samples (4 ∷ []))
contents-add_samples_example = contents-add_samples two_samples (4 ∷ []) two_samples-IsValid

contents-get_sample_example :
    ((get_sample two_samples).0 ≡ level 7)
    × (contents (get_sample two_samples).1 ≡ 9 ∷ [])
    × IsValid (get_sample two_samples).1
unfolding two_samples
contents-get_sample_example = contents-get_sample two_samples 7 (9 ∷ []) two_samples-IsValid refl

-- A new buffer is such a one.
get_sample_overrun_example :
    ((get_sample init).0 ≡ level (init.buffer 0))
    × (length (contents (get_sample init).1) ≡ 255)
    × (add_samples (get_sample init).1 (1 ∷ []) ≡ (get_sample init).1)
unfolding init
get_sample_overrun_example = get_sample_overrun init 1 [] init-IsValid refl refl

get_state_counts_example :
    ((get_state two_samples).remaining_queue_space ≡ pos (space two_samples + 1))
    × (two_samples.write_index ≢ two_samples.read_index
        → (get_state two_samples).samples_queued ≡ pos (length (contents two_samples)))
    × (two_samples.write_index ≡ two_samples.read_index
        → (get_state two_samples).samples_queued ≡ negsuc 0)
get_state_counts_example = get_state_counts two_samples two_samples-IsValid

abbrev low : ℕ → Bool
low f = leb f 1

quiet : Buffer ℕ
quiet = record { ring = two_samples; constant_timeout = 0; frequency = 0; amplitude = 0 }
