-- ===== src/Haptics/Contents.antt =====
-- The buffer of runtime/windows-openxr/HapticsBuffer.cpp as a queue of samples.
use rift_lift.Common.{
  ℕ, zero, suc, ◌+◌, ◌-◌, ◌%◌, ◌<◌, ◌≡◌, ◌≢◌, refl, sym, ap, ◌∙◌, inl, inr, true, List, [], ◌∷◌,
  ◌++◌, pos, negsuc, ◌==◌, Bool-cases, arith, take, length, append_assoc, append-nil,
}
use rift_lift.Haptics.Ring.{
  HapticsBuffer, wrap, store, put, add_samples, silence, level, get_sample, rounds, get_state,
  decrement,
}

-- The indices are bytes.
pub record IsValid (b : HapticsBuffer) : Type 0 where
  pub read_byte : b.read_index < 256
  pub write_byte : b.write_index < 256

-- How many samples wait to be played, and how many more can be written.
abbrev pub queued : HapticsBuffer → ℕ
queued b = (b.write_index + 255 - b.read_index) % 256

abbrev pub space : HapticsBuffer → ℕ
space b = (b.read_index + 256 - b.write_index) % 256

abbrev pub samples_from : (ℕ → ℕ) → ℕ → ℕ → List ℕ
samples_from buffer i zero = []
samples_from buffer i (suc n) = buffer i ∷ samples_from buffer (wrap (i + 1)) n

-- The samples between the read and the write index, oldest first.
abbrev pub contents : HapticsBuffer → List ℕ
contents b = samples_from b.buffer (wrap (b.read_index + 1)) (queued b)

-- One more sample, written behind `n` others.
samples_from-store :
    (buffer : ℕ → ℕ) (i n w s : ℕ)
    → i < 256
    → n < 256
    → w ≡ (i + n) % 256
    → samples_from (store buffer w s) i (suc n) ≡ samples_from buffer i n ++ s ∷ []
samples_from-store buffer i zero w s hi hn e = ground arith
samples_from-store buffer i (suc n) w s hi hn e =
    ground (arith, samples_from-store buffer (wrap (i + 1)) n w s)

-- Writing to a buffer that is not full adds one sample at the end.
contents-put :
    (b : HapticsBuffer) (s : ℕ)
    → IsValid b
    → b.write_index ≢ b.read_index
    → contents (put b s) ≡ contents b ++ s ∷ []
unfolding put
contents-put b s v ne =
    let one_more : (wrap (b.write_index + 1) + 255 - b.read_index) % 256 ≡ suc (queued b) =
      omega (arith, v.read_byte, v.write_byte, ne) in
    ap (samples_from _ (wrap (b.read_index + 1))) one_more
    ∙ samples_from-store b.buffer (wrap (b.read_index + 1)) (queued b) b.write_index s (omega arith)
        (omega arith) (omega (arith, v.read_byte, v.write_byte))

put-IsValid : (b : HapticsBuffer) (s : ℕ) → IsValid b → IsValid (put b s)
unfolding put
put-IsValid b s v = record { read_byte = v.read_byte; write_byte = omega arith }

space-put :
    (b : HapticsBuffer) (s : ℕ)
    → IsValid b
    → b.write_index ≢ b.read_index
    → space b ≡ suc (space (put b s))
unfolding put
space-put b s v ne = omega (arith, v.read_byte, v.write_byte, ne)

take_nil : (n : ℕ) → take {A = ℕ} n [] ≡ []
take_nil zero = refl
take_nil (suc n) = refl

-- Adding samples appends as many of them, in order, as there is space for, and drops the others;
-- the indices stay bytes.
pub contents-add_samples :
    (b : HapticsBuffer) (ss : List ℕ)
    → IsValid b
    → (contents (add_samples b ss) ≡ contents b ++ take (space b) ss) × IsValid (add_samples b ss)
unfolding add_samples
contents-add_samples b [] v = (rw (take_nil (space b)) (sym (append-nil (contents b))), v)
contents-add_samples b (s ∷ ss) v = elim (Bool-cases (b.write_index == b.read_index)) [
  | inl full ↦
      let none_left : space b ≡ 0 = ground (arith, v.read_byte) in
      rw (full, none_left) (sym (append-nil (contents b)), v)
  | inr free ↦
      let ne : b.write_index ≢ b.read_index = ground arith in
      let (ih, w) = contents-add_samples (put b s) ss (put-IsValid b s v) in
      rw (free, space-put b s v ne)
        (
          ih
              ∙ ap (λ xs. xs ++ take (space (put b s)) ss) (contents-put b s v ne)
              ∙ append_assoc (contents b) (s ∷ []) (take (space (put b s)) ss),
          w,
        )
]

pub length-samples_from : (buffer : ℕ → ℕ) (i n : ℕ) → length (samples_from buffer i n) ≡ n
length-samples_from buffer i zero = refl
length-samples_from buffer i (suc n) = ap suc (length-samples_from buffer (wrap (i + 1)) n)

-- The buffer after a sample has been played.
abbrev played : HapticsBuffer → HapticsBuffer
played b = record b { read_index = wrap (b.read_index + 1) }

get_sample_plays :
    (b : HapticsBuffer)
    → b.read_index + 1 ≢ b.write_index
    → get_sample b ≡ (level (b.buffer (wrap (b.read_index + 1))), played b)
unfolding get_sample
get_sample_plays b ne = ground arith

-- While samples wait, the oldest one is played and leaves the buffer.
pub contents-get_sample :
    (b : HapticsBuffer) (x : ℕ) (xs : List ℕ)
    → IsValid b
    → contents b ≡ x ∷ xs
    → ((get_sample b).0 ≡ level x) × (contents (get_sample b).1 ≡ xs) × IsValid (get_sample b).1
contents-get_sample b x xs v h =
    let some_queued = length-samples_from b.buffer (wrap (b.read_index + 1)) (queued b) in
    let many : queued b ≡ suc (length xs) = sym some_queued ∙ ap length h in
    let one_less : queued b ≡ suc (queued (played b)) =
      omega (arith, many, v.read_byte, v.write_byte) in
    let split : samples_from b.buffer (wrap (b.read_index + 1)) (suc (queued (played b))) ≡ x ∷ xs =
      rw one_less at h in
    rw (get_sample_plays b (omega (arith, many, v.read_byte, v.write_byte)))
      (cc split, cc split, record { read_byte = omega arith; write_byte = v.write_byte })

nothing_queued : (b : HapticsBuffer) → contents b ≡ [] → queued b ≡ 0
nothing_queued b h =
    sym (length-samples_from b.buffer (wrap (b.read_index + 1)) (queued b)) ∙ ap length h

-- An empty buffer plays silence and stays as it is, unless its read index is the last one.
pub get_sample_empty :
    (b : HapticsBuffer)
    → IsValid b
    → contents b ≡ []
    → b.read_index ≢ 255
    → get_sample b ≡ (silence, b)
unfolding get_sample
get_sample_empty b v h ne =
    let e : b.read_index + 1 ≡ b.write_index =
      omega (arith, nothing_queued b h, v.read_byte, v.write_byte, ne) in
    ground (arith, e)

-- An empty buffer whose read index is the last one, 255, is not seen to be empty, since the sum
-- 255 + 1 does not wrap around: it plays a stale sample, and is then full, so that no sample can
-- be added.
pub get_sample_overrun :
    (b : HapticsBuffer) (s : ℕ) (ss : List ℕ)
    → IsValid b
    → contents b ≡ []
    → b.read_index ≡ 255
    → ((get_sample b).0 ≡ level (b.buffer 0))
      × (length (contents (get_sample b).1) ≡ 255)
      × (add_samples (get_sample b).1 (s ∷ ss) ≡ (get_sample b).1)
unfolding add_samples
get_sample_overrun b s ss v h e =
    let w : b.write_index ≡ 0 = omega (arith, nothing_queued b h, v.read_byte, v.write_byte) in
    let r : wrap (b.read_index + 1) ≡ 0 = omega (arith, e) in
    let full : queued (played b) ≡ 255 = omega (arith, w, e) in
    let stuck : (b.write_index == wrap (b.read_index + 1)) ≡ true = ground (arith, w, r) in
    rw (get_sample_plays b (omega arith)) (
      ap (λ i. level (b.buffer i)) r,
      length-samples_from b.buffer (wrap (wrap (b.read_index + 1) + 1)) (queued (played b)) ∙ full,
      rw stuck refl,
    )

-- A loop over `uint8_t` indices takes the distance between them, given 256 rounds.
rounds-distance :
    (fuel i to : ℕ)
    → i < 256
    → to < 256
    → (to + 256 - i) % 256 < fuel
    → rounds fuel i to ≡ (to + 256 - i) % 256
unfolding rounds
rounds-distance zero i to hi ht h = absurd (omega arith)
rounds-distance (suc fuel) i to hi ht h = elim (Bool-cases (i == to)) [
  | inl same ↦ rw same (ground arith)
  | inr other ↦ rw other (ground (arith, rounds-distance fuel (wrap (i + 1)) to))
]

-- `GetState` counts the waiting samples and one free place more than there is; but of a full buffer
-- it says that -1 samples wait.
pub get_state_counts :
    (b : HapticsBuffer)
    → IsValid b
    → ((get_state b).remaining_queue_space ≡ pos (space b + 1))
      × (b.write_index ≢ b.read_index → (get_state b).samples_queued ≡ pos (length (contents b)))
      × (b.write_index ≡ b.read_index → (get_state b).samples_queued ≡ negsuc 0)
unfolding get_state
get_state_counts b v =
    let waiting =
      rounds-distance 256 b.read_index b.write_index v.read_byte v.write_byte (omega arith) in
    let free =
      rounds-distance 256 b.write_index b.read_index v.write_byte v.read_byte (omega arith) in
    let size = length-samples_from b.buffer (wrap (b.read_index + 1)) (queued b) in
    (
      ap (λ n. pos (n + 1)) free,
      λ ne. ap decrement (
          let e : rounds 256 b.read_index b.write_index ≡ suc (length (contents b)) =
            omega (arith, waiting, size, v.read_byte, v.write_byte, ne) in
          e),
      λ eq. ap decrement (
          let e : rounds 256 b.read_index b.write_index ≡ 0 =
            omega (arith, waiting, v.read_byte, v.write_byte, eq) in
          e),
    )
