-- ===== src/Haptics/Constant.antt =====
-- runtime/windows-openvr/HapticsBuffer.h and .cpp: the same circular buffer with a constant
-- vibration that takes precedence until it times out. `F` is `float`; `is_low` is the test
-- `<= 0.5f`. The mutex only guards the two floats.
use rift_lift.Common.{
  ℕ, zero, suc, ◌-◌, ◌*◌, ◌%◌, ◌^◌, ap, ◌≤◌, ◌<◌, ◌≡◌, refl, Bool, ◌&&◌, List, [], ◌∷◌, ltb, ◌==◌,
  if◌then◌else◌, arith,
}
use rift_lift.Haptics.Ring
use rift_lift.Haptics.Ring.{HapticsBuffer, Sample}

pub record Buffer (F : Type 0) : Type 0 where
  pub ring : HapticsBuffer
  pub constant_timeout : ℕ
  pub frequency : F
  pub amplitude : F

-- What `GetSample` returns: `0.0f` of the constant vibration, its amplitude, or a sample.
pub data Feedback (F : Type 0) : Type 0 where
  rest : Feedback F
  constant : F → Feedback F
  sampled : Sample → Feedback F

abbrev pub sample_rate : ℕ
sample_rate = 320

module _ {F : Type 0} where
  unfoldable pub add_samples : Buffer F → List ℕ → Buffer F
  add_samples b ss = record b { constant_timeout = 0; ring = Ring.add_samples b.ring ss }

  unfoldable pub set_constant : Buffer F → F → F → Buffer F
  set_constant b frequency amplitude = record b {
    amplitude = amplitude;
    frequency = frequency;
    constant_timeout = sample_rate * 5 % 2 ^ 16;
  }

module _ {F : Type 0} (is_low : F → Bool) where
  unfoldable pub get_sample : Buffer F → Feedback F × Buffer F
  get_sample b =
      if ltb 0 b.constant_timeout
      then (
        if is_low b.frequency && b.constant_timeout % 2 == 0 then rest else constant b.amplitude,
        record b { constant_timeout = b.constant_timeout - 1 },
      )
      else (sampled (Ring.get_sample b.ring).0, record b { ring = (Ring.get_sample b.ring).1 })

  -- The samples of `n` calls, and the buffer after them.
  unfoldable pub play : ℕ → Buffer F → List (Feedback F) × Buffer F
  play zero b = ([], b)
  play (suc n) b = let (x, c) = get_sample b in let (xs, d) = play n c in (x ∷ xs, d)

  -- The vibration with `t` samples to go, for `n` samples.
  abbrev pub vibration : F → F → ℕ → ℕ → List (Feedback F)
  vibration frequency amplitude t zero = []
  vibration frequency amplitude t (suc n) =
      (if is_low frequency && t % 2 == 0 then rest else constant amplitude)
      ∷ vibration frequency amplitude (t - 1) n

  -- What one call does while the vibration lasts.
  get_sample_vibrates :
      (b : Buffer F)
      → 0 < b.constant_timeout
      → get_sample b ≡ (
        if is_low b.frequency && b.constant_timeout % 2 == 0 then rest else constant b.amplitude,
        record b { constant_timeout = b.constant_timeout - 1 },
      )
  unfolding get_sample
  get_sample_vibrates b h = ground arith

  play-vibration :
      (n : ℕ) (b : Buffer F)
      → n ≤ b.constant_timeout
      → play n b ≡ (
        vibration b.frequency b.amplitude b.constant_timeout n,
        record b { constant_timeout = b.constant_timeout - n },
      )
  unfolding play
  play-vibration zero b h =
      let same : b.constant_timeout - 0 ≡ b.constant_timeout = omega arith in rw same refl
  play-vibration (suc n) b h =
      let next = record b { constant_timeout = b.constant_timeout - 1 } in
      let less : b.constant_timeout - 1 - n ≡ b.constant_timeout - suc n = omega arith in
      rw (get_sample_vibrates b (omega arith), play-vibration n next (omega arith), less) refl

  -- A constant vibration lasts for the next 1600 samples whatever else waits in the buffer, with its
  -- amplitude in each, or in every other one at a low frequency; the waiting samples are kept.
  pub play-set_constant :
      (b : Buffer F) (frequency amplitude : F) (n : ℕ)
      → n ≤ 1600
      → ((play n (set_constant b frequency amplitude)).0 ≡ vibration frequency amplitude 1600 n)
        × ((play n (set_constant b frequency amplitude)).1.ring ≡ b.ring)
        × ((play n (set_constant b frequency amplitude)).1.constant_timeout ≡ 1600 - n)
  unfolding set_constant
  play-set_constant b frequency amplitude n h =
      let p = play-vibration n (set_constant b frequency amplitude) h in
      (ap (λ r. r.0) p, ap (λ r. r.1.ring) p, ap (λ r. r.1.constant_timeout) p)

  -- Adding samples ends a constant vibration at once: the next call plays from the buffer.
  pub get_sample-add_samples :
      (b : Buffer F) (ss : List ℕ)
      → ((get_sample (add_samples b ss)).0
          ≡ sampled (Ring.get_sample (Ring.add_samples b.ring ss)).0)
        × ((get_sample (add_samples b ss)).1.ring
            ≡ (Ring.get_sample (Ring.add_samples b.ring ss)).1)
  unfolding get_sample add_samples
  get_sample-add_samples b ss = (refl, refl)
