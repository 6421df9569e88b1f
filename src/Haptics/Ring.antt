-- ===== src/Haptics/Ring.antt =====
-- runtime/windows-openxr/HapticsBuffer.h and .cpp: the circular buffer of 256 bytes with `uint8_t`
-- indices, which wrap around.
use rift_lift.Common.{ℕ, zero, suc, ◌+◌, ◌%◌, List, [], ◌∷◌, ℤ, pos, negsuc, ◌==◌, if◌then◌else◌}

pub record HapticsBuffer : Type 0 where
  pub read_index : ℕ
  pub write_index : ℕ
  pub buffer : ℕ → ℕ

-- `m_ReadIndex(0xFF), m_WriteIndex(0), m_Buffer()`
unfoldable pub init : HapticsBuffer
init = record { read_index = 0xff; write_index = 0; buffer = λ i. 0 }

abbrev pub wrap : ℕ → ℕ
wrap n = n % 256

abbrev pub store : (ℕ → ℕ) → ℕ → ℕ → ℕ → ℕ
store buffer i v j = if j == i then v else buffer j

unfoldable pub put : HapticsBuffer → ℕ → HapticsBuffer
put b sample = record b {
  buffer = store b.buffer b.write_index sample;
  write_index = wrap (b.write_index + 1);
}

unfoldable pub add_samples : HapticsBuffer → List ℕ → HapticsBuffer
add_samples b [] = b
add_samples b (s ∷ ss) =
    let rest = add_samples (put b s) ss in if b.write_index == b.read_index then b else rest

-- A sample is a byte over 255.0f; `silence` is 0.0f.
pub data Sample : Type 0 where
  silence : Sample
  level : ℕ → Sample

-- `m_ReadIndex + 1` is an `int`, which does not wrap around, and `++m_ReadIndex` a `uint8_t`.
unfoldable pub get_sample : HapticsBuffer → Sample × HapticsBuffer
get_sample b = if b.read_index + 1 == b.write_index then (silence, b) else (
  level (b.buffer (wrap (b.read_index + 1))),
  record b { read_index = wrap (b.read_index + 1) },
)

-- `for (uint8_t i = from; i != to; i++) count++;`
unfoldable pub rounds : ℕ → ℕ → ℕ → ℕ
rounds zero i to = 0
rounds (suc fuel) i to = let rest = rounds fuel (wrap (i + 1)) to in if i == to then 0 else suc rest

pub record PlaybackState : Type 0 where
  pub remaining_queue_space : ℤ
  pub samples_queued : ℤ

abbrev pub decrement : ℕ → ℤ
decrement zero = negsuc 0
decrement (suc n) = pos n

-- 256 rounds reach every index from every other.
unfoldable pub get_state : HapticsBuffer → PlaybackState
get_state b = record {
  remaining_queue_space = pos (rounds 256 b.write_index b.read_index + 1);
  samples_queued = decrement (rounds 256 b.read_index b.write_index);
}
