-- ===== src/RingBuffer.antt =====
-- include/disruptorplus/ring_buffer.hpp: an array of a power-of-two size, indexed by sequence
-- numbers.
pub mod Slots
pub mod Window
use Prim.Native.Nat.{bit_and}
use disruptorplus.Common.{
  ℕ, Bool, List, ltb, ◌==◌, ◌&&◌, if◌then◌else◌, Option, none, some, replicate, get_elem?, set,
}
use disruptorplus.Sequence.{sub_sequence}

-- `m_size`, `m_mask` and `m_data` of a `ring_buffer<T>`.
pub record RingBuffer {ℓ} (T : Type ℓ) : Type ℓ where
  pub size : ℕ
  pub mask : ℕ
  pub elements : List T

-- The constructor; `none` if its `assert` fails. `fresh` is the default-constructed element.
unfoldable pub ring_buffer {ℓ} : {T : Type ℓ} → T → ℕ → Option (RingBuffer T)
ring_buffer fresh size =
    let mask = sub_sequence size 1 in
    if ltb 0 size && bit_and size mask == 0
    then some (record { size = size; mask = mask; elements = replicate size fresh })
    else none

-- The index that both `operator[]` compute.
unfoldable pub slot {ℓ} : {T : Type ℓ} → RingBuffer T → ℕ → ℕ
slot b seq = bit_and seq b.mask

-- Reading through `operator[]`; `none` is a read out of bounds.
unfoldable pub get {ℓ} : {T : Type ℓ} → RingBuffer T → ℕ → Option T
unfolding slot
get b seq = get_elem? b.elements (slot b seq)

-- Assigning through the reference that `operator[]` returns.
unfoldable pub put {ℓ} : {T : Type ℓ} → RingBuffer T → ℕ → T → RingBuffer T
unfolding slot
put b seq value = record b { elements = set b.elements (slot b seq) value }
