-- ===== src/Sequence.antt =====
-- include/disruptorplus/sequence.hpp: `sequence_t`, `sequence_diff_t` and `difference`.
-- A sequence number is a native number below 2 ^ 64, and a difference an integer.
pub mod Distance
use disruptorplus.Common.{
  ℕ, ◌+◌, ◌-◌, ◌%◌, ◌^◌, ltb, if◌then◌else◌, ℤ, pos, negsuc, pos_part, neg_part,
}

-- The number of values of `sequence_t` (`uint64_t`, and `size_t`).
abbrev pub sequence_mod : ℕ
sequence_mod = 2 ^ 64

abbrev pub half_mod : ℕ
half_mod = 2 ^ 63

-- `static_cast<sequence_t>(a + b)` and `static_cast<sequence_t>(a - b)`.
abbrev pub add_sequence : ℕ → ℕ → ℕ
add_sequence a b = (a + b) % sequence_mod

abbrev pub sub_sequence : ℕ → ℕ → ℕ
sub_sequence a b = (a + sequence_mod - b) % sequence_mod

-- `static_cast<sequence_diff_t>`: two's complement.
abbrev pub to_signed : ℕ → ℤ
to_signed a = if ltb a half_mod then pos a else negsuc (sequence_mod - a - 1)

-- `static_cast<sequence_t>` of a signed value that is at least -(2 ^ 64).
abbrev pub to_unsigned : ℤ → ℕ
to_unsigned d = (pos_part d + sequence_mod - neg_part d) % sequence_mod

unfoldable pub difference : ℕ → ℕ → ℤ
difference a b = to_signed (sub_sequence a b)
