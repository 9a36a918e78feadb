-- ===== src/SequenceRange.antt =====
-- include/disruptorplus/sequence_range.hpp: a contiguous range of sequence numbers, which may wrap.
pub mod Elements
use disruptorplus.Common.{ℕ}
use disruptorplus.Sequence.{add_sequence, sub_sequence}

pub record SequenceRange : Type 0 where
  pub first : ℕ
  pub size : ℕ

-- The default constructor.
abbrev pub empty_range : SequenceRange
empty_range = record { first = 0; size = 0 }

-- `end()`, one past the last sequence number.
unfoldable pub end : SequenceRange → ℕ
end r = add_sequence r.first r.size

unfoldable pub last : SequenceRange → ℕ
unfolding end
last r = sub_sequence (end r) 1

-- `operator[]`
unfoldable pub at : SequenceRange → ℕ → ℕ
at r index = add_sequence r.first index
