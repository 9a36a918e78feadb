-- ===== src/SequenceBarrierGroup.antt =====
-- include/disruptorplus/sequence_barrier_group.hpp: waiting for the least advanced of several
-- sequence barriers.
pub mod Waiting
use disruptorplus.Common.{
  ℕ, Bool, true, false, not, List, [], ◌∷◌, ◌++◌, is_neg, ◌==◌, if◌then◌else◌, Option, none, some,
}
use disruptorplus.Sequence.{difference}
use disruptorplus.Memory.{Environment, Action, ◌>>=◌, ◌>>◌, pure, assert}
use disruptorplus.Minimum.{minimum_sequence, minimum_sequence_after}
use disruptorplus.SequenceBarrier.{SequenceBarrier}
use disruptorplus.WaitStrategy.{WaitStrategy}

-- `&m_waitStrategy` and the addresses in `m_sequences`.
pub record SequenceBarrierGroup : Type 0 where
  pub strategy : ℕ
  pub sequences : List ℕ

abbrev pub sequence_barrier_group : ℕ → SequenceBarrierGroup
sequence_barrier_group strategy = record { strategy = strategy; sequences = [] }

-- `add` of a barrier; `none` if its `assert` fails.
unfoldable pub add : SequenceBarrierGroup → SequenceBarrier → Option SequenceBarrierGroup
add group barrier =
    if barrier.strategy == group.strategy
    then some (record group { sequences = group.sequences ++ (barrier.cell ∷ []) })
    else none

-- `add` of all barriers of another group.
unfoldable pub add_group : SequenceBarrierGroup → SequenceBarrierGroup → SequenceBarrierGroup
add_group group other = record group { sequences = group.sequences ++ other.sequences }

abbrev pub is_empty : List ℕ → Bool
is_empty [] = true
is_empty (l ∷ ls) = false

module _ (env : Environment) (ws : WaitStrategy) where
  unfoldable pub last_published : SequenceBarrierGroup → Action ℕ
  last_published group = do
    assert (not (is_empty group.sequences))
    minimum_sequence env group.sequences

  unfoldable pub wait_until_published : SequenceBarrierGroup → ℕ → Action ℕ
  wait_until_published group sequence = do
    assert (not (is_empty group.sequences))
    current ← minimum_sequence_after env sequence group.sequences
    if is_neg (difference current sequence) then ws.wait sequence group.sequences else pure current

  -- The overload with a `duration`.
  unfoldable pub wait_until_published_for : SequenceBarrierGroup → ℕ → ℕ → Action ℕ
  wait_until_published_for group sequence timeout = do
    assert (not (is_empty group.sequences))
    current ← minimum_sequence_after env sequence group.sequences
    if is_neg (difference current sequence)
        then ws.wait_for sequence group.sequences timeout
        else pure current

  -- The overload with a `time_point`.
  unfoldable pub wait_until_published_until : SequenceBarrierGroup → ℕ → ℕ → Action ℕ
  wait_until_published_until group sequence timeout_time = do
    assert (not (is_empty group.sequences))
    current ← minimum_sequence_after env sequence group.sequences
    if is_neg (difference current sequence)
        then ws.wait_until sequence group.sequences timeout_time
        else pure current
