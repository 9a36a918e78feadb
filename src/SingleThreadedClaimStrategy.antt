-- ===== src/SingleThreadedClaimStrategy.antt =====
-- include/disruptorplus/single_threaded_claim_strategy.hpp: claiming and publishing slots of the
-- ring buffer where one thread writes. Only that thread uses the object, so a call returns the new
-- one.
pub mod Claiming
pub mod Blocking
pub mod Trying
pub mod Timed
pub mod Safety
pub mod One
use Prim.Native.Nat.{bit_and}
use mathlib.Core.Option
use disruptorplus.Common.{
  Option, not, ℕ, ◌+◌, Bool, true, false, min, ltb, ◌==◌, ◌&&◌, if◌then◌else◌, ℤ, pos, ◌+ℤ◌, is_neg,
}
use disruptorplus.Sequence.{add_sequence, sub_sequence, to_unsigned, difference}
use disruptorplus.Memory.{Environment, Action, ◌>>=◌, ◌>>◌, pure, assert}
use disruptorplus.SequenceRange.{SequenceRange}
use disruptorplus.SequenceBarrier
use disruptorplus.SequenceBarrier.{SequenceBarrier}
use disruptorplus.SequenceBarrierGroup
use disruptorplus.SequenceBarrierGroup.{SequenceBarrierGroup}
use disruptorplus.WaitStrategy.{WaitStrategy}

-- The member `m_lastKnownClaimableSequence` is never read or written.
pub record SingleThreadedClaimStrategy : Type 0 where
  pub buffer_size : ℕ
  pub next_sequence_to_claim : ℕ
  pub claim_barrier : SequenceBarrierGroup
  pub read_barrier : SequenceBarrier

-- The constructor, at the address of the atomic of its read barrier.
unfoldable pub single_threaded_claim_strategy :
    (buffer_size strategy cell : ℕ) → Action SingleThreadedClaimStrategy
unfolding SequenceBarrier.sequence_barrier
single_threaded_claim_strategy buffer_size strategy cell = do
  read_barrier ← SequenceBarrier.sequence_barrier strategy cell
  assert (ltb 0 buffer_size && bit_and buffer_size (sub_sequence buffer_size 1) == 0)
  pure (record {
    buffer_size = buffer_size;
    next_sequence_to_claim = 0;
    claim_barrier = SequenceBarrierGroup.sequence_barrier_group strategy;
    read_barrier = read_barrier;
  })

-- The end of `claim` and of the three `try_claim`s, with the difference between the last claimable
-- sequence number and the next one to claim.
unfoldable pub claim_available :
    SingleThreadedClaimStrategy
    → (count : ℕ) (diff : ℤ) → SequenceRange × SingleThreadedClaimStrategy
claim_available cs count diff =
    let available = to_unsigned (diff +ℤ pos 1) in
    let count' = min count available in
    (
      record { first = cs.next_sequence_to_claim; size = count' },
      record cs { next_sequence_to_claim = add_sequence cs.next_sequence_to_claim count' },
    )

-- What the three `try_claim`s return: whether slots were claimed, the out-parameter `range`, and
-- the object.
abbrev pub Tried : Type 0
Tried = Bool × SequenceRange × SingleThreadedClaimStrategy

-- The end of each of them, from what the claim barriers have published. `try_claim` also asserts
-- what its test has just found.
unfoldable pub claim_published :
    SingleThreadedClaimStrategy → (count : ℕ) (range : SequenceRange) (published : ℕ) → Tried
unfolding claim_available
claim_published cs count range published =
    let diff = difference (add_sequence published cs.buffer_size) cs.next_sequence_to_claim in
    let (range', cs') = claim_available cs count diff in
    if is_neg diff then (false, range, cs) else (true, range', cs')

-- The sequence number that the claim barriers must have published for the next slot to be free.
abbrev pub needed : SingleThreadedClaimStrategy → ℕ
needed cs = sub_sequence cs.next_sequence_to_claim cs.buffer_size

module _ (env : Environment) (ws : WaitStrategy) where
  unfoldable pub claim_one : SingleThreadedClaimStrategy → Action (ℕ × SingleThreadedClaimStrategy)
  claim_one cs = do
    _ ← SequenceBarrierGroup.wait_until_published env ws cs.claim_barrier (needed cs)
    pure (
      cs.next_sequence_to_claim,
      record cs { next_sequence_to_claim = add_sequence cs.next_sequence_to_claim 1 },
    )

  unfoldable pub claim :
      SingleThreadedClaimStrategy → ℕ → Action (SequenceRange × SingleThreadedClaimStrategy)
  unfolding claim_available
  claim cs count = do
    published ← SequenceBarrierGroup.wait_until_published env ws cs.claim_barrier (needed cs)
    let diff = difference (add_sequence published cs.buffer_size) cs.next_sequence_to_claim
    assert (not (is_neg diff))
    pure (claim_available cs count diff)

  unfoldable pub try_claim : SingleThreadedClaimStrategy → ℕ → SequenceRange → Action Tried
  unfolding claim_published
  try_claim cs count range = do
    published ← SequenceBarrierGroup.last_published env ws cs.claim_barrier
    pure (claim_published cs count range published)

  unfoldable pub try_claim_for :
      SingleThreadedClaimStrategy → ℕ → SequenceRange → (timeout : ℕ) → Action Tried
  unfolding claim_published
  try_claim_for cs count range timeout = do
    (claimed, range', cs') ← try_claim cs count range
    if claimed then pure (true, range', cs') else (do
      published ←
          SequenceBarrierGroup.wait_until_published_for env ws cs'.claim_barrier (needed cs')
            timeout
      pure (claim_published cs' count range' published))

  unfoldable pub try_claim_until :
      SingleThreadedClaimStrategy → ℕ → SequenceRange → (timeout_time : ℕ) → Action Tried
  unfolding claim_published
  try_claim_until cs count range timeout_time = do
    (claimed, range', cs') ← try_claim cs count range
    if claimed then pure (true, range', cs') else (do
      published ←
          SequenceBarrierGroup.wait_until_published_until env ws cs'.claim_barrier (needed cs')
            timeout_time
      pure (claim_published cs' count range' published))

  unfoldable pub publish : SingleThreadedClaimStrategy → ℕ → Action (Unit {0})
  publish cs sequence = SequenceBarrier.publish env ws cs.read_barrier sequence

  unfoldable pub last_published : SingleThreadedClaimStrategy → Action ℕ
  last_published cs = SequenceBarrier.last_published env ws cs.read_barrier

  unfoldable pub wait_until_published : SingleThreadedClaimStrategy → ℕ → Action ℕ
  wait_until_published cs sequence =
      SequenceBarrier.wait_until_published env ws cs.read_barrier sequence

  unfoldable pub wait_until_published_for : SingleThreadedClaimStrategy → ℕ → ℕ → Action ℕ
  wait_until_published_for cs sequence timeout =
      SequenceBarrier.wait_until_published_for env ws cs.read_barrier sequence timeout

  unfoldable pub wait_until_published_until : SingleThreadedClaimStrategy → ℕ → ℕ → Action ℕ
  wait_until_published_until cs sequence timeout_time =
      SequenceBarrier.wait_until_published_until env ws cs.read_barrier sequence timeout_time

  -- The overloads with the argument `lastKnownPublished`, which they ignore.
  unfoldable pub wait_until_published_after : SingleThreadedClaimStrategy → (s known : ℕ) → Action ℕ
  unfolding wait_until_published
  wait_until_published_after cs sequence last_known_published = wait_until_published cs sequence

  unfoldable pub wait_until_published_after_for :
      SingleThreadedClaimStrategy → (s known timeout : ℕ) → Action ℕ
  unfolding wait_until_published_for
  wait_until_published_after_for cs sequence last_known_published timeout =
      wait_until_published_for cs sequence timeout

  unfoldable pub wait_until_published_after_until :
      SingleThreadedClaimStrategy → (s known timeout_time : ℕ) → Action ℕ
  unfolding wait_until_published_until
  wait_until_published_after_until cs sequence last_known_published timeout_time =
      wait_until_published_until cs sequence timeout_time

-- `add_claim_barrier` of a barrier; `none` if the `assert` of `add` fails.
unfoldable pub add_claim_barrier :
    SingleThreadedClaimStrategy → SequenceBarrier → Option SingleThreadedClaimStrategy
unfolding SequenceBarrierGroup.add
add_claim_barrier cs barrier =
    Option.map (λ group. record cs { claim_barrier = group })
      (SequenceBarrierGroup.add cs.claim_barrier barrier)

-- `add_claim_barrier` of a group.
unfoldable pub add_claim_barrier_group :
    SingleThreadedClaimStrategy → SequenceBarrierGroup → SingleThreadedClaimStrategy
unfolding SequenceBarrierGroup.add_group
add_claim_barrier_group cs group = record cs {
  claim_barrier = SequenceBarrierGroup.add_group cs.claim_barrier group;
}
