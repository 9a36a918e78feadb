-- ===== src/MultiThreadedClaimStrategy.antt =====
-- include/disruptorplus/multi_threaded_claim_strategy.hpp: claiming and publishing slots of the
-- ring buffer where several threads write. The object's data that change are atomics of the memory.
pub mod Starting
pub mod Reading
pub mod Waiting
pub mod Ordered
pub mod Claiming
pub mod Trying
pub mod Attempting
pub mod Until
pub mod UntilLoop
pub mod Exchanging
pub mod Safety
pub mod Publishing
pub mod PublishingRange
use Prim.Native.Nat.{bit_and}
use mathlib.Core.Option
use disruptorplus.Common.{
  Option, ℕ, zero, suc, ◌+◌, Bool, true, false, none, some, min, ltb, ◌==◌, ◌&&◌, if◌then◌else◌,
  pos, ◌+ℤ◌, is_neg, is_pos, [], ◌∷◌,
}
use disruptorplus.Sequence.{add_sequence, sub_sequence, to_unsigned, difference}
use disruptorplus.Memory.{
  Environment, Memory, Action, done, waiting, ◌>>=◌, ◌>>◌, pure, assert, load, store, fetch_add,
  compare_exchange_weak, clock_now, update,
}
use disruptorplus.SequenceRange.{SequenceRange, last, at}
use disruptorplus.SequenceBarrier.{SequenceBarrier}
use disruptorplus.SequenceBarrierGroup
use disruptorplus.SequenceBarrierGroup.{SequenceBarrierGroup}
use disruptorplus.WaitStrategy.{WaitStrategy}

-- `published` is the address of `m_published[0]`, `next_claimable` that of the atomic
-- `m_nextClaimable`; the strategy is that of the claim barrier, and the padding holds no data.
pub record MultiThreadedClaimStrategy : Type 0 where
  pub index_mask : ℕ
  pub buffer_size : ℕ
  pub claim_barrier : SequenceBarrierGroup
  pub published : ℕ
  pub next_claimable : ℕ

-- The loop of the constructor, over the first `count` entries.
pub publish_before : (buffer_size published count : ℕ) → Memory → Memory
publish_before buffer_size published zero m = m
publish_before buffer_size published (suc i) m =
    update (publish_before buffer_size published i m) (published + i) (sub_sequence i buffer_size)

-- The constructor, at the addresses of its atomics. No thread shares the object yet.
unfoldable pub multi_threaded_claim_strategy :
    (buffer_size strategy published next_claimable : ℕ) → Action MultiThreadedClaimStrategy
unfolding publish_before
multi_threaded_claim_strategy buffer_size strategy published next_claimable = do
  assert (ltb 0 buffer_size && bit_and buffer_size (sub_sequence buffer_size 1) == 0)
  (λ w.
      done
        (record {
          index_mask = sub_sequence buffer_size 1;
          buffer_size = buffer_size;
          claim_barrier = SequenceBarrierGroup.sequence_barrier_group strategy;
          published = published;
          next_claimable = next_claimable;
        })
        (record w {
          mem = publish_before buffer_size published buffer_size (update w.mem next_claimable 0);
        }))

-- `add_claim_barrier` of a barrier; `none` if the `assert` of `add` fails.
unfoldable pub add_claim_barrier :
    MultiThreadedClaimStrategy → SequenceBarrier → Option MultiThreadedClaimStrategy
unfolding SequenceBarrierGroup.add
add_claim_barrier cs barrier =
    Option.map (λ group. record cs { claim_barrier = group })
      (SequenceBarrierGroup.add cs.claim_barrier barrier)

-- `add_claim_barrier` of a group.
unfoldable pub add_claim_barrier_group :
    MultiThreadedClaimStrategy → SequenceBarrierGroup → MultiThreadedClaimStrategy
unfolding SequenceBarrierGroup.add_group
add_claim_barrier_group cs group = record cs {
  claim_barrier = SequenceBarrierGroup.add_group cs.claim_barrier group;
}

-- The address of `m_published[sequence & m_indexMask]`.
unfoldable pub entry : MultiThreadedClaimStrategy → ℕ → ℕ
entry cs sequence = cs.published + bit_and sequence cs.index_mask

module _ (env : Environment) (ws : WaitStrategy) (cs : MultiThreadedClaimStrategy) where
  unfoldable pub claim_one : Action ℕ
  claim_one = do
    sequence ← fetch_add env cs.next_claimable 1
    _ ←
        SequenceBarrierGroup.wait_until_published env ws cs.claim_barrier
          (sub_sequence sequence cs.buffer_size)
    pure sequence

  unfoldable pub claim : ℕ → Action SequenceRange
  claim count = do
    let count' = min count cs.buffer_size
    sequence ← fetch_add env cs.next_claimable count'
    let range : SequenceRange = record { first = sequence; size = count' }
    _ ←
        SequenceBarrierGroup.wait_until_published env ws cs.claim_barrier
          (sub_sequence (last range) cs.buffer_size)
    pure range

  -- The loop of `try_claim`, on fuel: `count` shrinks from round to round.
  pub try_claim_loop :
      (fuel published : ℕ) → SequenceRange → (count sequence : ℕ) → Action (Bool × SequenceRange)
  try_claim_loop zero published range count sequence = λ w. waiting
  try_claim_loop (suc fuel) published range count sequence =
      let diff = difference published sequence in
      let count' = min count (to_unsigned (diff +ℤ pos 1)) in
      let again : ℕ → Action (Bool × SequenceRange) = try_claim_loop fuel published range count' in
      if is_neg diff then pure (false, range) else (do
        (stored, sequence') ←
            compare_exchange_weak env cs.next_claimable sequence (add_sequence sequence count')
        if stored then pure (true, record { first = sequence; size = count' }) else again sequence')

  -- Whether slots were claimed, and the out-parameter `range`.
  unfoldable pub try_claim : (fuel count : ℕ) → SequenceRange → Action (Bool × SequenceRange)
  unfolding try_claim_loop
  try_claim fuel count range = do
    published ← SequenceBarrierGroup.last_published env ws cs.claim_barrier
    sequence ← load env cs.next_claimable
    try_claim_loop fuel (add_sequence published cs.buffer_size) range count sequence

  -- In the loop of `try_claim_until`: what is published, waiting for it where too little is.
  unfoldable pub published_until : (timeout_time published sequence : ℕ) → Action ℕ
  published_until timeout_time published sequence =
      if is_neg (difference published sequence)
      then (do
        r ←
            SequenceBarrierGroup.wait_until_published_until env ws cs.claim_barrier
              (sub_sequence sequence cs.buffer_size) timeout_time
        pure (add_sequence r cs.buffer_size))
      else pure published

  -- The loop of `try_claim_until`, on fuel.
  pub try_claim_until_loop :
      (fuel count timeout_time : ℕ)
      → SequenceRange
      → (published sequence : ℕ) → Action (Bool × SequenceRange)
  try_claim_until_loop zero count timeout_time range published sequence = λ w. waiting
  try_claim_until_loop (suc fuel) count timeout_time range published sequence =
      let again : ℕ → ℕ → Action (Bool × SequenceRange) =
        try_claim_until_loop fuel count timeout_time range in
      do
        published' ← published_until timeout_time published sequence
        let diff = difference published' sequence
        let reduced_count = min count (to_unsigned (diff +ℤ pos 1))
        if is_neg diff then pure (false, range) else (do
          (stored, sequence') ←
              compare_exchange_weak env cs.next_claimable sequence
                (add_sequence sequence reduced_count)
          if stored
              then pure (true, record { first = sequence; size = reduced_count })
              else again published' sequence')

  unfoldable pub try_claim_until :
      (fuel count : ℕ) → SequenceRange → (timeout_time : ℕ) → Action (Bool × SequenceRange)
  unfolding try_claim_until_loop
  try_claim_until fuel count range timeout_time = do
    published ← SequenceBarrierGroup.last_published env ws cs.claim_barrier
    sequence ← load env cs.next_claimable
    try_claim_until_loop fuel count timeout_time range (add_sequence published cs.buffer_size)
        sequence

  unfoldable pub try_claim_for :
      (fuel count : ℕ) → SequenceRange → (timeout : ℕ) → Action (Bool × SequenceRange)
  unfolding try_claim_until
  try_claim_for fuel count range timeout = do
    now ← clock_now env
    try_claim_until fuel count range (now + timeout)

  unfoldable pub is_published : ℕ → Action Bool
  is_published sequence = do value ← load env (entry cs sequence); pure (value == sequence)

  unfoldable pub set_published : ℕ → Action (Unit {0})
  set_published sequence = do
    value ← load env (entry cs sequence)
    assert (value == sub_sequence sequence cs.buffer_size)
    store env (entry cs sequence) sequence

  unfoldable pub publish : ℕ → Action (Unit {0})
  unfolding set_published
  publish sequence = do set_published sequence; ws.signal_all

  -- The loop of `publish` of a range, with `left` elements to go from index `i` on.
  pub set_published_from : SequenceRange → (left i : ℕ) → Action (Unit {0})
  set_published_from range zero i = pure tt
  set_published_from range (suc left) i = do
    set_published (at range i)
    set_published_from range left (suc i)

  unfoldable pub publish_range : SequenceRange → Action (Unit {0})
  unfolding set_published_from
  publish_range range = do set_published_from range range.size 0; ws.signal_all

  -- The loop of `last_published_after`, on fuel, with `seq` one past the last known.
  pub last_published_loop : (fuel seq last_known_published : ℕ) → Action ℕ
  last_published_loop zero seq last_known_published = λ w. waiting
  last_published_loop (suc fuel) seq last_known_published =
      let again : Action ℕ = last_published_loop fuel (add_sequence seq 1) seq in
      do published ← is_published seq; if published then again else pure last_known_published

  unfoldable pub last_published_after : (fuel last_known_published : ℕ) → Action ℕ
  unfolding last_published_loop
  last_published_after fuel last_known_published =
      last_published_loop fuel (add_sequence last_known_published 1) last_known_published

  -- The loop of `wait_until_published`, on fuel.
  pub wait_loop : (fuel sequence seq : ℕ) → Action (Unit {0})
  wait_loop zero sequence seq = λ w. waiting
  wait_loop (suc fuel) sequence seq =
      let again : Action (Unit {0}) = wait_loop fuel sequence (add_sequence seq 1) in
      if is_pos (difference seq sequence) then pure tt else (do
        published ← is_published seq
        if published then again else (do _ ← ws.wait seq (entry cs seq ∷ []); again))

  unfoldable pub wait_until_published : (fuel sequence last_known_published : ℕ) → Action ℕ
  unfolding wait_loop last_published_after
  wait_until_published fuel sequence last_known_published = do
    assert (is_pos (difference sequence last_known_published))
    wait_loop fuel sequence (add_sequence last_known_published 1)
    last_published_after fuel sequence

  -- The loop of the overload with a `time_point`, with what it returns early where the wait has
  -- timed out. It does not pass the time point on to the wait strategy.
  pub wait_until_loop : (fuel sequence seq : ℕ) → Action (Option ℕ)
  wait_until_loop zero sequence seq = λ w. waiting
  wait_until_loop (suc fuel) sequence seq =
      let again : Action (Option ℕ) = wait_until_loop fuel sequence (add_sequence seq 1) in
      if is_pos (difference seq sequence) then pure none else (do
        published ← is_published seq
        if published then again else (do
          result ← ws.wait seq (entry cs seq ∷ [])
          if is_neg (difference result seq) then pure (some (sub_sequence seq 1)) else again))

  unfoldable pub wait_until_published_until :
      (fuel sequence last_known_published timeout_time : ℕ) → Action ℕ
  unfolding wait_until_loop last_published_after
  wait_until_published_until fuel sequence last_known_published timeout_time = do
    assert (is_pos (difference sequence last_known_published))
    early ← wait_until_loop fuel sequence (add_sequence last_known_published 1)
    elim early [ some r ↦ pure r | none ↦ last_published_after fuel sequence ]

  -- The overload with a `duration`.
  unfoldable pub wait_until_published_for :
      (fuel sequence last_known_published timeout : ℕ) → Action ℕ
  unfolding wait_until_published_until
  wait_until_published_for fuel sequence last_known_published timeout = do
    now ← clock_now env
    wait_until_published_until fuel sequence last_known_published (now + timeout)
