-- ===== src/Benchmark/Programs.antt =====
-- What the programs set up, for a writer with `single_threaded_claim_strategy`: unicast.cpp,
-- multicast.cpp, pipeline.cpp and diamond.cpp of benchmark. They run the library's constructors.
pub mod Built
pub mod Wired
use disruptorplus.Common.{ℕ, zero, suc, List, [], ◌∷◌, ◌==◌, if◌then◌else◌, Option, none, some}
use disruptorplus.Memory.{Action, ◌>>=◌, ◌>>◌, pure, failed}
use disruptorplus.RingBuffer.{RingBuffer, ring_buffer}
use disruptorplus.SequenceBarrier.{SequenceBarrier, sequence_barrier}
use disruptorplus.SequenceBarrierGroup
use disruptorplus.SequenceBarrierGroup.{SequenceBarrierGroup}
use disruptorplus.SingleThreadedClaimStrategy.{
  SingleThreadedClaimStrategy, single_threaded_claim_strategy, add_claim_barrier,
}
use disruptorplus.Benchmark.{Program}

-- The objects are at addresses of their own: the wait strategy at 0, the atomic of the claim
-- strategy's read barrier at 0, that of consumer `k` at `suc k`.
abbrev pub consumed_barrier : ℕ → SequenceBarrier
consumed_barrier k = record { strategy = 0; cell = suc k }

-- A call that is `none` where its `assert` fails.
abbrev pub asserted : {A : Type 0} → Option A → Action A
asserted none w = failed
asserted (some a) w = pure a w

-- The barriers of the first consumers, in the loop that makes them.
unfoldable pub make_barriers : ℕ → Action (Unit {0})
unfolding sequence_barrier
make_barriers zero = pure tt
make_barriers (suc i) = do make_barriers i; _ ← sequence_barrier 0 (suc i); pure tt

-- The same with `parallelConsumers.add` or with `claimStrategy.add_claim_barrier` in the loop.
unfoldable pub add_barriers : SequenceBarrierGroup → ℕ → Action SequenceBarrierGroup
unfolding sequence_barrier SequenceBarrierGroup.add
add_barriers group zero = pure group
add_barriers group (suc i) = do
  added ← add_barriers group i
  barrier ← sequence_barrier 0 (suc i)
  asserted (SequenceBarrierGroup.add added barrier)

unfoldable pub add_claim_barriers :
    SingleThreadedClaimStrategy → ℕ → Action SingleThreadedClaimStrategy
unfolding sequence_barrier add_claim_barrier
add_claim_barriers claim_strategy zero = pure claim_strategy
add_claim_barriers claim_strategy (suc i) = do
  added ← add_claim_barriers claim_strategy i
  barrier ← sequence_barrier 0 (suc i)
  asserted (add_claim_barrier added barrier)

-- What the consumers' waits read.
abbrev pub from_writer : ℕ → List ℕ
from_writer k = 0 ∷ []

abbrev pub from_previous : ℕ → List ℕ
from_previous zero = 0 ∷ []
from_previous (suc k) = suc k ∷ []

abbrev pub joined_by_last : (count : ℕ) → SequenceBarrierGroup → ℕ → List ℕ
joined_by_last count group k = if suc k == count then group.sequences else 0 ∷ []

abbrev pub set_up :
    (iteration_count consumer_count : ℕ)
    → (ℕ → List ℕ)
    → SingleThreadedClaimStrategy
    → RingBuffer ℕ
    → Program × RingBuffer ℕ
set_up iteration_count consumer_count upstream claim_strategy buffer = (
  record {
    iteration_count = iteration_count;
    consumer_count = consumer_count;
    barrier = suc;
    upstream = upstream;
    claim_strategy = claim_strategy;
  },
  buffer,
)

unfoldable pub unicast : (buffer_size iteration_count : ℕ) → Action (Program × RingBuffer ℕ)
unfolding single_threaded_claim_strategy sequence_barrier ring_buffer add_claim_barrier
unicast buffer_size iteration_count = do
  claim_strategy ← single_threaded_claim_strategy buffer_size 0 0
  consumed ← sequence_barrier 0 1
  with_barrier ← asserted (add_claim_barrier claim_strategy consumed)
  buffer ← asserted (ring_buffer 0 buffer_size)
  pure (set_up iteration_count 1 from_writer with_barrier buffer)

unfoldable pub multicast :
    (buffer_size iteration_count consumer_count : ℕ) → Action (Program × RingBuffer ℕ)
unfolding single_threaded_claim_strategy ring_buffer add_claim_barriers
multicast buffer_size iteration_count consumer_count = do
  claim_strategy ← single_threaded_claim_strategy buffer_size 0 0
  buffer ← asserted (ring_buffer 0 buffer_size)
  with_barriers ← add_claim_barriers claim_strategy consumer_count
  pure (set_up iteration_count consumer_count from_writer with_barriers buffer)

-- `consumedBarriers.back()` is no barrier if there are none.
unfoldable pub pipeline :
    (buffer_size iteration_count consumer_count : ℕ) → Action (Program × RingBuffer ℕ)
unfolding single_threaded_claim_strategy ring_buffer make_barriers add_claim_barrier
pipeline buffer_size iteration_count zero = λ w. failed
pipeline buffer_size iteration_count (suc last) = do
  claim_strategy ← single_threaded_claim_strategy buffer_size 0 0
  buffer ← asserted (ring_buffer 0 buffer_size)
  make_barriers (suc last)
  with_barrier ← asserted (add_claim_barrier claim_strategy (consumed_barrier last))
  pure (set_up iteration_count (suc last) from_previous with_barrier buffer)

-- The last round of the loop makes a barrier and adds none.
unfoldable pub diamond :
    (buffer_size iteration_count consumer_count : ℕ) → Action (Program × RingBuffer ℕ)
unfolding single_threaded_claim_strategy ring_buffer sequence_barrier add_barriers add_claim_barrier
diamond buffer_size iteration_count zero = λ w. failed
diamond buffer_size iteration_count (suc last) = do
  claim_strategy ← single_threaded_claim_strategy buffer_size 0 0
  buffer ← asserted (ring_buffer 0 buffer_size)
  parallel_consumers ← add_barriers (SequenceBarrierGroup.sequence_barrier_group 0) last
  consumed ← sequence_barrier 0 (suc last)
  with_barrier ← asserted (add_claim_barrier claim_strategy consumed)
  pure (
      set_up iteration_count (suc last) (joined_by_last (suc last) parallel_consumers) with_barrier
        buffer)
