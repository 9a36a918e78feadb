-- ===== src/Lib.antt =====
-- Disruptor++ (include/disruptorplus), a header-only library of the 'disruptor' for passing items
-- between threads: a ring buffer whose slots are claimed by writers and freed by readers, who tell
-- one another how far they have come by publishing sequence numbers.
--
-- The parts. Sequence numbers are 64-bit and wrap (`Sequence` for `difference`, `Minimum` for the two
-- minima of sequence.hpp, `SequenceRange` for sequence_range.hpp); a `RingBuffer` (ring_buffer.hpp)
-- is indexed by them. A `SequenceBarrier` (sequence_barrier.hpp) is one atomic sequence number that a
-- thread publishes and others wait for, and a `SequenceBarrierGroup` (sequence_barrier_group.hpp)
-- waits for the least advanced of several. Both wait through a wait strategy: `WaitStrategy` is the
-- interface of that template parameter and `WaitStrategy.Promise` its documented behaviour, which
-- `SpinWaitStrategy` (spin_wait_strategy.hpp, over `SpinWait`, spin_wait.hpp) implements. A writer
-- claims and publishes slots through `SingleThreadedClaimStrategy`
-- (single_threaded_claim_strategy.hpp) where it is the only one, and else through
-- `MultiThreadedClaimStrategy` (multi_threaded_claim_strategy.hpp), in which the writers share a
-- counter and an array of published numbers.
--
-- State and steps. `Memory` gives every `std::atomic<sequence_t>` an address. An `Action` is a call
-- by one thread: it takes a `World`, which counts the thread's accesses and holds the memory, and
-- returns, fails an assert, or still waits when its fuel is spent. Each load, store and clock reading
-- is one atomic step, before which the other threads may change the memory: `Environment.others` is
-- any function, so that a theorem covers every interleaving of the accesses. What a theorem supposes
-- of the others is the record `IsFair`: they only advance the sequence numbers (`Memory.Rely`).
-- Positions are compared by their distance from a base behind all of them, so that the theorems hold
-- across the wrap of the numbers; active numbers lie within 2 ^ 62 of the base, which is the
-- assumption that sequence.hpp documents. Objects that one thread owns are records, and a method
-- returns the new one. A member `m_name` is a field `name`; overloads are told apart by a suffix:
-- `_for` takes a duration, `_until` a time point, `_group` a group, `_after` the argument
-- `lastKnownPublished`.
--
-- Fuel. The loops of the spin wait run on fuel, one unit for a round. A wait returns if the sequence
-- number is published by the thread's access number t and the fuel is t or more, since each round
-- makes at least one access; a wait with a deadline returns if the clock has passed it by then, with
-- fuel for ten rounds more, after which the clock is read in every round. The compare-exchange loops
-- of the strategy for several writers run on fuel too: other threads can defeat an exchange any number
-- of times, so that a call returns if they settle while there is fuel left. The loops of its readers
-- take one unit for a sequence number, and numbers lie within 2 ^ 62 of the base.
--
-- Threads that block. `BlockingWaitStrategy` (blocking_wait_strategy.hpp) is modelled from outside: the
-- mutex, the condition variable, the memory and the phases of all threads are one state, and `Step`
-- relates it to the next for each access, lock, block, wake-up and signal of one of them, spurious
-- wake-ups included.
--
-- The programs that use it. `Benchmark` is the writer and the consumers of unicast.cpp,
-- multicast.cpp, pipeline.cpp and diamond.cpp (benchmark) as one system of threads, with
-- `single_threaded_claim_strategy`: each step is a statement of one thread, and a wait is the step
-- in which it returns, with any number that its atomics have reached, and none if there are no
-- atomics; `Benchmark.Waits` says that the library's waits return so. `Benchmark.Programs` is what
-- the four programs set up, by running the library's constructors, and `IsWired` of
-- `Benchmark.Wiring` what they have in common, on which the other modules of `Benchmark` rest.
-- `Benchmark.Sequencer` is sequencer.cpp, several producers and a consumer over
-- `multi_threaded_claim_strategy`, with at most 2 ^ 62 items in all, so that no number wraps
-- there; its `State.items` records what was written for each number, and is not in the program.
--
-- Not modelled: memory orders (all accesses are sequentially consistent), exceptions of the system's
-- synchronisation objects, allocation failure, padding; the two timed waits of
-- blocking_wait_strategy.hpp, which no program can instantiate; the timing, the output and the joins
-- of the programs under benchmark, and their runs with the other claim strategy; the programs under
-- test.
pub mod Common
pub mod Sequence
pub mod Memory
pub mod Minimum
pub mod SequenceRange
pub mod RingBuffer
pub mod SpinWait
pub mod WaitStrategy
pub mod SpinWaitStrategy
pub mod BlockingWaitStrategy
pub mod SequenceBarrier
pub mod SequenceBarrierGroup
pub mod SingleThreadedClaimStrategy
pub mod MultiThreadedClaimStrategy
pub mod Benchmark
mod Tests
