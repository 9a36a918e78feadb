-- ===== src/Benchmark/Sequencer.antt =====
-- benchmark/sequencer.cpp with `multi_threaded_claim_strategy`: several producers and one consumer
-- as one system of threads, whose steps are the accesses and statements of their loops.
pub mod Invariant
pub mod Producing
pub mod Claiming
pub mod Safety
pub mod Sums
pub mod Expected
pub mod Starting
pub mod Entries
pub mod Asserting
use disruptorplus.Common.{
  ℕ, suc, ◌+◌, ◌*◌, ◌/◌, ◌%◌, ◌^◌, ◌≤◌, ◌<◌, ◌≡◌, ◌≢◌, if◌then◌else◌, ◌==◌, is_neg, false, List,
  All, some,
}
use disruptorplus.Sequence.{sequence_mod, difference, add_sequence, sub_sequence}
use disruptorplus.Memory.{Memory, update}
use disruptorplus.RingBuffer.{RingBuffer, get, put}
use disruptorplus.MultiThreadedClaimStrategy.{MultiThreadedClaimStrategy, entry}
use disruptorplus.Benchmark.{
  Place, waiting, reading, publishing, finished, Consumer, start_consumer, read_item,
}

-- All atomics of the list have come to `s`.
abbrev pub Passed : Memory → (s : ℕ) → List ℕ → Type 0
Passed m s ls = All (λ l. is_neg (difference (m l) s) ≡ false) ls

-- `claimStrategy`, the atomic of `consumed`, and the two counts.
pub record Sequencer : Type 0 where
  pub iteration_count : ℕ
  pub producer_count : ℕ
  pub claim_strategy : MultiThreadedClaimStrategy
  pub consumed : ℕ

-- `expectedResult`
unfoldable pub expected_result : (iteration_count producer_count : ℕ) → ℕ
expected_result iteration_count producer_count =
    producer_count
    * (iteration_count * sub_sequence iteration_count 1 % sequence_mod)
    % sequence_mod
    / 2

-- Where a producer stands in its loop: before the `fetch_add` of `claim_one`, in its wait, and
-- before and after the assignment.
pub data ProducerPlace : Type 0 where
  claiming : (i : ℕ) → ProducerPlace
  awaiting : (i seq : ℕ) → ProducerPlace
  writing : (i seq : ℕ) → ProducerPlace
  written : (i seq : ℕ) → ProducerPlace

-- `items` is not in the program: it records what was assigned, by its sequence number.
pub record State : Type 0 where
  pub mem : Memory
  pub buffer : RingBuffer ℕ
  pub producers : ℕ → ProducerPlace
  pub consumer : Consumer
  pub items : ℕ → ℕ

-- The constructors of the claim strategy and of the barrier have made the memory.
abbrev pub start : Sequencer → Memory → RingBuffer ℕ → State
start p mem buffer = record {
  mem = mem;
  buffer = buffer;
  producers = λ t. claiming 0;
  consumer = start_consumer (p.iteration_count * p.producer_count);
  items = λ x. 0;
}

abbrev pub moves : State → ℕ → ProducerPlace → State
moves σ t q = record σ { producers = λ k. if k == t then q else σ.producers k }

pub data Step (p : Sequencer) (σ : State) : State → Type 0 where
  fetch_add :
      (t i : ℕ)
      → t < p.producer_count
      → σ.producers t ≡ claiming i
      → i < p.iteration_count
      → Step p σ (record (moves σ t (awaiting i (σ.mem p.claim_strategy.next_claimable))) {
        mem =
            update σ.mem p.claim_strategy.next_claimable
              (add_sequence (σ.mem p.claim_strategy.next_claimable) 1);
      })
  -- The wait of `claim_one` returns.
  claim_one :
      (t i seq : ℕ)
      → t < p.producer_count
      → σ.producers t ≡ awaiting i seq
      → Passed σ.mem
          (sub_sequence seq p.claim_strategy.buffer_size)
          p.claim_strategy.claim_barrier.sequences
      → Step p σ (moves σ t (writing i seq))
  -- `buffer[seq] = i`
  write :
      (t i seq : ℕ)
      → t < p.producer_count
      → σ.producers t ≡ writing i seq
      → Step p σ (record (moves σ t (written i seq)) {
        buffer = put σ.buffer seq i;
        items = λ x. if x == seq then i else σ.items x;
      })
  -- The store of `publish`, without the load and the `assert` before it, and the next round.
  publish_item :
      (t i seq : ℕ)
      → t < p.producer_count
      → σ.producers t ≡ written i seq
      → Step p σ (record (moves σ t (claiming (suc i))) {
        mem = update σ.mem (entry p.claim_strategy seq) seq;
      })
  -- `wait_until_published` has seen all numbers up to `available` published.
  wait :
      (available : ℕ)
      → σ.consumer.place ≡ waiting
      → σ.consumer.items_remaining ≢ 0
      → σ.consumer.next_to_read ≤ available
      → ((x : ℕ)
          → σ.consumer.next_to_read ≤ x
          → x ≤ available
          → σ.mem (entry p.claim_strategy x) ≡ x)
      → Step p σ (record σ { consumer = record σ.consumer { place = reading available } })
  read :
      (available v : ℕ)
      → σ.consumer.place ≡ reading available
      → get σ.buffer σ.consumer.next_to_read ≡ some v
      → Step p σ (record σ { consumer = read_item σ.consumer available v })
  publish :
      (available : ℕ)
      → σ.consumer.place ≡ publishing available
      → Step p σ (record σ {
        mem = update σ.mem p.consumed available;
        consumer = record σ.consumer { place = waiting };
      })
  finish :
      σ.consumer.place ≡ waiting
      → σ.consumer.items_remaining ≡ 0
      → Step p σ (record σ { consumer = record σ.consumer { place = finished } })

pub data Reachable (p : Sequencer) (m : Memory) (b : RingBuffer ℕ) : State → Type 0 where
  initially : Reachable p m b (start p m b)
  next : {σ τ : State} → Reachable p m b σ → Step p σ τ → Reachable p m b τ
