-- ===== src/Benchmark.antt =====
-- benchmark/unicast.cpp, multicast.cpp, pipeline.cpp and diamond.cpp with one writer thread
-- (`single_threaded_claim_strategy`): the writer and its consumers as one system of threads, whose
-- steps are the statements of their loops. The four programs differ in what each consumer waits for
-- and in which consumers the writer waits for. A call that waits is the step in which it returns.
pub mod Wiring
pub mod Invariant
pub mod Consuming
pub mod Preserving
pub mod Items
pub mod Progress
pub mod Completing
pub mod Programs
pub mod Waits
pub mod Sequencer
use disruptorplus.Common.{
  ℕ, suc, ◌+◌, ◌-◌, ◌<◌, ◌≡◌, ◌≢◌, if◌then◌else◌, ◌==◌, is_neg, false, List, All, some, ◌%◌, ◌^◌,
  ◌*◌, ◌/◌,
}
use disruptorplus.Sequence.{difference, add_sequence, sub_sequence, sequence_mod}
use disruptorplus.Memory.{Memory, update}
use disruptorplus.RingBuffer.{RingBuffer, get, put}
use disruptorplus.SequenceBarrierGroup.{is_empty}
use disruptorplus.WaitStrategy.{MayReturn}
use disruptorplus.SingleThreadedClaimStrategy.{SingleThreadedClaimStrategy, needed}

-- What the programs set up: `iterationCount`, the number of consumers, for each of them the atomic
-- of its `sequence_barrier` and the atomics that it waits for, and the claim strategy with its
-- claim barriers.
pub record Program : Type 0 where
  pub iteration_count : ℕ
  pub consumer_count : ℕ
  pub barrier : ℕ → ℕ
  pub upstream : ℕ → List ℕ
  pub claim_strategy : SingleThreadedClaimStrategy

-- Where a consumer stands in its loop; `available` is the local variable of this name.
pub data Place : Type 0 where
  waiting : Place
  reading : (available : ℕ) → Place
  publishing : (available : ℕ) → Place
  finished : Place

-- A consumer's local variables.
pub record Consumer : Type 0 where
  pub place : Place
  pub next_to_read : ℕ
  pub items_remaining : ℕ
  pub sum : ℕ

-- Where the writer stands in its loop, with the variables `i` and `seq`.
pub data WriterPlace : Type 0 where
  claiming : (i : ℕ) → WriterPlace
  writing : (i seq : ℕ) → WriterPlace
  writes_done : (i seq : ℕ) → WriterPlace

pub record State : Type 0 where
  pub mem : Memory
  pub buffer : RingBuffer ℕ
  pub claim_strategy : SingleThreadedClaimStrategy
  pub writer : WriterPlace
  pub consumers : ℕ → Consumer

abbrev pub start_consumer : ℕ → Consumer
start_consumer iteration_count = record {
  place = waiting;
  next_to_read = 0;
  items_remaining = iteration_count;
  sum = 0;
}

-- All barriers begin at -1.
abbrev pub start : Program → RingBuffer ℕ → State
start p buffer = record {
  mem = λ l. 2 ^ 64 - 1;
  buffer = buffer;
  claim_strategy = p.claim_strategy;
  writer = claiming 0;
  consumers = λ k. start_consumer p.iteration_count;
}

-- `expectedResult`
unfoldable pub expected_result : ℕ → ℕ
expected_result iteration_count =
    iteration_count * sub_sequence iteration_count 1 % sequence_mod / 2

-- The body of the `do` loop, which reads the value `v`, with its test.
unfoldable pub read_item : Consumer → (available v : ℕ) → Consumer
read_item c available v = record {
  place = if c.next_to_read == available then publishing available else reading available;
  next_to_read = add_sequence c.next_to_read 1;
  items_remaining = sub_sequence c.items_remaining 1;
  sum = (c.sum + v) % sequence_mod;
}

-- A step of one consumer, which may store in the memory.
pub data ConsumerStep (p : Program) (k : ℕ) (m : Memory) (b : RingBuffer ℕ) (c : Consumer)
    : Memory → Consumer → Type 0 where
  -- `while (itemsRemaining > 0)` and `wait_until_published`, which for a group asserts that the
  -- group has barriers.
  wait :
      (available : ℕ)
      → c.place ≡ waiting
      → c.items_remaining ≢ 0
      → is_empty (p.upstream k) ≡ false
      → MayReturn m c.next_to_read (p.upstream k) available
      → ConsumerStep p k m b c m (record c { place = reading available })
  read :
      (available v : ℕ)
      → c.place ≡ reading available
      → get b c.next_to_read ≡ some v
      → ConsumerStep p k m b c m (read_item c available v)
  -- `barrier.publish(available)`
  publish :
      (available : ℕ)
      → c.place ≡ publishing available
      → ConsumerStep p k m b c (update m (p.barrier k) available) (record c { place = waiting })
  finish :
      c.place ≡ waiting
      → c.items_remaining ≡ 0
      → ConsumerStep p k m b c m (record c { place = finished })

pub data Step (p : Program) (σ : State) : State → Type 0 where
  -- `claim_one` returns when its wait does, whose `assert` fails if there is no claim barrier.
  claim_one :
      (i r : ℕ)
      → σ.writer ≡ claiming i
      → i < p.iteration_count
      → is_empty σ.claim_strategy.claim_barrier.sequences ≡ false
      → MayReturn σ.mem (needed σ.claim_strategy) σ.claim_strategy.claim_barrier.sequences r
      → Step p σ (record σ {
        writer = writing i σ.claim_strategy.next_sequence_to_claim;
        claim_strategy = record σ.claim_strategy {
          next_sequence_to_claim = add_sequence σ.claim_strategy.next_sequence_to_claim 1;
        };
      })
  -- `buffer[seq] = i`
  write :
      (i seq : ℕ)
      → σ.writer ≡ writing i seq
      → Step p σ (record σ { writer = writes_done i seq; buffer = put σ.buffer seq i })
  -- `claimStrategy.publish(seq)`, and the next round
  publish_item :
      (i seq : ℕ)
      → σ.writer ≡ writes_done i seq
      → Step p σ (record σ {
        writer = claiming (suc i);
        mem = update σ.mem σ.claim_strategy.read_barrier.cell seq;
      })
  consume :
      (k : ℕ) {m : Memory} {c : Consumer}
      → k < p.consumer_count
      → ConsumerStep p k σ.mem σ.buffer (σ.consumers k) m c
      → Step p σ (record σ { mem = m; consumers = λ j. if j == k then c else σ.consumers j })

pub data Reachable (p : Program) (b : RingBuffer ℕ) : State → Type 0 where
  initially : Reachable p b (start p b)
  next : {σ τ : State} → Reachable p b σ → Step p σ τ → Reachable p b τ
