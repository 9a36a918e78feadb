-- ===== src/Tests/Producers.antt =====
-- Two producers and a consumer (benchmark/sequencer.cpp) that pass on one item each through a
-- buffer of two slots, step by step.
use Prim.Native.Nat.{bit_and}
use disruptorplus.Common.{
  ◌%◌, ℕ, ◌+◌, ◌-◌, ◌^◌, ◌≤◌, ◌<◌, ◌≡◌, ◌≢◌, refl, [], ◌∷◌, some, arith, ◌==◌, if◌then◌else◌,
  bit_and_mask, ℕ_discrete,
}
use disruptorplus.Sequence.{difference, add_sequence, sub_sequence}
use disruptorplus.Memory.{Memory, update}
use disruptorplus.RingBuffer.{RingBuffer, get, put, slot}
use disruptorplus.WaitStrategy.{Totally}
use disruptorplus.MultiThreadedClaimStrategy.{entry}
use disruptorplus.Benchmark.{waiting, reading, finished, Consumer, read_item}
use disruptorplus.Benchmark.Sequencer.{
  Sequencer, claiming, awaiting, writing, written, State, moves, start, fetch_add, claim_one, write,
  publish_item, wait, read, publish, finish, Reachable, initially, next, expected_result,
}
use disruptorplus.Benchmark.Sequencer.Invariant.{IsSetUp, Settled}
use disruptorplus.Benchmark.Sequencer.Safety.{next_to_read-stored, writing-slots_ne}
use disruptorplus.Benchmark.Sequencer.Asserting.{written-assert}
use disruptorplus.Benchmark.Sequencer.Expected.{finished-expected_result}
use disruptorplus.Benchmark.Sequencer.Starting.{sequencer, sequencer-IsSetUp}

abbrev two : Sequencer
two = record {
  iteration_count = 1;
  producer_count = 2;
  claim_strategy = record {
    index_mask = 1;
    buffer_size = 2;
    claim_barrier = record { strategy = 0; sequences = 3 ∷ [] };
    published = 0;
    next_claimable = 2;
  };
  consumed = 3;
}

abbrev memory : Memory
memory l = if l == 2 then 0 else if l == 0 then 2 ^ 64 - 2 else 2 ^ 64 - 1

abbrev empty : RingBuffer ℕ
empty = record { size = 2; mask = 1; elements = 0 ∷ 0 ∷ [] }

entry_below : (x : ℕ) → entry two.claim_strategy x < 2
unfolding entry
entry_below x = omega (arith, bit_and_mask 1 x)

initial_entry :
    (x i : ℕ) → x % 2 ≡ i → i < 2 → memory (entry two.claim_strategy x) ≡ sub_sequence (x % 2) 2
unfolding entry
initial_entry x i e below =
    let at_slot : 0 + bit_and x 1 ≡ i = omega (arith, bit_and_mask 1 x, e) in
    rw (at_slot, e) (ground (arith, below))

set_up : IsSetUp two memory empty
set_up = record {
  valid = record { exponent = 1; power = refl; small = omega arith; masked = refl; stored = refl };
  sized = refl;
  short = omega arith;
  counted = omega arith;
  few = omega arith;
  claims = refl;
  entries_apart = λ x. (λ e. omega (arith, entry_below x, e), λ e. omega (arith, entry_below x, e));
  apart = λ e. omega (arith, e);
  masked = refl;
  initial = λ x. elim (ℕ_discrete (x % 2) 0) [
    | yes e ↦ initial_entry x 0 e (omega arith)
    | no ne ↦ initial_entry x 1 (omega (arith, ne)) (omega arith)
  ];
  unclaimed = refl;
  unread = refl;
  unpublished = λ x fits e. ground (arith, entry_below x, e, fits);
}

-- The states after the steps of a producer, and of the consumer.
abbrev claims : ℕ → State → State
claims t σ = record (moves σ t (awaiting 0 (σ.mem 2))) {
  mem = update σ.mem 2 (add_sequence (σ.mem 2) 1);
}

abbrev waits : (t seq : ℕ) → State → State
waits t seq σ = moves σ t (writing 0 seq)

abbrev writes : (t seq : ℕ) → State → State
writes t seq σ = record (moves σ t (written 0 seq)) {
  buffer = put σ.buffer seq 0;
  items = λ x. if x == seq then 0 else σ.items x;
}

abbrev publishes : (t seq : ℕ) → State → State
publishes t seq σ = record (moves σ t (claiming 1)) {
  mem = update σ.mem (entry two.claim_strategy seq) seq;
}

abbrev consumes : Consumer → State → State
consumes c σ = record σ { consumer = c }

-- The second producer has claimed 0, the first 1, and both are about to write.
abbrev both : State
both = waits 0 1 (waits 1 0 (claims 0 (claims 1 (start two memory empty))))

both-Reachable : Reachable two memory empty both
unfolding difference
both-Reachable =
    next
      (next
        (next (next initially (fetch_add 1 0 (omega arith) refl (omega arith)))
          (fetch_add 0 0 (omega arith) refl (omega arith)))
        (claim_one 1 0 0 (omega arith) refl (refl, tt)))
      (claim_one 0 0 1 (omega arith) refl (refl, tt))

writing-slots_ne_example :
    ((u j y : ℕ) → 0 ≢ u → both.producers u ≡ writing j y → slot both.buffer 1 ≢ slot both.buffer y)
    × ((available : ℕ)
        → both.consumer.place ≡ reading available
        → slot both.buffer 1 ≢ slot both.buffer 0)
writing-slots_ne_example = writing-slots_ne two set_up both-Reachable 0 0 1 refl

-- The second producer has written its item.
abbrev one_written : State
one_written = writes 1 0 both

one_written-Reachable : Reachable two memory empty one_written
one_written-Reachable = next both-Reachable (write 1 0 0 (omega arith) refl)

written-assert_example : one_written.mem (entry two.claim_strategy 0) ≡ sub_sequence 0 2
written-assert_example = written-assert two set_up one_written-Reachable 1 0 0 refl

-- Both items are published, and the consumer is about to read the first.
abbrev begun : State
begun =
    let σ : State = publishes 0 1 (writes 0 1 (publishes 1 0 (writes 1 0 both))) in
    consumes (record σ.consumer { place = reading 1 }) σ

marked : (x : ℕ) → x ≤ 1 → begun.mem (entry two.claim_strategy x) ≡ x
unfolding entry
marked x h = elim (ℕ_discrete x 0) [
  | yes e ↦ rw e refl
  | no ne ↦ let one : x ≡ 1 = omega (arith, h, ne) in rw one refl
]

begun-Reachable : Reachable two memory empty begun
begun-Reachable =
    next
      (next
        (next
          (next (next both-Reachable (write 1 0 0 (omega arith) refl))
            (publish_item 1 0 0 (omega arith) refl))
          (write 0 0 1 (omega arith) refl))
        (publish_item 0 0 1 (omega arith) refl))
      (wait 1 refl (omega arith) (omega arith) λ x from upto. marked x upto)

next_to_read-stored_example : (get begun.buffer 0 ≡ some (begun.items 0)) × Settled two begun 0
next_to_read-stored_example = next_to_read-stored two set_up begun-Reachable 1 refl

-- Both are read, and the consumer is through.
abbrev ended : State
ended =
    let c = read_item (read_item begun.consumer 1 0) 1 0 in
    record begun {
      mem = update begun.mem 3 1;
      consumer = record (record c { place = waiting }) { place = finished };
    }

ended-Reachable : Reachable two memory empty ended
unfolding read_item get put slot
ended-Reachable =
    next
      (next (next (next begun-Reachable (read 1 0 refl refl)) (read 1 0 refl refl))
        (publish 1 refl))
      (finish refl refl)

finished-expected_result_example : ended.consumer.sum ≡ expected_result 1 2
unfolding read_item
finished-expected_result_example =
    finished-expected_result two set_up ended-Reachable (omega arith) refl

sequencer-IsSetUp_example :
    Totally
      (λ made w'.
        (p : Sequencer) × (b : RingBuffer ℕ) × (made ≡ some (p, b))
        × (p.iteration_count ≡ 10000000)
        × (p.producer_count ≡ 4)
        × IsSetUp p w'.mem b)
      (sequencer 65536 10000000 4 (record { tick = 0; mem = memory }))
sequencer-IsSetUp_example =
    sequencer-IsSetUp 16 10000000 4 (record { tick = 0; mem = memory }) (omega arith) (omega arith)
      (omega arith)
