-- ===== src/Tests/Programs.antt =====
-- One writer and one consumer (benchmark/unicast.cpp) that pass on two items through a buffer of
-- two slots, step by step.
use mathlib.Core.List.{Memᴰ}
use mathlib.Core.List.Memᴰ
use disruptorplus.Common.{
  ℕ, suc, ◌+◌, ◌-◌, ◌*◌, ◌^◌, ◌≤◌, ◌<◌, ◌≡◌, ◌≢◌, refl, inl, [], ◌∷◌, some, arith, ◌==◌,
  if◌then◌else◌,
}
use disruptorplus.Sequence.{difference, add_sequence}
use disruptorplus.Memory.{Memory, World, update}
use disruptorplus.RingBuffer.{RingBuffer, get, put, slot}
use disruptorplus.WaitStrategy.{Totally}
use disruptorplus.Benchmark.{
  Program, waiting, reading, finished, Consumer, claiming, writing, writes_done, State, start,
  expected_result, read_item, wait, read, publish, finish, claim_one, write, publish_item, consume,
  Reachable, initially, next,
}
use disruptorplus.Benchmark.Wiring.{claimed, IsWired, IsOrdered}
use disruptorplus.Benchmark.Completing.{Run, stop, go, Run-bound, completes}
use disruptorplus.Benchmark.Items.{Reachable-item, Reachable-slot_ne, finished-expected}
use disruptorplus.Benchmark.Progress.{IsComplete}
use disruptorplus.Benchmark.Programs.{unicast, multicast, pipeline, diamond}
use disruptorplus.Benchmark.Programs.Wired.{IsSetUp, programs-IsSetUp}

abbrev two : Program
two = record {
  iteration_count = 2;
  consumer_count = 1;
  barrier = suc;
  upstream = λ k. 0 ∷ [];
  claim_strategy = record {
    buffer_size = 2;
    next_sequence_to_claim = 0;
    claim_barrier = record { strategy = 0; sequences = 1 ∷ [] };
    read_barrier = record { strategy = 0; cell = 0 };
  };
}

abbrev empty : RingBuffer ℕ
empty = record { size = 2; mask = 1; elements = 0 ∷ 0 ∷ [] }

wired : IsWired two empty
wired = record {
  valid = record { exponent = 1; power = refl; small = omega arith; masked = refl; stored = refl };
  sized = refl;
  short = omega arith;
  counted = omega arith;
  fresh = refl;
  awaited = λ k h. let first : k ≡ 0 = omega arith in rw first (claimed (Memᴰ.head refl));
  fed = λ k h. (0, Memᴰ.head refl);
  separate = λ j k hj hk ne. omega arith;
  apart = λ k h. omega arith;
}

ordered : IsOrdered two
ordered = record {
  sources = λ k u h m. inl (Memᴰ.eq_of_singleton m);
  claims = λ f m. (0, omega arith, Memᴰ.eq_of_singleton m);
  some_claim = refl;
}

-- The states after a claim, a write, a publication, and a step of the consumer.
abbrev claims : ℕ → State → State
claims i σ = record σ {
  writer = writing i σ.claim_strategy.next_sequence_to_claim;
  claim_strategy = record σ.claim_strategy {
    next_sequence_to_claim = add_sequence σ.claim_strategy.next_sequence_to_claim 1;
  };
}

abbrev writes : ℕ → State → State
writes i σ = record σ { writer = writes_done i i; buffer = put σ.buffer i i }

abbrev publishes : ℕ → State → State
publishes i σ = record σ { writer = claiming (suc i); mem = update σ.mem 0 i }

abbrev consumes : Memory → Consumer → State → State
consumes m c σ = record σ { mem = m; consumers = λ j. if j == 0 then c else σ.consumers j }

abbrev waits : ℕ → State → State
waits available σ = consumes σ.mem (record (σ.consumers 0) { place = reading available }) σ

abbrev reads : (available v : ℕ) → State → State
reads available v σ = consumes σ.mem (read_item (σ.consumers 0) available v) σ

abbrev consumed : ℕ → State → State
consumed available σ =
    consumes (update σ.mem 1 available) (record (σ.consumers 0) { place = waiting }) σ

-- The first item is published, and the consumer is to read it while the writer writes the second.
abbrev published_first : State
published_first = publishes 0 (writes 0 (claims 0 (start two empty)))

abbrev midway : State
midway = claims 1 (waits 0 published_first)

published_first-Reachable : Reachable two empty published_first
unfolding difference
published_first-Reachable =
    next
      (next
        (next initially
          (claim_one 0 (2 ^ 64 - 2) refl (omega arith) refl (omega arith, refl, (refl, tt))))
        (write 0 0 refl))
      (publish_item 0 0 refl)

midway-Reachable : Reachable two empty midway
unfolding difference
midway-Reachable =
    next
      (next published_first-Reachable
        (consume 0 (omega arith) (wait 0 refl (omega arith) refl (omega arith, refl, (refl, tt)))))
      (claim_one 1 (2 ^ 64 - 1) refl (omega arith) refl (omega arith, refl, (refl, tt)))

Reachable-item_example : get midway.buffer 0 ≡ some 0
Reachable-item_example = Reachable-item two wired midway-Reachable 0 (omega arith) 0 refl

Reachable-slot_ne_example : slot midway.buffer 1 ≢ slot midway.buffer 0
Reachable-slot_ne_example =
    Reachable-slot_ne two wired midway-Reachable 0 (omega arith) 0 1 1 refl refl

-- Both read and written, the consumer through.
abbrev all_read : State
all_read = consumed 1 (reads 1 1 (waits 1 (consumed 0 (reads 0 0 (publishes 1 (writes 1 midway))))))

abbrev ended : State
ended = consumes all_read.mem (record (all_read.consumers 0) { place = finished }) all_read

all_read-Reachable : Reachable two empty all_read
unfolding difference get slot read_item put
all_read-Reachable =
    let first = next (next midway-Reachable (write 1 1 refl)) (publish_item 1 1 refl) in
    let item = next first (consume 0 (omega arith) (read 0 0 refl refl)) in
    let passed = next item (consume 0 (omega arith) (publish 0 refl)) in
    let seen =
      next passed (
        consume 0 (omega arith) (wait 1 refl (omega arith) refl (omega arith, refl, (refl, tt)))) in
    next (next seen (consume 0 (omega arith) (read 1 1 refl refl)))
      (consume 0 (omega arith) (publish 1 refl))

ended-Reachable : Reachable two empty ended
unfolding read_item
ended-Reachable = next all_read-Reachable (consume 0 (omega arith) (finish refl refl))

finished-expected_example : (ended.consumers 0).sum ≡ expected_result 2
finished-expected_example =
    finished-expected two wired ended-Reachable 0 (omega arith) (omega arith) refl

Run-bound_example : 1 ≤ 3 * 2 + 1 * (3 * 2 + 1)
unfolding difference
Run-bound_example =
    Run-bound two wired
      (go (claim_one 0 (2 ^ 64 - 2) refl (omega arith) refl (omega arith, refl, (refl, tt))) stop)

completes_example :
    (n : ℕ) × (τ : State) × Run two midway n τ
    × IsComplete two τ
    × ((k : ℕ) → k < 1 → (τ.consumers k).sum ≡ expected_result 2)
completes_example = completes two wired ordered (omega arith) midway-Reachable

abbrev before : World
before = record { tick = 0; mem = λ l. 0 }

programs-IsSetUp_example :
    Totally (IsSetUp 10000000 1) (unicast 65536 10000000 before)
    × Totally (IsSetUp 10000000 3) (multicast 65536 10000000 3 before)
    × Totally (IsSetUp 10000000 3) (pipeline 65536 10000000 3 before)
    × Totally (IsSetUp 10000000 4) (diamond 65536 10000000 4 before)
programs-IsSetUp_example = programs-IsSetUp 16 10000000 2 before (omega arith) (omega arith)
