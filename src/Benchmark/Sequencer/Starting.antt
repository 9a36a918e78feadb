-- ===== src/Benchmark/Sequencer/Starting.antt =====
-- What benchmark/sequencer.cpp sets up before its threads start.
use Prim.Native.Nat.{bit_and}
use native.Mathlib.Nat.{one-le-pow, mod-lt}
use disruptorplus.Common.{
  ℕ, suc, ◌+◌, ◌-◌, ◌*◌, ◌%◌, ◌^◌, ◌≤◌, ◌<◌, ◌≡◌, ◌≢◌, refl, ap, ◌∙◌, inr, Option, none, some,
  arith, bit_and_mask,
}
use disruptorplus.Sequence.{sub_sequence}
use disruptorplus.Memory.{Memory, World, Action, update, ◌>>=◌, pure}
use disruptorplus.RingBuffer.{RingBuffer, ring_buffer}
use disruptorplus.SequenceBarrier
use disruptorplus.SequenceBarrierGroup
use disruptorplus.WaitStrategy.{Totally}
use disruptorplus.MultiThreadedClaimStrategy.{
  MultiThreadedClaimStrategy, entry, publish_before, multi_threaded_claim_strategy,
  add_claim_barrier,
}
use disruptorplus.MultiThreadedClaimStrategy.Starting.{
  publish_before-inside, publish_before-outside,
}
use disruptorplus.Benchmark.Programs.Built.{buffer-made, size-passes}
use disruptorplus.Benchmark.Sequencer.{Sequencer}
use disruptorplus.Benchmark.Sequencer.Invariant.{IsSetUp}

-- The ring buffer, once the claim strategy has its barrier.
abbrev pub with_buffer :
    (buffer_size iteration_count producer_count consumed : ℕ)
    → Option MultiThreadedClaimStrategy
    → Option (RingBuffer ℕ)
    → Option (Sequencer × RingBuffer ℕ)
with_buffer buffer_size iteration_count producer_count consumed (some cs) (some buffer) = some (
  record {
    iteration_count = iteration_count;
    producer_count = producer_count;
    claim_strategy = cs;
    consumed = consumed;
  },
  buffer,
)
with_buffer buffer_size iteration_count producer_count consumed (some cs) none = none
with_buffer buffer_size iteration_count producer_count consumed none buffer = none

-- The array of published numbers is at the addresses from 0 on, followed by the counter and by the
-- atomic of `consumed`; the wait strategy is number 0.
unfoldable pub sequencer :
    (buffer_size iteration_count producer_count : ℕ) → Action (Option (Sequencer × RingBuffer ℕ))
unfolding multi_threaded_claim_strategy SequenceBarrier.sequence_barrier add_claim_barrier
    ring_buffer
sequencer buffer_size iteration_count producer_count = do
  claim_strategy ← multi_threaded_claim_strategy buffer_size 0 0 buffer_size
  consumed ← SequenceBarrier.sequence_barrier 0 (suc buffer_size)
  pure (
      with_buffer buffer_size iteration_count producer_count (suc buffer_size)
        (add_claim_barrier claim_strategy consumed) (ring_buffer 0 buffer_size))

update-other : (m : Memory) (k l v : ℕ) → l ≢ k → update m k v l ≡ m l
update-other m k l v ne = ground arith

-- For a buffer of a power of two up to 2 ^ 62 slots and at most 2 ^ 62 items in all, fewer than
-- 2 ^ 64 for each producer, the set-up passes its asserts and
-- leaves what the threads need.
pub sequencer-IsSetUp :
    (e iteration_count producer_count : ℕ) (w : World)
    → e ≤ 62
    → iteration_count < 2 ^ 64
    → iteration_count * producer_count ≤ 2 ^ 62
    → Totally
        (λ made w'.
          (p : Sequencer) × (b : RingBuffer ℕ) × (made ≡ some (p, b))
          × (p.iteration_count ≡ iteration_count)
          × (p.producer_count ≡ producer_count)
          × IsSetUp p w'.mem b)
        (sequencer (2 ^ e) iteration_count producer_count w)
unfolding sequencer multi_threaded_claim_strategy SequenceBarrier.sequence_barrier add_claim_barrier
    SequenceBarrierGroup.add entry
sequencer-IsSetUp e iteration_count producer_count w short few counted =
    let (small, (b, made, valid, sized)) = buffer-made e short in
    let masked : sub_sequence (2 ^ e) 1 ≡ 2 ^ e - 1 = omega (arith, small, one-le-pow e 2) in
    let passes = size-passes e small in
    let at_slot : (x : ℕ) → bit_and x (sub_sequence (2 ^ e) 1) ≡ x % 2 ^ e =
      λ x. ap (λ (m : ℕ). bit_and x m) masked ∙ bit_and_mask e x in
    let inside : (x : ℕ) → x % 2 ^ e < 2 ^ e = λ x. mod-lt x (omega (arith, one-le-pow e 2)) in
    let m : Memory = update w.mem (2 ^ e) 0 in
    let initial : (x : ℕ)
        → update (publish_before (2 ^ e) 0 (2 ^ e) m) (suc (2 ^ e)) (2 ^ 64 - 1)
            (0 + bit_and x (sub_sequence (2 ^ e) 1))
          ≡ sub_sequence (x % 2 ^ e) (2 ^ e) =
      λ x.
        update-other (publish_before (2 ^ e) 0 (2 ^ e) m) (suc (2 ^ e))
          (0 + bit_and x (sub_sequence (2 ^ e) 1)) (2 ^ 64 - 1) (omega (arith, at_slot x, inside x))
        ∙ ap (λ (j : ℕ). publish_before (2 ^ e) 0 (2 ^ e) m (0 + j)) (at_slot x)
        ∙ publish_before-inside (2 ^ e) 0 (2 ^ e) m (x % 2 ^ e) (inside x) in
    rw (passes, made, ◌>>=◌)
      (
        _,
        b,
        refl,
        refl,
        refl,
        record {
          valid = valid;
          sized = sized;
          short = small;
          counted = counted;
          few = few;
          claims = refl;
          entries_apart = λ x. (
            λ same. omega (arith, at_slot x, inside x, same),
            λ same. omega (arith, at_slot x, inside x, same),
          );
          apart = λ same. omega (arith, same);
          unclaimed =
              update-other (publish_before (2 ^ e) 0 (2 ^ e) m) (suc (2 ^ e)) (2 ^ e) (2 ^ 64 - 1)
                (omega arith)
              ∙ publish_before-outside (2 ^ e) 0 (2 ^ e) m (2 ^ e) (inr (omega arith))
              ∙ (let z : m (2 ^ e) ≡ 0 = ground arith in z);
          unread = ground arith;
          masked = masked;
          initial = initial;
          unpublished = λ x fits same. omega (arith, initial x, same, inside x, small, fits);
        },
      )
