-- ===== src/Tests/Shared.antt =====
-- Several writers of a buffer of eight slots: the counter stands at 8, and the consumers have
-- passed nothing yet.
use disruptorplus.Common.{ℕ, ◌-◌, ◌^◌, ◌<◌, ◌≡◌, ◌≢◌, refl, [], ◌∷◌, ◌==◌, if◌then◌else◌, arith}
use disruptorplus.Sequence.{difference}
use disruptorplus.Memory.{World, Outcome, done, failed, waiting}
use disruptorplus.Memory.Rely.{AllAhead, Later-refl, least}
use disruptorplus.Minimum.{minimum_sequence_after}
use disruptorplus.RingBuffer.{RingBuffer, ring_buffer, slot}
use disruptorplus.RingBuffer.Slots.{IsValid, ring_buffer-IsValid}
use disruptorplus.SequenceBarrierGroup
use disruptorplus.SequenceRange.{at, last}
use disruptorplus.SpinWaitStrategy.{spin_wait_strategy}
use disruptorplus.WaitStrategy.{Totally}
use disruptorplus.MultiThreadedClaimStrategy.{MultiThreadedClaimStrategy, claim}
use disruptorplus.MultiThreadedClaimStrategy.Claiming.{IsReady, IsClaimed, claim_shared-returns}
use disruptorplus.MultiThreadedClaimStrategy.Safety.{claim_shared-slots_free, claim_shared-disjoint}
use disruptorplus.Tests.Scene.{base, Any, env, start, ws, setting, arrives}

abbrev pub shared : MultiThreadedClaimStrategy
shared = record {
  index_mask = 7;
  buffer_size = 8;
  claim_barrier = record { strategy = 7; sequences = 1 ∷ 2 ∷ [] };
  published = 10;
  next_claimable = 3;
}

abbrev pub stand : World
stand = record { tick = 0; mem = λ l. if l == 3 then 8 else 2 ^ 64 - 1 }

pub stand-AllAhead : AllAhead Any base (λ l. if l == 3 then 8 else 2 ^ 64 - 1)
stand-AllAhead l h = ground arith

pub ready : IsReady Any base shared 1 (2 ∷ []) stand
ready = record { barriers = refl; watched = (tt, (tt, tt)); counter = tt; ahead = stand-AllAhead }

abbrev world_of : {A : Type 0} → Outcome A → World
world_of (done a w) = w
world_of failed = start
world_of waiting = start

-- The consumers come to publish 3, so that four slots are free.
claims_four :
    claim env ws shared 4 stand
    ≡ done (record { first = 8; size = 4 }) (world_of (claim env ws shared 4 stand))
unfolding claim SequenceBarrierGroup.wait_until_published spin_wait_strategy minimum_sequence_after
    difference last
claims_four = refl

claim_shared-returns_example :
    Totally
      (λ range w'. (range.size ≡ 4) × IsClaimed Any base shared 1 (2 ∷ []) stand range w')
      (claim env ws shared 4 stand)
unfolding spin_wait_strategy last
claim_shared-returns_example =
    claim_shared-returns setting shared stand ready (omega arith) (omega arith) 4 2
      (arrives 3 (omega arith)) (omega arith)

abbrev eight : RingBuffer ℕ
eight = record { size = 8; mask = 7; elements = 0 ∷ 0 ∷ 0 ∷ 0 ∷ 0 ∷ 0 ∷ 0 ∷ 0 ∷ [] }

eight-IsValid : IsValid eight
unfolding ring_buffer
eight-IsValid = (ring_buffer-IsValid 0 8 (omega arith) refl).0

-- The item 4 is still to be read.
claim_shared-slots_free_example : slot eight (at (record { first = 8; size = 4 }) 3) ≢ slot eight 4
unfolding claim SequenceBarrierGroup.wait_until_published spin_wait_strategy minimum_sequence_after
    difference last
claim_shared-slots_free_example =
    claim_shared-slots_free setting shared stand ready (omega arith) (omega arith) 4 claims_four
      eight eight-IsValid refl 3 4 (omega arith) (omega arith) (omega arith) (omega arith)

-- Two claims of two slots, one after the other.
abbrev after : World
after = world_of (claim env ws shared 2 stand)

claims_two : claim env ws shared 2 stand ≡ done (record { first = 8; size = 2 }) after
unfolding claim SequenceBarrierGroup.wait_until_published spin_wait_strategy minimum_sequence_after
    difference last
claims_two = refl

claims_two_more :
    claim env ws shared 2 after
    ≡ done (record { first = 10; size = 2 }) (world_of (claim env ws shared 2 after))
unfolding claim SequenceBarrierGroup.wait_until_published spin_wait_strategy minimum_sequence_after
    difference last
claims_two_more = refl

claim_shared-disjoint_example :
    (at (record { first = 10; size = 2 }) 0 ≢ at (record { first = 8; size = 2 }) 1)
    × (least base (world_of (claim env ws shared 2 after)).mem 1 (2 ∷ []) < 25
        → slot eight (at (record { first = 10; size = 2 }) 0)
          ≢ slot eight (at (record { first = 8; size = 2 }) 1))
unfolding claim SequenceBarrierGroup.wait_until_published spin_wait_strategy minimum_sequence_after
    difference last at
claim_shared-disjoint_example =
    let moved : AllAhead Any base after.mem = λ l h. ground arith in
    claim_shared-disjoint setting shared stand ready (omega arith) (omega arith) 2 claims_two eight
      eight-IsValid refl after (Later-refl Any base after moved)
      (record { barriers = refl; watched = (tt, (tt, tt)); counter = tt; ahead = moved })
      (omega arith) 2 claims_two_more 1 0 (omega arith) (omega arith)
