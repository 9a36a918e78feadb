-- ===== src/Tests/Claims.antt =====
-- A writer that is to claim the slot of sequence number 8 in a buffer of eight slots, while both
-- consumers have published nothing yet.
use disruptorplus.Common.{ℕ, ◌≡◌, ◌≢◌, refl, [], ◌∷◌, some, false, arith}
use disruptorplus.Memory.{pure, ◌>>=◌, World, Outcome, done, failed, waiting}
use disruptorplus.Minimum.{minimum_sequence, minimum_sequence_after}
use disruptorplus.Sequence.{difference}
use disruptorplus.SequenceBarrierGroup
use disruptorplus.SequenceBarrierGroup.{is_empty}
use disruptorplus.SpinWaitStrategy.{spin_wait_strategy}
use disruptorplus.RingBuffer.{RingBuffer, ring_buffer, slot}
use disruptorplus.RingBuffer.Slots.{IsValid, ring_buffer-IsValid}
use disruptorplus.SequenceRange.{empty_range, at}
use disruptorplus.WaitStrategy.{Partly, Totally, MayReturn}
use disruptorplus.SingleThreadedClaimStrategy.{
  SingleThreadedClaimStrategy, claim_one, claim, try_claim, try_claim_until,
}
use disruptorplus.SingleThreadedClaimStrategy.Claiming.{IsReady, IsClaimed}
use disruptorplus.SingleThreadedClaimStrategy.Blocking.{claim-returns}
use disruptorplus.SingleThreadedClaimStrategy.One.{claim-claim_one}
use disruptorplus.Benchmark.Waits.{claim_one-MayReturn}
use disruptorplus.SingleThreadedClaimStrategy.Trying.{Tries, try_claim-Tries}
use disruptorplus.SingleThreadedClaimStrategy.Timed.{EndsOr, Expired, try_claim_until-EndsOr}
use disruptorplus.SingleThreadedClaimStrategy.Safety.{claim-slots_free, claim_one-slot_free}
use disruptorplus.Tests.Scene.{base, Any, env, start, start-AllAhead, ws, setting, arrives}

abbrev writer : SingleThreadedClaimStrategy
writer = record {
  buffer_size = 8;
  next_sequence_to_claim = 8;
  claim_barrier = record { strategy = 7; sequences = 1 ∷ 2 ∷ [] };
  read_barrier = record { strategy = 7; cell = 3 };
}

ready : IsReady base writer 1 (2 ∷ [])
ready = record {
  small = omega arith;
  barriers = refl;
  buffer = omega arith;
  next = record { small = omega arith; near = omega arith };
}

abbrev world_of : {A : Type 0} → Outcome A → World
world_of (done a w) = w
world_of failed = start
world_of waiting = start

-- The consumers come to publish 3, so that four slots are free.
claims_four :
    claim env ws writer 6 start
    ≡ done
        (record { first = 8; size = 4 }, record writer { next_sequence_to_claim = 12 })
        (world_of (claim env ws writer 6 start))
unfolding claim SequenceBarrierGroup.wait_until_published spin_wait_strategy minimum_sequence_after
    difference
claims_four = refl

claims_eight :
    claim_one env ws writer start
    ≡ done
        (8, record writer { next_sequence_to_claim = 9 })
        (world_of (claim_one env ws writer start))
unfolding claim_one SequenceBarrierGroup.wait_until_published spin_wait_strategy
    minimum_sequence_after difference
claims_eight = refl

-- Nothing is free yet.
refuses :
    (try_claim env ws writer 6 empty_range start)
    ≡ done (false, empty_range, writer) (world_of (try_claim env ws writer 6 empty_range start))
unfolding try_claim SequenceBarrierGroup.last_published spin_wait_strategy minimum_sequence
    difference
refuses = refl

abbrev eight : RingBuffer ℕ
eight = record { size = 8; mask = 7; elements = 0 ∷ 0 ∷ 0 ∷ 0 ∷ 0 ∷ 0 ∷ 0 ∷ 0 ∷ [] }

eight-made : ring_buffer 0 8 ≡ some eight
unfolding ring_buffer
eight-made = refl

eight-IsValid : IsValid eight
eight-IsValid = (ring_buffer-IsValid 0 8 (omega arith) eight-made).0

-- The consumers have passed 3, and the item 4 is still to be read.
claim-slots_free_example : slot eight (at (record { first = 8; size = 4 }) 3) ≢ slot eight 4
unfolding claim SequenceBarrierGroup.wait_until_published spin_wait_strategy minimum_sequence_after
    difference
claim-slots_free_example =
    claim-slots_free eight setting writer ready (tt, (tt, tt)) start start-AllAhead eight-IsValid
      refl 4 (omega arith) (omega arith) 6 claims_four (omega arith) 3 (omega arith)

claim_one-slot_free_example : slot eight 8 ≢ slot eight 4
unfolding claim_one SequenceBarrierGroup.wait_until_published spin_wait_strategy
    minimum_sequence_after difference
claim_one-slot_free_example =
    claim_one-slot_free eight setting writer ready (tt, (tt, tt)) start start-AllAhead eight-IsValid
      refl 4 (omega arith) (omega arith) claims_eight (omega arith)

claim-returns_example :
    Totally
      (λ r w'. IsClaimed Any base 1 (2 ∷ []) writer 6 start r.0 r.1 w')
      (claim env ws writer 6 start)
unfolding spin_wait_strategy
claim-returns_example =
    claim-returns setting writer ready (tt, (tt, tt)) start start-AllAhead 6 2
      (arrives 0 (omega arith)) (omega arith)

try_claim-Tries_example :
    Totally
      (Tries setting writer ready (tt, (tt, tt)) 6 empty_range start)
      (try_claim env ws writer 6 empty_range start)
try_claim-Tries_example =
    try_claim-Tries setting writer ready (tt, (tt, tt)) 6 empty_range start start-AllAhead

try_claim_until-EndsOr_example :
    Partly
      (EndsOr setting writer ready
        (tt, (tt, tt))
        6
        empty_range
        (Expired setting writer ready (tt, (tt, tt)) 6 empty_range start start-AllAhead 20)
        start)
      (try_claim_until env ws writer 6 empty_range 20 start)
try_claim_until-EndsOr_example =
    try_claim_until-EndsOr setting writer ready (tt, (tt, tt)) 6 empty_range start start-AllAhead 20

claim-claim_one_example :
    claim env ws writer 1 start
    ≡ (claim_one env ws writer >>= λ (sequence, cs').
          pure (record { first = sequence; size = 1 }, cs'))
        start
claim-claim_one_example = claim-claim_one setting writer ready (tt, (tt, tt)) start start-AllAhead

claim_one-MayReturn_example :
    Partly
      (λ result w'.
        (result ≡ (8, record writer { next_sequence_to_claim = 9 }))
        × (is_empty (1 ∷ 2 ∷ []) ≡ false)
        × (r : ℕ) × MayReturn w'.mem 0 (1 ∷ 2 ∷ []) r)
      (claim_one env ws writer start)
claim_one-MayReturn_example =
    claim_one-MayReturn setting start start-AllAhead writer ready (tt, (tt, tt))
