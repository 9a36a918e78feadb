-- ===== src/Tests/Quiet.antt =====
-- Several writers of a buffer of eight slots, in a memory that the other threads leave alone for
-- the time of the call: of the first eight items, 0 and 1 are published; the exchanges fail
-- spuriously at first.
use disruptorplus.Common.{
  ℕ, zero, suc, ◌*◌, ◌-◌, ◌^◌, ◌<◌, ◌≡◌, refl, [], ◌∷◌, ltb, ◌==◌, if◌then◌else◌, arith,
}
use disruptorplus.Sequence.{difference}
use disruptorplus.Sequence.Distance.{IsAhead}
use disruptorplus.Memory.{Environment, World, done}
use disruptorplus.Memory.Rely.{AllAhead, IsFair, Later}
use disruptorplus.Minimum.{minimum_sequence}
use disruptorplus.Minimum.Looking.{Looks}
use disruptorplus.RingBuffer.{ring_buffer}
use disruptorplus.RingBuffer.Slots.{ring_buffer-IsValid}
use disruptorplus.SequenceBarrierGroup
use disruptorplus.SequenceRange.{SequenceRange, empty_range, at}
use disruptorplus.SpinWaitStrategy.{spin_wait_strategy}
use disruptorplus.SpinWaitStrategy.Looking.{wait_until-Looks}
use disruptorplus.SpinWaitStrategy.Keeps.{spin_wait_strategy-IsWaitStrategy}
use disruptorplus.WaitStrategy.{WaitStrategy, Partly, Totally}
use disruptorplus.WaitStrategy.Promise.{Setting}
use disruptorplus.MultiThreadedClaimStrategy.{try_claim_until, entry, try_claim, publish_range}
use disruptorplus.MultiThreadedClaimStrategy.Claiming.{IsReady}
use disruptorplus.MultiThreadedClaimStrategy.Trying.{Settles}
use disruptorplus.MultiThreadedClaimStrategy.Attempting.{
  Attempts, try_claim-Attempts, try_claim-returns,
}
use disruptorplus.MultiThreadedClaimStrategy.Reading.{AllBelow, IsPublished}
use disruptorplus.MultiThreadedClaimStrategy.Publishing.{IsVacant}
use disruptorplus.MultiThreadedClaimStrategy.PublishingRange.{IsHeld, publish_range-IsPublished}
use disruptorplus.MultiThreadedClaimStrategy.Exchanging.{ByOneExchange}
use disruptorplus.MultiThreadedClaimStrategy.Until.{ClaimsOr}
use disruptorplus.MultiThreadedClaimStrategy.UntilLoop.{try_claim_until-ClaimsOr}
use disruptorplus.Tests.Scene.{base, Any}
use disruptorplus.Tests.Shared.{shared}

abbrev quiet : Environment
quiet = record { others = λ t m. m; now = λ t. 10 * t; spurious = λ t. ltb t 7 }

quiet-IsFair : IsFair Any base quiet
quiet-IsFair = record { keeps = λ t m a. a; grows = λ t m a l h. omega arith }

abbrev ws : WaitStrategy
ws = spin_wait_strategy quiet 4 30

setting : Setting Any base quiet ws
setting = record {
  small = omega arith;
  fair = quiet-IsFair;
  keeps = spin_wait_strategy-IsWaitStrategy Any base quiet 4 30 (omega arith) quiet-IsFair;
}

-- The counter stands at 8, the consumers have passed 3, and the entries of 0 and 1 are written.
abbrev stand : World
stand = record {
  tick = 4;
  mem = λ l.
      if l == 3
      then 8
      else if l == 10
      then 0
      else if l == 11
      then 1
      else if ltb l 3
      then 3
      else 2 ^ 64 - 1;
}

stand-AllAhead : AllAhead Any base stand.mem
stand-AllAhead l h = ground arith

everywhere : (x : ℕ) → Any (entry shared x)
everywhere x = tt

abbrev known : ℕ
known = 2 ^ 64 - 1

known-IsAhead : IsAhead base known
known-IsAhead = omega arith

stand-AllBelow : AllBelow base shared 25 stand.mem
stand-AllBelow x = ground arith

abbrev pair : SequenceRange
pair = record { first = 8; size = 2 }

pair-IsHeld : IsHeld setting shared everywhere pair
unfolding ring_buffer
pair-IsHeld = record {
  valid = (ring_buffer-IsValid tt 8 (omega arith) refl).0;
  sized = omega arith;
  reaches = omega arith;
  first = omega arith;
  near = omega arith;
  owned = λ i h t m. refl;
}

pair-IsVacant : (j : ℕ) → j < 2 → IsVacant shared (at pair j) stand
unfolding entry at
pair-IsVacant zero h = refl
pair-IsVacant (suc zero) h = refl
pair-IsVacant (suc (suc j)) h = absurd (omega arith)

publish_range-IsPublished_example :
    Totally
      (λ _ w'. Later Any base stand w' × ((j : ℕ) → j < 2 → IsPublished base shared (at pair j) w'))
      (publish_range quiet ws shared pair stand)
publish_range-IsPublished_example =
    publish_range-IsPublished setting shared everywhere pair pair-IsHeld stand stand-AllAhead
      pair-IsVacant

ready : IsReady Any base shared 1 (2 ∷ []) stand
ready = record { barriers = refl; watched = (tt, (tt, tt)); counter = tt; ahead = stand-AllAhead }

read :
    SequenceBarrierGroup.last_published quiet ws shared.claim_barrier stand
    ≡ done 3 (record { tick = 6; mem = stand.mem })
unfolding SequenceBarrierGroup.last_published minimum_sequence difference
read = refl

try_claim-Attempts_example :
    Partly
      (λ t w'.
        Attempts setting shared stand ready empty_range 6 3
          (record { tick = 6; mem = stand.mem })
          read
          (omega arith)
          t
          w'
        × ByOneExchange quiet shared stand t w')
      (try_claim quiet ws shared 5 6 empty_range stand)
try_claim-Attempts_example =
    try_claim-Attempts setting shared stand ready empty_range 6 3
      (record { tick = 6; mem = stand.mem }) read (omega arith) 5

settles : Settles quiet shared 7
settles u h = (ground arith, λ m. refl)

try_claim-returns_example :
    Totally
      (Attempts setting shared stand ready empty_range 6 3
        (record { tick = 6; mem = stand.mem })
        read
        (omega arith))
      (try_claim quiet ws shared 5 6 empty_range stand)
try_claim-returns_example =
    try_claim-returns setting shared stand ready empty_range 6 3
      (record { tick = 6; mem = stand.mem }) read (omega arith) 5 7 settles (omega arith)

ws-Looks : (s : ℕ) (w : World) → Looks quiet (ws.wait_until s (1 ∷ 2 ∷ []) 100) w
unfolding spin_wait_strategy
ws-Looks s w = wait_until-Looks quiet 4 s 100 1 (2 ∷ []) 30 w

try_claim_until-ClaimsOr_example :
    Partly
      (λ t w'.
        ClaimsOr setting shared stand ready (omega arith) empty_range 6 100 t w'
        × ByOneExchange quiet shared stand t w')
      (try_claim_until quiet ws shared 7 6 empty_range 100 stand)
try_claim_until-ClaimsOr_example =
    try_claim_until-ClaimsOr setting shared stand ready (omega arith) empty_range 6 100 ws-Looks 7
