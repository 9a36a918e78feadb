-- ===== src/SingleThreadedClaimStrategy/Claiming.antt =====
-- What a claim has to satisfy, and the arithmetic that all claims share.
use disruptorplus.Common.{
  ℕ, suc, ◌+◌, ◌-◌, ◌^◌, ◌≤◌, ◌<◌, ◌≡◌, refl, List, ◌∷◌, min, false, is_neg, sub_ℕ, arith,
}
use disruptorplus.Sequence.{add_sequence, difference}
use disruptorplus.Sequence.Distance.{
  distance, IsAhead, difference-add_sequence, distance-sub_sequence,
}
use disruptorplus.Memory.{World}
use disruptorplus.Memory.Rely.{Later, least}
use disruptorplus.SequenceRange.{SequenceRange, end}
use disruptorplus.SingleThreadedClaimStrategy.{SingleThreadedClaimStrategy, claim_available, needed}

-- The strategy waits for the barriers `l ∷ ls`, and the base lies a buffer's length or more behind
-- the next sequence number to claim.
pub record IsReady (base : ℕ) (cs : SingleThreadedClaimStrategy) (l : ℕ) (ls : List ℕ)
    : Type 0 where
  pub small : base < 2 ^ 64
  pub barriers : cs.claim_barrier.sequences ≡ l ∷ ls
  pub buffer : (0 < cs.buffer_size) × (cs.buffer_size ≤ distance base cs.next_sequence_to_claim)
  pub next : IsAhead base cs.next_sequence_to_claim

-- `count` slots asked for in `w`, those of `range` claimed in `w'`: they begin at the next sequence
-- number and are no more than asked for, but at least one; the next claim begins behind them; and
-- every claim barrier has passed the item that the last of them overwrites.
pub record IsClaimed (Watched : ℕ → Type 0) (base : ℕ) (l : ℕ) (ls : List ℕ)
    (cs : SingleThreadedClaimStrategy) (count : ℕ) (w : World) (range : SequenceRange)
    (cs' : SingleThreadedClaimStrategy) (w' : World) : Type 0 where
  pub later : Later Watched base w w'
  pub first : range.first ≡ cs.next_sequence_to_claim
  pub sized : (min count 1 ≤ range.size) × (range.size ≤ count)
  pub moved : cs' ≡ record cs { next_sequence_to_claim = end range }
  pub room : distance base range.first + range.size ≤ suc (least base w'.mem l ls + cs.buffer_size)

module _ {base l : ℕ} {ls : List ℕ} {cs : SingleThreadedClaimStrategy}
    (ready : IsReady base cs l ls) where
  open ready use {small, buffer, next}

  pub needed-IsAhead : IsAhead base (needed cs)
  needed-IsAhead =
      let e =
        distance-sub_sequence base cs.next_sequence_to_claim cs.buffer_size small next.small
          buffer.1 in
      record { small = e.1; near = omega (arith, next.near) }

  pub distance-needed :
      distance base (needed cs) ≡ distance base cs.next_sequence_to_claim - cs.buffer_size
  distance-needed =
      (distance-sub_sequence base cs.next_sequence_to_claim cs.buffer_size small next.small
        buffer.1).0

  -- The difference that the claims compute, for what the barriers have published.
  pub claimable-difference :
      (r : ℕ)
      → IsAhead base r
      → difference (add_sequence r cs.buffer_size) cs.next_sequence_to_claim
        ≡ sub_ℕ (distance base r + cs.buffer_size) (distance base cs.next_sequence_to_claim)
  claimable-difference r hr =
      difference-add_sequence base r cs.next_sequence_to_claim cs.buffer_size small hr next
        (omega (arith, buffer, next.near))

  module _ {Watched : ℕ → Type 0} {r : ℕ} {w w' : World} (hr : IsAhead base r)
      (later : Later Watched base w w') (below : distance base r ≤ least base w'.mem l ls) where
    -- Where the difference is not negative, the slots claimed are free.
    pub claim_available-IsClaimed :
        (count : ℕ)
        → is_neg (difference (add_sequence r cs.buffer_size) cs.next_sequence_to_claim) ≡ false
        → let (range, cs') =
            claim_available cs count
              (difference (add_sequence r cs.buffer_size) cs.next_sequence_to_claim) in
          IsClaimed Watched base l ls cs count w range cs' w'
    unfolding claim_available end
    claim_available-IsClaimed count e = record {
      later = later;
      first = refl;
      sized = ground (arith, claimable-difference r hr);
      moved = refl;
      room = ground (arith, claimable-difference r hr);
    }

    -- All slots that the published sequence number leaves free are claimed, as far as asked for.
    pub claim_available-size :
        (count : ℕ)
        → is_neg (difference (add_sequence r cs.buffer_size) cs.next_sequence_to_claim) ≡ false
        → min count
            (suc (distance base r + cs.buffer_size) - distance base cs.next_sequence_to_claim)
          ≤ (claim_available cs count
              (difference (add_sequence r cs.buffer_size) cs.next_sequence_to_claim)).0.size
    unfolding claim_available
    claim_available-size count e = ground (arith, claimable-difference r hr)
