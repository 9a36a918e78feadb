-- ===== src/SingleThreadedClaimStrategy/Blocking.antt =====
-- `claim_one` and `claim`, which wait for a free slot.
use disruptorplus.Common.{ℕ, ◌+◌, ◌≤◌, ◌≡◌, refl, List, ◌∷◌, All, is_neg, false, arith}
use disruptorplus.Sequence.{add_sequence, difference}
use disruptorplus.Sequence.Distance.{distance}
use disruptorplus.Memory.{Environment, World}
use disruptorplus.Memory.Rely.{AllAhead, Later, least}
use disruptorplus.SequenceRange.{SequenceRange}
use disruptorplus.SequenceBarrierGroup
use disruptorplus.SequenceBarrierGroup.Waiting.{
  wait_until_published-IsReached, wait_until_published-returns,
}
use disruptorplus.WaitStrategy.{WaitStrategy, Partly, Totally, Partly-bind, Totally-bind}
use disruptorplus.WaitStrategy.Promise.{IsReached, ArrivesBy, Setting}
use disruptorplus.SingleThreadedClaimStrategy.{
  SingleThreadedClaimStrategy, claim_one, claim, claim_available, needed,
}
use disruptorplus.SingleThreadedClaimStrategy.Claiming.{
  IsReady, IsClaimed, needed-IsAhead, distance-needed, claimable-difference,
  claim_available-IsClaimed,
}

module _ {Watched : ℕ → Type 0} {base : ℕ} {env : Environment} {ws : WaitStrategy}
    (setting : Setting Watched base env ws) (cs : SingleThreadedClaimStrategy) {l : ℕ} {ls : List ℕ}
    (ready : IsReady base cs l ls) (watched : All Watched (l ∷ ls)) (w : World)
    (ahead : AllAhead Watched base w.mem) where
  abbrev pub Waited : ℕ → World → Type 0
  Waited = IsReached Watched base env (needed cs) l ls w

  pub waits :
      Partly Waited
        (SequenceBarrierGroup.wait_until_published env ws cs.claim_barrier (needed cs) w)
  waits =
      wait_until_published-IsReached setting cs.claim_barrier ready.barriers watched w ahead
        (needed cs) (needed-IsAhead ready)

  returns :
      (t : ℕ)
      → ArrivesBy Watched base env t (needed cs) (l ∷ ls)
      → t ≤ w.tick + ws.patience
      → Totally Waited
          (SequenceBarrierGroup.wait_until_published env ws cs.claim_barrier (needed cs) w)
  returns =
      wait_until_published-returns setting cs.claim_barrier ready.barriers watched w ahead
        (needed cs) (needed-IsAhead ready)

  -- What `claim_one` returns in `w'`: the next sequence number, whose slot all barriers have freed.
  pub record IsClaimedOne (result : ℕ × SingleThreadedClaimStrategy) (w' : World) : Type 0 where
    pub later : Later Watched base w w'
    pub claimed : result.0 ≡ cs.next_sequence_to_claim
    pub moved :
        result.1 ≡ record cs { next_sequence_to_claim = add_sequence cs.next_sequence_to_claim 1 }
    pub room : distance base result.0 ≤ least base w'.mem l ls + cs.buffer_size

  one :
      (r : ℕ) (w' : World)
      → Waited r w'
      → IsClaimedOne
          (
            cs.next_sequence_to_claim,
            record cs { next_sequence_to_claim = add_sequence cs.next_sequence_to_claim 1 },
          )
          w'
  one r w' h = record {
    later = h.later;
    claimed = refl;
    moved = refl;
    room = omega (arith, h.enough, h.below, distance-needed ready, ready.buffer);
  }

  -- `claim_one`, when it returns, has claimed the next sequence number, and every claim barrier has
  -- passed the item in its slot.
  pub claim_one-IsClaimedOne : Partly IsClaimedOne (claim_one env ws cs w)
  unfolding claim_one
  claim_one-IsClaimedOne =
      Partly-bind IsClaimedOne
        (SequenceBarrierGroup.wait_until_published env ws cs.claim_barrier (needed cs)) _ w one
        waits

  -- It does return if all claim barriers come to free the slot in time.
  pub claim_one-returns :
      (t : ℕ)
      → ArrivesBy Watched base env t (needed cs) (l ∷ ls)
      → t ≤ w.tick + ws.patience
      → Totally IsClaimedOne (claim_one env ws cs w)
  unfolding claim_one
  claim_one-returns t arrives time =
      Totally-bind IsClaimedOne
        (SequenceBarrierGroup.wait_until_published env ws cs.claim_barrier (needed cs)) _ w one
        (returns t arrives time)

  -- No wait for the next slot ends with a negative difference, so the `assert` of `claim` holds.
  pub enough :
      (r : ℕ) (w' : World)
      → Waited r w'
      → is_neg (difference (add_sequence r cs.buffer_size) cs.next_sequence_to_claim) ≡ false
  enough r w' h =
      ground
        (arith, claimable-difference ready r h.ahead, h.enough, distance-needed ready, ready.buffer)

  module _ (count : ℕ) where
    abbrev Claimed : SequenceRange × SingleThreadedClaimStrategy → World → Type 0
    Claimed result w' = IsClaimed Watched base l ls cs count w result.0 result.1 w'

    several :
        (r : ℕ) (w' : World) (h : Waited r w')
        → Claimed
            (claim_available cs count
              (difference (add_sequence r cs.buffer_size) cs.next_sequence_to_claim))
            w'
    several r w' h = claim_available-IsClaimed ready h.ahead h.later h.below count (enough r w' h)

    -- `claim`, when it returns, has claimed free slots: one at least, and as many as asked for at
    -- most.
    pub claim-IsClaimed : Partly Claimed (claim env ws cs count w)
    unfolding claim
    claim-IsClaimed =
        Partly-bind Claimed
          (SequenceBarrierGroup.wait_until_published env ws cs.claim_barrier (needed cs)) _ w
          (λ r w' h. rw (enough r w' h) (several r w' h)) waits

    -- It does return, and its `assert` holds, if all claim barriers come to free a slot in time.
    pub claim-returns :
        (t : ℕ)
        → ArrivesBy Watched base env t (needed cs) (l ∷ ls)
        → t ≤ w.tick + ws.patience
        → Totally Claimed (claim env ws cs count w)
    unfolding claim
    claim-returns t arrives time =
        Totally-bind Claimed
          (SequenceBarrierGroup.wait_until_published env ws cs.claim_barrier (needed cs)) _ w
          (λ r w' h. rw (enough r w' h) (several r w' h)) (returns t arrives time)
