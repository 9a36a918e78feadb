-- ===== src/SingleThreadedClaimStrategy/Trying.antt =====
-- `try_claim`, which does not wait.
use disruptorplus.Common.{
  ℕ, suc, ◌+◌, ◌-◌, ◌≤◌, ◌<◌, ◌≡◌, refl, ◌⊎◌, inl, inr, List, ◌∷◌, All, min, is_neg, true, false,
  Bool-cases, arith,
}
use disruptorplus.Sequence.{add_sequence, difference}
use disruptorplus.Sequence.Distance.{distance, IsAhead}
use disruptorplus.Memory.{Environment, World}
use disruptorplus.Memory.Rely.{AllAhead, Later, least}
use disruptorplus.SequenceRange.{SequenceRange}
use disruptorplus.SequenceBarrierGroup
use disruptorplus.SequenceBarrierGroup.Waiting.{last_published-IsLowest}
use disruptorplus.WaitStrategy.{WaitStrategy, Totally, Totally-bind}
use disruptorplus.WaitStrategy.Promise.{Setting}
use disruptorplus.SingleThreadedClaimStrategy.{
  SingleThreadedClaimStrategy, Tried, claim_published, try_claim,
}
use disruptorplus.SingleThreadedClaimStrategy.Claiming.{
  IsReady, IsClaimed, claimable-difference, claim_available-IsClaimed, claim_available-size,
}

module _ (Watched : ℕ → Type 0) (base l : ℕ) (ls : List ℕ) (cs : SingleThreadedClaimStrategy)
    (count : ℕ) (range : SequenceRange) where
  -- A `try_claim` that returned `true`, with the slots claimed in its out-parameter.
  abbrev pub Succeeds : World → Tried → World → Type 0
  Succeeds w t w' = (t.0 ≡ true) × IsClaimed Watched base l ls cs count w t.1 t.2 w'

  -- One that returned `false`, and left its out-parameter and the object alone.
  abbrev pub Refuses : World → Tried → World → Type 0
  Refuses w t w' = (t ≡ (false, range, cs)) × Later Watched base w w'

module _ {Watched : ℕ → Type 0} {base : ℕ} {env : Environment} {ws : WaitStrategy}
    (setting : Setting Watched base env ws) (cs : SingleThreadedClaimStrategy) {l : ℕ} {ls : List ℕ}
    (ready : IsReady base cs l ls) (watched : All Watched (l ∷ ls)) (count : ℕ)
    (range : SequenceRange) where
  abbrev pub Yes : World → Tried → World → Type 0
  Yes = Succeeds Watched base l ls cs count range

  abbrev pub Not : World → Tried → World → Type 0
  Not = Refuses Watched base l ls cs count range

  -- From a published sequence number on: all free slots asked for are claimed, or none is free.
  pub published-ends :
      (r : ℕ) (w w' : World)
      → IsAhead base r
      → Later Watched base w w'
      → distance base r ≤ least base w'.mem l ls
      → let t = claim_published cs count range r in
        Yes w t w'
          × (min count
                (suc (distance base r + cs.buffer_size) - distance base cs.next_sequence_to_claim)
              ≤ t.1.size)
        ⊎ Not w t w' × (distance base r + cs.buffer_size < distance base cs.next_sequence_to_claim)
  unfolding claim_published
  published-ends r w w' hr later below =
      elim (Bool-cases
        (is_neg (difference (add_sequence r cs.buffer_size) cs.next_sequence_to_claim))) [
          | inl e ↦ rw e (inr ((refl, later), ground (arith, claimable-difference ready r hr)))
          | inr e ↦ rw e (
              inl (
                (refl, claim_available-IsClaimed ready hr later below count e),
                claim_available-size ready hr later below count e,
              ))
        ]

  -- What `try_claim` does between the worlds `w` and `w'`.
  abbrev pub Tries : World → Tried → World → Type 0
  Tries w t w' =
      Succeeds Watched base l ls cs count range w t w'
        × (min count (
              suc (least base w.mem l ls + cs.buffer_size)
              - distance base cs.next_sequence_to_claim)
            ≤ t.1.size)
      ⊎ Refuses Watched base l ls cs count range w t w'
        × (least base w.mem l ls + cs.buffer_size < distance base cs.next_sequence_to_claim)

  -- `try_claim` returns. Either it claims free slots: all that were free at its beginning, as far
  -- as asked for. Or it changes nothing, and at its beginning no slot was free.
  pub try_claim-Tries :
      (w : World)
      → AllAhead Watched base w.mem
      → Totally (Tries w) (try_claim env ws cs count range w)
  unfolding try_claim
  try_claim-Tries w ahead =
      Totally-bind (Tries w) (SequenceBarrierGroup.last_published env ws cs.claim_barrier) _ w
        (λ r w' low. elim (published-ends r w w' low.ahead low.later low.below) [
          | inl (h, n) ↦ inl (h, omega (arith, low.above))
          | inr (h, n) ↦ inr (h, omega (arith, low.above))
        ])
        (last_published-IsLowest setting cs.claim_barrier ready.barriers watched w ahead)
