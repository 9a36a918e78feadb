-- ===== src/SingleThreadedClaimStrategy/One.antt =====
-- `claim` of one slot does what `claim_one` does.
use disruptorplus.Common.{
  ℕ, ◌+◌, ◌≤◌, ◌<◌, ◌≡◌, ◌≢◌, refl, List, ◌∷◌, All, min, ℤ, pos, ◌+ℤ◌, ◌^◌, sub_ℕ, is_neg, false,
  arith,
}
use disruptorplus.Sequence.{add_sequence, to_unsigned, difference}
use disruptorplus.Memory.{Environment, World, pure, ◌>>=◌}
use disruptorplus.Sequence.Distance.{distance}
use disruptorplus.Memory.Rely.{AllAhead}
use disruptorplus.SequenceBarrierGroup
use disruptorplus.WaitStrategy.{WaitStrategy, bind-eq_bind}
use disruptorplus.WaitStrategy.Promise.{Setting}
use disruptorplus.SingleThreadedClaimStrategy.{
  SingleThreadedClaimStrategy, claim_one, claim, claim_available, needed,
}
use disruptorplus.SingleThreadedClaimStrategy.Claiming.{
  IsReady, claimable-difference, distance-needed,
}
use disruptorplus.SingleThreadedClaimStrategy.Blocking.{Waited, waits, enough}

claim_available-one :
    (cs : SingleThreadedClaimStrategy) (d : ℤ)
    → is_neg d ≡ false
    → to_unsigned (d +ℤ pos 1) ≢ 0
    → claim_available cs 1 d ≡ (
      record { first = cs.next_sequence_to_claim; size = 1 },
      record cs { next_sequence_to_claim = add_sequence cs.next_sequence_to_claim 1 },
    )
unfolding claim_available
claim_available-one cs d h more =
    let one : min 1 (to_unsigned (d +ℤ pos 1)) ≡ 1 = omega arith in rw one refl

one_more : (x y : ℕ) → x < 2 ^ 63 → y ≤ x → to_unsigned (sub_ℕ x y +ℤ pos 1) ≢ 0
one_more x y small h = ground arith

module _ {Watched : ℕ → Type 0} {base : ℕ} {env : Environment} {ws : WaitStrategy}
    (setting : Setting Watched base env ws) (cs : SingleThreadedClaimStrategy) {l : ℕ} {ls : List ℕ}
    (ready : IsReady base cs l ls) (watched : All Watched (l ∷ ls)) (w : World)
    (ahead : AllAhead Watched base w.mem) where
  -- Where the other threads only advance the sequence numbers, `claim` of one slot and `claim_one`
  -- have the same outcome in every run: they return at the same access with the same next state,
  -- the range being that of the one number, or both still wait.
  pub claim-claim_one :
      claim env ws cs 1 w
      ≡ (claim_one env ws cs >>= λ (sequence, cs').
            pure (record { first = sequence; size = 1 }, cs'))
          w
  unfolding claim claim_one
  claim-claim_one =
      bind-eq_bind (Waited setting cs ready watched w ahead)
        (SequenceBarrierGroup.wait_until_published env ws cs.claim_barrier (needed cs)) _ _ _ w
        (waits setting cs ready watched w ahead)
        λ r w' h.
          let fits = enough setting cs ready watched w ahead r w' h in
          rw
            (
              fits,
              claim_available-one cs
                  (difference (add_sequence r cs.buffer_size) cs.next_sequence_to_claim) fits
                  (more r w' h),
            )
            refl
    where
      more :
          (r : ℕ) (w' : World)
          → Waited setting cs ready watched w ahead r w'
          → to_unsigned
              (difference (add_sequence r cs.buffer_size) cs.next_sequence_to_claim +ℤ pos 1)
            ≢ 0
      more r w' h = rw (claimable-difference ready r h.ahead) (
          one_more (distance base r + cs.buffer_size) (distance base cs.next_sequence_to_claim)
            (omega (arith, h.ahead.near, ready.buffer, ready.next.near))
            (omega (arith, h.enough, distance-needed ready, ready.buffer)))
