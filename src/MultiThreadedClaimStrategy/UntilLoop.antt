-- ===== src/MultiThreadedClaimStrategy/UntilLoop.antt =====
-- `try_claim_until` and `try_claim_for`: the compare-exchange loop that waits for a time.
use disruptorplus.Common.{
  ℕ, zero, suc, ◌+◌, ◌^◌, ◌<◌, ◌≡◌, refl, inl, inr, true, false, is_neg, pos, ◌+ℤ◌, ◌==◌, min,
  Bool-cases, List, ◌∷◌, arith,
}
use disruptorplus.Sequence.{add_sequence, to_unsigned, difference}
use disruptorplus.Memory.{Environment, World, arrive, update, compare_exchange_weak, ◌>>=◌}
use disruptorplus.Memory.Rely.{Later, Later-trans, Later-arrive, least-Later}
use disruptorplus.Minimum.Looking.{Looks}
use disruptorplus.Minimum.Lowest.{IsLowest}
use disruptorplus.SequenceRange.{SequenceRange, end}
use disruptorplus.SequenceBarrierGroup
use disruptorplus.SequenceBarrierGroup.Waiting.{last_published-IsLowest}
use disruptorplus.WaitStrategy.{WaitStrategy, Partly, Partly-bind, Partly-both, Totally→Partly}
use disruptorplus.WaitStrategy.Promise.{Setting}
use disruptorplus.MultiThreadedClaimStrategy.{
  MultiThreadedClaimStrategy, published_until, try_claim_until_loop, try_claim_until, try_claim_for,
}
use disruptorplus.MultiThreadedClaimStrategy.Claiming.{IsReady}
use disruptorplus.MultiThreadedClaimStrategy.Exchanging.{
  ByOneExchange, try_claim_until-ByOneExchange,
}
use disruptorplus.MultiThreadedClaimStrategy.Until.{
  Exchanges, ClaimsOr, Knows, difference-free, published_until-IsAsked,
}

module _ {Watched : ℕ → Type 0} {base : ℕ} {env : Environment} {ws : WaitStrategy}
    (setting : Setting Watched base env ws) (cs : MultiThreadedClaimStrategy) {l : ℕ} {ls : List ℕ}
    (v : World) (ready : IsReady Watched base cs l ls v) (short : cs.buffer_size < 2 ^ 62)
    (range : SequenceRange) (count deadline : ℕ) where
  open setting use {small, fair}
  open ready use {barriers, watched, counter, ahead}

  module _ (r sequence : ℕ) (w : World)
      (k : Knows setting cs v ready short range count deadline r sequence w)
      (free : is_neg (difference (add_sequence r cs.buffer_size) sequence) ≡ false) where
    abbrev taking : ℕ
    taking = min count (to_unsigned (difference (add_sequence r cs.buffer_size) sequence +ℤ pos 1))

    look : Later Watched base w (arrive env w)
    look = Later-arrive Watched base env w fair k.later.ahead

    -- An exchange that fails reads the counter again.
    fails :
        Knows setting cs v ready short range count deadline r
          ((arrive env w).mem cs.next_claimable)
          (arrive env w)
    fails = record {
      later = Later-trans Watched base k.later look;
      read = k.read;
      below = omega (arith, k.below, least-Later Watched base l ls look watched);
      counted = look.ahead cs.next_claimable counter;
    }

    succeeds :
        ((arrive env w).mem cs.next_claimable == sequence) ≡ true
        → Exchanges setting cs v ready short range count deadline
            (record { first = sequence; size = taking })
            (record {
              tick = suc w.tick;
              mem = update (arrive env w).mem cs.next_claimable (add_sequence sequence taking);
            })
    unfolding end
    succeeds same =
        let d = difference-free setting cs v ready short range count deadline r sequence w k in
        record {
          before = arrive env w;
          later = Later-trans Watched base k.later look;
          found = ground arith;
          effect = refl;
          sized = ground arith;
          room = ground (arith, k.below, least-Later Watched base l ls look watched);
        }

  try_claim_until_loop-ClaimsOr :
      (fuel r sequence : ℕ) (w : World)
      → Knows setting cs v ready short range count deadline r sequence w
      → Partly (ClaimsOr setting cs v ready short range count deadline) (
          try_claim_until_loop env ws cs fuel count deadline range
            (add_sequence r cs.buffer_size)
            sequence
            w)
  unfolding try_claim_until_loop
  try_claim_until_loop-ClaimsOr zero r sequence w k = tt
  try_claim_until_loop-ClaimsOr (suc fuel) r sequence w k =
      Partly-bind (ClaimsOr setting cs v ready short range count deadline)
        (published_until env ws cs deadline (add_sequence r cs.buffer_size) sequence) _ w
        (λ p w₁ h. elim h [
          | inr (late, later, expired) ↦ rw late (inr (refl, later, expired))
          | inl (r', same, k', free) ↦
              rw (same, free)
                (elim (Bool-cases (env.spurious w₁.tick)) [
                  | inl s ↦
                      rw (◌>>=◌, compare_exchange_weak, s)
                        (try_claim_until_loop-ClaimsOr fuel r'
                          ((arrive env w₁).mem cs.next_claimable) (arrive env w₁)
                          (fails r' sequence w₁ k' free))
                  | inr s ↦ elim (Bool-cases ((arrive env w₁).mem cs.next_claimable == sequence)) [
                    | inl here ↦
                        rw (◌>>=◌, compare_exchange_weak, s, here)
                          (inl (refl, succeeds r' sequence w₁ k' free here))
                    | inr away ↦
                        rw (◌>>=◌, compare_exchange_weak, s, away)
                          (try_claim_until_loop-ClaimsOr fuel r'
                            ((arrive env w₁).mem cs.next_claimable) (arrive env w₁)
                            (fails r' sequence w₁ k' free))
                  ]
                ])
        ])
        (published_until-IsAsked setting cs v ready short range count deadline r sequence w k)

  -- `try_claim_until` of one of several writers, if the wait strategy's waits only look at the
  -- memory: when it returns, it has claimed slots that all consumers had passed, and all that it has
  -- done to the memory is to move the counter, in one exchange, from their beginning to their end;
  -- or it has refused with the range as it was, it has done nothing to the memory, and the clock has
  -- shown a time past the deadline.
  pub try_claim_until-ClaimsOr :
      ((s : ℕ) (w : World) → Looks env (ws.wait_until s (l ∷ ls) deadline) w)
      → (fuel : ℕ)
      → Partly
          (λ t w'.
            ClaimsOr setting cs v ready short range count deadline t w'
            × ByOneExchange env cs v t w')
          (try_claim_until env ws cs fuel count range deadline v)
  unfolding try_claim_until
  try_claim_until-ClaimsOr waits fuel =
      Partly-both (ClaimsOr setting cs v ready short range count deadline) (ByOneExchange env cs v)
        (try_claim_until env ws cs fuel count range deadline v)
        (Partly-bind (ClaimsOr setting cs v ready short range count deadline)
          (SequenceBarrierGroup.last_published env ws cs.claim_barrier) _ v
          (λ r w low.
            let first = Later-arrive Watched base env w fair low.later.ahead in
            try_claim_until_loop-ClaimsOr fuel r ((arrive env w).mem cs.next_claimable)
              (arrive env w)
              (record {
                later = Later-trans Watched base low.later first;
                read = low.ahead;
                below = omega (arith, low.below, least-Later Watched base l ls first watched);
                counted = first.ahead cs.next_claimable counter;
              }))
          (Totally→Partly (IsLowest Watched base l ls v) _
            (last_published-IsLowest setting cs.claim_barrier barriers watched v ahead)))
        (try_claim_until-ByOneExchange env ws cs barriers v range deadline waits fuel count)

-- `try_claim_for` of one of several writers does the same from its reading of the clock on, with
-- the timeout added to what it read for a deadline.
pub try_claim_for-ClaimsOr :
    {Watched : ℕ → Type 0} {base : ℕ} {env : Environment} {ws : WaitStrategy}
    (setting : Setting Watched base env ws) (cs : MultiThreadedClaimStrategy) {l : ℕ} {ls : List ℕ}
    (v : World) (ready : IsReady Watched base cs l ls (arrive env v))
    (short : cs.buffer_size < 2 ^ 62) (range : SequenceRange) (count timeout fuel : ℕ)
    → ((s : ℕ) (w : World) → Looks env (ws.wait_until s (l ∷ ls) (env.now v.tick + timeout)) w)
    → Partly
        (λ t w'.
          ClaimsOr setting cs (arrive env v) ready short range count (env.now v.tick + timeout) t w'
          × ByOneExchange env cs (arrive env v) t w')
        (try_claim_for env ws cs fuel count range timeout v)
unfolding try_claim_for
try_claim_for-ClaimsOr {env} setting cs v ready short range count timeout fuel waits =
    try_claim_until-ClaimsOr setting cs (arrive env v) ready short range count
      (env.now v.tick + timeout) waits fuel
