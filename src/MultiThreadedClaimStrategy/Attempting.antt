-- ===== src/MultiThreadedClaimStrategy/Attempting.antt =====
-- The whole of `try_claim`: which slots it claims, and that it returns when the others settle.
use disruptorplus.Common.{
  ℕ, suc, ◌+◌, ◌-◌, ◌^◌, ◌≤◌, ◌<◌, ◌≡◌, ◌⊎◌, inl, inr, Bool, true, false, min, List, arith,
}
use disruptorplus.Sequence.{add_sequence}
use disruptorplus.Sequence.Distance.{distance}
use disruptorplus.Memory.{Environment, World, arrive, done, ◌>>=◌}
use disruptorplus.Memory.Rely.{Later, Later-trans, Later-arrive, least, least-Later}
use disruptorplus.Minimum.Lowest.{IsLowest}
use disruptorplus.SequenceRange.{SequenceRange}
use disruptorplus.SequenceBarrierGroup
use disruptorplus.SequenceBarrierGroup.Waiting.{last_published-IsLowest}
use disruptorplus.WaitStrategy.{
  WaitStrategy, Partly, Totally, Mostly, Mostly→Partly, Mostly→Totally, Partly-map, Totally-map,
  Partly-both,
}
use disruptorplus.WaitStrategy.Promise.{Setting}
use disruptorplus.MultiThreadedClaimStrategy.{MultiThreadedClaimStrategy, try_claim, try_claim_loop}
use disruptorplus.MultiThreadedClaimStrategy.Claiming.{IsReady, IsClaimed}
use disruptorplus.MultiThreadedClaimStrategy.Exchanging.{ByOneExchange, try_claim-ByOneExchange}
use disruptorplus.MultiThreadedClaimStrategy.Trying.{
  Tries, Settles, Contended, try_claim_loop-Tries,
}

module _ {Watched : ℕ → Type 0} {base : ℕ} {env : Environment} {ws : WaitStrategy}
    (setting : Setting Watched base env ws) (cs : MultiThreadedClaimStrategy) {l : ℕ} {ls : List ℕ}
    (w : World) (ready : IsReady Watched base cs l ls w) (range : SequenceRange) (count r : ℕ)
    (w₁ : World)
    (returned : SequenceBarrierGroup.last_published env ws cs.claim_barrier w ≡ done r w₁)
    (space : distance base r + cs.buffer_size + 1 < 2 ^ 62) where
  open setting use {small, fair}
  open ready use {barriers, watched, counter, ahead}

  -- How `try_claim` ends: it has claimed free slots, all that were free at its beginning from where
  -- the counter stood, as far as asked for; or it has refused, the range being what it was, and the
  -- counter has passed all slots that were free at its beginning.
  abbrev pub Attempts : Bool × SequenceRange → World → Type 0
  Attempts t w' =
      (t.0 ≡ true)
        × IsClaimed Watched base cs l ls w t.1 w'
        × (min count (suc (least base w.mem l ls + cs.buffer_size) - distance base t.1.first)
            ≤ t.1.size)
        × (t.1.size ≤ count)
        × (min count 1 ≤ t.1.size)
      ⊎ (t ≡ (false, range))
        × Later Watched base w w'
        × (least base w.mem l ls + cs.buffer_size < distance base (w'.mem cs.next_claimable))

  low : IsLowest Watched base l ls w r w₁
  low = rw returned at (last_published-IsLowest setting cs.claim_barrier barriers watched w ahead)

  entered : Later Watched base w₁ (arrive env w₁)
  entered = Later-arrive Watched base env w₁ fair low.later.ahead

  attempts :
      (t : Bool × SequenceRange) (w' : World)
      → Tries setting cs counter range count r low.ahead space w₁ t w'
      → Attempts t w'
  attempts t w' (inl (yes_it_did, c)) =
      let after = least-Later Watched base l ls c.later watched in
      let before = low.later.advances cs.next_claimable counter in
      inl (
        yes_it_did,
        record {
          later = Later-trans Watched base low.later c.later;
          first = c.first;
          drawn = omega (arith, c.drawn);
          taken = c.taken;
          room = omega (arith, c.sized, c.free, low.below);
        },
        omega (arith, c.sized, low.above),
        omega (arith, c.sized),
        omega (arith, c.sized, c.free),
      )
  attempts t w' (inr (same, later, past)) =
      inr (same, Later-trans Watched base low.later later, omega (arith, low.above))

  loops :
      (fuel : ℕ)
      → Mostly
          (Contended setting cs counter range count r low.ahead space w₁ fuel (arrive env w₁))
          (Tries setting cs counter range count r low.ahead space w₁)
          (try_claim_loop env ws cs fuel
            (add_sequence r cs.buffer_size)
            range
            count
            ((arrive env w₁).mem cs.next_claimable)
            (arrive env w₁))
  loops fuel =
      try_claim_loop-Tries setting cs counter range count r low.ahead space w₁ fuel count
        (arrive env w₁)
        (record {
          later = entered;
          drawn = entered.advances cs.next_claimable counter;
          upto = omega arith;
          left = omega arith;
        })

  -- `try_claim`, when it returns, has claimed free slots, all that were free at its beginning from
  -- where the counter stood, as far as asked for, and all that it has done to the memory is to move
  -- the counter, in one exchange, from their beginning to their end; or it has refused with the
  -- range as it was and has done nothing to the memory, and the counter has passed all slots that
  -- were free at its beginning.
  pub try_claim-Attempts :
      (fuel : ℕ)
      → Partly
          (λ t w'. Attempts t w' × ByOneExchange env cs w t w')
          (try_claim env ws cs fuel count range w)
  unfolding try_claim
  try_claim-Attempts fuel =
      Partly-both Attempts (ByOneExchange env cs w) (try_claim env ws cs fuel count range w)
        (rw (◌>>=◌, returned)
          (Partly-map
            (try_claim_loop env ws cs fuel (add_sequence r cs.buffer_size) range count
              ((arrive env w₁).mem cs.next_claimable) (arrive env w₁))
            attempts
            (Mostly→Partly _ (Tries setting cs counter range count r low.ahead space w₁) _
              (loops fuel))))
        (try_claim-ByOneExchange env ws cs barriers w range fuel count)

  -- It does return, although other threads may defeat its exchanges for a while: it does if from
  -- some access on they make no more claims, and no exchange fails spuriously.
  pub try_claim-returns :
      (fuel t : ℕ)
      → Settles env cs t
      → (0 < fuel) × (t ≤ w₁.tick + fuel)
      → Totally Attempts (try_claim env ws cs fuel count range w)
  unfolding try_claim
  try_claim-returns fuel t settles enough =
      rw (◌>>=◌, returned)
        (Totally-map
          (try_claim_loop env ws cs fuel (add_sequence r cs.buffer_size) range count
            ((arrive env w₁).mem cs.next_claimable) (arrive env w₁))
          attempts
          (Mostly→Totally _ (Tries setting cs counter range count r low.ahead space w₁) _
            (λ busy. busy t settles (omega arith) (omega arith)) (loops fuel)))
