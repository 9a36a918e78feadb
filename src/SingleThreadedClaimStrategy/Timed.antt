-- ===== src/SingleThreadedClaimStrategy/Timed.antt =====
-- `try_claim_for` and `try_claim_until`, which wait for a time.
use disruptorplus.Common.{
  ℕ, ◌+◌, ◌≤◌, ◌<◌, refl, ◌⊎◌, inl, inr, List, ◌∷◌, All, true, if◌then◌else◌, arith,
}
use disruptorplus.Memory.{Environment, World, pure, ◌>>=◌}
use disruptorplus.Memory.Rely.{AllAhead, Later, Later-trans}
use disruptorplus.SequenceRange.{SequenceRange}
use disruptorplus.SequenceBarrierGroup
use disruptorplus.SequenceBarrierGroup.Waiting.{
  wait_until_published_until-Ends, wait_until_published_for-EndsFor,
}
use disruptorplus.WaitStrategy.{WaitStrategy, Partly, Partly-bind, Totally→Partly}
use disruptorplus.WaitStrategy.Promise.{IsReached, IsTimedOut, Ends, EndsFor, Setting}
use disruptorplus.SingleThreadedClaimStrategy.{
  SingleThreadedClaimStrategy, Tried, claim_published, needed, try_claim, try_claim_for,
  try_claim_until,
}
use disruptorplus.SingleThreadedClaimStrategy.Claiming.{
  IsReady, needed-IsAhead, distance-needed, claimable-difference,
}
use disruptorplus.SingleThreadedClaimStrategy.Trying.{
  Succeeds, Refuses, Tries, published-ends, try_claim-Tries,
}

module _ {Watched : ℕ → Type 0} {base : ℕ} {env : Environment} {ws : WaitStrategy}
    (setting : Setting Watched base env ws) (cs : SingleThreadedClaimStrategy) {l : ℕ} {ls : List ℕ}
    (ready : IsReady base cs l ls) (watched : All Watched (l ∷ ls)) (count : ℕ)
    (range : SequenceRange) where
  -- How a timed attempt from `w` on ends: free slots are claimed, or the attempt is refused, and it
  -- was late.
  abbrev pub EndsOr : (World → Type 0) → World → Tried → World → Type 0
  EndsOr Late w t w' =
      Succeeds Watched base l ls cs count range w t w'
      ⊎ Refuses Watched base l ls cs count range w t w' × Late w'

  -- The second attempt, when the wait on the barriers has reached the sequence number needed.
  reached-claims :
      (r : ℕ) {w w₁ : World} (w' : World)
      → Later Watched base w w₁
      → IsReached Watched base env (needed cs) l ls w₁ r w'
      → Succeeds Watched base l ls cs count range w (claim_published cs count range r) w'
  reached-claims r {w} w' before h =
      elim (published-ends setting cs ready watched count range r w w' h.ahead
        (Later-trans Watched base before h.later) h.below) [
          | inl (claimed, _) ↦ claimed
          | inr (_, n) ↦ absurd (omega (arith, h.enough, distance-needed ready, ready.buffer))
        ]

  -- The same when it has timed out.
  late-Refuses :
      (r : ℕ) {w w₁ : World} (w' : World) {deadline : ℕ}
      → Later Watched base w w₁
      → IsTimedOut Watched base env (needed cs) deadline w₁ r w'
      → Refuses Watched base l ls cs count range w (claim_published cs count range r) w'
  unfolding claim_published
  late-Refuses r w' before h = (
    ground
        (arith, claimable-difference ready r h.ahead, h.short, distance-needed ready, ready.buffer),
    Later-trans Watched base before h.later,
  )

  module _ (w : World) (ahead : AllAhead Watched base w.mem) where
    tries :
        Partly (Tries setting cs ready watched count range w) (try_claim env ws cs count range w)
    tries =
        Totally→Partly (Tries setting cs ready watched count range w)
          (try_claim env ws cs count range w)
          (try_claim-Tries setting cs ready watched count range w ahead)

    -- The clock has shown a time past the deadline since `w`.
    abbrev pub Expired : (deadline : ℕ) → World → Type 0
    Expired deadline w' = (u : ℕ) × (w.tick ≤ u) × (u < w'.tick) × (deadline < env.now u)

    -- The clock has shown two times since `w` that lie further apart than the timeout.
    abbrev pub ExpiredFor : (timeout : ℕ) → World → Type 0
    ExpiredFor timeout w' =
        (v : ℕ) × (u : ℕ) × (w.tick ≤ v)
        × (v < w'.tick)
        × (w.tick ≤ u)
        × (u < w'.tick)
        × (env.now v + timeout < env.now u)

    -- `try_claim_until`, when it returns, has claimed free slots, or it has changed nothing and the
    -- clock has shown a time past the deadline.
    pub try_claim_until-EndsOr :
        (timeout_time : ℕ)
        → Partly
            (EndsOr (Expired timeout_time) w)
            (try_claim_until env ws cs count range timeout_time w)
    unfolding try_claim_until
    try_claim_until-EndsOr timeout_time =
        Partly-bind (EndsOr (Expired timeout_time) w) (try_claim env ws cs count range) _ w next
          tries
      where
        ends :
            {w₁ : World}
            → Later Watched base w w₁
            → (r : ℕ) (w' : World) → Ends Watched base env (needed cs) l ls timeout_time w₁ r w'
            → EndsOr (Expired timeout_time) w (claim_published cs count range r) w'
        ends later r w' (inl h) = inl (reached-claims r w' later h)
        ends later r w' (inr h) = inr (
          late-Refuses r w' later h,
          (h.read_at, omega (arith, h.during, later.ticks), h.during.1, h.late),
        )

        next :
            (t : Tried) (w₁ : World)
            → Tries setting cs ready watched count range w t w₁
            → Partly (EndsOr (Expired timeout_time) w) (
                (if t.0 then pure (true, t.1, t.2) else (do
                  published ←
                      SequenceBarrierGroup.wait_until_published_until env ws t.2.claim_barrier
                        (needed t.2)
                        timeout_time
                  pure (claim_published t.2 count t.1 published)))
                  w₁)
        next t w₁ (inl ((claims, claimed), _)) = rw claims (inl (refl, claimed))
        next t w₁ (inr ((same, later), _)) = rw same (
            Partly-bind (EndsOr (Expired timeout_time) w)
              (SequenceBarrierGroup.wait_until_published_until env ws cs.claim_barrier (needed cs)
                timeout_time)
              _ w₁ (ends later)
              (wait_until_published_until-Ends setting cs.claim_barrier ready.barriers watched w₁
                later.ahead (needed cs) (needed-IsAhead ready) timeout_time))

    -- `try_claim_for`, when it returns, has claimed free slots, or it has changed nothing and the
    -- clock has shown that more time than the timeout has passed during the call.
    pub try_claim_for-EndsOr :
        (timeout : ℕ)
        → Partly (EndsOr (ExpiredFor timeout) w) (try_claim_for env ws cs count range timeout w)
    unfolding try_claim_for
    try_claim_for-EndsOr timeout =
        Partly-bind (EndsOr (ExpiredFor timeout) w) (try_claim env ws cs count range) _ w next tries
      where
        ends :
            {w₁ : World}
            → Later Watched base w w₁
            → (r : ℕ) (w' : World) → EndsFor Watched base env (needed cs) l ls timeout w₁ r w'
            → EndsOr (ExpiredFor timeout) w (claim_published cs count range r) w'
        ends later r w' (inl h) = inl (reached-claims r w' later h)
        ends later r w' (inr (v, from, before, h)) = inr (
          late-Refuses r w' later h,
          (
            v,
            h.read_at,
            omega (arith, later.ticks),
            before,
            omega (arith, h.during, later.ticks),
            h.during.1,
            h.late,
          ),
        )

        next :
            (t : Tried) (w₁ : World)
            → Tries setting cs ready watched count range w t w₁
            → Partly (EndsOr (ExpiredFor timeout) w) (
                (if t.0 then pure (true, t.1, t.2) else (do
                  published ←
                      SequenceBarrierGroup.wait_until_published_for env ws t.2.claim_barrier
                        (needed t.2)
                        timeout
                  pure (claim_published t.2 count t.1 published)))
                  w₁)
        next t w₁ (inl ((claims, claimed), _)) = rw claims (inl (refl, claimed))
        next t w₁ (inr ((same, later), _)) = rw same (
            Partly-bind (EndsOr (ExpiredFor timeout) w)
              (SequenceBarrierGroup.wait_until_published_for env ws cs.claim_barrier (needed cs)
                timeout)
              _ w₁ (ends later)
              (wait_until_published_for-EndsFor setting cs.claim_barrier ready.barriers watched w₁
                later.ahead (needed cs) (needed-IsAhead ready) timeout))
