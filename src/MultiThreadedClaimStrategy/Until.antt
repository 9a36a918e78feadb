-- ===== src/MultiThreadedClaimStrategy/Until.antt =====
-- `try_claim_until`: how it ends, and the wait in its loop.
use disruptorplus.Common.{
  ℕ, suc, ◌+◌, ◌^◌, ◌≤◌, ◌<◌, ◌≡◌, refl, ◌⊎◌, inl, inr, Bool, true, false, is_neg, sub_ℕ, min,
  Bool-cases, List, arith,
}
use disruptorplus.Sequence.{add_sequence, sub_sequence, difference}
use disruptorplus.Sequence.Distance.{
  distance, IsAhead, difference-add_sequence, distance-sub_sequence,
}
use disruptorplus.Memory.{Environment, World, update}
use disruptorplus.Memory.Rely.{Later, Later-trans, least}
use disruptorplus.SequenceRange.{SequenceRange, end}
use disruptorplus.SequenceBarrierGroup
use disruptorplus.SequenceBarrierGroup.Waiting.{wait_until_published_until-Ends}
use disruptorplus.WaitStrategy.{WaitStrategy, Partly, Partly-bind}
use disruptorplus.WaitStrategy.Promise.{Setting, Ends}
use disruptorplus.MultiThreadedClaimStrategy.{MultiThreadedClaimStrategy, published_until}
use disruptorplus.MultiThreadedClaimStrategy.Claiming.{IsReady}

module _ {Watched : ℕ → Type 0} {base : ℕ} {env : Environment} {ws : WaitStrategy}
    (setting : Setting Watched base env ws) (cs : MultiThreadedClaimStrategy) {l : ℕ} {ls : List ℕ}
    (v : World) (ready : IsReady Watched base cs l ls v) (short : cs.buffer_size < 2 ^ 62)
    (range : SequenceRange) (count deadline : ℕ) where
  open setting use {small, fair}
  open ready use {barriers, watched, counter, ahead}

  -- A success, by an exchange of the counter in the world `before`: the range begins where the
  -- counter stood there, the exchange moves the counter to its end and changes nothing else, and
  -- all claim barriers had passed the items in its slots.
  pub record Exchanges (range' : SequenceRange) (w' : World) : Type 0 where
    pub before : World
    pub later : Later Watched base v before
    pub found : before.mem cs.next_claimable ≡ range'.first
    pub effect : w' ≡ record before { mem = update before.mem cs.next_claimable (end range') }
    pub sized : (min count 1 ≤ range'.size) × (range'.size ≤ count)
    pub room :
        distance base range'.first + range'.size ≤ suc (least base before.mem l ls + cs.buffer_size)

  -- The clock has shown a time past the deadline since `v`.
  abbrev pub Expired : World → Type 0
  Expired w' = (u : ℕ) × (v.tick ≤ u) × (u < w'.tick) × (deadline < env.now u)

  -- How an attempt ends: slots are claimed, or it is refused with the range as it was, and the time
  -- is over.
  abbrev pub ClaimsOr : Bool × SequenceRange → World → Type 0
  ClaimsOr t w' =
      (t.0 ≡ true) × Exchanges t.1 w' ⊎ (t ≡ (false, range)) × Later Watched base v w' × Expired w'

  -- What the claim barriers have published, `r`, and an earlier reading of the counter.
  pub record Knows (r sequence : ℕ) (w : World) : Type 0 where
    pub later : Later Watched base v w
    pub read : IsAhead base r
    pub below : distance base r ≤ least base w.mem l ls
    pub counted : IsAhead base sequence

  pub difference-free :
      (r sequence : ℕ) (w : World)
      → Knows r sequence w
      → difference (add_sequence r cs.buffer_size) sequence
        ≡ sub_ℕ (distance base r + cs.buffer_size) (distance base sequence)
  difference-free r sequence w k =
      difference-add_sequence base r sequence cs.buffer_size small k.read k.counted short

  -- After the wait in the loop, a slot is free or the time is over.
  abbrev pub IsAsked : (sequence p : ℕ) → World → Type 0
  IsAsked sequence p w =
      ((r : ℕ) × (p ≡ add_sequence r cs.buffer_size)
        × Knows r sequence w
        × (is_neg (difference (add_sequence r cs.buffer_size) sequence) ≡ false))
      ⊎ (is_neg (difference p sequence) ≡ true) × Later Watched base v w × Expired w

  asked :
      (sequence s : ℕ) (w : World)
      → IsAhead base sequence
      → distance base s + cs.buffer_size ≡ distance base sequence
      → Later Watched base v w
      → (r : ℕ) (w' : World) → Ends Watched base env s l ls deadline w r w'
      → IsAsked sequence (add_sequence r cs.buffer_size) w'
  asked sequence s w counted e before r w' (inl h) =
      let knows : Knows r sequence w' = record {
        later = Later-trans Watched base before h.later;
        read = h.ahead;
        below = h.below;
        counted = counted;
      } in
      inl (r, refl, knows, ground (arith, difference-free r sequence w' knows, h.enough))
  asked sequence s w counted e before r w' (inr h) =
      let d = difference-add_sequence base r sequence cs.buffer_size small h.ahead counted short in
      inr (
        ground (arith, h.short),
        Later-trans Watched base before h.later,
        (h.read_at, omega (arith, h.during, before.ticks), h.during.1, h.late),
      )

  pub published_until-IsAsked :
      (r sequence : ℕ) (w : World)
      → Knows r sequence w
      → Partly
          (IsAsked sequence)
          (published_until env ws cs deadline (add_sequence r cs.buffer_size) sequence w)
  unfolding published_until
  published_until-IsAsked r sequence w k =
      elim (Bool-cases (is_neg (difference (add_sequence r cs.buffer_size) sequence))) [
        | inl e ↦
            let d = difference-free r sequence w k in
            let full : distance base r + cs.buffer_size < distance base sequence = ground arith in
            let (back, fits) =
              distance-sub_sequence base sequence cs.buffer_size small k.counted.small
                (omega arith) in
            rw e (
              Partly-bind (IsAsked sequence)
                (SequenceBarrierGroup.wait_until_published_until env ws cs.claim_barrier
                  (sub_sequence sequence cs.buffer_size) deadline)
                _ w
                (asked sequence (sub_sequence sequence cs.buffer_size) w k.counted (omega arith)
                  k.later)
                (wait_until_published_until-Ends setting cs.claim_barrier barriers watched w
                  k.later.ahead (sub_sequence sequence cs.buffer_size)
                  (record { small = fits; near = omega (arith, k.counted.near) }) deadline))
        | inr e ↦ rw e (inl (r, refl, k, e))
      ]
