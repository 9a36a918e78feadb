-- ===== src/MultiThreadedClaimStrategy/Safety.antt =====
-- What a claim by one of several writers keeps apart: the items still to be read, and the slots of
-- other claims.
use disruptorplus.Common.{ℕ, ◌+◌, ◌^◌, ◌<◌, ◌≡◌, ◌≢◌, ap, List, arith}
use disruptorplus.Sequence.Distance.{distance, distance-add_sequence}
use disruptorplus.Memory.{World, Environment, done, arrive}
use disruptorplus.Memory.Rely.{Later, least}
use disruptorplus.WaitStrategy.{WaitStrategy}
use disruptorplus.WaitStrategy.Promise.{Setting}
use disruptorplus.RingBuffer.{RingBuffer, slot}
use disruptorplus.RingBuffer.Slots.{IsValid}
use disruptorplus.RingBuffer.Window.{slot-ne}
use disruptorplus.SequenceRange.{SequenceRange, at}
use disruptorplus.MultiThreadedClaimStrategy.{MultiThreadedClaimStrategy, claim}
use disruptorplus.MultiThreadedClaimStrategy.Claiming.{IsReady, IsClaimed, claim-IsClaimed}

module _ {Watched : ℕ → Type 0} {base : ℕ} (small : base < 2 ^ 64) (cs : MultiThreadedClaimStrategy)
    (counter : Watched cs.next_claimable) {l : ℕ} {ls : List ℕ} {w : World} {range : SequenceRange}
    {w' : World} (c : IsClaimed Watched base cs l ls w range w') where
  distance-at :
      (i : ℕ)
      → i < range.size
      → (distance base (at range i) ≡ distance base range.first + i) × (at range i < 2 ^ 64)
  unfolding at
  distance-at i h =
      distance-add_sequence base range.first i small c.first.small
        (omega (arith, c.taken, (c.later.ahead cs.next_claimable counter).near))

  -- A number before the claim that some consumer has still to pass has its item in another slot.
  IsClaimed-slots_free {ℓ} :
      {T : Type ℓ} (b : RingBuffer T)
      → IsValid b
      → b.size ≡ cs.buffer_size
      → (i x : ℕ) → i < range.size
      → x < 2 ^ 64
      → distance base x < distance base range.first
      → least base w'.mem l ls < distance base x
      → slot b (at range i) ≢ slot b x
  IsClaimed-slots_free b valid same i x hi hx before unread =
      let (there, fits) = distance-at i hi in
      slot-ne b base (least base w'.mem l ls) x (at range i) valid small (hx, fits) unread
        (omega arith) (omega (arith, c.room))

module _ {Watched : ℕ → Type 0} {base : ℕ} {env : Environment} {ws : WaitStrategy}
    (setting : Setting Watched base env ws) (cs : MultiThreadedClaimStrategy) {l : ℕ} {ls : List ℕ}
    (w : World) (ready : IsReady Watched base cs l ls w)
    (behind : (0 < cs.buffer_size) × (cs.buffer_size < distance base (w.mem cs.next_claimable)))
    (space : distance base ((arrive env w).mem cs.next_claimable) + cs.buffer_size < 2 ^ 62)
    (count : ℕ) {range : SequenceRange} {w' : World}
    (returned : claim env ws cs count w ≡ done range w') where
  first_claim : IsClaimed Watched base cs l ls w range w'
  first_claim = (rw returned at (claim-IsClaimed setting cs w ready behind space count)).1

  -- When `claim` of one of several writers has returned a range, a sequence number before it that
  -- some consumer has still to pass has its item in another slot than each number of the range.
  pub claim_shared-slots_free {ℓ} :
      {T : Type ℓ} (b : RingBuffer T)
      → IsValid b
      → b.size ≡ cs.buffer_size
      → (i x : ℕ) → i < range.size
      → x < 2 ^ 64
      → distance base x < distance base range.first
      → least base w'.mem l ls < distance base x
      → slot b (at range i) ≢ slot b x
  claim_shared-slots_free = IsClaimed-slots_free setting.small cs ready.counter first_claim

  -- A claim that begins later gets other sequence numbers, whatever the other threads claim
  -- meanwhile; and while the item of the one is not yet passed by all consumers, other slots too.
  pub claim_shared-disjoint {ℓ} :
      {T : Type ℓ} (b : RingBuffer T)
      → IsValid b
      → b.size ≡ cs.buffer_size
      → (u : World) → Later Watched base w' u
      → (later_ready : IsReady Watched base cs l ls u)
      → distance base ((arrive env u).mem cs.next_claimable) + cs.buffer_size < 2 ^ 62
      → (count' : ℕ) {range' : SequenceRange} {u' : World}
      → claim env ws cs count' u ≡ done range' u'
      → (i j : ℕ) → i < range.size
      → j < range'.size
      → (at range' j ≢ at range i)
        × (least base u'.mem l ls < distance base (at range i)
            → slot b (at range' j) ≢ slot b (at range i))
  claim_shared-disjoint b valid same u later later_ready space' count' {range'} returned' i j hi
        hj =
      let moved = later.advances cs.next_claimable ready.counter in
      let before = first_claim.later.advances cs.next_claimable ready.counter in
      let second =
        (rw returned' at
          (claim-IsClaimed setting cs u later_ready (omega (arith, behind)) space' count')).1 in
      let (here, fits) = distance-at setting.small cs ready.counter first_claim i hi in
      let (there, fits') = distance-at setting.small cs ready.counter second j hj in
      let apart : distance base (at range i) < distance base range'.first =
        omega (arith, first_claim.taken, second.drawn) in
      (
        λ e. omega (arith, ap (distance base) e),
        λ unread.
            IsClaimed-slots_free setting.small cs ready.counter second b valid same j (at range i)
              hj fits apart unread,
      )
