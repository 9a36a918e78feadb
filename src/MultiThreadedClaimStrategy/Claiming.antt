-- ===== src/MultiThreadedClaimStrategy/Claiming.antt =====
-- `claim_one` and `claim`: sequence numbers drawn from the shared counter, and the wait until their
-- slots are free.
use disruptorplus.Common.{ℕ, suc, ◌+◌, ◌^◌, ◌≤◌, ◌<◌, ◌≡◌, refl, min, List, ◌∷◌, All, arith}
use disruptorplus.Sequence.{add_sequence, sub_sequence}
use disruptorplus.Sequence.Distance.{
  distance, IsAhead, distance-add_sequence, distance-sub_sequence,
}
use disruptorplus.Memory.{Environment, World, arrive, update}
use disruptorplus.Memory.Rely.{AllAhead, Later, Later-trans, Later-arrive, Later-store, least}
use disruptorplus.SequenceRange.{SequenceRange, end, last}
use disruptorplus.SequenceBarrierGroup
use disruptorplus.SequenceBarrierGroup.Waiting.{
  wait_until_published-IsReached, wait_until_published-returns,
}
use disruptorplus.WaitStrategy.{WaitStrategy, Partly, Totally, Partly-bind, Totally-bind}
use disruptorplus.WaitStrategy.Promise.{IsReached, ArrivesBy, Setting}
use disruptorplus.MultiThreadedClaimStrategy.{MultiThreadedClaimStrategy, claim_one, claim}

-- The strategy waits for the barriers `l ∷ ls`, and all sequence numbers lie ahead of the base in
-- the world `w` in which a call begins.
pub record IsReady (Watched : ℕ → Type 0) (base : ℕ) (cs : MultiThreadedClaimStrategy) (l : ℕ)
    (ls : List ℕ) (w : World) : Type 0 where
  pub barriers : cs.claim_barrier.sequences ≡ l ∷ ls
  pub watched : All Watched (l ∷ ls)
  pub counter : Watched cs.next_claimable
  pub ahead : AllAhead Watched base w.mem

-- What a claim that begins in `w` and returns `range` in `w'` has done: the range begins where the
-- counter stood when it was drawn, not before where it stood at the beginning; the counter is past
-- its end, so that no other claim gets its numbers; and every claim barrier has passed the items
-- that lie a buffer's length before it.
pub record IsClaimed (Watched : ℕ → Type 0) (base : ℕ) (cs : MultiThreadedClaimStrategy) (l : ℕ)
    (ls : List ℕ) (w : World) (range : SequenceRange) (w' : World) : Type 0 where
  pub later : Later Watched base w w'
  pub first : IsAhead base range.first
  pub drawn : distance base (w.mem cs.next_claimable) ≤ distance base range.first
  pub taken : distance base range.first + range.size ≤ distance base (w'.mem cs.next_claimable)
  pub room : distance base range.first + range.size ≤ suc (least base w'.mem l ls + cs.buffer_size)

module _ {Watched : ℕ → Type 0} {base : ℕ} {env : Environment} {ws : WaitStrategy}
    (setting : Setting Watched base env ws) (cs : MultiThreadedClaimStrategy) {l : ℕ} {ls : List ℕ}
    (w : World) (ready : IsReady Watched base cs l ls w)
    (behind : (0 < cs.buffer_size) × (cs.buffer_size < distance base (w.mem cs.next_claimable)))
    (space : distance base ((arrive env w).mem cs.next_claimable) + cs.buffer_size < 2 ^ 62) where
  open setting use {small, fair}
  open ready use {barriers, watched, counter, ahead}

  -- What the counter gives.
  abbrev ticket : ℕ
  ticket = (arrive env w).mem cs.next_claimable

  ticket-IsAhead :
      IsAhead base ticket × (distance base (w.mem cs.next_claimable) ≤ distance base ticket)
  ticket-IsAhead =
      let first = Later-arrive Watched base env w fair ahead in
      (first.ahead cs.next_claimable counter, first.advances cs.next_claimable counter)

  module _ (n : ℕ) (within : n ≤ cs.buffer_size) where
    -- The world after `fetch_add(n)`.
    abbrev drawn : World
    drawn = record {
      tick = suc w.tick;
      mem = update (arrive env w).mem cs.next_claimable (add_sequence ticket n);
    }

    moved :
        (distance base (add_sequence ticket n) ≡ distance base ticket + n)
        × IsAhead base (add_sequence ticket n)
    moved =
        let (there, fits) =
          distance-add_sequence base ticket n small ticket-IsAhead.0.small (omega arith) in
        (there, record { small = fits; near = omega arith })

    Later-drawn : Later Watched base w drawn
    Later-drawn =
        Later-store Watched base env w fair ahead cs.next_claimable (add_sequence ticket n) moved.1
          (omega (arith, moved.0))

    -- The wait after it, for a number `s` that is `back` steps before the end of what was drawn.
    module _ (s : ℕ) (sought : IsAhead base s) where
      abbrev Waited : ℕ → World → Type 0
      Waited = IsReached Watched base env s l ls drawn

      waits :
          Partly Waited (SequenceBarrierGroup.wait_until_published env ws cs.claim_barrier s drawn)
      waits =
          wait_until_published-IsReached setting cs.claim_barrier barriers watched drawn
            Later-drawn.ahead s sought

      returns :
          (t : ℕ)
          → ArrivesBy Watched base env t s (l ∷ ls)
          → t ≤ w.tick + ws.patience
          → Totally Waited
              (SequenceBarrierGroup.wait_until_published env ws cs.claim_barrier s drawn)
      returns t arrives time =
          wait_until_published-returns setting cs.claim_barrier barriers watched drawn
            Later-drawn.ahead s sought t arrives (omega arith)

      claimed :
          distance base ticket + n ≤ suc (distance base s + cs.buffer_size)
          → (r : ℕ) (w' : World) → Waited r w'
          → IsClaimed Watched base cs l ls w (record { first = ticket; size = n }) w'
      claimed enough r w' h = record {
        later = Later-trans Watched base Later-drawn h.later;
        first = ticket-IsAhead.0;
        drawn = ticket-IsAhead.1;
        taken = let there = h.later.advances cs.next_claimable counter in ground (arith, moved.0);
        room = omega (arith, h.enough, h.below);
      }

  -- The number that `claim_one` waits for.
  one-IsAhead :
      IsAhead base (sub_sequence ticket cs.buffer_size)
      × (distance base ticket ≡ distance base (sub_sequence ticket cs.buffer_size) + cs.buffer_size)
  one-IsAhead =
      let (before, at_start) = ticket-IsAhead in
      let (there, fits) =
        distance-sub_sequence base ticket cs.buffer_size small before.small
          (omega (arith, behind)) in
      (record { small = fits; near = omega (arith, before.near) }, omega (arith, behind))

  abbrev pub ClaimedOne : ℕ → World → Type 0
  ClaimedOne sequence = IsClaimed Watched base cs l ls w (record { first = sequence; size = 1 })

  -- `claim_one`, when it returns, has drawn a sequence number from the counter that no other claim
  -- gets, and every claim barrier has passed the item in its slot.
  pub claim_one-IsClaimed : Partly ClaimedOne (claim_one env ws cs w)
  unfolding claim_one
  claim_one-IsClaimed =
      let (sought, back) = one-IsAhead in
      Partly-bind ClaimedOne
        (SequenceBarrierGroup.wait_until_published env ws cs.claim_barrier
          (sub_sequence ticket cs.buffer_size))
        _ (drawn 1 (omega (arith, behind)))
        (claimed 1 (omega (arith, behind)) (sub_sequence ticket cs.buffer_size) sought
          (omega arith))
        (waits 1 (omega (arith, behind)) (sub_sequence ticket cs.buffer_size) sought)

  -- It does return if the claim barriers come to free the slot in time.
  pub claim_one_shared-returns :
      (t : ℕ)
      → ArrivesBy Watched base env t (sub_sequence ticket cs.buffer_size) (l ∷ ls)
      → t ≤ w.tick + ws.patience
      → Totally ClaimedOne (claim_one env ws cs w)
  unfolding claim_one
  claim_one_shared-returns t arrives time =
      let (sought, back) = one-IsAhead in
      Totally-bind ClaimedOne
        (SequenceBarrierGroup.wait_until_published env ws cs.claim_barrier
          (sub_sequence ticket cs.buffer_size))
        _ (drawn 1 (omega (arith, behind)))
        (claimed 1 (omega (arith, behind)) (sub_sequence ticket cs.buffer_size) sought
          (omega arith))
        (returns 1 (omega (arith, behind)) (sub_sequence ticket cs.buffer_size) sought t arrives
          time)

  module _ (count : ℕ) where
    abbrev pub asked : SequenceRange
    asked = record { first = ticket; size = min count cs.buffer_size }

    abbrev pub awaited : ℕ
    awaited = sub_sequence (last asked) cs.buffer_size

    asked-IsAhead :
        IsAhead base awaited
        × (distance base ticket + min count cs.buffer_size
            ≡ suc (distance base awaited + cs.buffer_size))
    unfolding last end
    asked-IsAhead =
        let (there, ahead_too) = moved (min count cs.buffer_size) (omega arith) in
        let (at_last, fits) =
          distance-sub_sequence base (end asked) 1 small ahead_too.small
            (omega (arith, behind, ticket-IsAhead.1)) in
        let (back, fits') =
          distance-sub_sequence base (last asked) cs.buffer_size small fits
            (omega (arith, behind, ticket-IsAhead.1)) in
        (
          record { small = fits'; near = omega (arith, space) },
          omega (arith, behind, ticket-IsAhead.1),
        )

    abbrev pub Claimed : SequenceRange → World → Type 0
    Claimed range w' =
        (range.size ≡ min count cs.buffer_size) × IsClaimed Watched base cs l ls w range w'

    -- `claim`, when it returns, has drawn as many sequence numbers as asked for, up to a whole
    -- buffer; no other claim gets them, and every claim barrier has passed the items in their
    -- slots.
    pub claim-IsClaimed : Partly Claimed (claim env ws cs count w)
    unfolding claim
    claim-IsClaimed =
        let (sought, back) = asked-IsAhead in
        Partly-bind Claimed
          (SequenceBarrierGroup.wait_until_published env ws cs.claim_barrier awaited) _
          (drawn (min count cs.buffer_size) (omega arith))
          (λ r w' h. (
            refl,
            claimed (min count cs.buffer_size) (omega arith) awaited sought (omega arith) r w' h,
          ))
          (waits (min count cs.buffer_size) (omega arith) awaited sought)

    -- It does return if the claim barriers come to free the last of the slots in time.
    pub claim_shared-returns :
        (t : ℕ)
        → ArrivesBy Watched base env t awaited (l ∷ ls)
        → t ≤ w.tick + ws.patience
        → Totally Claimed (claim env ws cs count w)
    unfolding claim
    claim_shared-returns t arrives time =
        let (sought, back) = asked-IsAhead in
        Totally-bind Claimed
          (SequenceBarrierGroup.wait_until_published env ws cs.claim_barrier awaited) _
          (drawn (min count cs.buffer_size) (omega arith))
          (λ r w' h. (
            refl,
            claimed (min count cs.buffer_size) (omega arith) awaited sought (omega arith) r w' h,
          ))
          (returns (min count cs.buffer_size) (omega arith) awaited sought t arrives time)
