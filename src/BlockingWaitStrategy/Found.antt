-- ===== src/BlockingWaitStrategy/Found.antt =====
-- What a thread in the loop of a wait knows of the atomics, where the sequence numbers only
-- advance.
use mathlib.Core.List.{Memᴰ}
use disruptorplus.Common.{ℕ, ◌^◌, ◌≤◌, ◌<◌, ◌≡◌, ◌⊎◌, inl, inr, is_neg, min_ℤ, false, arith, dec_lt}
use disruptorplus.Sequence.{difference, add_sequence, to_unsigned}
use disruptorplus.Sequence.Distance.{distance, IsAhead, difference-eq-sub}
use disruptorplus.Memory.{Memory}
use disruptorplus.BlockingWaitStrategy.{
  Phase, idle, locking, testing, scanning, refused, sleeping, leaving, stored, signalling,
  signalled, wake,
}

module _ (base : ℕ) where
  -- No sequence number moves back, and all are ahead of the base.
  abbrev pub Advancing : Memory → Memory → Type 0
  Advancing m m' = (l : ℕ) → IsAhead base (m' l) × (distance base (m l) ≤ distance base (m' l))

  -- What a thread has found out, if it waits for a number ahead of the base.
  abbrev pub Found : Memory → Phase → Type 0
  Found m (scanning s ls left d) =
      IsAhead base s
      → (r : ℕ) × IsAhead base r
        × (d ≡ difference r s)
        × ((l : ℕ) → Memᴰ l ls → Memᴰ l left ⊎ (distance base r ≤ distance base (m l)))
  Found m (leaving s ls r) =
      IsAhead base s
      → IsAhead base r
        × (distance base s ≤ distance base r)
        × ((l : ℕ) → Memᴰ l ls → distance base r ≤ distance base (m l))
  Found m idle = Unit
  Found m (locking s ls) = Unit
  Found m (testing s ls) = Unit
  Found m (refused s ls) = Unit
  Found m (sleeping s ls) = Unit
  Found m stored = Unit
  Found m signalling = Unit
  Found m signalled = Unit

  pub Found-Advancing : (m m' : Memory) → Advancing m m' → (p : Phase) → Found m p → Found m' p
  Found-Advancing m m' on (scanning s ls left d) h = λ ahead.
      let (r, hr, e, seen) = h ahead in
      (
        r,
        hr,
        e,
        λ l n. elim (seen l n) [
          | inl more ↦ inl more
          | inr passed ↦ inr (omega (arith, passed, (on l).1))
        ],
      )
  Found-Advancing m m' on (leaving s ls r) h = λ ahead.
      let (hr, from, passed) = h ahead in (hr, from, λ l n. omega (arith, passed l n, (on l).1))
  Found-Advancing m m' on idle h = tt
  Found-Advancing m m' on (locking s ls) h = tt
  Found-Advancing m m' on (testing s ls) h = tt
  Found-Advancing m m' on (refused s ls) h = tt
  Found-Advancing m m' on (sleeping s ls) h = tt
  Found-Advancing m m' on stored h = tt
  Found-Advancing m m' on signalling h = tt
  Found-Advancing m m' on signalled h = tt

  pub Found-wake : (m : Memory) (p : Phase) → Found m p → Found m (wake p)
  unfolding wake
  Found-wake m (scanning s ls left d) h = h
  Found-wake m (leaving s ls r) h = h
  Found-wake m idle h = tt
  Found-wake m (locking s ls) h = tt
  Found-wake m (testing s ls) h = tt
  Found-wake m (refused s ls) h = tt
  Found-wake m (sleeping s ls) h = tt
  Found-wake m stored h = tt
  Found-wake m signalling h = tt
  Found-wake m signalled h = tt

  module _ (small : base < 2 ^ 64) where
    -- The loop keeps the least of the numbers it has read.
    pub lower :
        (s r x : ℕ)
        → IsAhead base s
        → IsAhead base r
        → IsAhead base x
        → (y : ℕ) × IsAhead base y
          × (min_ℤ (difference r s) (difference x s) ≡ difference y s)
          × (distance base y ≤ distance base r)
          × (distance base y ≤ distance base x)
    lower s r x hs hr hx =
        let er = difference-eq-sub base r s small hr hs in
        let ex = difference-eq-sub base x s small hx hs in
        elim (dec_lt (distance base x) (distance base r)) [
          | yes less ↦ (x, hx, ground (arith, er, ex), omega arith, omega arith)
          | no more ↦ (r, hr, ground (arith, er, ex), omega arith, omega arith)
        ]

    -- The number returned is made from the difference again.
    pub from_difference :
        (s r : ℕ)
        → IsAhead base s
        → IsAhead base r
        → is_neg (difference r s) ≡ false
        → (add_sequence (to_unsigned (difference r s)) s ≡ r) × (distance base s ≤ distance base r)
    from_difference s r hs hr h =
        let e = difference-eq-sub base r s small hr hs in
        let from : distance base s ≤ distance base r = ground (arith, rw e at h) in
        (rw e (ground (arith, from, hs.small, hr.small)), from)
