-- ===== src/Sequence/Distance.antt =====
-- How far a sequence number lies ahead of a base, and what `difference` says of two that lie less
-- than half the number range ahead of one base.
use disruptorplus.Common.{ℕ, ◌+◌, ◌-◌, ◌%◌, ◌^◌, ◌≤◌, ◌<◌, ◌≡◌, sub_ℕ, arith}
use disruptorplus.Sequence.{sequence_mod, difference, add_sequence, sub_sequence}

-- The steps from `base` forwards to `x`.
abbrev pub distance : ℕ → ℕ → ℕ
distance base x = (x + sequence_mod - base) % sequence_mod

-- `x` is a sequence number that lies less than a quarter of the number range ahead of `base`: the
-- documentation of `minimum_sequence` lets active sequence numbers differ by 2 ^ 62 - 1 at most.
pub record IsAhead (base x : ℕ) : Type 0 where
  pub small : x < 2 ^ 64
  pub near : distance base x < 2 ^ 62

-- The difference of two sequence numbers less than half the range ahead of a base is that of their
-- distances from it, also where one of them, or both, have wrapped round past zero.
pub difference-eq-distances :
    (base a b : ℕ)
    → base < 2 ^ 64
    → a < 2 ^ 64
    → b < 2 ^ 64
    → distance base a < 2 ^ 63
    → distance base b < 2 ^ 63
    → difference a b ≡ sub_ℕ (distance base a) (distance base b)
unfolding difference
difference-eq-distances base a b h ha hb da db = ground arith

pub difference-eq-sub :
    (base a b : ℕ)
    → base < 2 ^ 64
    → IsAhead base a
    → IsAhead base b
    → difference a b ≡ sub_ℕ (distance base a) (distance base b)
difference-eq-sub base a b h ha hb =
    difference-eq-distances base a b h ha.small hb.small (omega arith) (omega arith)

-- Adding and subtracting below the end of the range moves the distance by as much.
pub distance-add_sequence :
    (base a n : ℕ)
    → base < 2 ^ 64
    → a < 2 ^ 64
    → distance base a + n < 2 ^ 64
    → (distance base (add_sequence a n) ≡ distance base a + n) × (add_sequence a n < 2 ^ 64)
distance-add_sequence base a n h ha hn = omega arith

pub distance-sub_sequence :
    (base a n : ℕ)
    → base < 2 ^ 64
    → a < 2 ^ 64
    → n ≤ distance base a
    → (distance base (sub_sequence a n) ≡ distance base a - n) × (sub_sequence a n < 2 ^ 64)
distance-sub_sequence base a n h ha hn = omega arith

-- How many slots a claim finds free: the buffer's length behind what is published.
pub difference-add_sequence :
    (base a b n : ℕ)
    → base < 2 ^ 64
    → IsAhead base a
    → IsAhead base b
    → n < 2 ^ 62
    → difference (add_sequence a n) b ≡ sub_ℕ (distance base a + n) (distance base b)
difference-add_sequence base a b n h ha hb hn =
    let e = distance-add_sequence base a n h ha.small (omega (arith, ha.near)) in
    rw (
      difference-eq-distances base (add_sequence a n) b h e.1 hb.small (omega (arith, ha.near))
          (omega (arith, hb.near)),
      e.0,
    )
