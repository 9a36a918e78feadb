-- ===== src/Benchmark/Sequencer/Entries.antt =====
-- Which numbers share an entry of the array of published numbers.
use disruptorplus.Common.{
  ℕ, ◌+◌, ◌-◌, ◌%◌, ◌^◌, ◌<◌, ◌≡◌, sym, ap, ◌∙◌, arith, dec_lt, bit_and_mask,
}
use disruptorplus.Memory.{Memory}
use disruptorplus.RingBuffer.{RingBuffer}
use disruptorplus.RingBuffer.Slots.{window_injective}
use disruptorplus.MultiThreadedClaimStrategy.{entry}
use disruptorplus.Benchmark.Wiring.{level}
use disruptorplus.Benchmark.Sequencer.{Sequencer}
use disruptorplus.Benchmark.Sequencer.Invariant.{IsSetUp}

-- Numbers less than the modulus apart that leave the same remainder are equal.
pub same_remainder : (x y n : ℕ) → x % n ≡ y % n → x < y + n → y < x + n → x ≡ y
same_remainder x y n e hx hy = elim (dec_lt x y) [
  | yes before ↦ go x y e before hy
  | no after ↦ elim (dec_lt y x) [
    | yes before ↦ sym (go y x (sym e) before hx)
    | no level ↦ omega arith
  ]
]
  where
    go : (x y : ℕ) → x % n ≡ y % n → x < y → y < x + n → x ≡ y
    go x y e before near =
        let e' : (x + (y - x)) % n ≡ (x + 0) % n =
          ap (λ (z : ℕ). z % n) (omega arith) ∙ sym e ∙ ap (λ (z : ℕ). z % n) (omega arith) in
        omega (arith, window_injective x (y - x) 0 n (omega arith) (omega arith) e')

module _ (p : Sequencer) {m₀ : Memory} {b₀ : RingBuffer ℕ} (set_up : IsSetUp p m₀ b₀) where
  -- Two numbers share an entry if they leave the same remainder, and only then.
  pub entry-mod :
      (x : ℕ)
      → entry p.claim_strategy x ≡ p.claim_strategy.published + x % p.claim_strategy.buffer_size
  unfolding entry
  entry-mod x =
      let power : p.claim_strategy.buffer_size ≡ 2 ^ set_up.valid.exponent =
        sym set_up.sized ∙ set_up.valid.power in
      ap (λ (j : ℕ). p.claim_strategy.published + j)
        (rw (set_up.masked, power) (bit_and_mask set_up.valid.exponent x))
