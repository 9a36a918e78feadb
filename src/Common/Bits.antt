-- ===== src/Common/Bits.antt =====
-- `&` at variables: the law of the lowest bit, masks of ones, and the test for a power of two.
use Prim.Native.Nat.{
  ℕ, zero, suc, ◌+◌, ◌-◌, ◌*◌, ◌/◌, ◌%◌, ◌^◌, ◌≤◌, ◌<◌, ◌∣◌, min, bit_and, digits, bit_and-bitwise,
}
use mathlib.Core.Path.{◌≡◌, refl, ap, ◌∙◌}
use native.Mathlib.Nat.{
  pow-suc, one-le-pow, mul-add-mod_self_left, mod-eq_of_lt, mod-lt, div-add-mod, mod_self, dvd_refl,
  dvd-mul_right_of_dvd, pow-le-pow_right,
}
use native.Mathlib.Decide.{ℕ_discrete, dec_lt}
use native.Mathlib.Omega.{arith}

abbrev common_bits : ℕ → ℕ → ℕ → ℕ
common_bits fuel a b = digits (λ _. zero) min fuel a b

-- Any fuel that is at least the first number gives the same digits.
common_bits_fuel : (m n a b : ℕ) → a ≤ m → a ≤ n → common_bits m a b ≡ common_bits n a b
common_bits_fuel zero zero zero b p q = refl
common_bits_fuel zero (suc n) zero b p q = refl
common_bits_fuel (suc m) zero zero b p q = refl
common_bits_fuel (suc m) (suc n) zero b p q = refl
common_bits_fuel zero _ (suc a) b p q = absurd (omega arith)
common_bits_fuel (suc m) zero (suc a) b p q = absurd (omega arith)
common_bits_fuel (suc m) (suc n) (suc a) b p q =
    let half = common_bits_fuel m n (suc a / 2) (b / 2) (omega arith) (omega arith) in
    ap (λ (d : ℕ). d * 2 + min (suc a % 2) (b % 2)) half

pub bit_and-halves : (a b : ℕ) → bit_and a b ≡ 2 * bit_and (a / 2) (b / 2) + min (a % 2) (b % 2)
bit_and-halves zero b = omega (arith, bit_and-bitwise 0 b, bit_and-bitwise 0 (b / 2))
bit_and-halves (suc a) b =
    let half = suc a / 2 in
    let same = common_bits_fuel a half half (b / 2) (omega arith) (omega arith) in
    omega (arith, bit_and-bitwise (suc a) b, bit_and-bitwise half (b / 2), same)

bit_and-zero_below : (n a : ℕ) → a < n → bit_and a 0 ≡ 0
bit_and-zero_below zero a h = absurd (omega arith)
bit_and-zero_below (suc n) zero h = refl
bit_and-zero_below (suc n) (suc a) h =
    omega (arith, bit_and-halves (suc a) 0, bit_and-zero_below n (suc a / 2) (omega arith))

mod_double : (p a : ℕ) → 0 < p → a % (2 * p) ≡ 2 * (a / 2 % p) + a % 2
mod_double p a pos =
    let q = a / 2 / p in
    let r = a / 2 % p in
    let whole : a ≡ 2 * p * q + (2 * r + a % 2) = omega (arith, div-add-mod (a / 2) p) in
    let small : 2 * r + a % 2 < 2 * p = omega (arith, mod-lt (a / 2) pos) in
    ap (λ (t : ℕ). t % (2 * p)) whole ∙ mul-add-mod_self_left (2 * p) q _ ∙ mod-eq_of_lt small

-- A mask of `k` ones keeps the remainder by `2 ^ k`.
pub bit_and_mask : (k a : ℕ) → bit_and a (2 ^ k - 1) ≡ a % 2 ^ k
bit_and_mask zero a = ground (arith, bit_and-zero_below (suc a) a)
bit_and_mask (suc k) a =
    let p : ℕ = 2 ^ k in
    let double : 2 ^ suc k ≡ 2 * p = omega (arith, pow-suc 2 k) in
    rw double (
      omega (
        arith,
        one-le-pow k 2,
        bit_and-halves a (2 * p - 1),
        bit_and_mask k (a / 2),
        mod_double p a (one-le-pow k 2 (omega arith)),
        ap (λ (t : ℕ). bit_and (a / 2) t)
            (let e : (2 * p - 1) / 2 ≡ p - 1 = omega (arith, one-le-pow k 2) in e),
      ))

bit_and_self_below : (n a : ℕ) → a < n → bit_and a a ≡ a
bit_and_self_below zero a h = absurd (omega arith)
bit_and_self_below (suc n) zero h = refl
bit_and_self_below (suc n) (suc a) h =
    omega (arith, bit_and-halves (suc a) (suc a), bit_and_self_below n (suc a / 2) (omega arith))

-- By strong induction: an even number goes on to its half, and an odd one has to be 1.
power_below : (n a : ℕ) → a < n → 0 < a → bit_and a (a - 1) ≡ 0 → (k : ℕ) × (a ≡ 2 ^ k)
power_below zero a h p e = absurd (omega arith)
power_below (suc n) a h p e = elim (ℕ_discrete (a % 2) 0) [
  | yes even ↦
      let half : a / 2 - 1 ≡ (a - 1) / 2 = omega arith in
      let (k, found) =
        power_below n (a / 2) (omega arith) (omega arith)
          (rw half (omega (arith, bit_and-halves a (a - 1)))) in
      (suc k, omega (arith, pow-suc 2 k))
  | no odd ↦
      let half : (a - 1) / 2 ≡ a / 2 = omega arith in
      let same = ap (λ (t : ℕ). bit_and (a / 2) t) half in
      (0, omega (arith, bit_and-halves a (a - 1), bit_and_self_below (suc a) (a / 2)))
]

-- `size > 0 && (size & (size - 1)) == 0` leaves only the powers of two.
pub power_of_two : (a : ℕ) → 0 < a → bit_and a (a - 1) ≡ 0 → (k : ℕ) × (a ≡ 2 ^ k)
power_of_two a p e = power_below (suc a) a (omega arith) p e

pub bit_and-pow-pred : (k : ℕ) → bit_and (2 ^ k) (2 ^ k - 1) ≡ 0
bit_and-pow-pred k = bit_and_mask k (2 ^ k) ∙ mod_self (2 ^ k)

-- A power of two divides every greater one.
pub pow-dvd-pow : (j k m : ℕ) → m ≡ j + k → 2 ^ k ∣ 2 ^ m
pow-dvd-pow zero k m e = let same : m ≡ k = omega arith in rw same (dvd_refl (2 ^ k))
pow-dvd-pow (suc j) k zero e = absurd (omega arith)
pow-dvd-pow (suc j) k (suc m) e =
    rw (pow-suc 2 m) (dvd-mul_right_of_dvd (2 ^ k) (pow-dvd-pow j k m (omega arith)) 2)

-- A power of two below 2 ^ 64 divides 2 ^ 64.
pub pow-dvd-modulus : (k : ℕ) → 2 ^ k < 2 ^ 64 → 2 ^ k ∣ 2 ^ 64
pow-dvd-modulus k h = elim (dec_lt k 64) [
  | yes small ↦ pow-dvd-pow (64 - k) k 64 (omega arith)
  | no large ↦
      absurd (omega (arith, pow-le-pow_right {n = 2} (omega arith) {i = 64} {j = k} (omega arith)))
]
