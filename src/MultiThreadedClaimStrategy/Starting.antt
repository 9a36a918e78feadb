-- ===== src/MultiThreadedClaimStrategy/Starting.antt =====
-- The constructor: the sequence numbers before zero have been published, and zero is the next.
use Prim.Native.Nat.{bit_and}
use native.Mathlib.Nat.{
  add-mod_right, add-mod, mod-eq-zero_of_dvd, mod-eq_of_lt, mod-mod_of_dvd, one-le-pow,
}
use disruptorplus.Common.{
  ℕ, zero, suc, ◌+◌, ◌-◌, ◌%◌, ◌^◌, ◌≤◌, ◌<◌, ◌≡◌, ◌⊎◌, refl, ap, sym, ◌∙◌, ◌==◌, ltb, ◌&&◌, true,
  ℕ_discrete, bit_and-pow-pred, pow-dvd-modulus, length-replicate, replicate, arith,
}
use disruptorplus.Sequence.{sub_sequence}
use disruptorplus.Memory.{Memory, World, update, ◌>>=◌}
use disruptorplus.RingBuffer.{slot}
use disruptorplus.RingBuffer.Slots.{IsValid, slot-eq-mod}
use disruptorplus.WaitStrategy.{Totally}
use disruptorplus.MultiThreadedClaimStrategy.{
  MultiThreadedClaimStrategy, entry, publish_before, multi_threaded_claim_strategy,
}
use disruptorplus.MultiThreadedClaimStrategy.Publishing.{ring}

-- The loop writes the first `count` entries and no other atomic.
pub publish_before-inside :
    (size published count : ℕ) (m : Memory) (i : ℕ)
    → i < count
    → publish_before size published count m (published + i) ≡ sub_sequence i size
unfolding publish_before
publish_before-inside size published zero m i h = absurd (omega arith)
publish_before-inside size published (suc c) m i h = elim (ℕ_discrete i c) [
  | yes same ↦ ground arith
  | no other ↦ ground (arith, publish_before-inside size published c m i (omega arith))
]

pub publish_before-outside :
    (size published count : ℕ) (m : Memory) (l : ℕ)
    → (l < published) ⊎ (published + count ≤ l)
    → publish_before size published count m l ≡ m l
unfolding publish_before
publish_before-outside size published zero m l h = refl
publish_before-outside size published (suc c) m l h =
    ground (arith, publish_before-outside size published c m l (omega arith))

-- A sequence number within the buffer's length before zero goes to the entry of the one that
-- follows it in its slot.
wraps-mod :
    (size i k : ℕ) → size ≡ 2 ^ k → size < 2 ^ 64 → i < size → sub_sequence i size % size ≡ i
wraps-mod size i k e small h =
    let divides = rw (← e) at (pow-dvd-modulus k (rw (← e) small)) in
    mod-mod_of_dvd size (i + 2 ^ 64 - size) divides
    ∙ sym (add-mod_right (i + 2 ^ 64 - size) size)
    ∙ ap (λ (x : ℕ). x % size) (let r : i + 2 ^ 64 - size + size ≡ i + 2 ^ 64 = omega arith in r)
    ∙ add-mod i (2 ^ 64) size
    ∙ ap (λ (x : ℕ). (i % size + x) % size) (mod-eq-zero_of_dvd size divides)
    ∙ (let r : (i % size + 0) % size ≡ i % size % size = ap (λ (x : ℕ). x % size) (omega arith) in
        r)
    ∙ ap (λ (x : ℕ). x % size) (mod-eq_of_lt h)
    ∙ mod-eq_of_lt h

-- What the constructor leaves: the size is a power of two, the next number to claim is zero, and
-- the last numbers before zero, as many as the buffer has slots, are those in their entries.
pub record IsFresh (size : ℕ) (cs : MultiThreadedClaimStrategy) (w : World) : Type 0 where
  pub valid : IsValid (ring cs)
  pub sized : cs.buffer_size ≡ size
  pub next : w.mem cs.next_claimable ≡ 0
  pub published : (i : ℕ) → i < size → w.mem (entry cs (sub_sequence i size)) ≡ sub_sequence i size

-- The constructor's `assert` passes for a power of two that `size_t` holds; then, where the counter
-- lies outside the array of published numbers, the object is valid, no slot is claimed, and the
-- sequence numbers before zero are published, as many as the buffer has slots.
pub multi_threaded_claim_strategy-IsFresh :
    (size strategy published next k : ℕ) (w : World)
    → size ≡ 2 ^ k
    → size < 2 ^ 64
    → (next < published) ⊎ (published + size ≤ next)
    → Totally (IsFresh size) (multi_threaded_claim_strategy size strategy published next w)
unfolding multi_threaded_claim_strategy entry slot
multi_threaded_claim_strategy-IsFresh size strategy published next k w power small apart =
    let masked : sub_sequence size 1 ≡ size - 1 = omega (arith, one-le-pow k 2) in
    let clean : bit_and size (sub_sequence size 1) ≡ 0 =
      ap (λ (m : ℕ). bit_and size m) masked ∙ (rw power (bit_and-pow-pred k)) in
    let passes : (ltb 0 size && bit_and size (sub_sequence size 1) == 0) ≡ true =
      ground (arith, one-le-pow k 2) in
    let valid : IsValid {T = Unit {0}}
        (record { size = size; mask = sub_sequence size 1; elements = replicate size tt }) =
      record {
        exponent = k;
        power = power;
        small = small;
        masked = masked;
        stored = length-replicate size tt;
      } in
    rw (passes, ◌>>=◌)
      (record {
        valid = valid;
        sized = refl;
        next =
            publish_before-outside size published size (update w.mem next 0) next apart
            ∙ (let r : update w.mem next 0 next ≡ 0 = ground arith in r);
        published = λ i h.
            let at_i =
              (slot-eq-mod _ (sub_sequence i size) valid).0 ∙ wraps-mod size i k power small h in
            ap (λ (j : ℕ). publish_before size published size (update w.mem next 0) (published + j))
              at_i
            ∙ publish_before-inside size published size (update w.mem next 0) i h;
      })
