-- ===== src/RingBuffer/Slots.antt =====
-- Slots of the ring buffer: what the constructor accepts, reads after writes, and which sequence
-- numbers share a slot.
use Prim.Native.Nat.{bit_and}
use native.Mathlib.Nat.{mod-lt, one-le-pow, div-add-mod, mod-mod_of_dvd}
use disruptorplus.Common.{
  replicate, ◌∙◌, ap, sym, ℕ_discrete, pow-dvd-modulus, ℕ, ◌+◌, ◌-◌, ◌%◌, ◌^◌, ◌<◌, ◌≡◌, ◌↔◌, refl,
  some, length, arith, length-replicate, length-set, get_elem?-set_self, get_elem?-set_ne,
  bit_and_mask, power_of_two, bit_and-pow-pred, if◌then◌else◌, ◌==◌,
}
use disruptorplus.Sequence.{sub_sequence}
use disruptorplus.Sequence.Distance.{distance}
use disruptorplus.RingBuffer.{RingBuffer, ring_buffer, slot, get, put}

-- The class invariant: the size is a power of two that `size_t` holds, and the mask fits it.
pub record IsValid {ℓ} {T : Type ℓ} (b : RingBuffer T) : Type ℓ where
  pub exponent : ℕ
  pub power : b.size ≡ 2 ^ exponent
  pub small : b.size < 2 ^ 64
  pub masked : b.mask ≡ b.size - 1
  pub stored : length b.elements ≡ b.size

-- Numbers of one remainder differ by a multiple of the modulus, so two of them do not fit a window.
pub window_injective : (base i j n : ℕ) → i < n → j < n → (base + i) % n ≡ (base + j) % n → i ≡ j
window_injective base i j n hi hj e =
    grind (arith, div-add-mod (base + i) n, div-add-mod (base + j) n)

module _ {ℓ} {T : Type ℓ} where
  -- What passes the constructor's `assert` is a valid buffer of the size asked for.
  pub ring_buffer-IsValid :
      (fresh : T) (size : ℕ) {b : RingBuffer T}
      → size < 2 ^ 64
      → ring_buffer fresh size ≡ some b
      → IsValid b × (b.size ≡ size)
  unfolding ring_buffer
  ring_buffer-IsValid fresh size {b} h made =
      let tested : (0 < size) × (bit_and size (sub_sequence size 1) ≡ 0) = ground arith in
      let masked : sub_sequence size 1 ≡ size - 1 = omega arith in
      let (k, power) = power_of_two size tested.0 (rw masked at tested.1) in
      let shape : b
          ≡ record { size = size; mask = sub_sequence size 1; elements = replicate size fresh } =
        ground arith in
      rw shape (
        record {
          exponent = k;
          power = power;
          small = h;
          masked = masked;
          stored = length-replicate size fresh;
        },
        refl,
      )

  -- The `assert` passes for the powers of two and for no other size.
  pub ring_buffer_iff_power :
      (fresh : T) (size : ℕ)
      → size < 2 ^ 64
      → ((b : RingBuffer T) × (ring_buffer fresh size ≡ some b)) ↔ ((k : ℕ) × (size ≡ 2 ^ k))
  unfolding ring_buffer
  ring_buffer_iff_power fresh size h = (
    λ (b, made).
        let v = ring_buffer-IsValid fresh size h made in
        (v.0.exponent, omega (arith, v.0.power, v.1)),
    λ (k, e).
        let masked : sub_sequence size 1 ≡ size - 1 = omega (arith, one-le-pow k 2) in
        let passes : bit_and size (size - 1) ≡ 0 = rw e (bit_and-pow-pred k) in
        (
          record { size = size; mask = sub_sequence size 1; elements = replicate size fresh },
          ground (arith, one-le-pow k 2, ap (λ (m : ℕ). bit_and size m) masked),
        ),
  )

  -- A sequence number goes to the slot that it leaves modulo the size, inside the storage.
  pub slot-eq-mod :
      (b : RingBuffer T) (seq : ℕ)
      → IsValid b
      → (slot b seq ≡ seq % b.size) × (slot b seq < length b.elements)
  unfolding slot
  slot-eq-mod b seq v =
      let e : slot b seq ≡ seq % b.size = rw (v.masked, v.power) (bit_and_mask v.exponent seq) in
      let positive : 0 < b.size = omega (arith, v.power, one-le-pow v.exponent 2) in
      (e, omega (arith, mod-lt seq positive, v.stored))

  put-IsValid : (b : RingBuffer T) (seq : ℕ) (value : T) → IsValid b → IsValid (put b seq value)
  unfolding put
  put-IsValid b seq value v = record {
    exponent = v.exponent;
    power = v.power;
    small = v.small;
    masked = v.masked;
    stored = length-set b.elements (slot b seq) value ∙ v.stored;
  }

  -- Reading `t` after writing `s` gives the written value if the two agree modulo the size, and
  -- else what was there before; the buffer stays valid.
  pub get-put :
      (b : RingBuffer T) (s t : ℕ) (value : T)
      → IsValid b
      → (get (put b s value) t ≡ (if s % b.size == t % b.size then some value else get b t))
        × IsValid (put b s value)
  unfolding get put
  get-put b s t value v =
      let (es, ls) = slot-eq-mod b s v in
      let (et, lt) = slot-eq-mod b t v in
      (
        elim (ℕ_discrete (slot b s) (slot b t)) [
          | yes same ↦ ground (arith, get_elem?-set_self b.elements (slot b s) value)
          | no other ↦ ground (arith, get_elem?-set_ne b.elements (slot b s) (slot b t) value)
        ],
        put-IsValid b s value v,
      )

  -- Two sequence numbers less than the size ahead of a common base have different slots, unless
  -- they are equal: also where the sequence numbers wrap past zero inside the window.
  pub slot-injective :
      (b : RingBuffer T) (base s t : ℕ)
      → IsValid b
      → base < 2 ^ 64
      → s < 2 ^ 64
      → t < 2 ^ 64
      → distance base s < b.size
      → distance base t < b.size
      → slot b s ≡ slot b t
      → s ≡ t
  slot-injective b base s t v hb hs ht ds dt e =
      let divides = rw (← v.power) at (pow-dvd-modulus v.exponent (rw (← v.power) v.small)) in
      let (es, _) = slot-eq-mod b s v in
      let (et, _) = slot-eq-mod b t v in
      let same : (base + distance base s) % b.size ≡ (base + distance base t) % b.size =
        sym (mod-mod_of_dvd b.size (base + distance base s) divides)
        ∙ ap (λ (x : ℕ). x % b.size)
            (let r : (base + distance base s) % 2 ^ 64 ≡ s = omega arith in r)
        ∙ sym es
        ∙ e
        ∙ et
        ∙ ap (λ (x : ℕ). x % b.size)
            (let r : t ≡ (base + distance base t) % 2 ^ 64 = omega arith in r)
        ∙ mod-mod_of_dvd b.size (base + distance base t) divides in
      let steps = window_injective base (distance base s) (distance base t) b.size ds dt same in
      omega arith
