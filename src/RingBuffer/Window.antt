-- ===== src/RingBuffer/Window.antt =====
-- Slots in a window of the buffer's length that begins anywhere.
use disruptorplus.Common.{ℕ, suc, ◌+◌, ◌^◌, ◌≤◌, ◌<◌, ◌≡◌, ◌≢◌, ap, arith}
use disruptorplus.Sequence.{add_sequence}
use disruptorplus.Sequence.Distance.{distance}
use disruptorplus.RingBuffer.{RingBuffer, slot}
use disruptorplus.RingBuffer.Slots.{IsValid, slot-injective}

distance-onward :
    (base x k : ℕ)
    → base < 2 ^ 64
    → x < 2 ^ 64
    → k ≤ distance base x
    → distance (add_sequence base k) x + k ≡ distance base x
distance-onward base x k hb hx hk = omega arith

-- Two sequence numbers among those that follow one `low` steps ahead of the base, as many as the
-- buffer has slots, are equal if they go to one slot.
pub window-injective {ℓ} :
    {T : Type ℓ} (b : RingBuffer T) (base low x y : ℕ)
    → IsValid b
    → base < 2 ^ 64
    → (x < 2 ^ 64) × (low < distance base x) × (distance base x ≤ low + b.size)
    → (y < 2 ^ 64) × (low < distance base y) × (distance base y ≤ low + b.size)
    → slot b x ≡ slot b y
    → x ≡ y
window-injective b base low x y v hb hx hy e =
    slot-injective b (add_sequence base (suc low)) x y v (omega arith) hx.0 hy.0
      (omega (arith, distance-onward base x (suc low) hb hx.0 hx.1))
      (omega (arith, distance-onward base y (suc low) hb hy.0 hy.1)) e

-- Within such a window an earlier and a later sequence number have different slots.
pub slot-ne {ℓ} :
    {T : Type ℓ} (b : RingBuffer T) (base low x y : ℕ)
    → IsValid b
    → base < 2 ^ 64
    → (x < 2 ^ 64) × (y < 2 ^ 64)
    → low < distance base x
    → distance base x < distance base y
    → distance base y ≤ low + b.size
    → slot b y ≢ slot b x
slot-ne b base low x y v hb words after before room e =
    let one : y ≡ x =
      window-injective b base low y x v hb (words.1, omega arith, room)
        (words.0, after, omega arith) e in
    omega (arith, ap (distance base) one)
