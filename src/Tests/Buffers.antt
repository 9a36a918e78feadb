-- ===== src/Tests/Buffers.antt =====
-- A ring buffer of four slots, and the spin loop.
use disruptorplus.Common.{ℕ, ◌-◌, ◌^◌, ◌<◌, ◌≡◌, refl, none, some, [], ◌∷◌, arith}
use disruptorplus.RingBuffer.{RingBuffer, ring_buffer, slot, get, put}
use disruptorplus.RingBuffer.Slots.{IsValid, ring_buffer-IsValid, slot-eq-mod, get-put}
use disruptorplus.SpinWait.{Idle, reset, spin_once, spins}
use disruptorplus.SpinWait.Schedule.{spin_once-schedule}

abbrev pub four : RingBuffer ℕ
four = record { size = 4; mask = 3; elements = 0 ∷ 0 ∷ 0 ∷ 0 ∷ [] }

four-made : ring_buffer {T = ℕ} 0 4 ≡ some four
unfolding ring_buffer
four-made = refl

pub four-IsValid : IsValid four
four-IsValid = (ring_buffer-IsValid 0 4 (omega arith) four-made).0

-- Three is no power of two.
three_refused : ring_buffer {T = ℕ} 0 3 ≡ none
unfolding ring_buffer
three_refused = refl

wraps_round : get (put four (2 ^ 64 - 1) 7) 3 ≡ some 7
unfolding get put
wraps_round = refl

slot-eq-mod_example : (slot four 9 ≡ 1) × (slot four 9 < 4)
slot-eq-mod_example = slot-eq-mod four 9 four-IsValid

get-put_example : (get (put four 9 7) 5 ≡ some 7) × IsValid (put four 9 7)
get-put_example = get-put four 9 5 7 four-IsValid

four_put : slot four (2 ^ 64 - 1) ≡ slot four (2 ^ 64 - 1)
four_put = refl

-- The thirtieth call after a reset sleeps.
spin_once-schedule_example : (spin_once (spins 29 (reset 4))).0 ≡ Idle.sleep ∷ []
spin_once-schedule_example = spin_once-schedule 29 4 (omega arith) (omega arith)
