-- ===== src/SpinWait.antt =====
-- include/disruptorplus/spin_wait.hpp: the backing-off spin loop. What a call does to the thread is
-- a list of idle steps.
pub mod Schedule
use disruptorplus.Common.{
  ℕ, zero, suc, ◌+◌, ◌-◌, ◌*◌, ◌%◌, ◌^◌, Bool, ltb, leb, ◌==◌, if◌then◌else◌, List, [], ◌∷◌,
  replicate,
}

-- `m_value`, a `uint32_t`.
pub record SpinWait : Type 0 where
  pub value : ℕ

-- `yield_processor()`, `std::this_thread::yield()`, and `sleep_for` of one millisecond.
pub data Idle : Type 0 where
  pause give_up_slice sleep : Idle

-- `std::thread::hardware_concurrency()` is the argument.
unfoldable pub reset : ℕ → SpinWait
reset concurrency = record { value = if ltb 1 concurrency then 0 else 10 }

unfoldable pub next_spin_will_yield : SpinWait → Bool
next_spin_will_yield s = leb 10 s.value

-- `while (count-- != 0) yield_processor();`
busy_wait : ℕ → List Idle
busy_wait zero = []
busy_wait (suc count) = Idle.pause ∷ busy_wait count

-- `4 << m_value` runs only where the value is below 10, and `m_value - 10` where it is not.
unfoldable pub spin_once : SpinWait → List Idle × SpinWait
unfolding next_spin_will_yield busy_wait
spin_once s =
    let idle =
      if next_spin_will_yield s
      then (if (s.value - 10) % 20 == 19 then Idle.sleep ∷ [] else Idle.give_up_slice ∷ [])
      else busy_wait (4 * 2 ^ s.value) in
    (idle, record { value = if s.value == 0xffff_ffff then 10 else s.value + 1 })

-- The object after a number of calls.
unfoldable pub spins : ℕ → SpinWait → SpinWait
spins zero s = s
spins (suc n) s = (spin_once (spins n s)).1
