-- ===== src/SpinWait/Schedule.antt =====
-- What the n-th call of `spin_once` does.
use disruptorplus.Common.{
  ℕ, zero, suc, ◌+◌, ◌-◌, ◌*◌, ◌%◌, ◌^◌, ◌≤◌, ◌<◌, ◌≡◌, refl, ◌⊎◌, inl, true, ltb, ◌==◌,
  if◌then◌else◌, [], ◌∷◌, replicate, ap, arith,
}
use disruptorplus.SpinWait.{
  SpinWait, Idle, reset, next_spin_will_yield, busy_wait, spin_once, spins,
}

-- `m_value` stays a 32-bit number, and past ten calls it has reached the yielding phase for good,
-- also where the counter wraps.
spins-range :
    (n : ℕ) (s : SpinWait)
    → s.value < 2 ^ 32
    → ((spins n s).value < 2 ^ 32) × ((n ≤ (spins n s).value) ⊎ (10 ≤ (spins n s).value))
unfolding spins spin_once
spins-range zero s h = (h, inl (omega arith))
spins-range (suc n) s h = let ih = spins-range n s h in ground arith

-- From the tenth call on every call yields or sleeps, whatever the state before, and for ever:
-- the wrap of the counter does not lead back to busy waiting.
pub spins-yield :
    (n : ℕ) (s : SpinWait) → s.value < 2 ^ 32 → 10 ≤ n → next_spin_will_yield (spins n s) ≡ true
unfolding next_spin_will_yield
spins-yield n s h many = let range = spins-range n s h in ground arith

spins-value :
    (n concurrency : ℕ) → n < 2 ^ 32 → 1 < concurrency → (spins n (reset concurrency)).value ≡ n
unfolding spins spin_once reset
spins-value zero c h many = ground arith
spins-value (suc n) c h many = let ih = spins-value n c (omega arith) many in ground arith

busy_wait-replicate : (n : ℕ) → busy_wait n ≡ replicate n Idle.pause
unfolding busy_wait
busy_wait-replicate zero = refl
busy_wait-replicate (suc n) = ap (λ r. Idle.pause ∷ r) (busy_wait-replicate n)

-- On a machine of several cores, of the first 2 ^ 32 calls after `reset` the first ten busy-wait, for
-- twice as long each time; the later ones give up the time slice, but every twentieth of these
-- sleeps.
pub spin_once-schedule :
    (n concurrency : ℕ)
    → n < 2 ^ 32
    → 1 < concurrency
    → (spin_once (spins n (reset concurrency))).0 ≡ (
        if ltb n 10
        then replicate (4 * 2 ^ n) Idle.pause
        else if (n - 10) % 20 == 19
        then Idle.sleep ∷ []
        else Idle.give_up_slice ∷ [])
unfolding spin_once
spin_once-schedule n c h many =
    rw (spins-value n c h many) (ground (arith, busy_wait-replicate (4 * 2 ^ n)))

-- One call leads on by one, or stays in the yielding phase.
pub spin_once-value :
    (s : SpinWait)
    → (s.value < 10) × ((spin_once s).1.value ≡ s.value + 1)
      ⊎ (10 ≤ s.value) × (10 ≤ (spin_once s).1.value)
unfolding spin_once
spin_once-value s = ground arith
