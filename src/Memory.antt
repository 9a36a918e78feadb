-- ===== src/Memory.antt =====
-- The shared memory that the classes of include/disruptorplus work on: one
-- `std::atomic<sequence_t>` to an address, and the other threads, who may change it before each
-- access of this thread. Every access is one atomic step. The clock is read through the same steps.
pub mod Rely
use disruptorplus.Common.{ℕ, suc, ◌+◌, ◌%◌, ◌==◌, Bool, true, false, List, [], ◌∷◌, if◌then◌else◌}
use disruptorplus.Sequence.{add_sequence}

-- The value of each atomic, by its address (`&barrier.m_lastPublished` and the like).
abbrev pub Memory : Type 0
Memory = ℕ → ℕ

abbrev pub update : Memory → ℕ → ℕ → Memory
update m l v k = if k == l then v else m k

-- What surrounds this thread: what the others make of the memory before its `t`-th access, the
-- time that `Clock::now()` returns there, and whether `compare_exchange_weak` fails spuriously.
pub record Environment : Type 0 where
  pub others : ℕ → Memory → Memory
  pub now : ℕ → ℕ
  pub spurious : ℕ → Bool

-- How many accesses this thread has made, and the memory after the last.
pub record World : Type 0 where
  pub tick : ℕ
  pub mem : Memory

-- A call returns, or it fails an `assert`, or it still waits when the fuel of its loops is spent.
pub data Outcome (A : Type 0) : Type 0 where
  done : A → World → Outcome A
  failed : Outcome A
  waiting : Outcome A

abbrev pub Action : Type 0 → Type 0
Action A = World → Outcome A

infixl 5 ◌>>=◌ ◌>>◌
abbrev pub ◌>>=◌ : {A B : Type 0} → Action A → (A → Action B) → Action B
◌>>=◌ m f w = elim (m w) [ done a w' ↦ f a w' | failed ↦ failed | waiting ↦ waiting ]

abbrev pub ◌>>◌ : {B : Type 0} → Action (Unit {0}) → Action B → Action B
m >> k = m >>= λ _. k

abbrev pub pure : {A : Type 0} → A → Action A
pure a w = done a w

-- `assert(test)`
abbrev pub assert : Bool → Action (Unit {0})
assert true w = done tt w
assert false w = failed

module _ (env : Environment) where
  -- The world in which the next access of this thread takes place.
  abbrev pub arrive : World → World
  arrive w = record { tick = suc w.tick; mem = env.others w.tick w.mem }

  -- `atomic.load()`
  abbrev pub load : ℕ → Action ℕ
  load l w = done ((arrive w).mem l) (arrive w)

  -- `atomic.store(v)`
  abbrev pub store : ℕ → ℕ → Action (Unit {0})
  store l v w = done tt (record { tick = suc w.tick; mem = update (arrive w).mem l v })

  -- `atomic.fetch_add(n)` returns the old value.
  abbrev pub fetch_add : ℕ → ℕ → Action ℕ
  fetch_add l n w =
      let m = (arrive w).mem in
      done (m l) (record { tick = suc w.tick; mem = update m l (add_sequence (m l) n) })

  -- `atomic.compare_exchange_weak(expected, desired)`: whether it stored, and `expected`
  -- afterwards.
  abbrev pub compare_exchange_weak : ℕ → ℕ → ℕ → Action (Bool × ℕ)
  compare_exchange_weak l expected desired w =
      let m = (arrive w).mem in
      if env.spurious w.tick
      then done (false, m l) (arrive w)
      else if m l == expected
      then done (true, expected) (record { tick = suc w.tick; mem = update m l desired })
      else done (false, m l) (arrive w)

  -- `Clock::now()`
  abbrev pub clock_now : Action ℕ
  clock_now w = done (env.now w.tick) (arrive w)
