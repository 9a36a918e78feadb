-- ===== src/Tests/Scene.antt =====
-- A memory, other threads and a wait strategy for the tests: two consumers that have published
-- nothing, and from the third access on have each published the sequence number 3.
use disruptorplus.Common.{ℕ, ◌-◌, ◌*◌, ◌^◌, ◌≤◌, [], ◌∷◌, false, ltb, if◌then◌else◌, arith}
use disruptorplus.Sequence.Distance.{distance, IsAhead}
use disruptorplus.Memory.{Environment, World}
use disruptorplus.Memory.Rely.{AllAhead, IsFair}
use disruptorplus.SpinWaitStrategy.{spin_wait_strategy}
use disruptorplus.SpinWaitStrategy.Keeps.{spin_wait_strategy-IsWaitStrategy}
use disruptorplus.WaitStrategy.{WaitStrategy}
use disruptorplus.WaitStrategy.Promise.{ArrivesBy, Setting}

-- Sixteen before zero.
abbrev pub base : ℕ
base = 2 ^ 64 - 16

abbrev pub Any : ℕ → Type 0
Any l = Unit

abbrev farther : ℕ → ℕ → ℕ
farther x y = if ltb (distance base x) (distance base y) then y else x

abbrev pub env : Environment
env = record {
  others = λ t m l. if ltb t 2 then m l else farther (m l) 3;
  now = λ t. 10 * t;
  spurious = λ t. false;
}

IsAhead-farther : (x y : ℕ) → IsAhead base x → IsAhead base y → IsAhead base (farther x y)
IsAhead-farther x y hx hy = ground arith

pub env-IsFair : IsFair Any base env
env-IsFair = record {
  keeps = λ t m a l h.
      let hx = a l tt in let hy = IsAhead-farther (m l) 3 hx (omega arith) in ground arith;
  grows = λ t m a l h. ground arith;
}

abbrev pub start : World
start = record { tick = 0; mem = λ l. 2 ^ 64 - 1 }

pub start-AllAhead : AllAhead Any base (λ l. 2 ^ 64 - 1)
start-AllAhead l h = omega arith

-- Four processors, and fuel for thirty rounds.
abbrev pub ws : WaitStrategy
ws = spin_wait_strategy env 4 30

pub setting : Setting Any base env ws
setting = record {
  small = omega arith;
  fair = env-IsFair;
  keeps = spin_wait_strategy-IsWaitStrategy Any base env 4 30 (omega arith) env-IsFair;
}

pub arrives : (s : ℕ) → distance base s ≤ distance base 3 → ArrivesBy Any base env 2 s (1 ∷ 2 ∷ [])
arrives s h u from m a = ground arith
