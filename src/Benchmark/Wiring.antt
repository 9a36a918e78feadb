-- ===== src/Benchmark/Wiring.antt =====
-- What the programs have in common: every consumer is one that the writer waits for, at once or
-- through the consumers that wait for it. And the arithmetic of their waits.
use mathlib.Core.List.{Memᴰ}
use disruptorplus.Common.{
  ℕ, zero, suc, ◌+◌, ◌^◌, ◌≤◌, ◌<◌, ◌≡◌, ◌≢◌, ◌⊎◌, is_neg, false, List, [], ◌∷◌, All, arith,
}
use disruptorplus.Sequence.{difference, add_sequence, sub_sequence}
use disruptorplus.Memory.{Memory}
use disruptorplus.RingBuffer.{RingBuffer}
use disruptorplus.RingBuffer.Slots.{IsValid}
use disruptorplus.SequenceBarrierGroup.{is_empty}
use disruptorplus.Benchmark.{Program}

-- How many items a barrier says to have passed.
abbrev pub level : Memory → ℕ → ℕ
level m l = add_sequence (m l) 1

-- The sum of the numbers below `n`.
abbrev pub triangle : ℕ → ℕ
triangle zero = 0
triangle (suc n) = triangle n + n

-- The writer waits for consumer `k`, or for one that waits for it.
pub data IsAwaited (p : Program) : ℕ → Type 0 where
  claimed : {k : ℕ} → Memᴰ (p.barrier k) p.claim_strategy.claim_barrier.sequences → IsAwaited p k
  through :
      {k : ℕ} (j : ℕ)
      → j < p.consumer_count
      → Memᴰ (p.barrier k) (p.upstream j)
      → IsAwaited p j
      → IsAwaited p k

pub record IsWired (p : Program) (b : RingBuffer ℕ) : Type 0 where
  pub valid : IsValid b
  pub sized : b.size ≡ p.claim_strategy.buffer_size
  pub short : p.claim_strategy.buffer_size ≤ 2 ^ 62
  pub counted : p.iteration_count < 2 ^ 64
  pub fresh : p.claim_strategy.next_sequence_to_claim ≡ 0
  pub awaited : (k : ℕ) → k < p.consumer_count → IsAwaited p k
  pub fed : (k : ℕ) → k < p.consumer_count → (u : ℕ) × Memᴰ u (p.upstream k)
  pub separate :
      (j k : ℕ) → j < p.consumer_count → k < p.consumer_count → j ≢ k → p.barrier j ≢ p.barrier k
  pub apart : (k : ℕ) → k < p.consumer_count → p.barrier k ≢ p.claim_strategy.read_barrier.cell

-- Consumers are numbered so that each waits for the writer or for consumers before it, and the
-- writer waits for consumers, one at least.
pub record IsOrdered (p : Program) : Type 0 where
  pub sources :
      (k u : ℕ)
      → k < p.consumer_count
      → Memᴰ u (p.upstream k)
      → (u ≡ p.claim_strategy.read_barrier.cell) ⊎ ((j : ℕ) × (j < k) × (u ≡ p.barrier j))
  pub claims :
      (f : ℕ)
      → Memᴰ f p.claim_strategy.claim_barrier.sequences
      → (j : ℕ) × (j < p.consumer_count) × (f ≡ p.barrier j)
  pub some_claim : is_empty p.claim_strategy.claim_barrier.sequences ≡ false

pub All-Memᴰ {ℓ κ} :
    {A : Type ℓ} (P : A → Type κ) (xs : List A) → All P xs → (x : A) → Memᴰ x xs → P x
All-Memᴰ P [] h x m = elim m [ ]
All-Memᴰ P (y ∷ ys) h x (Memᴰ.head e) = rw e h.0
All-Memᴰ P (y ∷ ys) h x (Memᴰ.tail m) = All-Memᴰ P ys h.1 x m

-- What a wait for `x` returns that reads the barrier `l`: a number from `x` on that `l` has passed.
pub waited-level :
    (m : Memory) (l x a : ℕ)
    → m l < 2 ^ 64
    → x ≤ level m l
    → level m l ≤ x + 2 ^ 62
    → a < 2 ^ 64
    → is_neg (difference a x) ≡ false
    → is_neg (difference (m l) a) ≡ false
    → (x ≤ a) × (a < level m l)
unfolding difference
waited-level m l x a fits upto near small from below = ground arith

-- The same for the writer, that waits for the number a buffer's length before `x`.
pub claimed-level :
    (m : Memory) (l x size r : ℕ)
    → m l < 2 ^ 64
    → x < 2 ^ 64
    → size ≤ 2 ^ 62
    → level m l ≤ x
    → x ≤ level m l + size
    → r < 2 ^ 64
    → is_neg (difference r (sub_sequence x size)) ≡ false
    → is_neg (difference (m l) r) ≡ false
    → x < level m l + size
unfolding difference
claimed-level m l x size r fits word short upto near small from below = ground arith
