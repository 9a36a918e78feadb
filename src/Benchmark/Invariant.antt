-- ===== src/Benchmark/Invariant.antt =====
-- What holds of the programs' threads in every reachable state.
use mathlib.Core.List.{Memᴰ}
use disruptorplus.Common.{ℕ, suc, ◌+◌, ◌%◌, ◌^◌, ◌≤◌, ◌<◌, ◌≡◌, refl, some, arith}
use disruptorplus.Memory.{Memory}
use disruptorplus.RingBuffer.{RingBuffer, get}
use disruptorplus.RingBuffer.Slots.{IsValid}
use disruptorplus.Benchmark.{
  Program, Place, waiting, reading, publishing, finished, Consumer, WriterPlace, claiming, writing,
  writes_done, State, start,
}
use disruptorplus.Benchmark.Wiring.{level, triangle, IsAwaited, claimed, through, IsWired}

-- How many items are published, and how many slots have been claimed.
abbrev pub index : WriterPlace → ℕ
index (claiming i) = i
index (writing i seq) = i
index (writes_done i seq) = i

abbrev pub top : WriterPlace → ℕ
top (claiming i) = i
top (writing i seq) = suc i
top (writes_done i seq) = suc i

pub index-le-top : (w : WriterPlace) → index w ≤ top w
index-le-top w = ground arith

module _ (p : Program) where
  -- What the place of a consumer says of its next number.
  abbrev pub Stands : ℕ → Memory → (next : ℕ) → Place → Type 0
  Stands k m next waiting = level m (p.barrier k) ≡ next
  Stands k m next (reading available) =
      (next ≤ available) × ((u : ℕ) → Memᴰ u (p.upstream k) → available < level m u)
  Stands k m next (publishing available) = next ≡ suc available
  Stands k m next finished = (level m (p.barrier k) ≡ next) × (next ≡ p.iteration_count)

  pub record ConsumerInv (k : ℕ) (m : Memory) (c : Consumer) : Type 0 where
    pub passed : level m (p.barrier k) ≤ c.next_to_read
    pub below : (u : ℕ) → Memᴰ u (p.upstream k) → c.next_to_read ≤ level m u
    pub remaining : c.items_remaining + c.next_to_read ≡ p.iteration_count
    pub summed : c.sum ≡ triangle c.next_to_read % 2 ^ 64
    pub stands : Stands k m c.next_to_read c.place

  pub ConsumerInv-grows :
      (k : ℕ) {m m' : Memory} (c : Consumer)
      → ((l : ℕ) → level m l ≤ level m' l)
      → m' (p.barrier k) ≡ m (p.barrier k)
      → ConsumerInv k m c
      → ConsumerInv k m' c
  ConsumerInv-grows k {m} {m'} c grown same inv = record {
    passed = omega (arith, inv.passed, same);
    below = λ u n. omega (arith, inv.below u n, grown u);
    remaining = inv.remaining;
    summed = inv.summed;
    stands = Stands-grows c.place inv.stands;
  }
    where
      Stands-grows : (at : Place) → Stands k m c.next_to_read at → Stands k m' c.next_to_read at
      Stands-grows waiting h = omega (arith, same)
      Stands-grows (reading available) h = (h.0, λ u n. omega (arith, h.1 u n, grown u))
      Stands-grows (publishing available) h = h
      Stands-grows finished h = (omega (arith, same, h.0), h.1)

  -- What the place of the writer says of the strategy's next number, and of the buffer.
  abbrev pub Writes : (next : ℕ) → RingBuffer ℕ → WriterPlace → Type 0
  Writes next b (claiming i) = next ≡ i
  Writes next b (writing i seq) = (seq ≡ i) × (next ≡ suc i)
  Writes next b (writes_done i seq) = (seq ≡ i) × (next ≡ suc i) × (get b i ≡ some i)

  pub record Inv (σ : State) : Type 0 where
    pub words : (l : ℕ) → σ.mem l < 2 ^ 64
    pub capped : (l : ℕ) → level σ.mem l ≤ index σ.writer
    pub counted : top σ.writer ≤ p.iteration_count
    pub published : level σ.mem p.claim_strategy.read_barrier.cell ≡ index σ.writer
    pub writes : Writes σ.claim_strategy.next_sequence_to_claim σ.buffer σ.writer
    pub same_size : σ.claim_strategy.buffer_size ≡ p.claim_strategy.buffer_size
    pub same_claims : σ.claim_strategy.claim_barrier ≡ p.claim_strategy.claim_barrier
    pub same_read : σ.claim_strategy.read_barrier ≡ p.claim_strategy.read_barrier
    pub room :
        (f : ℕ)
        → Memᴰ f p.claim_strategy.claim_barrier.sequences
        → top σ.writer ≤ level σ.mem f + p.claim_strategy.buffer_size
    pub valid : IsValid σ.buffer
    pub sized : σ.buffer.size ≡ p.claim_strategy.buffer_size
    -- The items that may still be read are in their slots.
    pub stored :
        (x : ℕ)
        → x < index σ.writer
        → top σ.writer ≤ x + p.claim_strategy.buffer_size
        → get σ.buffer x ≡ some x
    pub consumers : (k : ℕ) → k < p.consumer_count → ConsumerInv k σ.mem (σ.consumers k)

  pub start-Inv : (b : RingBuffer ℕ) → IsWired p b → Inv (start p b)
  start-Inv b wired = record {
    words = λ l. omega arith;
    capped = λ l. omega arith;
    counted = omega arith;
    published = refl;
    writes = wired.fresh;
    same_size = refl;
    same_claims = refl;
    same_read = refl;
    room = λ f h. omega arith;
    valid = wired.valid;
    sized = wired.sized;
    stored = λ x h reach. absurd (omega arith);
    consumers = λ k h. record {
      passed = omega arith;
      below = λ u h. omega arith;
      remaining = omega arith;
      summed = refl;
      stands = refl;
    };
  }

  -- No slot is claimed whose item some consumer has still to pass.
  pub awaited-room :
      {b : RingBuffer ℕ} {σ : State}
      → IsWired p b
      → Inv σ
      → (k : ℕ) → IsAwaited p k
      → top σ.writer ≤ level σ.mem (p.barrier k) + p.claim_strategy.buffer_size
  awaited-room wired inv k (claimed m) = inv.room (p.barrier k) m
  awaited-room wired inv k (through j below m h) =
      let further = awaited-room wired inv j h in
      let c = inv.consumers j below in omega (arith, c.passed, c.below (p.barrier k) m)
