-- ===== src/Benchmark/Consuming.antt =====
-- A step of a consumer keeps the invariant.
use mathlib.Core.List.{Memᴰ}
use disruptorplus.Common.{
  ℕ, suc, ◌+◌, ◌^◌, ◌≤◌, ◌<◌, ◌≡◌, ◌≢◌, refl, sym, ◌∙◌, inl, inr, Bool-cases, ◌==◌, some, arith,
}
use disruptorplus.Sequence.{add_sequence}
use disruptorplus.Memory.{Memory, update}
use disruptorplus.RingBuffer.{RingBuffer, get}
use disruptorplus.Benchmark.{
  Program, waiting, reading, publishing, Consumer, State, read_item, ConsumerStep, wait, read,
  publish, finish,
}
use disruptorplus.WaitStrategy.{MayReturn}
use disruptorplus.Benchmark.Wiring.{level, IsWired, All-Memᴰ, waited-level}
use disruptorplus.Benchmark.Invariant.{index, index-le-top, ConsumerInv, Inv, awaited-room}

module _ (p : Program) {b₀ : RingBuffer ℕ} (wired : IsWired p b₀) (σ : State) (inv : Inv p σ)
    (k : ℕ) (here : k < p.consumer_count) where
  abbrev own : ConsumerInv p k σ.mem (σ.consumers k)
  own = inv.consumers k here

  -- Where the consumer's barrier comes to, and how far it may.
  pub record Moves (m : Memory) (c : Consumer) : Type 0 where
    pub consumer : ConsumerInv p k m c
    pub words : (l : ℕ) → m l < 2 ^ 64
    pub others : (l : ℕ) → l ≢ p.barrier k → m l ≡ σ.mem l
    pub grows : level σ.mem (p.barrier k) ≤ level m (p.barrier k)
    pub capped : level m (p.barrier k) ≤ index σ.writer

  -- Between its next number and the end of what is published there is less than a buffer.
  pub near : (l : ℕ) → level σ.mem l ≤ (σ.consumers k).next_to_read + 2 ^ 62
  near l = omega (
    arith,
    inv.capped l,
    awaited-room p wired inv k (wired.awaited k here),
    own.passed,
    wired.short,
    index-le-top σ.writer,
  )

  stays : (c : Consumer) → ConsumerInv p k σ.mem c → Moves σ.mem c
  stays c h = record {
    consumer = h;
    words = inv.words;
    others = λ l ne. refl;
    grows = omega arith;
    capped = inv.capped (p.barrier k);
  }

  waits :
      (available : ℕ)
      → (σ.consumers k).place ≡ waiting
      → MayReturn σ.mem (σ.consumers k).next_to_read (p.upstream k) available
      → ConsumerInv p k σ.mem (record (σ.consumers k) { place = reading available })
  waits available at (small, from, all) =
      let reach = λ (u : ℕ) (m : Memᴰ u (p.upstream k)).
        waited-level σ.mem u (σ.consumers k).next_to_read available (inv.words u) (own.below u m)
          (near u) small from (All-Memᴰ _ (p.upstream k) all u m) in
      let (u, m) = wired.fed k here in
      record {
        passed = own.passed;
        below = own.below;
        remaining = own.remaining;
        summed = own.summed;
        stands = ((reach u m).0, λ v n. (reach v n).1);
      }

  -- The item to read is there, and is the one of this number.
  pub item-there :
      (available : ℕ)
      → (σ.consumers k).place ≡ reading available
      → get σ.buffer (σ.consumers k).next_to_read ≡ some (σ.consumers k).next_to_read
  item-there available at =
      let (u, m) = wired.fed k here in
      let (from, upto) = rw at at own.stands in
      inv.stored (σ.consumers k).next_to_read (omega (arith, from, upto u m, inv.capped u))
        (omega (arith, awaited-room p wired inv k (wired.awaited k here), own.passed))

  item-read :
      (available v : ℕ)
      → (σ.consumers k).place ≡ reading available
      → get σ.buffer (σ.consumers k).next_to_read ≡ some v
      → v ≡ (σ.consumers k).next_to_read
  item-read available v at got =
      let same : some v ≡ some (σ.consumers k).next_to_read = sym got ∙ item-there available at in
      ground arith

  pub next-bound :
      (available : ℕ)
      → (σ.consumers k).place ≡ reading available
      → ((σ.consumers k).next_to_read < p.iteration_count)
        × (add_sequence (σ.consumers k).next_to_read 1 ≡ suc (σ.consumers k).next_to_read)
  next-bound available at =
      let (u, m) = wired.fed k here in
      let (from, upto) = rw at at own.stands in
      let within : (σ.consumers k).next_to_read < p.iteration_count =
        omega (arith, upto u m, inv.capped u, inv.counted, index-le-top σ.writer) in
      (within, omega (arith, wired.counted))

  reads :
      (available v : ℕ)
      → (σ.consumers k).place ≡ reading available
      → get σ.buffer (σ.consumers k).next_to_read ≡ some v
      → ConsumerInv p k σ.mem (read_item (σ.consumers k) available v)
  unfolding read_item
  reads available v at got =
      let (from, upto) = rw at at own.stands in
      let same = item-read available v at got in
      let (within, moved) = next-bound available at in
      record {
        passed = omega (arith, own.passed, moved);
        below = λ w n. omega (arith, from, upto w n, moved);
        remaining = omega (arith, own.remaining, wired.counted, moved, within);
        summed = rw moved (omega (arith, own.summed, same));
        stands = rw moved (elim (Bool-cases ((σ.consumers k).next_to_read == available)) [
          | inl e ↦ rw e (ground arith)
          | inr e ↦ rw e (ground (arith, from), upto)
        ]);
      }

  publishes :
      (available : ℕ)
      → (σ.consumers k).place ≡ publishing available
      → Moves (update σ.mem (p.barrier k) available) (record (σ.consumers k) { place = waiting })
  publishes available at =
      let last = rw at at own.stands in
      let (u, m) = wired.fed k here in
      let small : suc available < 2 ^ 64 = omega (arith, last, own.remaining, wired.counted) in
      let reached : level (update σ.mem (p.barrier k) available) (p.barrier k) ≡ suc available =
        ground arith in
      record {
        consumer = record {
          passed = omega (arith, reached, last);
          below = λ w n. ground (arith, own.below w n, last);
          remaining = own.remaining;
          summed = own.summed;
          stands = omega (arith, reached, last);
        };
        words = λ l. ground (arith, inv.words l);
        others = λ l ne. ground arith;
        grows = omega (arith, reached, last, own.passed);
        capped = omega (arith, reached, last, own.below u m, inv.capped u);
      }

  pub moves :
      {m : Memory} {c : Consumer} → ConsumerStep p k σ.mem σ.buffer (σ.consumers k) m c → Moves m c
  moves (wait available at more fed r) = stays _ (waits available at r)
  moves (read available v at got) = stays _ (reads available v at got)
  moves (publish available at) = publishes available at
  moves (finish at none_left) = stays _ (record {
    passed = own.passed;
    below = own.below;
    remaining = own.remaining;
    summed = own.summed;
    stands = (rw at at own.stands, omega (arith, own.remaining, none_left));
  })
