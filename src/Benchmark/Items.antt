-- ===== src/Benchmark/Items.antt =====
-- What the consumers read, and what they add up.
use disruptorplus.Common.{ℕ, zero, suc, ◌-◌, ◌*◌, ◌%◌, ◌^◌, ◌<◌, ◌≡◌, ◌≢◌, refl, ◌∙◌, some, arith}
use disruptorplus.Sequence.{sub_sequence}
use disruptorplus.RingBuffer.{RingBuffer, slot, get}
use disruptorplus.Benchmark.{Program, reading, finished, writing, State, Reachable, expected_result}
use disruptorplus.Benchmark.Wiring.{triangle, IsWired}
use disruptorplus.Benchmark.Invariant.{index, top, awaited-room}
use disruptorplus.Benchmark.Consuming.{item-there}
use disruptorplus.Benchmark.Preserving.{Reachable-Inv, near-apart}

pub triangle-twice : (n : ℕ) → 2 * triangle (suc n) ≡ suc n * n
triangle-twice zero = refl
triangle-twice (suc n) = omega (arith, triangle-twice n)

triangle-expected :
    (n : ℕ) → n < 2 ^ 64 → n * (n - 1) < 2 ^ 64 → triangle n % 2 ^ 64 ≡ expected_result n
unfolding expected_result
triangle-expected zero fits small = refl
triangle-expected (suc n) fits small =
    let before : sub_sequence (suc n) 1 ≡ n = omega arith in
    let less : suc n - 1 ≡ n = omega arith in
    rw before (omega (arith, triangle-twice n, rw less at small))

module _ (p : Program) {b : RingBuffer ℕ} {σ : State} (wired : IsWired p b) (r : Reachable p b σ)
    (k : ℕ) (here : k < p.consumer_count) where
  -- Whenever a consumer is about to read the item `next_to_read`, its slot holds this item.
  pub Reachable-item :
      (available : ℕ)
      → (σ.consumers k).place ≡ reading available
      → get σ.buffer (σ.consumers k).next_to_read ≡ some (σ.consumers k).next_to_read
  Reachable-item = item-there p wired σ (Reachable-Inv p b wired r) k here

  -- The writer writes in no slot that a consumer is about to read.
  pub Reachable-slot_ne :
      (available i seq : ℕ)
      → (σ.consumers k).place ≡ reading available
      → σ.writer ≡ writing i seq
      → slot σ.buffer seq ≢ slot σ.buffer (σ.consumers k).next_to_read
  Reachable-slot_ne available i seq at writes e =
      let inv = Reachable-Inv p b wired r in
      let own = inv.consumers k here in
      let (u, m) = wired.fed k here in
      let (from, upto) = rw at at own.stands in
      let (same, first) = rw writes at inv.writes in
      let atop : top σ.writer ≡ suc i = rw writes refl in
      let atindex : index σ.writer ≡ i = rw writes refl in
      near-apart σ.buffer seq (σ.consumers k).next_to_read inv.valid
        (omega (arith, from, upto u m, inv.capped u, atindex, same))
        (omega (
          arith,
          awaited-room p wired inv k (wired.awaited k here),
          own.passed,
          atop,
          same,
          inv.sized,
        ))
        e

  finished-sum :
      (σ.consumers k).place ≡ finished → (σ.consumers k).sum ≡ triangle p.iteration_count % 2 ^ 64
  finished-sum at =
      let own = (Reachable-Inv p b wired r).consumers k here in
      let (_, all) = rw at at own.stands in rw (← all) own.summed

  -- If n (n - 1) fits 64 bits for n items, a consumer that is through has the sum
  -- that the program tests for.
  pub finished-expected :
      p.iteration_count * (p.iteration_count - 1) < 2 ^ 64
      → (σ.consumers k).place ≡ finished
      → (σ.consumers k).sum ≡ expected_result p.iteration_count
  finished-expected small at =
      finished-sum at ∙ triangle-expected p.iteration_count wired.counted small
