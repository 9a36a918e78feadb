-- ===== src/Benchmark/Sequencer/Expected.antt =====
-- The sum of the consumer is the one that the program expects.
use disruptorplus.Common.{
  ℕ, zero, suc, ◌+◌, ◌-◌, ◌*◌, ◌/◌, ◌%◌, ◌^◌, ◌≤◌, ◌<◌, ◌≡◌, refl, sym, ap, ◌∙◌, arith, ℕ_discrete,
}
use disruptorplus.Sequence.{add_sequence, sub_sequence}
use disruptorplus.Memory.{Memory, update}
use disruptorplus.RingBuffer.{RingBuffer}
use disruptorplus.MultiThreadedClaimStrategy.{entry}
use disruptorplus.Benchmark.{Place, waiting, reading, finished}
use disruptorplus.Benchmark.Wiring.{triangle}
use disruptorplus.Benchmark.Items.{triangle-twice}
use disruptorplus.Benchmark.Sequencer.{
  Sequencer, ProducerPlace, claiming, awaiting, writing, written, State, Step, fetch_add, claim_one,
  write, publish_item, wait, read, publish, finish, Reachable, initially, next, expected_result,
}
use disruptorplus.Benchmark.Sequencer.Invariant.{IsSetUp, started, Holds, counter, total, Inv}
use disruptorplus.Benchmark.Sequencer.Producing.{counter-bound, total-bound}
use disruptorplus.Benchmark.Sequencer.Safety.{Reachable-Inv}
use disruptorplus.Benchmark.Sequencer.Sums.{done, Adds, goes_on-Adds, write-Adds, read-Adds}

twice-product : (t c : ℕ) → suc c * (2 * t) ≡ 2 * (t * suc c)
twice-product t c = grind arith

-- Halving the product of a count and an even number.
half-product :
    (t c w : ℕ)
    → 2 * t ≡ w
    → suc c * w < 2 ^ 64
    → t * suc c % 2 ^ 64 ≡ suc c * (w % 2 ^ 64) % 2 ^ 64 / 2
half-product t c w e small =
    let product : suc c * w ≡ 2 * (t * suc c) = rw (← e) (twice-product t c) in
    let alone : w < 2 ^ 64 = omega (arith, le_product c w, small) in
    let word : w % 2 ^ 64 ≡ w = omega (arith, alone) in rw word (omega (arith, product, small))
  where
    le_product : (c w : ℕ) → w ≤ suc c * w
    le_product c w = grind arith

triangle-expected_result :
    (n count : ℕ)
    → n < 2 ^ 64
    → count * (n * (n - 1)) < 2 ^ 64
    → triangle n * count % 2 ^ 64 ≡ expected_result n count
unfolding expected_result
triangle-expected_result zero count fits small = grind arith
triangle-expected_result (suc n) zero fits small = grind arith
triangle-expected_result (suc n) (suc count) fits small =
    let before : sub_sequence (suc n) 1 ≡ n = omega (arith, fits) in
    let less : suc n - 1 ≡ n = omega arith in
    rw before
      (half-product (triangle (suc n)) count (suc n * n) (triangle-twice n) (rw less at small))

module _ (p : Sequencer) {m₀ : Memory} {b₀ : RingBuffer ℕ} (set_up : IsSetUp p m₀ b₀) where
  -- The consumer goes on without reading.
  stays-Adds :
      (σ : State) (adds : Adds p σ) (m : Memory) (place : Place)
      → m p.claim_strategy.next_claimable ≡ counter p σ
      → (place ≡ finished → σ.consumer.items_remaining ≡ 0)
      → Adds p (record σ { mem = m; consumer = record σ.consumer { place = place } })
  stays-Adds σ adds m place same ended = record {
    remaining = adds.remaining;
    summed = adds.summed;
    ended = ended;
    blank = λ x h. adds.blank x (omega (arith, h, same));
    lacking = adds.lacking;
    all = rw same adds.all;
  }

  Step-Adds : {σ τ : State} → Inv p σ → Step p σ τ → Adds p σ → Adds p τ
  Step-Adds {σ} inv (fetch_add t i here at more) adds =
      let c = counter p σ in
      let cell = p.claim_strategy.next_claimable in
      let m = update σ.mem cell (add_sequence c 1) in
      let grown : m cell ≡ suc c = ground (arith, counter-bound p set_up σ inv) in
      let none_yet = adds.blank c (omega arith) in
      goes_on-Adds p set_up σ inv adds t (awaiting i c) m here (rw at refl) (omega (arith, grown))
        (rw grown (omega (arith, none_yet))) (λ x e. rw (← e) none_yet)
  Step-Adds {σ} inv (claim_one t i seq here at freed) adds =
      goes_on-Adds p set_up σ inv adds t (writing i seq) σ.mem here (rw at refl) (omega arith) refl
        λ x e. adds.lacking t x (rw at e)
  Step-Adds {σ} inv (write t i seq here at) adds = write-Adds p set_up σ inv adds t i seq here at
  Step-Adds {σ} inv (publish_item t i seq here at) adds =
      let m = update σ.mem (entry p.claim_strategy seq) seq in
      let same : m p.claim_strategy.next_claimable ≡ counter p σ =
        let ne = (set_up.entries_apart seq).0 in ground arith in
      goes_on-Adds p set_up σ inv adds t (claiming (suc i)) m here (rw at refl)
        (omega (arith, same)) (rw same refl) λ x e. absurd e
  Step-Adds {σ} inv (wait available at more from marks) adds =
      stays-Adds σ adds σ.mem (reading available) refl λ e. absurd (ground (arith, e))
  Step-Adds {σ} inv (read available v at got) adds =
      read-Adds p set_up σ inv adds available v at got
  Step-Adds {σ} inv (publish available at) adds =
      stays-Adds σ adds (update σ.mem p.consumed available) waiting
        (let ne = set_up.apart in ground arith) λ e. absurd (ground (arith, e))
  Step-Adds {σ} inv (finish at none_left) adds =
      stays-Adds σ adds σ.mem finished refl λ e. none_left

  total-none : (n : ℕ) → total n (λ x. 0) ≡ 0
  total-none zero = refl
  total-none (suc n) = omega (arith, total-none n)

  Reachable-Adds : {σ : State} → Reachable p m₀ b₀ σ → Adds p σ
  Reachable-Adds initially = record {
    remaining = omega arith;
    summed = refl;
    ended = λ e. absurd (ground (arith, e));
    blank = λ x h. refl;
    lacking = λ t x h. absurd h;
    all = total-none (m₀ p.claim_strategy.next_claimable) ∙ sym (total-none p.producer_count);
  }
  Reachable-Adds (next {σ} r s) = Step-Adds (Reachable-Inv p set_up r) s (Reachable-Adds r)

  -- If a sum of numbers up to a bound is as large as it can be, all are at the bound.
  total-full :
      (f : ℕ → ℕ) (c : ℕ)
      → ((k : ℕ) → f k ≤ c)
      → (n : ℕ) → total n f ≡ c * n
      → (k : ℕ) → k < n
      → f k ≡ c
  total-full f c h zero e k below = absurd (omega arith)
  total-full f c h (suc n) e k below =
      let rest = total-bound f c h n in
      let step : c * suc n ≡ c * n + c = grind arith in
      elim (ℕ_discrete k n) [
        | yes same ↦ rw same (omega (arith, e, step, rest, h n))
        | no ne ↦ total-full f c h n (omega (arith, e, step, rest, h n)) k (omega (arith, ne))
      ]

  total-same : (f : ℕ → ℕ) (c : ℕ) (n : ℕ) → ((k : ℕ) → k < n → f k ≡ c) → total n f ≡ c * n
  total-same f c zero h = omega arith
  total-same f c (suc n) h =
      grind (arith, total-same f c n (λ k below. h k (omega arith)), h n (omega arith))

  -- Once the consumer has read all that is claimed, no producer holds a number.
  idle-done :
      {σ : State}
      → Inv p σ
      → counter p σ ≡ σ.consumer.next_to_read
      → (t : ℕ) (q : ProducerPlace) → σ.producers t ≡ q
      → done q ≡ started q
  idle-done {σ} inv reached t (claiming i) at = refl
  idle-done {σ} inv reached t (awaiting i seq) at =
      let mine : Holds (σ.producers t) seq = rw at refl in
      absurd ((inv.settled seq (omega (arith, inv.held t seq mine, reached))).1 t mine)
  idle-done {σ} inv reached t (writing i seq) at =
      let mine : Holds (σ.producers t) seq = rw at refl in
      absurd ((inv.settled seq (omega (arith, inv.held t seq mine, reached))).1 t mine)
  idle-done {σ} inv reached t (written i seq) at = refl

  module _ {σ : State} (r : Reachable p m₀ b₀ σ) where
    sum-triangle :
        σ.consumer.place ≡ finished
        → σ.consumer.sum ≡ triangle p.iteration_count * p.producer_count % 2 ^ 64
    sum-triangle at =
        let inv = Reachable-Inv p set_up r in
        let adds = Reachable-Adds r in
        let ends : σ.consumer.next_to_read ≡ p.iteration_count * p.producer_count =
          omega (arith, adds.remaining, adds.ended at) in
        let most =
          total-bound (λ t. started (σ.producers t)) p.iteration_count inv.rounds
            p.producer_count in
        let reached : counter p σ ≡ σ.consumer.next_to_read =
          omega (arith, inv.begun, most, inv.reached, ends) in
        let each =
          total-full (λ t. started (σ.producers t)) p.iteration_count inv.rounds p.producer_count
            (inv.begun ∙ reached ∙ ends) in
        let through : (t : ℕ)
            → t < p.producer_count
            → triangle (done (σ.producers t)) ≡ triangle p.iteration_count =
          λ t below. ap triangle (idle-done inv reached t (σ.producers t) refl ∙ each t below) in
        rw (← reached) at adds.summed
        ∙ ap (λ (x : ℕ). x % 2 ^ 64)
            (adds.all
              ∙ total-same (λ t. triangle (done (σ.producers t))) (triangle p.iteration_count)
                  p.producer_count through)

    -- Once the consumer is through, it has the sum that the program tests for, if that fits 64 bits
    -- before it is halved: every item of every producer has been read once.
    pub finished-expected_result :
        p.producer_count * (p.iteration_count * (p.iteration_count - 1)) < 2 ^ 64
        → σ.consumer.place ≡ finished
        → σ.consumer.sum ≡ expected_result p.iteration_count p.producer_count
    finished-expected_result small at =
        sum-triangle at
        ∙ triangle-expected_result p.iteration_count p.producer_count set_up.few small
