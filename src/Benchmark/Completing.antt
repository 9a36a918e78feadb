-- ===== src/Benchmark/Completing.antt =====
-- How many steps the programs take, and that they end with all items read.
use disruptorplus.Common.{
  refl, ℕ, zero, suc, ◌+◌, ◌-◌, ◌*◌, ◌^◌, ◌≤◌, ◌<◌, ◌≡◌, inl, inr, ◌==◌, Bool-cases, true, false,
  if◌then◌else◌, arith, ℕ_discrete,
}
use disruptorplus.Sequence.{sub_sequence}
use disruptorplus.Memory.{Memory}
use disruptorplus.RingBuffer.{RingBuffer}
use disruptorplus.Benchmark.{
  Program, Place, waiting, reading, publishing, finished, Consumer, WriterPlace, claiming, writing,
  writes_done, State, start, start_consumer, expected_result, read_item, ConsumerStep, wait, read,
  publish, finish, Step, claim_one, write, publish_item, consume, Reachable, initially, next,
}
use disruptorplus.Benchmark.Wiring.{IsWired, IsOrdered}
use disruptorplus.Benchmark.Invariant.{Inv}
use disruptorplus.Benchmark.Consuming.{next-bound}
use disruptorplus.Benchmark.Preserving.{Reachable-Inv}
use disruptorplus.Benchmark.Items.{finished-expected}
use disruptorplus.Benchmark.Progress.{IsComplete, progress}

-- The steps that a thread has still to take, at most.
abbrev pub place_work : ℕ → Place → ℕ
place_work remaining waiting = 3 * remaining + 1
place_work remaining (reading available) = 3 * remaining
place_work remaining (publishing available) = 3 * remaining + 2
place_work remaining finished = 0

abbrev pub consumer_work : Consumer → ℕ
consumer_work c = place_work c.items_remaining c.place

abbrev pub writer_work : ℕ → WriterPlace → ℕ
writer_work count (claiming i) = 3 * (count - i)
writer_work count (writing i seq) = 3 * (count - i) - 1
writer_work count (writes_done i seq) = 3 * (count - i) - 2

abbrev pub consumers_work : ℕ → (ℕ → Consumer) → ℕ
consumers_work zero cs = 0
consumers_work (suc n) cs = consumers_work n cs + consumer_work (cs n)

abbrev pub work : Program → State → ℕ
work p σ = writer_work p.iteration_count σ.writer + consumers_work p.consumer_count σ.consumers

-- The runs of `n` steps.
pub data Run (p : Program) : State → ℕ → State → Type 0 where
  stop : {σ : State} → Run p σ 0 σ
  go : {σ τ υ : State} {n : ℕ} → Step p σ τ → Run p τ n υ → Run p σ (suc n) υ

pub Run-Reachable :
    (p : Program) {b : RingBuffer ℕ} {σ τ : State} {n : ℕ}
    → Reachable p b σ
    → Run p σ n τ
    → Reachable p b τ
Run-Reachable p r stop = r
Run-Reachable p r (go s run) = Run-Reachable p (next r s) run

-- Where one consumer changes, the sum changes by as much.
others-work :
    (f : ℕ → Consumer) (k : ℕ) (c : Consumer) (n : ℕ)
    → n ≤ k
    → consumers_work n (λ j. if j == k then c else f j) ≡ consumers_work n f
others-work f k c zero h = refl
others-work f k c (suc n) h =
    let e : (n == k) ≡ false = ground arith in rw (others-work f k c n (omega arith), e) refl

change-work :
    (f : ℕ → Consumer) (k : ℕ) (c : Consumer) (n : ℕ)
    → k < n
    → consumer_work c < consumer_work (f k)
    → consumers_work n (λ j. if j == k then c else f j) < consumers_work n f
change-work f k c zero h less = absurd (omega arith)
change-work f k c (suc n) h less = elim (ℕ_discrete k n) [
  | yes e ↦
      let self : (n == k) ≡ true = ground arith in
      rw (self, others-work f k c n (omega arith)) (omega (arith, rw e at less))
  | no ne ↦
      let e : (n == k) ≡ false = ground arith in
      rw e (omega (arith, change-work f k c n (omega arith) less))
]

module _ (p : Program) {b : RingBuffer ℕ} (wired : IsWired p b) where
  consumer-work :
      {σ : State} (inv : Inv p σ) (k : ℕ) {m : Memory} {c : Consumer}
      → k < p.consumer_count
      → ConsumerStep p k σ.mem σ.buffer (σ.consumers k) m c
      → consumer_work c < consumer_work (σ.consumers k)
  unfolding read_item
  consumer-work {σ} inv k here (wait available at more fed r) = rw at (omega arith)
  consumer-work {σ} inv k here (read available v at got) =
      let own = inv.consumers k here in
      let (within, moved) = next-bound p wired σ inv k here available at in
      let fewer : sub_sequence (σ.consumers k).items_remaining 1
          ≡ (σ.consumers k).items_remaining - 1 =
        omega (arith, own.remaining, wired.counted, within) in
      rw (at, fewer)
        (elim (Bool-cases ((σ.consumers k).next_to_read == available)) [
          | inl e ↦ rw e (omega (arith, own.remaining, within))
          | inr e ↦ rw e (omega (arith, own.remaining, within))
        ])
  consumer-work {σ} inv k here (publish available at) = rw at (omega arith)
  consumer-work {σ} inv k here (finish at none_left) = rw at (omega arith)

  -- Every step leaves less to do.
  pub Step-work : {σ τ : State} → Inv p σ → Step p σ τ → work p τ < work p σ
  Step-work {σ} inv (claim_one i r at more some_claim h) = rw at (omega (arith, more))
  Step-work {σ} inv (write i seq at) = rw at (omega (arith, rw at at inv.counted))
  Step-work {σ} inv (publish_item i seq at) = rw at (omega (arith, rw at at inv.counted))
  Step-work {σ} inv (consume k {m} {c} here s) =
      let less = consumer-work inv k here s in
      omega (arith, change-work σ.consumers k c p.consumer_count here less)

  Run-work : {σ τ : State} {n : ℕ} → Reachable p b σ → Run p σ n τ → n + work p τ ≤ work p σ
  Run-work r stop = omega arith
  Run-work r (go s run) =
      omega (arith, Step-work (Reachable-Inv p b wired r) s, Run-work (next r s) run)

  start-work :
      (n : ℕ)
      → consumers_work n (λ k. start_consumer p.iteration_count) ≡ n * (3 * p.iteration_count + 1)
  start-work zero = omega arith
  start-work (suc n) = grind (arith, start-work n)

  -- Every run of the program ends: it has at most three steps for each item and for each item of
  -- each consumer, and one more for each consumer.
  pub Run-bound :
      {τ : State} {n : ℕ}
      → Run p (start p b) n τ
      → n ≤ 3 * p.iteration_count + p.consumer_count * (3 * p.iteration_count + 1)
  Run-bound run = omega (arith, Run-work initially run, start-work p.consumer_count)

  -- What is left of a run can be done.
  IsComplete-within :
      IsOrdered p
      → (fuel : ℕ) {σ : State} → Reachable p b σ
      → work p σ ≤ fuel
      → (n : ℕ) × (τ : State) × Run p σ n τ × IsComplete p τ
  IsComplete-within ordered zero {σ} r h =
      elim (progress p wired ordered σ (Reachable-Inv p b wired r)) [
        | inr c ↦ (0, σ, stop, c)
        | inl (τ, s) ↦ absurd (omega (arith, Step-work (Reachable-Inv p b wired r) s))
      ]
  IsComplete-within ordered (suc fuel) {σ} r h =
      elim (progress p wired ordered σ (Reachable-Inv p b wired r)) [
        | inr c ↦ (0, σ, stop, c)
        | inl (τ, s) ↦
            let (n, υ, run, c) =
              IsComplete-within ordered fuel (next r s)
                (omega (arith, Step-work (Reachable-Inv p b wired r) s)) in
            (suc n, υ, go s run, c)
      ]

  -- If n (n - 1) fits 64 bits for n items, and each consumer waits only for the writer or for
  -- consumers before it: from every reachable state the threads can go on to where the writer has
  -- published all items and every consumer has ended with the result that the program expects.
  pub completes :
      {σ : State}
      → IsOrdered p
      → p.iteration_count * (p.iteration_count - 1) < 2 ^ 64
      → Reachable p b σ
      → (n : ℕ) × (τ : State) × Run p σ n τ
        × IsComplete p τ
        × ((k : ℕ) → k < p.consumer_count → (τ.consumers k).sum ≡ expected_result p.iteration_count)
  completes {σ} ordered small r =
      let (n, τ, run, c) = IsComplete-within ordered (work p σ) r (omega arith) in
      (
        n,
        τ,
        run,
        c,
        λ k here.
            finished-expected p wired (Run-Reachable p r run) k here small (c.consumed k here),
      )
