-- ===== src/Benchmark/Sequencer/Sums.antt =====
-- What the consumer adds up.
use disruptorplus.Common.{
  ℕ, suc, ◌+◌, ◌*◌, ◌%◌, ◌^◌, ◌≤◌, ◌<◌, ◌≡◌, ◌≢◌, refl, ap, inl, inr, some, false, if◌then◌else◌,
  ◌==◌, arith, Bool-cases,
}
use disruptorplus.Sequence.{add_sequence}
use disruptorplus.Memory.{Memory}
use disruptorplus.RingBuffer.{RingBuffer, get, put}
use disruptorplus.Benchmark.{reading, finished, read_item}
use disruptorplus.Benchmark.Wiring.{triangle}
use disruptorplus.Benchmark.Sequencer.{
  Sequencer, ProducerPlace, claiming, awaiting, writing, written, State, moves,
}
use disruptorplus.Benchmark.Sequencer.Invariant.{IsSetUp, started, Holds, counter, total, Inv}
use disruptorplus.Benchmark.Sequencer.Producing.{
  counter-bound, held-after, total-others, total-moved, total-bound,
}

-- How many items a producer has written.
abbrev pub done : ProducerPlace → ℕ
done (claiming i) = i
done (awaiting i seq) = i
done (writing i seq) = i
done (written i seq) = suc i

-- The producer has claimed `x` and not written its item.
abbrev pub Lacks : ProducerPlace → ℕ → Type 0
Lacks (claiming i) x = ⊥
Lacks (awaiting i seq) x = seq ≡ x
Lacks (writing i seq) x = seq ≡ x
Lacks (written i seq) x = ⊥

Lacks-Holds : (q : ProducerPlace) (x : ℕ) → Lacks q x → Holds q x
Lacks-Holds (claiming i) x h = h
Lacks-Holds (awaiting i seq) x h = h
Lacks-Holds (writing i seq) x h = h
Lacks-Holds (written i seq) x h = absurd h

module _ (p : Sequencer) where
  pub record Adds (σ : State) : Type 0 where
    pub remaining :
        σ.consumer.items_remaining + σ.consumer.next_to_read ≡ p.iteration_count * p.producer_count
    pub summed : σ.consumer.sum ≡ total σ.consumer.next_to_read σ.items % 2 ^ 64
    pub ended : σ.consumer.place ≡ finished → σ.consumer.items_remaining ≡ 0
    pub blank : (x : ℕ) → counter p σ ≤ x → σ.items x ≡ 0
    pub lacking : (t x : ℕ) → Lacks (σ.producers t) x → σ.items x ≡ 0
    pub all :
        total (counter p σ) σ.items ≡ total p.producer_count (λ t. triangle (done (σ.producers t)))

  module _ {m₀ : Memory} {b₀ : RingBuffer ℕ} (set_up : IsSetUp p m₀ b₀) (σ : State) (inv : Inv p σ)
      (adds : Adds σ) where
    -- A producer goes on, and has written as many items as before.
    pub goes_on-Adds :
        (t : ℕ) (q : ProducerPlace) (m : Memory)
        → t < p.producer_count
        → done q ≡ done (σ.producers t)
        → counter p σ ≤ m p.claim_strategy.next_claimable
        → total (m p.claim_strategy.next_claimable) σ.items ≡ total (counter p σ) σ.items
        → ((x : ℕ) → Lacks q x → σ.items x ≡ 0)
        → Adds (record (moves σ t q) { mem = m })
    goes_on-Adds t q m here same onward sum lacks = record {
      remaining = adds.remaining;
      summed = adds.summed;
      ended = adds.ended;
      blank = λ x h. adds.blank x (omega arith);
      lacking = λ k x h. elim (Bool-cases (k == t)) [
        | inl e ↦ lacks x (rw e at h)
        | inr e ↦ adds.lacking k x (rw e at h)
      ];
      all =
          let change = total-moved (λ r. triangle (done r)) σ.producers t q p.producer_count here in
          omega (arith, change, ap triangle same, adds.all, sum);
    }

    pub write-Adds :
        (t i seq : ℕ)
        → t < p.producer_count
        → σ.producers t ≡ writing i seq
        → Adds (record (moves σ t (written i seq)) {
          buffer = put σ.buffer seq i;
          items = λ x. if x == seq then i else σ.items x;
        })
    write-Adds t i seq here at =
        let mine : Holds (σ.producers t) seq = rw at refl in
        let none_yet : σ.items seq ≡ 0 = adds.lacking t seq (rw at refl) in
        let kept : (x : ℕ) → x ≢ seq → σ.items x ≡ 0 → (if x == seq then i else σ.items x) ≡ 0 =
          λ x ne e. let other : (x == seq) ≡ false = ground arith in rw other e in
        record {
          remaining = adds.remaining;
          summed =
              rw
                (total-others (λ x. x) σ.items seq i σ.consumer.next_to_read
                  (held-after p set_up σ inv t seq mine))
                adds.summed;
          ended = adds.ended;
          blank = λ x h. kept x (omega (arith, inv.held t seq mine, h)) (adds.blank x h);
          lacking = λ k x h. elim (Bool-cases (k == t)) [
            | inl e ↦ absurd (rw e at h)
            | inr e ↦
                let theirs = rw e at h in
                kept x
                  (λ same.
                    let one : k ≡ t =
                      inv.single k t x (Lacks-Holds (σ.producers k) x theirs) (rw same mine) in
                    ground (arith, e))
                  (adds.lacking k x theirs)
          ];
          all =
              let change =
                total-moved (λ r. triangle (done r)) σ.producers t (written i seq) p.producer_count
                  here in
              let items = total-moved (λ x. x) σ.items seq i (counter p σ) (inv.held t seq mine) in
              omega (arith, change, items, ap (λ r. triangle (done r)) at, none_yet, adds.all);
        }

    pub read-Adds :
        (available v : ℕ)
        → σ.consumer.place ≡ reading available
        → get σ.buffer σ.consumer.next_to_read ≡ some v
        → Adds (record σ { consumer = read_item σ.consumer available v })
    unfolding read_item
    read-Adds available v at got =
        let (from, upto) = rw at at inv.stands in
        let this = upto σ.consumer.next_to_read (omega arith) from in
        let stored = inv.stored σ.consumer.next_to_read this inv.passed in
        let value : v ≡ σ.items σ.consumer.next_to_read = ground (arith, got, stored) in
        let limit = counter-bound p set_up σ inv in
        let moved : add_sequence σ.consumer.next_to_read 1 ≡ suc σ.consumer.next_to_read =
          omega (arith, this.0, limit) in
        let most : counter p σ ≤ p.iteration_count * p.producer_count = omega (
          arith,
          inv.begun,
          total-bound (λ t. started (σ.producers t)) p.iteration_count inv.rounds p.producer_count,
        ) in
        record {
          remaining = omega (arith, adds.remaining, moved, this.0, most, set_up.counted);
          summed = rw moved (omega (arith, adds.summed, value));
          ended = λ e. elim (Bool-cases (σ.consumer.next_to_read == available)) [
            | inl c ↦ absurd (ground (arith, rw c at e))
            | inr c ↦ absurd (ground (arith, rw c at e))
          ];
          blank = adds.blank;
          lacking = adds.lacking;
          all = adds.all;
        }
