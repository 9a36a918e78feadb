-- ===== src/Benchmark/Sequencer/Invariant.antt =====
-- What holds of the producers and the consumer in every reachable state.
use disruptorplus.Common.{
  ℕ, zero, suc, ◌+◌, ◌-◌, ◌*◌, ◌%◌, ◌^◌, ◌≤◌, ◌<◌, ◌≡◌, ◌≢◌, refl, some, [], ◌∷◌, arith,
}
use disruptorplus.Sequence.{sub_sequence}
use disruptorplus.Memory.{Memory}
use disruptorplus.RingBuffer.{RingBuffer, get}
use disruptorplus.RingBuffer.Slots.{IsValid}
use disruptorplus.MultiThreadedClaimStrategy.{entry}
use disruptorplus.Benchmark.{Place, waiting, reading, publishing, finished}
use disruptorplus.Benchmark.Wiring.{level}
use disruptorplus.Benchmark.Sequencer.{
  Sequencer, ProducerPlace, claiming, awaiting, writing, written, State, start,
}

-- What the set-up has made: the memory, the addresses and the sizes.
pub record IsSetUp (p : Sequencer) (m : Memory) (b : RingBuffer ℕ) : Type 0 where
  pub valid : IsValid b
  pub sized : b.size ≡ p.claim_strategy.buffer_size
  pub short : p.claim_strategy.buffer_size ≤ 2 ^ 62
  pub counted : p.iteration_count * p.producer_count ≤ 2 ^ 62
  pub few : p.iteration_count < 2 ^ 64
  pub claims : p.claim_strategy.claim_barrier.sequences ≡ p.consumed ∷ []
  pub entries_apart :
      (x : ℕ)
      → (entry p.claim_strategy x ≢ p.claim_strategy.next_claimable)
        × (entry p.claim_strategy x ≢ p.consumed)
  pub apart : p.claim_strategy.next_claimable ≢ p.consumed
  pub masked : p.claim_strategy.index_mask ≡ p.claim_strategy.buffer_size - 1
  pub initial :
      (x : ℕ)
      → m (entry p.claim_strategy x)
        ≡ sub_sequence (x % p.claim_strategy.buffer_size) p.claim_strategy.buffer_size
  pub unclaimed : m p.claim_strategy.next_claimable ≡ 0
  pub unread : m p.consumed ≡ 2 ^ 64 - 1
  pub unpublished : (x : ℕ) → x ≤ 2 ^ 62 → m (entry p.claim_strategy x) ≢ x

-- How many claims a producer has begun.
abbrev pub started : ProducerPlace → ℕ
started (claiming i) = i
started (awaiting i seq) = suc i
started (writing i seq) = suc i
started (written i seq) = suc i

-- The producer has claimed `x` and not published it.
abbrev pub Holds : ProducerPlace → ℕ → Type 0
Holds (claiming i) x = ⊥
Holds (awaiting i seq) x = seq ≡ x
Holds (writing i seq) x = seq ≡ x
Holds (written i seq) x = seq ≡ x

-- And the wait for its slot has returned.
abbrev pub Owns : ProducerPlace → ℕ → Type 0
Owns (claiming i) x = ⊥
Owns (awaiting i seq) x = ⊥
Owns (writing i seq) x = seq ≡ x
Owns (written i seq) x = seq ≡ x

abbrev pub total : ℕ → (ℕ → ℕ) → ℕ
total zero f = 0
total (suc n) f = total n f + f n

module _ (p : Sequencer) where
  abbrev pub counter : State → ℕ
  counter σ = σ.mem p.claim_strategy.next_claimable

  -- `x` has been claimed and published.
  abbrev pub Settled : State → ℕ → Type 0
  Settled σ x = (x < counter σ) × ((t : ℕ) → Holds (σ.producers t) x → ⊥)

  -- What the place of the consumer says of its barrier and of what it reads.
  abbrev pub Stands : State → (next : ℕ) → Place → Type 0
  Stands σ next waiting = level σ.mem p.consumed ≡ next
  Stands σ next (reading available) =
      (next ≤ available) × ((x : ℕ) → next ≤ x → x ≤ available → Settled σ x)
  Stands σ next (publishing available) = next ≡ suc available
  Stands σ next finished = level σ.mem p.consumed ≡ next

  pub Stands-grows :
      (σ τ : State) (next : ℕ)
      → level σ.mem p.consumed ≡ level τ.mem p.consumed
      → ((x : ℕ) → Settled σ x → Settled τ x)
      → (at : Place) → Stands σ next at
      → Stands τ next at
  Stands-grows σ τ next same on waiting h = omega (arith, same, h)
  Stands-grows σ τ next same on (reading available) h = (h.0, λ x from upto. on x (h.1 x from upto))
  Stands-grows σ τ next same on (publishing available) h = h
  Stands-grows σ τ next same on finished h = omega (arith, same, h)

  pub record Inv (σ : State) : Type 0 where
    pub words : σ.mem p.consumed < 2 ^ 64
    pub begun : total p.producer_count (λ t. started (σ.producers t)) ≡ counter σ
    pub rounds : (t : ℕ) → started (σ.producers t) ≤ p.iteration_count
    pub held : (t x : ℕ) → Holds (σ.producers t) x → x < counter σ
    pub single : (t u x : ℕ) → Holds (σ.producers t) x → Holds (σ.producers u) x → t ≡ u
    pub owned :
        (t x : ℕ)
        → Owns (σ.producers t) x
        → x < level σ.mem p.consumed + p.claim_strategy.buffer_size
    pub marked : (x : ℕ) → x ≤ 2 ^ 62 → σ.mem (entry p.claim_strategy x) ≡ x → Settled σ x
    pub granted : (x : ℕ) → Settled σ x → x < level σ.mem p.consumed + p.claim_strategy.buffer_size
    pub passed : level σ.mem p.consumed ≤ σ.consumer.next_to_read
    pub settled : (x : ℕ) → x < σ.consumer.next_to_read → Settled σ x
    pub reached : σ.consumer.next_to_read ≤ counter σ
    pub stands : Stands σ σ.consumer.next_to_read σ.consumer.place
    pub valid : IsValid σ.buffer
    pub sized : σ.buffer.size ≡ p.claim_strategy.buffer_size
    -- What may still be read is in its slot, and so is what is about to be published.
    pub stored :
        (x : ℕ) → Settled σ x → level σ.mem p.consumed ≤ x → get σ.buffer x ≡ some (σ.items x)
    pub kept : (t i x : ℕ) → σ.producers t ≡ written i x → get σ.buffer x ≡ some (σ.items x)

  total-zero : (n : ℕ) → total n (λ t. 0) ≡ 0
  total-zero zero = refl
  total-zero (suc n) = omega (arith, total-zero n)

  pub start-Inv : {m : Memory} {b : RingBuffer ℕ} → IsSetUp p m b → Inv (start p m b)
  start-Inv set_up = record {
    words = omega (arith, set_up.unread);
    begun = omega (arith, total-zero p.producer_count, set_up.unclaimed);
    rounds = λ t. omega arith;
    held = λ t x h. absurd h;
    single = λ t u x h. absurd h;
    owned = λ t x h. absurd h;
    marked = λ x fits e. absurd (set_up.unpublished x fits e);
    granted = λ x (h, free). absurd (omega (arith, h, set_up.unclaimed));
    passed = omega (arith, set_up.unread);
    settled = λ x h. absurd (omega arith);
    reached = omega arith;
    stands = omega (arith, set_up.unread);
    valid = set_up.valid;
    sized = set_up.sized;
    stored = λ x (h, free). absurd (omega (arith, h, set_up.unclaimed));
    kept = λ t i x e. absurd (ground (arith, e));
  }
