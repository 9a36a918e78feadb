-- ===== src/Benchmark/Preserving.antt =====
-- Every step of the programs keeps the invariant.
use disruptorplus.Common.{
  ℕ, suc, ◌+◌, ◌-◌, ◌%◌, ◌≤◌, ◌<◌, ◌≡◌, ◌≢◌, refl, sym, ap, ◌∙◌, inl, inr, Bool-cases, ◌==◌, some,
  if◌then◌else◌, arith, ℕ_discrete,
}
use disruptorplus.Sequence.{add_sequence}
use disruptorplus.Memory.{Memory, update}
use disruptorplus.RingBuffer.{RingBuffer, slot, get, put}
use disruptorplus.RingBuffer.Slots.{IsValid, window_injective, slot-eq-mod, get-put}
use disruptorplus.SingleThreadedClaimStrategy.{needed}
use disruptorplus.Benchmark.{
  Program, Consumer, claiming, writing, writes_done, State, ConsumerStep, Step, claim_one, write,
  publish_item, consume, Reachable, initially, next,
}
use disruptorplus.WaitStrategy.{MayReturn}
use disruptorplus.Benchmark.Wiring.{level, IsWired, All-Memᴰ, claimed-level}
use disruptorplus.Benchmark.Invariant.{index, top, ConsumerInv-grows, Inv, start-Inv}
use disruptorplus.Benchmark.Consuming.{moves}

-- Numbers less than the buffer's length apart go to different slots.
pub near-apart :
    (b : RingBuffer ℕ) (seq x : ℕ) → IsValid b → x < seq → seq < x + b.size → slot b seq ≢ slot b x
near-apart b seq x valid before near same =
    let e : (x + (seq - x)) % b.size ≡ (x + 0) % b.size =
      ap (λ (y : ℕ). y % b.size) (omega arith)
      ∙ sym (slot-eq-mod b seq valid).0
      ∙ same
      ∙ (slot-eq-mod b x valid).0
      ∙ ap (λ (y : ℕ). y % b.size) (omega arith) in
    omega (arith, window_injective x (seq - x) 0 b.size (omega arith) (omega arith) e)

-- Writing a number leaves the items that are less than the buffer's length before it.
put-kept :
    (b : RingBuffer ℕ) (seq x v : ℕ)
    → IsValid b
    → x < seq
    → seq < x + b.size
    → get (put b seq v) x ≡ get b x
put-kept b seq x v valid before near =
    let apart : seq % b.size ≢ x % b.size = λ same.
      near-apart b seq x valid before near
        ((slot-eq-mod b seq valid).0 ∙ same ∙ sym (slot-eq-mod b x valid).0) in
    ground (arith, (get-put b seq x v valid).0, apart)

pub get-put_self : (b : RingBuffer ℕ) (seq v : ℕ) → IsValid b → get (put b seq v) seq ≡ some v
get-put_self b seq v valid = ground (arith, (get-put b seq seq v valid).0)

module _ (p : Program) {b₀ : RingBuffer ℕ} (wired : IsWired p b₀) (σ : State) (inv : Inv p σ) where
  consume-Inv :
      (k : ℕ) {m : Memory} {c : Consumer}
      → k < p.consumer_count
      → ConsumerStep p k σ.mem σ.buffer (σ.consumers k) m c
      → Inv p (record σ { mem = m; consumers = λ j. if j == k then c else σ.consumers j })
  consume-Inv k {m} {c} here s =
      let moved = moves p wired σ inv k here s in
      let grown : (l : ℕ) → level σ.mem l ≤ level m l = λ l. elim (ℕ_discrete l (p.barrier k)) [
        | yes e ↦ rw e moved.grows
        | no ne ↦ omega (arith, moved.others l ne)
      ] in
      record {
        words = moved.words;
        capped = λ l. elim (ℕ_discrete l (p.barrier k)) [
          | yes e ↦ rw e moved.capped
          | no ne ↦ omega (arith, moved.others l ne, inv.capped l)
        ];
        counted = inv.counted;
        published = omega (
          arith,
          inv.published,
          moved.others p.claim_strategy.read_barrier.cell (λ e. wired.apart k here (sym e)),
        );
        writes = inv.writes;
        same_size = inv.same_size;
        same_claims = inv.same_claims;
        same_read = inv.same_read;
        room = λ f h. omega (arith, inv.room f h, grown f);
        valid = inv.valid;
        sized = inv.sized;
        stored = inv.stored;
        consumers = λ j below. elim (Bool-cases (j == k)) [
          | inl e ↦ let same : j ≡ k = ground (arith, e) in rw (e, same) moved.consumer
          | inr e ↦
              let ne : j ≢ k = λ same. ground (arith, e, same) in
              rw e (
                ConsumerInv-grows p j (σ.consumers j) grown
                  (moved.others (p.barrier j) (wired.separate j k below here ne))
                  (inv.consumers j below))
        ];
      }

  claim_one-Inv :
      (i r : ℕ)
      → σ.writer ≡ claiming i
      → i < p.iteration_count
      → MayReturn σ.mem (needed σ.claim_strategy) σ.claim_strategy.claim_barrier.sequences r
      → Inv p (record σ {
        writer = writing i σ.claim_strategy.next_sequence_to_claim;
        claim_strategy = record σ.claim_strategy {
          next_sequence_to_claim = add_sequence σ.claim_strategy.next_sequence_to_claim 1;
        };
      })
  claim_one-Inv i r at more (small, from, all) =
      let first : σ.claim_strategy.next_sequence_to_claim ≡ i = rw at at inv.writes in
      let atop : top σ.writer ≡ i = rw at refl in
      let atindex : index σ.writer ≡ i = rw at refl in
      let reached = rw inv.same_claims at all in
      record {
        words = inv.words;
        capped = λ l. omega (arith, inv.capped l, atindex);
        counted = more;
        published = inv.published ∙ atindex;
        writes = (first, omega (arith, first, more, wired.counted));
        same_size = inv.same_size;
        same_claims = inv.same_claims;
        same_read = inv.same_read;
        room = λ f h.
            claimed-level σ.mem f i p.claim_strategy.buffer_size r (inv.words f)
              (omega (arith, more, wired.counted)) wired.short
              (omega (arith, inv.capped f, atindex)) (omega (arith, inv.room f h, atop)) small
              (rw (first, inv.same_size) at from)
              (All-Memᴰ _ p.claim_strategy.claim_barrier.sequences reached f h);
        valid = inv.valid;
        sized = inv.sized;
        stored = λ x h reach. inv.stored x (omega (arith, h, atindex)) (omega (arith, reach, atop));
        consumers = inv.consumers;
      }

  -- A number that may still be read has another slot than the one that is written.
  write-Inv :
      (i seq : ℕ)
      → σ.writer ≡ writing i seq
      → Inv p (record σ { writer = writes_done i seq; buffer = put σ.buffer seq i })
  unfolding put
  write-Inv i seq at =
      let (same, first) = rw at at inv.writes in
      let atop : top σ.writer ≡ suc i = rw at refl in
      let atindex : index σ.writer ≡ i = rw at refl in
      record {
        words = inv.words;
        capped = λ l. omega (arith, inv.capped l, atindex);
        counted = omega (arith, inv.counted, atop);
        published = inv.published ∙ atindex;
        writes = (same, first, rw same (get-put_self σ.buffer i i inv.valid));
        same_size = inv.same_size;
        same_claims = inv.same_claims;
        same_read = inv.same_read;
        room = λ f h. omega (arith, inv.room f h, atop);
        valid = (get-put σ.buffer seq i i inv.valid).1;
        sized = inv.sized;
        stored = λ x h reach.
            put-kept σ.buffer seq x i inv.valid (omega (arith, same))
              (omega (arith, same, inv.sized))
            ∙ inv.stored x (omega (arith, h, atindex)) (omega (arith, reach, atop));
        consumers = inv.consumers;
      }

  publish_item-Inv :
      (i seq : ℕ)
      → σ.writer ≡ writes_done i seq
      → Inv p (record σ {
        writer = claiming (suc i);
        mem = update σ.mem σ.claim_strategy.read_barrier.cell seq;
      })
  publish_item-Inv i seq at =
      let (same, first, kept) = rw at at inv.writes in
      let atop : top σ.writer ≡ suc i = rw at refl in
      let atindex : index σ.writer ≡ i = rw at refl in
      let cell = σ.claim_strategy.read_barrier.cell in
      let at_cell : cell ≡ p.claim_strategy.read_barrier.cell = ap (λ b. b.cell) inv.same_read in
      let now : level (update σ.mem cell seq) cell ≡ suc i =
        ground (arith, same, inv.counted, wired.counted, atop) in
      let grown : (l : ℕ) → level σ.mem l ≤ level (update σ.mem cell seq) l = λ l.
        elim (ℕ_discrete l cell) [
          | yes e ↦ rw e (omega (arith, now, inv.capped cell, atindex))
          | no ne ↦ ground arith
        ] in
      record {
        words = λ l. ground (arith, inv.words l, same, inv.counted, wired.counted, atop);
        capped = λ l. elim (ℕ_discrete l cell) [
          | yes e ↦ rw e (omega (arith, now))
          | no ne ↦ ground (arith, inv.capped l, atindex)
        ];
        counted = omega (arith, inv.counted, atop);
        published = rw (← at_cell) now;
        writes = first;
        same_size = inv.same_size;
        same_claims = inv.same_claims;
        same_read = inv.same_read;
        room = λ f h. omega (arith, inv.room f h, atop, grown f);
        valid = inv.valid;
        sized = inv.sized;
        stored = λ x h reach. elim (ℕ_discrete x i) [
          | yes e ↦ rw e kept
          | no ne ↦ inv.stored x (omega (arith, h, ne, atindex)) (omega (arith, reach, atop))
        ];
        consumers = λ k here.
            let other = wired.apart k here in
            ConsumerInv-grows p k (σ.consumers k) grown (ground (arith, at_cell))
              (inv.consumers k here);
      }

pub Step-Inv :
    (p : Program) {b₀ : RingBuffer ℕ} {σ τ : State} → IsWired p b₀ → Inv p σ → Step p σ τ → Inv p τ
Step-Inv p {b₀} {σ} wired inv (claim_one i r at more some_claim h) =
    claim_one-Inv p wired σ inv i r at more h
Step-Inv p {b₀} {σ} wired inv (write i seq at) = write-Inv p wired σ inv i seq at
Step-Inv p {b₀} {σ} wired inv (publish_item i seq at) = publish_item-Inv p wired σ inv i seq at
Step-Inv p {b₀} {σ} wired inv (consume k here s) = consume-Inv p wired σ inv k here s

pub Reachable-Inv :
    (p : Program) (b : RingBuffer ℕ) {σ : State} → IsWired p b → Reachable p b σ → Inv p σ
Reachable-Inv p b wired initially = start-Inv p b wired
Reachable-Inv p b wired (next r s) = Step-Inv p wired (Reachable-Inv p b wired r) s
