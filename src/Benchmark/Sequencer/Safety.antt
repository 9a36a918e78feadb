-- ===== src/Benchmark/Sequencer/Safety.antt =====
-- The steps of the consumer keep the invariant, and what follows for the slots of the ring buffer.
use disruptorplus.Common.{
  ℕ, suc, ◌+◌, ◌^◌, ◌≤◌, ◌<◌, ◌≡◌, ◌≢◌, refl, sym, ◌∙◌, inl, inr, some, ◌==◌, arith, dec_lt,
  ℕ_discrete, Bool-cases,
}
use disruptorplus.Sequence.{add_sequence}
use disruptorplus.Memory.{Memory, update}
use disruptorplus.RingBuffer.{RingBuffer, get, slot}
use disruptorplus.MultiThreadedClaimStrategy.{entry}
use disruptorplus.Benchmark.{waiting, reading, publishing, finished, Consumer, read_item}
use disruptorplus.Benchmark.Preserving.{near-apart}
use disruptorplus.Benchmark.Wiring.{level}
use disruptorplus.Benchmark.Sequencer.{
  Sequencer, writing, State, Step, fetch_add, claim_one, write, publish_item, wait, read, publish,
  finish, Reachable, initially, next,
}
use disruptorplus.Benchmark.Sequencer.Invariant.{IsSetUp, counter, Settled, Stands, Inv, start-Inv}
use disruptorplus.Benchmark.Sequencer.Producing.{
  counter-bound, held-after, claim_one-Inv, write-Inv,
}
use disruptorplus.Benchmark.Sequencer.Claiming.{fetch_add-Inv, publish_item-Inv}

module _ (p : Sequencer) {m₀ : Memory} {b₀ : RingBuffer ℕ} (set_up : IsSetUp p m₀ b₀) (σ : State)
    (inv : Inv p σ) where
  -- The consumer goes on, with the memory as it is.
  consumes-Inv :
      (c : Consumer)
      → σ.consumer.next_to_read ≤ c.next_to_read
      → c.next_to_read ≤ counter p σ
      → ((x : ℕ) → x < c.next_to_read → Settled p σ x)
      → Stands p σ c.next_to_read c.place
      → Inv p (record σ { consumer = c })
  consumes-Inv c onward upto settled stands = record {
    words = inv.words;
    begun = inv.begun;
    rounds = inv.rounds;
    held = inv.held;
    single = inv.single;
    owned = inv.owned;
    marked = inv.marked;
    granted = inv.granted;
    passed = omega (arith, inv.passed);
    settled = settled;
    reached = upto;
    stands = stands;
    valid = inv.valid;
    sized = inv.sized;
    stored = inv.stored;
    kept = inv.kept;
  }

  -- Only what is claimed is marked as published.
  pub marked-upto :
      (available : ℕ)
      → ((x : ℕ)
          → σ.consumer.next_to_read ≤ x
          → x ≤ available
          → σ.mem (entry p.claim_strategy x) ≡ x)
      → (x : ℕ) → σ.consumer.next_to_read ≤ x
      → x ≤ available
      → Settled p σ x
  marked-upto available marks x from upto = elim (dec_lt x (counter p σ)) [
    | yes below ↦
        inv.marked x (omega (arith, below, counter-bound p set_up σ inv)) (marks x from upto)
    | no above ↦
        let claimed =
          inv.marked (counter p σ) (counter-bound p set_up σ inv)
            (marks (counter p σ) inv.reached (omega (arith, above, upto))) in
        absurd (omega (arith, claimed.0))
  ]

  reads-Inv :
      (available v : ℕ)
      → σ.consumer.place ≡ reading available
      → Inv p (record σ { consumer = read_item σ.consumer available v })
  unfolding read_item
  reads-Inv available v at =
      let (from, upto) = rw at at inv.stands in
      let this = upto σ.consumer.next_to_read (omega arith) from in
      let moved : add_sequence σ.consumer.next_to_read 1 ≡ suc σ.consumer.next_to_read =
        omega (arith, this.0, counter-bound p set_up σ inv) in
      consumes-Inv (read_item σ.consumer available v) (omega (arith, moved))
        (omega (arith, moved, this.0))
        (λ x h. elim (ℕ_discrete x σ.consumer.next_to_read) [
          | yes same ↦ rw same this
          | no ne ↦ inv.settled x (omega (arith, h, moved, ne))
        ])
        (rw moved (elim (Bool-cases (σ.consumer.next_to_read == available)) [
          | inl e ↦ rw e (ground arith)
          | inr e ↦ rw e (ground (arith, from), λ x low high. upto x (omega (arith, low)) high)
        ]))

  publishes-Inv :
      (available : ℕ)
      → σ.consumer.place ≡ publishing available
      → Inv p (record σ {
        mem = update σ.mem p.consumed available;
        consumer = record σ.consumer { place = waiting };
      })
  publishes-Inv available at =
      let last = rw at at inv.stands in
      let small : suc available < 2 ^ 64 =
        omega (arith, last, inv.reached, counter-bound p set_up σ inv) in
      let τ : State = record σ {
        mem = update σ.mem p.consumed available;
        consumer = record σ.consumer { place = waiting };
      } in
      let now : level τ.mem p.consumed ≡ σ.consumer.next_to_read = ground (arith, last, small) in
      let counts : counter p τ ≡ counter p σ = let ne = set_up.apart in ground arith in
      let entries : (x : ℕ) → τ.mem (entry p.claim_strategy x) ≡ σ.mem (entry p.claim_strategy x) =
        λ x. let ne = (set_up.entries_apart x).1 in ground arith in
      let onward : (x : ℕ) → Settled p σ x → Settled p τ x =
        λ x h. (omega (arith, h.0, counts), h.1) in
      let before : (x : ℕ) → Settled p τ x → Settled p σ x =
        λ x h. (omega (arith, h.0, counts), h.1) in
      record {
        words = ground (arith, small);
        begun = omega (arith, inv.begun, counts);
        rounds = inv.rounds;
        held = λ t x h. omega (arith, inv.held t x h, counts);
        single = inv.single;
        owned = λ t x h. omega (arith, inv.owned t x h, inv.passed, now);
        marked = λ x fits e. onward x (inv.marked x fits (sym (entries x) ∙ e));
        granted = λ x h. omega (arith, inv.granted x (before x h), inv.passed, now);
        passed = omega (arith, now);
        settled = λ x h. onward x (inv.settled x h);
        reached = omega (arith, inv.reached, counts);
        stands = now;
        valid = inv.valid;
        sized = inv.sized;
        stored = λ x h low. inv.stored x (before x h) (omega (arith, low, now, inv.passed));
        kept = inv.kept;
      }

  pub Step-Inv : {τ : State} → Step p σ τ → Inv p τ
  Step-Inv (fetch_add t i here at more) = fetch_add-Inv p set_up σ inv t i here at more
  Step-Inv (claim_one t i seq here at freed) = claim_one-Inv p set_up σ inv t i seq here at freed
  Step-Inv (write t i seq here at) = write-Inv p set_up σ inv t i seq here at
  Step-Inv (publish_item t i seq here at) = publish_item-Inv p set_up σ inv t i seq here at
  Step-Inv (wait available at more from marks) =
      consumes-Inv (record σ.consumer { place = reading available }) (omega arith) inv.reached
        inv.settled (from, marked-upto available marks)
  Step-Inv (read available v at got) = reads-Inv available v at
  Step-Inv (publish available at) = publishes-Inv available at
  Step-Inv (finish at none_left) =
      consumes-Inv (record σ.consumer { place = finished }) (omega arith) inv.reached inv.settled
        (rw at at inv.stands)

pub Reachable-Inv :
    (p : Sequencer) {m : Memory} {b : RingBuffer ℕ} {σ : State}
    → IsSetUp p m b
    → Reachable p m b σ
    → Inv p σ
Reachable-Inv p set_up initially = start-Inv p set_up
Reachable-Inv p set_up (next {σ} r s) = Step-Inv p set_up σ (Reachable-Inv p set_up r) s

module _ (p : Sequencer) {m : Memory} {b : RingBuffer ℕ} {σ : State} (set_up : IsSetUp p m b)
    (r : Reachable p m b σ) where
  -- Whenever the consumer is about to read the number `next_to_read`, its slot holds the item that
  -- some producer wrote for this number, and this is published.
  pub next_to_read-stored :
      (available : ℕ)
      → σ.consumer.place ≡ reading available
      → (get σ.buffer σ.consumer.next_to_read ≡ some (σ.items σ.consumer.next_to_read))
        × Settled p σ σ.consumer.next_to_read
  next_to_read-stored available at =
      let inv = Reachable-Inv p set_up r in
      let (from, upto) = rw at at inv.stands in
      let this = upto σ.consumer.next_to_read (omega arith) from in
      (inv.stored σ.consumer.next_to_read this inv.passed, this)

  -- Numbers in one window have different slots.
  window-apart :
      (x y : ℕ)
      → x ≢ y
      → (level σ.mem p.consumed ≤ x) × (x < level σ.mem p.consumed + p.claim_strategy.buffer_size)
      → (level σ.mem p.consumed ≤ y) × (y < level σ.mem p.consumed + p.claim_strategy.buffer_size)
      → slot σ.buffer x ≢ slot σ.buffer y
  window-apart x y ne hx hy e =
      let inv = Reachable-Inv p set_up r in
      elim (dec_lt x y) [
        | yes before ↦
            near-apart σ.buffer y x inv.valid before (omega (arith, hx, hy, inv.sized)) (sym e)
        | no after ↦
            near-apart σ.buffer x y inv.valid (omega (arith, ne, after))
              (omega (arith, hx, hy, inv.sized)) e
      ]

  -- Two producers that are about to write, write different slots, and none writes the slot that the
  -- consumer is about to read.
  pub writing-slots_ne :
      (t i x : ℕ)
      → σ.producers t ≡ writing i x
      → ((u j y : ℕ) → t ≢ u → σ.producers u ≡ writing j y → slot σ.buffer x ≢ slot σ.buffer y)
        × ((available : ℕ)
            → σ.consumer.place ≡ reading available
            → slot σ.buffer x ≢ slot σ.buffer σ.consumer.next_to_read)
  writing-slots_ne t i x at =
      let inv = Reachable-Inv p set_up r in
      let window : (u j y : ℕ)
          → σ.producers u ≡ writing j y
          → (level σ.mem p.consumed ≤ y)
            × (y < level σ.mem p.consumed + p.claim_strategy.buffer_size) =
        λ u j y e. (
          omega (arith, inv.passed, held-after p set_up σ inv u y (rw e refl)),
          inv.owned u y (rw e refl),
        ) in
      (
        λ u j y ne e.
            window-apart x y (λ same. ne (inv.single t u x (rw at refl) (rw e (sym same))))
              (window t i x at) (window u j y e),
        λ available place.
            let this = (next_to_read-stored available place).1 in
            window-apart x σ.consumer.next_to_read (λ same. this.1 t (rw at same)) (window t i x at)
              (inv.passed, inv.granted σ.consumer.next_to_read this),
      )
