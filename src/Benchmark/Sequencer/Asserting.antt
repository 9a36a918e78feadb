-- ===== src/Benchmark/Sequencer/Asserting.antt =====
-- The `assert` of `publish` holds in the program.
use disruptorplus.Common.{
  ℕ, suc, ◌+◌, ◌-◌, ◌%◌, ◌^◌, ◌≤◌, ◌<◌, ◌≡◌, ◌≢◌, refl, sym, ap, ◌∙◌, ◌⊎◌, inl, inr, arith, dec_lt,
  ℕ_discrete, ◌==◌, Bool-cases,
}
use native.Mathlib.Nat.{one-le-pow, mod-lt, mod-eq_of_lt, add-mod_right}
use disruptorplus.Sequence.{sub_sequence}
use disruptorplus.Memory.{Memory, update}
use disruptorplus.RingBuffer.{RingBuffer}
use disruptorplus.MultiThreadedClaimStrategy.{entry}
use disruptorplus.Benchmark.{waiting, reading, finished, Consumer, read_item}
use disruptorplus.Benchmark.Sequencer.{
  Sequencer, claiming, written, State, moves, Step, fetch_add, claim_one, write, publish_item, wait,
  read, publish, finish, Reachable, initially, next,
}
use disruptorplus.Benchmark.Sequencer.Invariant.{IsSetUp, Holds, Settled, Inv}
use disruptorplus.Benchmark.Sequencer.Entries.{same_remainder, entry-mod}
use disruptorplus.Benchmark.Sequencer.Producing.{counter-bound, held-after}
use disruptorplus.Benchmark.Sequencer.Safety.{marked-upto, Reachable-Inv}

module _ (p : Sequencer) {m₀ : Memory} {b₀ : RingBuffer ℕ} (set_up : IsSetUp p m₀ b₀) where
  -- The consumer has come to `x`, or has seen it published.
  abbrev Seen : Consumer → ℕ → Type 0
  Seen c x =
      (x < c.next_to_read) ⊎ ((available : ℕ) × (c.place ≡ reading available) × (x ≤ available))

  -- What stands in the entry of a number.
  record Marks (σ : State) : Type 0 where
    value :
        (x : ℕ)
        → ((σ.mem (entry p.claim_strategy x) ≤ 2 ^ 62)
            × (σ.mem (entry p.claim_strategy x) % p.claim_strategy.buffer_size
                ≡ x % p.claim_strategy.buffer_size))
          ⊎ (σ.mem (entry p.claim_strategy x)
              ≡ sub_sequence (x % p.claim_strategy.buffer_size) p.claim_strategy.buffer_size)
    least :
        (x : ℕ)
        → Seen σ.consumer x
        → (x ≤ σ.mem (entry p.claim_strategy x)) × (σ.mem (entry p.claim_strategy x) ≤ 2 ^ 62)

  module _ (σ : State) (inv : Inv p σ) (marks : Marks σ) where
    positive : 0 < p.claim_strategy.buffer_size
    positive = omega (arith, set_up.valid.power, one-le-pow set_up.valid.exponent 2, set_up.sized)

    -- A small number in an entry is settled.
    small-Settled :
        (x : ℕ)
        → σ.mem (entry p.claim_strategy x) ≤ 2 ^ 62
        → σ.mem (entry p.claim_strategy x) % p.claim_strategy.buffer_size
          ≡ x % p.claim_strategy.buffer_size
        → Settled p σ (σ.mem (entry p.claim_strategy x))
    small-Settled x small same =
        let v = σ.mem (entry p.claim_strategy x) in
        let one : entry p.claim_strategy v ≡ entry p.claim_strategy x =
          entry-mod p set_up v
          ∙ ap (λ (j : ℕ). p.claim_strategy.published + j) same
          ∙ sym (entry-mod p set_up x) in
        inv.marked v small (ap σ.mem one)

    -- It is not the number that a producer holds, nor one after it.
    small-lt :
        (t seq : ℕ)
        → Holds (σ.producers t) seq
        → seq ≤ σ.mem (entry p.claim_strategy seq) + p.claim_strategy.buffer_size
        → σ.mem (entry p.claim_strategy seq) ≤ 2 ^ 62
        → σ.mem (entry p.claim_strategy seq) % p.claim_strategy.buffer_size
          ≡ seq % p.claim_strategy.buffer_size
        → σ.mem (entry p.claim_strategy seq) < seq
    small-lt t seq mine low small same =
        let size = p.claim_strategy.buffer_size in
        let v = σ.mem (entry p.claim_strategy seq) in
        let settled = small-Settled seq small same in
        let from = held-after p set_up σ inv t seq mine in
        let ne : v ≢ seq = λ e. settled.1 t (rw e mine) in
        let near = inv.granted v settled in
        elim (dec_lt v seq) [
          | yes before ↦ before
          | no after ↦ absurd (
              ne (
                same_remainder v seq size same (omega (arith, near, inv.passed, from))
                  (omega (arith, after, positive))))
        ]

    -- Before a producer publishes, the entry holds the number a buffer's length before its own.
    written-entry :
        (t i seq : ℕ)
        → σ.producers t ≡ written i seq
        → σ.mem (entry p.claim_strategy seq) ≡ sub_sequence seq p.claim_strategy.buffer_size
    written-entry t i seq at =
        let size = p.claim_strategy.buffer_size in
        let v = σ.mem (entry p.claim_strategy seq) in
        let mine : Holds (σ.producers t) seq = rw at refl in
        let owns = inv.owned t seq (rw at refl) in
        let limit = counter-bound p set_up σ inv in
        let claimed = inv.held t seq mine in
        elim (dec_lt seq size) [
          | yes first ↦ elim (marks.value seq) [
            | inr e ↦ e ∙ ap (λ (j : ℕ). sub_sequence j size) (mod-eq_of_lt first)
            | inl (small, same) ↦
                let less = small-lt t seq mine (omega (arith, first)) small same in
                absurd (
                  omega (
                    arith,
                    less,
                    same_remainder v seq size same (omega (arith, less, positive))
                        (omega (arith, first)),
                  ))
          ]
          | no later ↦
              let before : ℕ = seq - size in
              let behind : before < σ.consumer.next_to_read =
                omega (arith, owns, inv.passed, later, positive) in
              let rem : before % size ≡ seq % size =
                sym (add-mod_right before size) ∙ ap (λ (j : ℕ). j % size) (omega (arith, later)) in
              let shared : entry p.claim_strategy before ≡ entry p.claim_strategy seq =
                entry-mod p set_up before
                ∙ ap (λ (j : ℕ). p.claim_strategy.published + j) rem
                ∙ sym (entry-mod p set_up seq) in
              let (low, small) = rw shared at (marks.least before (inl behind)) in
              elim (marks.value seq) [
                | inr e ↦
                    absurd (omega (arith, e, small, mod-lt seq positive, set_up.short, positive))
                | inl (fits, same) ↦
                    let less = small-lt t seq mine (omega (arith, low)) small same in
                    let equal : v ≡ before =
                      same_remainder v before size (same ∙ sym rem) (omega (arith, less, later))
                        (omega (arith, low, positive)) in
                    equal ∙ omega (arith, later, claimed, limit)
              ]
        ]

    -- The steps that change no entry, and after which the consumer has seen no more.
    same-Marks :
        (τ : State)
        → ((x : ℕ) → τ.mem (entry p.claim_strategy x) ≡ σ.mem (entry p.claim_strategy x))
        → ((x : ℕ) → Seen τ.consumer x → Seen σ.consumer x)
        → Marks τ
    same-Marks τ entries before = record {
      value = λ x. rw (entries x) (marks.value x);
      least = λ x h. rw (entries x) (marks.least x (before x h));
    }

    wait-Marks :
        (available : ℕ)
        → ((x : ℕ)
            → σ.consumer.next_to_read ≤ x
            → x ≤ available
            → σ.mem (entry p.claim_strategy x) ≡ x)
        → Marks (record σ { consumer = record σ.consumer { place = reading available } })
    wait-Marks available published = record {
      value = marks.value;
      least = λ x h. elim (dec_lt x σ.consumer.next_to_read) [
        | yes past ↦ marks.least x (inl past)
        | no on ↦
            let upto : x ≤ available = elim h [
              | inl past ↦ absurd (on past)
              | inr (a, e, under) ↦
                  let same : available ≡ a = ground (arith, e) in omega (arith, under, same)
            ] in
            let marked = published x (omega (arith, on)) upto in
            let settled =
              marked-upto p set_up σ inv available published x (omega (arith, on)) upto in
            let limit = counter-bound p set_up σ inv in
            (omega (arith, marked), omega (arith, marked, settled.0, limit))
      ];
    }

    reads-Seen :
        (available v x : ℕ)
        → σ.consumer.place ≡ reading available
        → Seen (read_item σ.consumer available v) x
        → Seen σ.consumer x
    unfolding read_item
    reads-Seen available v x at h =
        let (from, upto) = rw at at inv.stands in
        let limit = counter-bound p set_up σ inv in
        let this = upto σ.consumer.next_to_read (omega arith) from in
        elim h [
          | inl past ↦ elim (dec_lt x σ.consumer.next_to_read) [
            | yes before ↦ inl before
            | no now ↦ inr (available, at, omega (arith, past, now, from, this.0, limit))
          ]
          | inr (a, e, under) ↦ elim (Bool-cases (σ.consumer.next_to_read == available)) [
            | inl c ↦ absurd (ground (arith, rw c at e))
            | inr c ↦
                let same : available ≡ a = ground (arith, rw c at e) in
                inr (available, at, omega (arith, under, same))
          ]
        ]

    -- No number that shares the entry and comes later has been seen.
    Seen-before :
        (x seq t : ℕ)
        → Holds (σ.producers t) seq
        → seq % p.claim_strategy.buffer_size ≡ x % p.claim_strategy.buffer_size
        → Seen σ.consumer x
        → x ≤ seq
    Seen-before x seq t mine same h =
        let from = held-after p set_up σ inv t seq mine in
        elim (dec_lt seq x) [
          | no upto ↦ omega arith
          | yes after ↦ elim h [
            | inl past ↦ absurd (omega (arith, past, after, from))
            | inr (a, place, under) ↦
                let settled = (rw place at inv.stands).1 x (omega (arith, from, after)) under in
                let near = inv.granted x settled in
                absurd (
                  omega (
                    arith,
                    after,
                    same_remainder x seq p.claim_strategy.buffer_size (sym same)
                        (omega (arith, near, inv.passed, from)) (omega (arith, after)),
                  ))
          ]
        ]

    publish_item-Marks :
        (t i seq : ℕ)
        → σ.producers t ≡ written i seq
        → Marks (record (moves σ t (claiming (suc i))) {
          mem = update σ.mem (entry p.claim_strategy seq) seq;
        })
    publish_item-Marks t i seq at =
        let mine : Holds (σ.producers t) seq = rw at refl in
        let cell = entry p.claim_strategy seq in
        let limit = counter-bound p set_up σ inv in
        let fits : seq ≤ 2 ^ 62 = omega (arith, inv.held t seq mine, limit) in
        let shared : (x : ℕ)
            → entry p.claim_strategy x ≡ cell
            → seq % p.claim_strategy.buffer_size ≡ x % p.claim_strategy.buffer_size =
          λ x e. omega (arith, e, entry-mod p set_up x, entry-mod p set_up seq) in
        let here : (l : ℕ) → l ≡ cell → update σ.mem cell seq l ≡ seq = λ l e. ground arith in
        let there : (l : ℕ) → l ≢ cell → update σ.mem cell seq l ≡ σ.mem l = λ l e. ground arith in
        record {
          value = λ x. elim (ℕ_discrete (entry p.claim_strategy x) cell) [
            | yes e ↦ inl (rw (here (entry p.claim_strategy x) e) (fits, shared x e))
            | no ne ↦ rw (there (entry p.claim_strategy x) ne) (marks.value x)
          ];
          least = λ x h. elim (ℕ_discrete (entry p.claim_strategy x) cell) [
            | yes e ↦
                rw (here (entry p.claim_strategy x) e)
                  (Seen-before x seq t mine (shared x e) h, fits)
            | no ne ↦ rw (there (entry p.claim_strategy x) ne) (marks.least x h)
          ];
        }

    Step-Marks : {τ : State} → Step p σ τ → Marks τ
    Step-Marks (fetch_add t i here at more) =
        same-Marks _ (λ x. let ne = (set_up.entries_apart x).0 in ground arith) λ x h. h
    Step-Marks (claim_one t i seq here at freed) = same-Marks _ (λ x. refl) λ x h. h
    Step-Marks (write t i seq here at) = same-Marks _ (λ x. refl) λ x h. h
    Step-Marks (publish_item t i seq here at) = publish_item-Marks t i seq at
    Step-Marks (wait available at more from published) = wait-Marks available published
    Step-Marks (read available v at got) =
        same-Marks _ (λ x. refl) λ x h. reads-Seen available v x at h
    Step-Marks (publish available at) =
        same-Marks
          (record σ {
            mem = update σ.mem p.consumed available;
            consumer = record σ.consumer { place = waiting };
          })
          (λ x. let ne = (set_up.entries_apart x).1 in ground arith)
          λ x h. elim h [ inl past ↦ inl past | inr (a, e, under) ↦ absurd (ground (arith, e)) ]
    Step-Marks (finish at none_left) =
        same-Marks (record σ { consumer = record σ.consumer { place = finished } }) (λ x. refl)
          λ x h. elim h [ inl past ↦ inl past | inr (a, e, under) ↦ absurd (ground (arith, e)) ]

  Reachable-Marks : {σ : State} → Reachable p m₀ b₀ σ → Marks σ
  Reachable-Marks initially = record {
    value = λ x. inr (set_up.initial x);
    least = λ x h. elim h [
      | inl past ↦ absurd (omega (arith, past))
      | inr (a, e, under) ↦ absurd (ground (arith, e))
    ];
  }
  Reachable-Marks (next {σ} r s) = Step-Marks σ (Reachable-Inv p set_up r) (Reachable-Marks r) s

  -- Whenever a producer is about to publish, the entry of its number holds the number a buffer's
  -- length before it, so that the assert in `publish` passes.
  pub written-assert :
      {σ : State}
      → Reachable p m₀ b₀ σ
      → (t i seq : ℕ) → σ.producers t ≡ written i seq
      → σ.mem (entry p.claim_strategy seq) ≡ sub_sequence seq p.claim_strategy.buffer_size
  written-assert {σ} r = written-entry σ (Reachable-Inv p set_up r) (Reachable-Marks r)
