-- ===== src/Benchmark/Sequencer/Claiming.antt =====
-- The two accesses of a producer that change the memory keep the invariant.
use disruptorplus.Common.{
  ℕ, suc, ◌<◌, ◌≡◌, ◌≢◌, refl, sym, ap, ◌∙◌, ◌⊎◌, inl, inr, true, ◌==◌, arith, ℕ_discrete,
  Bool-cases,
}
use disruptorplus.Sequence.{add_sequence}
use disruptorplus.Memory.{Memory, update}
use disruptorplus.RingBuffer.{RingBuffer}
use disruptorplus.MultiThreadedClaimStrategy.{entry}
use disruptorplus.Benchmark.Sequencer.{Sequencer, claiming, awaiting, written, State, moves}
use disruptorplus.Benchmark.Sequencer.Invariant.{
  IsSetUp, started, Holds, counter, Settled, Stands-grows, Inv,
}
use disruptorplus.Benchmark.Sequencer.Producing.{Holds-moved, total-moved, counter-bound}

module _ (p : Sequencer) {m₀ : Memory} {b₀ : RingBuffer ℕ} (set_up : IsSetUp p m₀ b₀) (σ : State)
    (inv : Inv p σ) where
  -- The producer gets the number that no other has, as the counter moves past it.
  pub fetch_add-Inv :
      (t i : ℕ)
      → t < p.producer_count
      → σ.producers t ≡ claiming i
      → i < p.iteration_count
      → Inv p (record (moves σ t (awaiting i (σ.mem p.claim_strategy.next_claimable))) {
        mem =
            update σ.mem p.claim_strategy.next_claimable
              (add_sequence (σ.mem p.claim_strategy.next_claimable) 1);
      })
  fetch_add-Inv t i here at more =
      let cell = p.claim_strategy.next_claimable in
      let c = counter p σ in
      let q = awaiting i c in
      let τ : State = record (moves σ t q) { mem = update σ.mem cell (add_sequence c 1) } in
      let grown : counter p τ ≡ suc c = ground (arith, counter-bound p set_up σ inv) in
      let unread : τ.mem p.consumed ≡ σ.mem p.consumed = let ne = set_up.apart in ground arith in
      let entries : (x : ℕ) → τ.mem (entry p.claim_strategy x) ≡ σ.mem (entry p.claim_strategy x) =
        λ x. let ne = (set_up.entries_apart x).0 in ground arith in
      let new : (k x : ℕ)
          → Holds (τ.producers k) x
          → ((k ≡ t) × (c ≡ x)) ⊎ ((k ≢ t) × Holds (σ.producers k) x) =
        λ k x h. Holds-moved σ t q k x h in
      let onward : (x : ℕ) → Settled p σ x → Settled p τ x = λ x h. (
        omega (arith, h.0, grown),
        λ k now. elim (new k x now) [
          | inl (e, same) ↦ omega (arith, same, h.0)
          | inr (ne, theirs) ↦ h.1 k theirs
        ],
      ) in
      let mine : Holds (τ.producers t) c = let e : (t == t) ≡ true = ground arith in rw e refl in
      let before : (x : ℕ) → Settled p τ x → Settled p σ x = λ x h. (
        (let ne : x ≢ c = λ same. h.1 t (rw same mine) in omega (arith, h.0, grown, ne)),
        λ k was. elim (Bool-cases (k == t)) [
          | inl e ↦ let same : k ≡ t = ground (arith, e) in (rw (same, at) at was)
          | inr e ↦ h.1 k (rw e was)
        ],
      ) in
      record {
        words = omega (arith, unread, inv.words);
        begun = omega (
          arith,
          total-moved started σ.producers t q p.producer_count here,
          inv.begun,
          grown,
          ap started at,
        );
        rounds =
            λ k. elim (Bool-cases (k == t)) [ inl e ↦ rw e more | inr e ↦ rw e (inv.rounds k) ];
        held = λ k x h. elim (new k x h) [
          | inl (e, same) ↦ omega (arith, same, grown)
          | inr (ne, theirs) ↦ omega (arith, inv.held k x theirs, grown)
        ];
        single = λ k u x h h'. elim (new k x h) [
          | inl (e, same) ↦ elim (new u x h') [
            | inl (e', same') ↦ e ∙ sym e'
            | inr (ne', theirs) ↦ absurd (omega (arith, inv.held u x theirs, same))
          ]
          | inr (ne, ours) ↦ elim (new u x h') [
            | inl (e', same') ↦ absurd (omega (arith, inv.held k x ours, same'))
            | inr (ne', theirs) ↦ inv.single k u x ours theirs
          ]
        ];
        owned = λ k x h. elim (Bool-cases (k == t)) [
          | inl e ↦ absurd (rw e at h)
          | inr e ↦ omega (arith, inv.owned k x (rw e at h), unread)
        ];
        marked = λ x fits e. onward x (inv.marked x fits (sym (entries x) ∙ e));
        granted = λ x h. omega (arith, inv.granted x (before x h), unread);
        passed = omega (arith, inv.passed, unread);
        settled = λ x h. onward x (inv.settled x h);
        reached = omega (arith, inv.reached, grown);
        stands =
            Stands-grows p σ τ σ.consumer.next_to_read (omega (arith, unread)) onward
              σ.consumer.place inv.stands;
        valid = inv.valid;
        sized = inv.sized;
        stored = λ x h low. inv.stored x (before x h) (omega (arith, low, unread));
        kept = λ k j x e. elim (Bool-cases (k == t)) [
          | inl b ↦ absurd (ground (arith, rw b at e))
          | inr b ↦ inv.kept k j x (rw b at e)
        ];
      }

  -- The number is published, and its producer holds none.
  pub publish_item-Inv :
      (t i seq : ℕ)
      → t < p.producer_count
      → σ.producers t ≡ written i seq
      → Inv p (record (moves σ t (claiming (suc i))) {
        mem = update σ.mem (entry p.claim_strategy seq) seq;
      })
  publish_item-Inv t i seq here at =
      let cell = entry p.claim_strategy seq in
      let q = claiming (suc i) in
      let τ : State = record (moves σ t q) { mem = update σ.mem cell seq } in
      let mine : Holds (σ.producers t) seq = rw at refl in
      let same_counter : counter p τ ≡ counter p σ =
        let ne = (set_up.entries_apart seq).0 in ground arith in
      let unread : τ.mem p.consumed ≡ σ.mem p.consumed =
        let ne = (set_up.entries_apart seq).1 in ground arith in
      let new : (k x : ℕ) → Holds (τ.producers k) x → (k ≢ t) × Holds (σ.producers k) x = λ k x h.
        elim (Holds-moved σ t q k x h) [
          | inl (e, none_held) ↦ absurd none_held
          | inr other ↦ other
        ] in
      let onward : (x : ℕ) → Settled p σ x → Settled p τ x =
        λ x h. (omega (arith, h.0, same_counter), λ k now. h.1 k (new k x now).1) in
      let this : Settled p τ seq = (
        omega (arith, inv.held t seq mine, same_counter),
        λ k now. let (ne, theirs) = new k seq now in ne (inv.single k t seq theirs mine),
      ) in
      let before : (x : ℕ) → x ≢ seq → Settled p τ x → Settled p σ x = λ x other h. (
        omega (arith, h.0, same_counter),
        λ k was. elim (Bool-cases (k == t)) [
          | inl e ↦
              let same : k ≡ t = ground (arith, e) in
              let it : seq ≡ x = rw (same, at) at was in other (sym it)
          | inr e ↦ h.1 k (rw e was)
        ],
      ) in
      record {
        words = omega (arith, unread, inv.words);
        begun = omega (
          arith,
          total-moved started σ.producers t q p.producer_count here,
          inv.begun,
          same_counter,
          ap started at,
        );
        rounds = λ k. elim (Bool-cases (k == t)) [
          | inl e ↦ rw e (omega (arith, inv.rounds t, ap started at))
          | inr e ↦ rw e (inv.rounds k)
        ];
        held = λ k x h. omega (arith, inv.held k x (new k x h).1, same_counter);
        single = λ k u x h h'. inv.single k u x (new k x h).1 (new u x h').1;
        owned = λ k x h. elim (Bool-cases (k == t)) [
          | inl e ↦ absurd (rw e at h)
          | inr e ↦ omega (arith, inv.owned k x (rw e at h), unread)
        ];
        marked = λ x fits e. elim (ℕ_discrete x seq) [
          | yes same ↦ rw same this
          | no other ↦ elim (ℕ_discrete (entry p.claim_strategy x) cell) [
            | yes shared ↦ let clash : seq ≡ x = ground (arith, e) in absurd (other (sym clash))
            | no apart ↦ onward x (inv.marked x fits (ground (arith, e)))
          ]
        ];
        granted = λ x h. elim (ℕ_discrete x seq) [
          | yes same ↦ rw same (omega (arith, inv.owned t seq (rw at refl), unread))
          | no other ↦ omega (arith, inv.granted x (before x other h), unread)
        ];
        passed = omega (arith, inv.passed, unread);
        settled = λ x h. onward x (inv.settled x h);
        reached = omega (arith, inv.reached, same_counter);
        stands =
            Stands-grows p σ τ σ.consumer.next_to_read (omega (arith, unread)) onward
              σ.consumer.place inv.stands;
        valid = inv.valid;
        sized = inv.sized;
        stored = λ x h low. elim (ℕ_discrete x seq) [
          | yes same ↦ rw same (inv.kept t i seq at)
          | no other ↦ inv.stored x (before x other h) (omega (arith, low, unread))
        ];
        kept = λ k j x e. elim (Bool-cases (k == t)) [
          | inl b ↦ absurd (ground (arith, rw b at e))
          | inr b ↦ inv.kept k j x (rw b at e)
        ];
      }
