-- ===== src/Benchmark/Sequencer/Producing.antt =====
-- The steps of the producers keep the invariant.
use disruptorplus.Common.{
  ℕ, zero, suc, ◌+◌, ◌*◌, ◌%◌, ◌^◌, ◌≤◌, ◌<◌, ◌≡◌, ◌≢◌, refl, sym, ◌∙◌, ◌⊎◌, inl, inr, some, true,
  false, if◌then◌else◌, ◌==◌, arith, dec_lt, ℕ_discrete, Bool-cases, is_neg,
}
use disruptorplus.Sequence.{difference, sub_sequence}
use disruptorplus.Memory.{Memory}
use disruptorplus.RingBuffer.{RingBuffer, get, put}
use disruptorplus.RingBuffer.Slots.{IsValid, get-put, slot-eq-mod}
use disruptorplus.Benchmark.Preserving.{near-apart, get-put_self}
use disruptorplus.Benchmark.Wiring.{level}
use disruptorplus.Benchmark.Sequencer.{
  Sequencer, ProducerPlace, awaiting, writing, written, State, moves, Passed,
}
use disruptorplus.Benchmark.Sequencer.Invariant.{
  IsSetUp, started, Holds, Owns, total, counter, Settled, Stands-grows, Inv,
}

-- Two numbers of one window of the buffer's length share no slot.
pub put-other :
    (b : RingBuffer ℕ) (low seq x v : ℕ)
    → IsValid b
    → x ≢ seq
    → (low ≤ x) × (x < low + b.size)
    → (low ≤ seq) × (seq < low + b.size)
    → get (put b seq v) x ≡ get b x
put-other b low seq x v valid ne hx hs =
    let apart : seq % b.size ≢ x % b.size = λ same.
      let (es, _) = slot-eq-mod b seq valid in
      let (ex, _) = slot-eq-mod b x valid in
      elim (dec_lt x seq) [
        | yes before ↦ near-apart b seq x valid before (omega (arith, hx, hs)) (es ∙ same ∙ sym ex)
        | no after ↦
            near-apart b x seq valid (omega (arith, ne, after)) (omega (arith, hx, hs))
              (ex ∙ sym same ∙ sym es)
      ] in
    ground (arith, (get-put b seq x v valid).0, apart)

pub total-others :
    {A : Type 0} (g : A → ℕ) (f : ℕ → A) (t : ℕ) (q : A) (n : ℕ)
    → n ≤ t
    → total n (λ k. g (if k == t then q else f k)) ≡ total n (λ k. g (f k))
total-others g f t q zero h = refl
total-others g f t q (suc n) h =
    let e : (n == t) ≡ false = ground arith in rw (e, total-others g f t q n (omega arith)) refl

-- The sum over all, after one has changed.
pub total-moved :
    {A : Type 0} (g : A → ℕ) (f : ℕ → A) (t : ℕ) (q : A) (n : ℕ)
    → t < n
    → total n (λ k. g (if k == t then q else f k)) + g (f t) ≡ total n (λ k. g (f k)) + g q
total-moved g f t q zero h = absurd (omega arith)
total-moved g f t q (suc n) h = elim (ℕ_discrete t n) [
  | yes same ↦
      let e : (n == t) ≡ true = ground arith in
      rw (e, same) (omega (arith, rw same at (total-others g f t q n (omega arith))))
  | no ne ↦
      let e : (n == t) ≡ false = ground arith in
      rw e (omega (arith, total-moved g f t q n (omega arith)))
]

pub total-bound : (f : ℕ → ℕ) (c : ℕ) → ((k : ℕ) → f k ≤ c) → (n : ℕ) → total n f ≤ c * n
total-bound f c h zero = omega arith
total-bound f c h (suc n) = grind (arith, total-bound f c h n, h n)

-- What is held after one producer has moved.
pub Holds-moved :
    (σ : State) (t : ℕ) (q : ProducerPlace) (k x : ℕ)
    → Holds ((moves σ t q).producers k) x
    → ((k ≡ t) × Holds q x) ⊎ ((k ≢ t) × Holds (σ.producers k) x)
Holds-moved σ t q k x h = elim (Bool-cases (k == t)) [
  | inl e ↦ inl (ground arith, rw e at h)
  | inr e ↦ inr (λ same. ground arith, rw e at h)
]

-- A wait for the number a buffer's length before `x` has freed the slot of `x`.
passed-level :
    (m : Memory) (l x size : ℕ)
    → m l < 2 ^ 64
    → x ≤ 2 ^ 62
    → size ≤ 2 ^ 62
    → level m l ≤ x
    → is_neg (difference (m l) (sub_sequence x size)) ≡ false
    → x < level m l + size
unfolding difference
passed-level m l x size fits small short upto h = ground arith

module _ (p : Sequencer) {m₀ : Memory} {b₀ : RingBuffer ℕ} (set_up : IsSetUp p m₀ b₀) (σ : State)
    (inv : Inv p σ) where
  pub counter-bound : counter p σ ≤ 2 ^ 62
  counter-bound = omega (
    arith,
    inv.begun,
    total-bound (λ t. started (σ.producers t)) p.iteration_count inv.rounds p.producer_count,
    set_up.counted,
  )

  -- What a producer holds, the consumer has not come to.
  pub held-after : (t x : ℕ) → Holds (σ.producers t) x → σ.consumer.next_to_read ≤ x
  held-after t x h = elim (dec_lt x σ.consumer.next_to_read) [
    | yes before ↦ absurd ((inv.settled x before).1 t h)
    | no after ↦ omega arith
  ]

  -- A producer goes on without claiming or publishing, and with the memory as it is.
  goes_on-Inv :
      (t : ℕ) (q : ProducerPlace)
      → t < p.producer_count
      → started q ≡ started (σ.producers t)
      → ((x : ℕ) → Holds q x → Holds (σ.producers t) x)
      → ((x : ℕ) → Holds (σ.producers t) x → Holds q x)
      → ((x : ℕ) → Owns q x → x < level σ.mem p.consumed + p.claim_strategy.buffer_size)
      → (b : RingBuffer ℕ) (items : ℕ → ℕ) → IsValid b × (b.size ≡ p.claim_strategy.buffer_size)
      → ((x : ℕ) → Settled p σ x → level σ.mem p.consumed ≤ x → get b x ≡ some (items x))
      → ((k i x : ℕ) → (moves σ t q).producers k ≡ written i x → get b x ≡ some (items x))
      → Inv p (record (moves σ t q) { buffer = b; items = items })
  goes_on-Inv t q here same back on owns b items sound stored kept =
      let old : (k x : ℕ) → Holds ((moves σ t q).producers k) x → Holds (σ.producers k) x = λ k x h.
        elim (Holds-moved σ t q k x h) [
          | inl (e, mine) ↦ rw e (back x mine)
          | inr (ne, theirs) ↦ theirs
        ] in
      let new : (k x : ℕ) → Holds (σ.producers k) x → Holds ((moves σ t q).producers k) x = λ k x h.
        elim (Bool-cases (k == t)) [
          | inl e ↦ let mine : k ≡ t = ground (arith, e) in rw e (on x (rw mine at h))
          | inr e ↦ rw e h
        ] in
      let onward : (x : ℕ)
          → Settled p σ x
          → Settled p (record (moves σ t q) { buffer = b; items = items }) x =
        λ x h. (h.0, λ k now. h.1 k (old k x now)) in
      let before : (x : ℕ)
          → Settled p (record (moves σ t q) { buffer = b; items = items }) x
          → Settled p σ x =
        λ x h. (h.0, λ k now. h.1 k (new k x now)) in
      record {
        words = inv.words;
        begun =
            omega
              (arith, total-moved started σ.producers t q p.producer_count here, same, inv.begun);
        rounds = λ k. elim (Bool-cases (k == t)) [
          | inl e ↦ rw e (omega (arith, same, inv.rounds t))
          | inr e ↦ rw e (inv.rounds k)
        ];
        held = λ k x h. inv.held k x (old k x h);
        single = λ k u x h h'. inv.single k u x (old k x h) (old u x h');
        owned = λ k x h. elim (Bool-cases (k == t)) [
          | inl e ↦ owns x (rw e at h)
          | inr e ↦ inv.owned k x (rw e at h)
        ];
        marked = λ x fits e. onward x (inv.marked x fits e);
        granted = λ x h. inv.granted x (before x h);
        passed = inv.passed;
        settled = λ x h. onward x (inv.settled x h);
        reached = inv.reached;
        stands =
            Stands-grows p σ (record (moves σ t q) { buffer = b; items = items })
              σ.consumer.next_to_read refl onward σ.consumer.place inv.stands;
        valid = sound.0;
        sized = sound.1;
        stored = λ x h. stored x (before x h);
        kept = kept;
      }

  pub claim_one-Inv :
      (t i seq : ℕ)
      → t < p.producer_count
      → σ.producers t ≡ awaiting i seq
      → Passed σ.mem
          (sub_sequence seq p.claim_strategy.buffer_size)
          p.claim_strategy.claim_barrier.sequences
      → Inv p (moves σ t (writing i seq))
  claim_one-Inv t i seq here at freed =
      let mine : Holds (σ.producers t) seq = rw at refl in
      let room : seq < level σ.mem p.consumed + p.claim_strategy.buffer_size =
        passed-level σ.mem p.consumed seq p.claim_strategy.buffer_size inv.words
          (omega (arith, inv.held t seq mine, counter-bound)) set_up.short
          (omega (arith, inv.passed, held-after t seq mine)) (rw set_up.claims at freed).0 in
      goes_on-Inv t (writing i seq) here (rw at refl) (λ x h. rw at h) (λ x h. rw at at h)
        (λ x e. rw e at room) σ.buffer σ.items (inv.valid, inv.sized) inv.stored
        λ k j x e. elim (Bool-cases (k == t)) [
          | inl c ↦ absurd (ground (arith, rw c at e))
          | inr c ↦ inv.kept k j x (rw c at e)
        ]

  pub write-Inv :
      (t i seq : ℕ)
      → t < p.producer_count
      → σ.producers t ≡ writing i seq
      → Inv p (record (moves σ t (written i seq)) {
        buffer = put σ.buffer seq i;
        items = λ x. if x == seq then i else σ.items x;
      })
  unfolding put
  write-Inv t i seq here at =
      let mine : Holds (σ.producers t) seq = rw at refl in
      let owns : seq < level σ.mem p.consumed + p.claim_strategy.buffer_size =
        inv.owned t seq (rw at refl) in
      let from = held-after t seq mine in
      let apart =
        λ (x : ℕ) (ne : x ≢ seq) (low : level σ.mem p.consumed ≤ x)
            (high : x < level σ.mem p.consumed + p.claim_strategy.buffer_size)
            (stored : get σ.buffer x ≡ some (σ.items x)).
          let e : (x == seq) ≡ false = ground arith in
          let kept =
            put-other σ.buffer (level σ.mem p.consumed) seq x i inv.valid ne
              (low, omega (arith, high, inv.sized))
              (omega (arith, inv.passed, from), omega (arith, owns, inv.sized)) in
          let r : get (put σ.buffer seq i) x ≡ some (if x == seq then i else σ.items x) =
            rw e (kept ∙ stored) in
          r in
      goes_on-Inv t (written i seq) here (rw at refl) (λ x h. rw at h) (λ x h. rw at at h)
        (λ x e. rw e at owns) (put σ.buffer seq i) (λ x. if x == seq then i else σ.items x)
        ((get-put σ.buffer seq seq i inv.valid).1, inv.sized)
        (λ x h low.
          apart x (λ same. h.1 t (rw same mine)) low (inv.granted x h) (inv.stored x h low))
        λ k j x e. elim (Bool-cases (k == t)) [
          | inl c ↦
              let same : seq ≡ x = ground (arith, rw c at e) in
              let self : (seq == seq) ≡ true = ground arith in
              rw (← same, self) (get-put_self σ.buffer seq i inv.valid)
          | inr c ↦
              let theirs = rw c at e in
              let held : Holds (σ.producers k) x = rw theirs refl in
              apart x
                (λ same.
                  let one : k ≡ t = inv.single k t x held (rw same mine) in ground (arith, c))
                (omega (arith, inv.passed, held-after k x held)) (inv.owned k x (rw theirs refl))
                (inv.kept k j x theirs)
        ]
