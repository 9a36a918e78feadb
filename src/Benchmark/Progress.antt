-- ===== src/Benchmark/Progress.antt =====
-- The programs do not come to a halt before all items are read.
use mathlib.Core.List.{Memᴰ}
use native.Mathlib.Nat.{one-le-pow}
use disruptorplus.Common.{
  ℕ, zero, suc, ◌+◌, ◌^◌, ◌≤◌, ◌<◌, ◌≡◌, ◌≢◌, ◌⊎◌, inl, inr, refl, ap, ◌∙◌, is_neg, false, List, [],
  ◌∷◌, All, arith, dec_lt, ℕ_discrete,
}
use disruptorplus.Sequence.{difference, sub_sequence}
use disruptorplus.Memory.{Memory}
use disruptorplus.RingBuffer.{RingBuffer}
use disruptorplus.SequenceBarrierGroup.{is_empty}
use disruptorplus.SingleThreadedClaimStrategy.{needed}
use disruptorplus.Benchmark.{
  Program, Place, waiting, reading, publishing, finished, Consumer, WriterPlace, claiming, writing,
  writes_done, State, ConsumerStep, wait, read, publish, finish, Step, claim_one, write,
  publish_item, consume,
}
use disruptorplus.WaitStrategy.{MayReturn}
use disruptorplus.Benchmark.Wiring.{level, IsWired, IsOrdered}
use disruptorplus.Benchmark.Invariant.{index, index-le-top, top, Inv}
use disruptorplus.Benchmark.Consuming.{item-there, near}

-- The writer has published all, and every consumer is through.
pub record IsComplete (p : Program) (σ : State) : Type 0 where
  pub written : σ.writer ≡ claiming p.iteration_count
  pub consumed : (k : ℕ) → k < p.consumer_count → (σ.consumers k).place ≡ finished

Memᴰ-not_empty : (ls : List ℕ) (u : ℕ) → Memᴰ u ls → is_empty ls ≡ false
Memᴰ-not_empty [] u n = elim n [ ]
Memᴰ-not_empty (l ∷ ls) u n = refl

reached-MayReturn :
    (m : Memory) (x : ℕ)
    → x < 2 ^ 64
    → (ls : List ℕ) → ((l : ℕ) → Memᴰ l ls → is_neg (difference (m l) x) ≡ false)
    → MayReturn m x ls x
unfolding difference
reached-MayReturn m x small ls h = (small, ground arith, all ls h)
  where
    all :
        (ls : List ℕ)
        → ((l : ℕ) → Memᴰ l ls → is_neg (difference (m l) x) ≡ false)
        → All (λ l. is_neg (difference (m l) x) ≡ false) ls
    all [] h = tt
    all (l ∷ ls) h = (h l (Memᴰ.head refl), all ls λ k n. h k (Memᴰ.tail n))

-- Either all atomics are past `x`, or one of them is not.
past-or-behind :
    (m : Memory) (x : ℕ) (ls : List ℕ)
    → ((l : ℕ) → Memᴰ l ls → x < level m l) ⊎ ((l : ℕ) × Memᴰ l ls × (level m l ≤ x))
past-or-behind m x [] = inl λ l n. elim n [ ]
past-or-behind m x (l ∷ ls) = elim (dec_lt x (level m l)) [
  | no behind ↦ inr (l, Memᴰ.head refl, omega arith)
  | yes past ↦ elim (past-or-behind m x ls) [
    | inr (k, n, behind) ↦ inr (k, Memᴰ.tail n, behind)
    | inl rest ↦ inl (λ k n. elim n [ Memᴰ.head e ↦ rw e past | Memᴰ.tail n' ↦ rest k n' ])
  ]
]

past-near :
    (m : Memory) (l x : ℕ)
    → m l < 2 ^ 64
    → x < level m l
    → level m l ≤ x + 2 ^ 62
    → is_neg (difference (m l) x) ≡ false
unfolding difference
past-near m l x fits past near = ground arith

claim-near :
    (m : Memory) (l x size : ℕ)
    → m l < 2 ^ 64
    → x < 2 ^ 64
    → size ≤ 2 ^ 62
    → level m l ≤ x
    → x < level m l + size
    → is_neg (difference (m l) (sub_sequence x size)) ≡ false
unfolding difference
claim-near m l x size fits small short upto near = ground arith

module _ (p : Program) {b₀ : RingBuffer ℕ} (wired : IsWired p b₀) (ordered : IsOrdered p)
    (σ : State) (inv : Inv p σ) where
  abbrev CanMove : ℕ → Type 0
  CanMove k = (m : Memory) × (c : Consumer) × ConsumerStep p k σ.mem σ.buffer (σ.consumers k) m c

  -- A consumer that waits for something that is not there yet.
  abbrev IsBlocked : ℕ → Type 0
  IsBlocked k =
      ((σ.consumers k).place ≡ waiting)
      × ((σ.consumers k).items_remaining ≢ 0)
      × (u : ℕ) × Memᴰ u (p.upstream k)
      × (level σ.mem u ≤ (σ.consumers k).next_to_read)

  abbrev IsStuck : ℕ → Type 0
  IsStuck k = ((σ.consumers k).place ≡ finished) ⊎ IsBlocked k

  waiting-moves :
      (k : ℕ) → k < p.consumer_count → (σ.consumers k).place ≡ waiting → CanMove k ⊎ IsStuck k
  waiting-moves k here at =
      let own = inv.consumers k here in
      elim (ℕ_discrete (σ.consumers k).items_remaining 0) [
        | yes none_left ↦ inl (_, _, finish at none_left)
        | no more ↦ elim (past-or-behind σ.mem (σ.consumers k).next_to_read (p.upstream k)) [
          | inr (u, n, behind) ↦ inr (inr (at, more, u, n, behind))
          | inl past ↦ inl (
            _,
            _,
            wait (σ.consumers k).next_to_read at more
                (let (u, n) = wired.fed k here in Memᴰ-not_empty (p.upstream k) u n)
                (reached-MayReturn σ.mem (σ.consumers k).next_to_read
                  (omega (arith, own.remaining, wired.counted)) (p.upstream k)
                  λ u n.
                    past-near σ.mem u (σ.consumers k).next_to_read (inv.words u) (past u n)
                      (near p wired σ inv k here u)),
          )
        ]
      ]

  consumer-moves :
      (k : ℕ)
      → k < p.consumer_count
      → (at : Place) → (σ.consumers k).place ≡ at
      → CanMove k ⊎ IsStuck k
  consumer-moves k here waiting at = waiting-moves k here at
  consumer-moves k here (reading available) at = inl (
    _,
    _,
    read available (σ.consumers k).next_to_read at (item-there p wired σ inv k here available at),
  )
  consumer-moves k here (publishing available) at = inl (_, _, publish available at)
  consumer-moves k here finished at = inr (inl at)

  -- Some consumer can move, or all are stuck.
  some-moves :
      (n : ℕ)
      → n ≤ p.consumer_count
      → ((k : ℕ) × (k < p.consumer_count) × CanMove k) ⊎ ((k : ℕ) → k < n → IsStuck k)
  some-moves zero h = inr λ k below. absurd (omega arith)
  some-moves (suc n) h = elim (some-moves n (omega arith)) [
    | inl m ↦ inl m
    | inr stuck ↦ elim (consumer-moves n (omega arith) (σ.consumers n).place refl) [
      | inl m ↦ inl (n, omega arith, m)
      | inr last ↦
          inr λ k below. elim (ℕ_discrete k n) [ yes e ↦ rw e last | no ne ↦ stuck k (omega arith) ]
    ]
  ]

  -- Then every consumer has passed all that is published.
  stuck-passed :
      ((k : ℕ) → k < p.consumer_count → IsStuck k)
      → (n k : ℕ) → k < n
      → k < p.consumer_count
      → index σ.writer ≤ level σ.mem (p.barrier k)
  stuck-passed stuck zero k below here = absurd (omega arith)
  stuck-passed stuck (suc n) k below here =
      let own = inv.consumers k here in
      elim (stuck k here) [
        | inl at ↦
            let (same, all) = rw at at own.stands in
            omega (arith, same, all, inv.counted, index-le-top σ.writer)
        | inr (at, more, u, m, behind) ↦
            let same = rw at at own.stands in
            elim (ordered.sources k u here m) [
              | inl e ↦ omega (arith, rw e at behind, inv.published, same)
              | inr (j, before, e) ↦
                  omega (
                    arith,
                    rw e at behind,
                    stuck-passed stuck n j (omega arith) (omega arith),
                    same,
                  )
            ]
      ]

  stuck-finished :
      index σ.writer ≡ p.iteration_count
      → ((k : ℕ) → k < p.consumer_count → IsStuck k)
      → (k : ℕ) → k < p.consumer_count
      → (σ.consumers k).place ≡ finished
  stuck-finished all stuck k here =
      let own = inv.consumers k here in
      elim (stuck k here) [
        | inl at ↦ at
        | inr (at, more, u, m, behind) ↦
            let same = rw at at own.stands in
            absurd (
              omega (
                arith,
                stuck-passed stuck (suc k) k (omega arith) here,
                own.remaining,
                more,
                same,
                all,
              ))
      ]

  claims-return :
      (i : ℕ)
      → σ.writer ≡ claiming i
      → i < p.iteration_count
      → ((k : ℕ) → k < p.consumer_count → IsStuck k)
      → MayReturn σ.mem
          (needed σ.claim_strategy)
          σ.claim_strategy.claim_barrier.sequences
          (needed σ.claim_strategy)
  claims-return i at more stuck =
      let first = rw at at inv.writes in
      let atindex : index σ.writer ≡ i = rw at refl in
      let positive : 0 < p.claim_strategy.buffer_size =
        omega (arith, wired.valid.power, one-le-pow wired.valid.exponent 2, wired.sized) in
      reached-MayReturn σ.mem (needed σ.claim_strategy) (omega arith)
        σ.claim_strategy.claim_barrier.sequences
        λ f n.
          let (j, here, e) = ordered.claims f (rw inv.same_claims at n) in
          let passed = rw (← e) at (stuck-passed stuck (suc j) j (omega arith) here) in
          rw (first, inv.same_size)
            (claim-near σ.mem f i p.claim_strategy.buffer_size (inv.words f)
              (omega (arith, more, wired.counted)) wired.short
              (omega (arith, inv.capped f, atindex)) (omega (arith, passed, atindex, positive)))

  writer-moves :
      ((k : ℕ) → k < p.consumer_count → IsStuck k)
      → (at : WriterPlace) → σ.writer ≡ at
      → ((τ : State) × Step p σ τ) ⊎ IsComplete p σ
  writer-moves stuck (claiming i) at = elim (dec_lt i p.iteration_count) [
    | yes more ↦ inl (
      _,
      claim_one i (needed σ.claim_strategy) at more (rw inv.same_claims ordered.some_claim)
          (claims-return i at more stuck),
    )
    | no over ↦
        let atop : top σ.writer ≡ i = rw at refl in
        let atindex : index σ.writer ≡ i = rw at refl in
        let all : i ≡ p.iteration_count = omega (arith, inv.counted, atop, over) in
        inr (record {
          written = at ∙ ap claiming all;
          consumed = stuck-finished (atindex ∙ all) stuck;
        })
  ]
  writer-moves stuck (writing i seq) at = inl (_, write i seq at)
  writer-moves stuck (writes_done i seq) at = inl (_, publish_item i seq at)

  -- In a state that the invariant allows, either a thread can move or all are through.
  pub progress : ((τ : State) × Step p σ τ) ⊎ IsComplete p σ
  progress = elim (some-moves p.consumer_count (omega arith)) [
    | inl (k, here, (m, c, s)) ↦ inl (_, consume k here s)
    | inr stuck ↦ writer-moves stuck σ.writer refl
  ]
