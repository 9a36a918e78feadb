-- ===== src/MultiThreadedClaimStrategy/Exchanging.antt =====
-- The attempts to claim change the memory by one exchange of the counter, and only where they
-- succeed: all else in it is what the other threads make of it.
use disruptorplus.Common.{
  ℕ, zero, suc, ◌≡◌, refl, ◌⊎◌, inl, inr, Bool, true, false, is_neg, ◌==◌, if◌then◌else◌,
  Bool-cases, List, ◌∷◌, arith,
}
use disruptorplus.Sequence.{add_sequence, difference, sub_sequence}
use disruptorplus.Memory.{
  Environment, World, Action, pure, arrive, update, compare_exchange_weak, ◌>>=◌,
}
use disruptorplus.Minimum.{minimum_sequence_after}
use disruptorplus.Minimum.Looking.{
  OnlyLooks, at_once, look, OnlyLooks-trans, Looks, minimum_sequence-Looks,
  minimum_sequence_after-Looks,
}
use disruptorplus.SequenceRange.{SequenceRange, end}
use disruptorplus.SequenceBarrierGroup
use disruptorplus.WaitStrategy.{WaitStrategy, Partly, Partly-bind, Partly-map}
use disruptorplus.MultiThreadedClaimStrategy.{
  MultiThreadedClaimStrategy, try_claim_loop, try_claim, published_until, try_claim_until_loop,
  try_claim_until,
}

-- What this thread has done to the memory since `v`: where the attempt has claimed a range, it has
-- stored the range's end in the counter, having found the range's beginning there; else nothing.
abbrev pub ByOneExchange :
    (env : Environment) (cs : MultiThreadedClaimStrategy) (v : World)
    → Bool × SequenceRange
    → World
    → Type 0
ByOneExchange env cs v t w' =
    ((t.0 ≡ false) × OnlyLooks env v w')
    ⊎ ((t.0 ≡ true)
        × (u : World) × OnlyLooks env v u
        × (u.mem cs.next_claimable ≡ t.1.first)
        × (w' ≡ record u { mem = update u.mem cs.next_claimable (end t.1) }))

module _ (env : Environment) (cs : MultiThreadedClaimStrategy) (v : World)
    (range : SequenceRange) where
  -- One round of either loop.
  exchange-ByOneExchange :
      (sequence count : ℕ) (w : World) (again : ℕ → Action (Bool × SequenceRange))
      → OnlyLooks env v w
      → ((sequence' : ℕ) (w' : World)
          → OnlyLooks env v w'
          → Partly (ByOneExchange env cs v) (again sequence' w'))
      → Partly (ByOneExchange env cs v) (
          (compare_exchange_weak env cs.next_claimable sequence (add_sequence sequence count)
              >>= λ t.
                  if t.0 then pure (true, record { first = sequence; size = count }) else again t.1)
            w)
  unfolding end
  exchange-ByOneExchange sequence count w again p next = elim (Bool-cases (env.spurious w.tick)) [
    | inl s ↦ rw (◌>>=◌, compare_exchange_weak, s) (next _ (arrive env w) (look p))
    | inr s ↦ elim (Bool-cases ((arrive env w).mem cs.next_claimable == sequence)) [
      | inl here ↦
          rw (◌>>=◌, compare_exchange_weak, s, here)
            (inr (refl, arrive env w, look p, ground arith, refl))
      | inr away ↦ rw (◌>>=◌, compare_exchange_weak, s, away) (next _ (arrive env w) (look p))
    ]
  ]

module _ (env : Environment) (ws : WaitStrategy) (cs : MultiThreadedClaimStrategy) {l : ℕ}
    {ls : List ℕ} (barriers : cs.claim_barrier.sequences ≡ l ∷ ls) (v : World)
    (range : SequenceRange) where
  last_published-Looks :
      (w : World) → Looks env (SequenceBarrierGroup.last_published env ws cs.claim_barrier) w
  unfolding SequenceBarrierGroup.last_published
  last_published-Looks w = rw (barriers, ◌>>=◌, barriers) (minimum_sequence-Looks env l ls w)

  try_claim_loop-ByOneExchange :
      (fuel published count sequence : ℕ) (w : World)
      → OnlyLooks env v w
      → Partly
          (ByOneExchange env cs v)
          (try_claim_loop env ws cs fuel published range count sequence w)
  unfolding try_claim_loop
  try_claim_loop-ByOneExchange zero published count sequence w p = tt
  try_claim_loop-ByOneExchange (suc fuel) published count sequence w p =
      elim (Bool-cases (is_neg (difference published sequence))) [
        | inl e ↦ rw e (inl (refl, p))
        | inr e ↦ rw e (
            exchange-ByOneExchange env cs v range sequence _ w _ p
              (λ sequence' w' q. try_claim_loop-ByOneExchange fuel published _ sequence' w' q))
      ]

  pub try_claim-ByOneExchange :
      (fuel count : ℕ) → Partly (ByOneExchange env cs v) (try_claim env ws cs fuel count range v)
  unfolding try_claim
  try_claim-ByOneExchange fuel count =
      Partly-bind (ByOneExchange env cs v)
        (SequenceBarrierGroup.last_published env ws cs.claim_barrier) _ v
        (λ r w p. try_claim_loop-ByOneExchange fuel _ count _ (arrive env w) (look p))
        (last_published-Looks v)

  module _ (deadline : ℕ)
      (waits : (s : ℕ) (w : World) → Looks env (ws.wait_until s (l ∷ ls) deadline) w) where
    asks-Looks :
        (s : ℕ) (w : World)
        → Looks env
            (SequenceBarrierGroup.wait_until_published_until env ws cs.claim_barrier s deadline)
            w
    unfolding SequenceBarrierGroup.wait_until_published_until
    asks-Looks s w =
        rw (barriers, ◌>>=◌, barriers)
          (Partly-bind (λ _ w'. OnlyLooks env w w') (minimum_sequence_after env s (l ∷ ls)) _ w
            (λ r w₁ q. elim (Bool-cases (is_neg (difference r s))) [
              | inr e ↦ rw e q
              | inl e ↦
                  rw (e, barriers)
                    (Partly-map {P = λ _ w'. OnlyLooks env w₁ w'}
                      (ws.wait_until s (l ∷ ls) deadline w₁) (λ _ w' q'. OnlyLooks-trans env q q')
                      (waits s w₁))
            ])
            (minimum_sequence_after-Looks env s l ls w))

    published_until-Looks :
        (published sequence : ℕ) (w : World)
        → Looks env (published_until env ws cs deadline published sequence) w
    unfolding published_until
    published_until-Looks published sequence w =
        elim (Bool-cases (is_neg (difference published sequence))) [
          | inr e ↦ rw e at_once
          | inl e ↦ rw e (
              Partly-bind (λ _ w'. OnlyLooks env w w')
                (SequenceBarrierGroup.wait_until_published_until env ws cs.claim_barrier
                  (sub_sequence sequence cs.buffer_size) deadline)
                _ w (λ r w' q. q) (asks-Looks (sub_sequence sequence cs.buffer_size) w))
        ]

    try_claim_until_loop-ByOneExchange :
        (fuel count published sequence : ℕ) (w : World)
        → OnlyLooks env v w
        → Partly
            (ByOneExchange env cs v)
            (try_claim_until_loop env ws cs fuel count deadline range published sequence w)
    unfolding try_claim_until_loop
    try_claim_until_loop-ByOneExchange zero count published sequence w p = tt
    try_claim_until_loop-ByOneExchange (suc fuel) count published sequence w p =
        Partly-bind (ByOneExchange env cs v) (published_until env ws cs deadline published sequence)
          _ w
          (λ published' w₁ q. elim (Bool-cases (is_neg (difference published' sequence))) [
            | inl e ↦ rw e (inl (refl, OnlyLooks-trans env p q))
            | inr e ↦ rw e (
                exchange-ByOneExchange env cs v range sequence _ w₁ _ (OnlyLooks-trans env p q)
                  (λ sequence' w' q'.
                    try_claim_until_loop-ByOneExchange fuel count published' sequence' w' q'))
          ])
          (published_until-Looks published sequence w)

    pub try_claim_until-ByOneExchange :
        (fuel count : ℕ)
        → Partly (ByOneExchange env cs v) (try_claim_until env ws cs fuel count range deadline v)
    unfolding try_claim_until
    try_claim_until-ByOneExchange fuel count =
        Partly-bind (ByOneExchange env cs v)
          (SequenceBarrierGroup.last_published env ws cs.claim_barrier) _ v
          (λ r w p. try_claim_until_loop-ByOneExchange fuel count _ _ (arrive env w) (look p))
          (last_published-Looks v)
