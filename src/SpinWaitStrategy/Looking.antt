-- ===== src/SpinWaitStrategy/Looking.antt =====
-- The wait with a deadline only looks at the memory and at the clock.
use disruptorplus.Common.{ℕ, zero, suc, List, ◌∷◌, is_neg, Bool-cases, inl, inr}
use disruptorplus.Sequence.{difference}
use disruptorplus.Memory.{Environment, World}
use disruptorplus.Minimum.{minimum_sequence_after}
use disruptorplus.Minimum.Looking.{
  OnlyLooks, at_once, look, OnlyLooks-trans, Looks, minimum_sequence_after-Looks,
}
use disruptorplus.SpinWait.{SpinWait, spin_once, reset, next_spin_will_yield}
use disruptorplus.WaitStrategy.{Partly, Partly-bind}
use disruptorplus.SpinWaitStrategy.{out_of_time, wait_until_loop, wait_until}

module _ (env : Environment) (concurrency s deadline l : ℕ) (ls : List ℕ) where
  out_of_time-Looks :
      (spinner : SpinWait) (w : World) → Looks env (out_of_time env concurrency spinner deadline) w
  unfolding out_of_time
  out_of_time-Looks spinner w = elim (Bool-cases (next_spin_will_yield spinner)) [
    | inl e ↦ rw e (look at_once)
    | inr e ↦ rw e at_once
  ]

  wait_until_loop-Looks :
      (fuel : ℕ) (spinner : SpinWait) (r : ℕ) (v w : World)
      → OnlyLooks env v w
      → Partly
          (λ _ w'. OnlyLooks env v w')
          (wait_until_loop env concurrency fuel s (l ∷ ls) deadline spinner r w)
  unfolding wait_until_loop
  wait_until_loop-Looks zero spinner r v w p = elim (Bool-cases (is_neg (difference r s))) [
    | inl e ↦ rw e tt
    | inr e ↦ rw e p
  ]
  wait_until_loop-Looks (suc fuel) spinner r v w p = elim (Bool-cases (is_neg (difference r s))) [
    | inr e ↦ rw (e, wait_until_loop) p
    | inl e ↦
        rw (e, wait_until_loop)
          (Partly-bind (λ _ w'. OnlyLooks env v w') (out_of_time env concurrency spinner deadline) _
            w
            (λ late w₁ q. elim (Bool-cases late) [
              | inl yes_late ↦ rw yes_late (OnlyLooks-trans env p q)
              | inr in_time ↦ rw in_time (
                  Partly-bind (λ _ w'. OnlyLooks env v w') (minimum_sequence_after env s (l ∷ ls)) _
                    w₁
                    (λ r' w₂ q'.
                      wait_until_loop-Looks fuel (spin_once spinner).1 r' v w₂
                        (OnlyLooks-trans env (OnlyLooks-trans env p q) q'))
                    (minimum_sequence_after-Looks env s l ls w₁))
            ])
            (out_of_time-Looks spinner w))
  ]

  pub wait_until-Looks :
      (fuel : ℕ) (w : World) → Looks env (wait_until env concurrency fuel s (l ∷ ls) deadline) w
  unfolding wait_until
  wait_until-Looks fuel w =
      Partly-bind (λ _ w'. OnlyLooks env w w') (minimum_sequence_after env s (l ∷ ls)) _ w
        (λ r w₁ q. wait_until_loop-Looks fuel (reset concurrency) r w w₁ q)
        (minimum_sequence_after-Looks env s l ls w)
