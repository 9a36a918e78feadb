-- ===== src/SpinWaitStrategy/Untimed.antt =====
-- The loop of the untimed wait.
use disruptorplus.Common.{ℕ, zero, suc, inl, inr, List, ◌∷◌, is_neg, Bool-cases}
use disruptorplus.Sequence.{difference}
use disruptorplus.Memory.{Environment, World, ◌>>=◌}
use disruptorplus.SpinWait.{SpinWait, spin_once}
use disruptorplus.WaitStrategy.{Partly, Totally}
use disruptorplus.WaitStrategy.Promise.{IsReached, ArrivesBy}
use disruptorplus.SpinWaitStrategy.{wait_loop}
use disruptorplus.SpinWaitStrategy.Held.{
  Call, Held, Held-scan, Held-stops, scan, Due, Due-scan, Due-stop, Due-next,
}

module _ {Watched : ℕ → Type 0} {base : ℕ} {env : Environment} {s l : ℕ} {ls : List ℕ}
    (concurrency : ℕ) (call : Call Watched base env s l ls) where
  open call use {small, fair, sought, watched}

  pub wait_loop-waits :
      (fuel : ℕ) (spinner : SpinWait) (r : ℕ) (v w : World)
      → Held call v r w
      → Partly
          (IsReached Watched base env s l ls v)
          (wait_loop env concurrency fuel s (l ∷ ls) spinner r w)
  unfolding wait_loop
  wait_loop-waits zero spinner r v w h = elim (Bool-cases (is_neg (difference r s))) [
    | inl e ↦ rw e tt
    | inr e ↦ rw e (Held-stops call h e)
  ]
  wait_loop-waits (suc fuel) spinner r v w h = elim (Bool-cases (is_neg (difference r s))) [
    | inl e ↦
        let (r', w', read, low) = scan call w h.later.ahead in
        rw (e, wait_loop, ◌>>=◌, read)
          (wait_loop-waits fuel (spin_once spinner).1 r' v w' (Held-scan call h.later low))
    | inr e ↦ rw (e, wait_loop) (Held-stops call h e)
  ]

  pub wait_loop-returns :
      (t fuel : ℕ) (spinner : SpinWait) (r : ℕ) (v w : World)
      → ArrivesBy Watched base env t s (l ∷ ls)
      → Held call v r w
      → Due call t r w fuel
      → Totally
          (IsReached Watched base env s l ls v)
          (wait_loop env concurrency fuel s (l ∷ ls) spinner r w)
  unfolding wait_loop
  wait_loop-returns t zero spinner r v w arrives h due =
      let e = Due-stop call h due in rw e (Held-stops call h e)
  wait_loop-returns t (suc fuel) spinner r v w arrives h due =
      elim (Bool-cases (is_neg (difference r s))) [
        | inl e ↦
            let (r', w', read, low) = scan call w h.later.ahead in
            rw (e, wait_loop, ◌>>=◌, read)
              (wait_loop-returns t fuel (spin_once spinner).1 r' v w' arrives
                (Held-scan call h.later low)
                (Due-scan call t fuel h.later.ahead arrives (Due-next call h due e) low))
        | inr e ↦ rw (e, wait_loop) (Held-stops call h e)
      ]
