-- ===== src/SpinWaitStrategy/Timed.antt =====
-- The loop of the wait with a deadline.
use disruptorplus.Common.{
  ◌+◌, ◌≤◌, ◌<◌, dec_lt, ℕ, zero, suc, ◌<◌, ◌≡◌, refl, ◌⊎◌, inl, inr, List, ◌∷◌, is_neg, true,
  false, Bool, Bool-cases, ltb, arith,
}
use disruptorplus.Sequence.{difference}
use disruptorplus.Sequence.Distance.{difference-eq-sub}
use disruptorplus.Memory.{Environment, World, arrive, done, ◌>>=◌}
use disruptorplus.Memory.Rely.{AllAhead, Later, Later-refl, Later-trans, Later-arrive}
use disruptorplus.SpinWait.{SpinWait, spin_once, next_spin_will_yield}
use disruptorplus.WaitStrategy.{Partly, Totally}
use disruptorplus.WaitStrategy.Promise.{IsTimedOut, Ends}
use disruptorplus.SpinWait.Schedule.{spin_once-value}
use disruptorplus.Minimum.After.{IsLowestAfter}
use disruptorplus.SpinWaitStrategy.{out_of_time, wait_until_loop}
use disruptorplus.SpinWaitStrategy.Held.{Call, Held, Held-scan, Held-stops, scan}

module _ {Watched : ℕ → Type 0} {base : ℕ} {env : Environment} {s l : ℕ} {ls : List ℕ}
    (concurrency : ℕ) (call : Call Watched base env s l ls) where
  open call use {small, fair, sought, watched}

  -- What the test of the deadline found: the clock was not read yet or has not passed it, or the
  -- clock has shown that it has passed.
  record Checked (deadline : ℕ) (spinner : SpinWait) (w : World) (late : Bool) (w' : World)
      : Type 0 where
    later : Later Watched base w w'
    verdict :
        ((late ≡ false) × ((spinner.value < 10) ⊎ (env.now w.tick ≤ deadline)))
        ⊎ ((late ≡ true) × (w.tick < w'.tick) × (deadline < env.now w.tick))

  out_of_time-Checked :
      (deadline : ℕ) (spinner : SpinWait) (w : World)
      → AllAhead Watched base w.mem
      → (late : Bool) × (w' : World) × (out_of_time env concurrency spinner deadline w
          ≡ done late w')
        × Checked deadline spinner w late w'
  unfolding out_of_time next_spin_will_yield
  out_of_time-Checked deadline spinner w a = elim (Bool-cases (next_spin_will_yield spinner)) [
    | inl e ↦ (
      ltb deadline (env.now w.tick),
      arrive env w,
      rw e,
      record { later = Later-arrive Watched base env w fair a; verdict = ground arith },
    )
    | inr e ↦ (
      false,
      w,
      rw e,
      record { later = Later-refl Watched base w a; verdict = inl (refl, inl (ground arith)) },
    )
  ]

  Held-expires :
      {v w w' : World} {r : ℕ} (deadline : ℕ)
      → Held call v r w
      → is_neg (difference r s) ≡ true
      → Later Watched base w w'
      → (w.tick < w'.tick) × (deadline < env.now w.tick)
      → IsTimedOut Watched base env s deadline v r w'
  Held-expires {w} {r} deadline h e p late = record {
    later = Later-trans Watched base h.later p;
    ahead = h.ahead;
    short = ground (arith, difference-eq-sub base r s small h.ahead sought);
    read_at = w.tick;
    during = (h.later.ticks, late.0);
    late = late.1;
  }

  pub wait_until_loop-waits :
      (fuel deadline : ℕ) (spinner : SpinWait) (r : ℕ) (v w : World)
      → Held call v r w
      → Partly
          (Ends Watched base env s l ls deadline v)
          (wait_until_loop env concurrency fuel s (l ∷ ls) deadline spinner r w)
  unfolding wait_until_loop
  wait_until_loop-waits zero deadline spinner r v w h =
      elim (Bool-cases (is_neg (difference r s))) [
        | inl e ↦ rw e tt
        | inr e ↦ rw e (inl (Held-stops call h e))
      ]
  wait_until_loop-waits (suc fuel) deadline spinner r v w h =
      elim (Bool-cases (is_neg (difference r s))) [
        | inl e ↦
            let (late, w₁, tested, check) = out_of_time-Checked deadline spinner w h.later.ahead in
            let (r', w', read, low) = scan call w₁ check.later.ahead in
            elim check.verdict [
              | inl f ↦
                  rw (e, wait_until_loop, ◌>>=◌, tested, f.0, ◌>>=◌, read)
                    (wait_until_loop-waits fuel deadline (spin_once spinner).1 r' v w'
                      (Held-scan call (Later-trans Watched base h.later check.later) low))
              | inr f ↦
                  rw (e, wait_until_loop, ◌>>=◌, tested, f.0)
                    (inr (Held-expires deadline h e check.later (f.1, f.2)))
            ]
        | inr e ↦ rw (e, wait_until_loop) (inl (Held-stops call h e))
      ]

  -- Fuel for ten calls of `spin_once`, after which the clock is read, and for the time until the
  -- clock has passed the deadline.
  abbrev pub HasTime : ℕ → ℕ → SpinWait → World → Type 0
  HasTime t fuel spinner w = (10 < spinner.value + fuel) × (t < w.tick + fuel) × (0 < fuel)

  HasTime-next :
      (t fuel deadline : ℕ) (spinner : SpinWait) {w w₁ : World} {r : ℕ} {w' : World}
      → ((u : ℕ) → t ≤ u → deadline < env.now u)
      → HasTime t (suc fuel) spinner w
      → (spinner.value < 10) ⊎ (env.now w.tick ≤ deadline)
      → Later Watched base w w₁
      → IsLowestAfter Watched env base s l ls w₁ r w'
      → HasTime t fuel (spin_once spinner).1 w'
  HasTime-next t fuel deadline spinner {w} passes time unread p low =
      let step = spin_once-value spinner in
      let early : (spinner.value < 10) ⊎ (w.tick < t) = elim (dec_lt w.tick t) [
        | yes e ↦ inr e
        | no late ↦ omega (arith, passes w.tick (omega arith))
      ] in
      omega (arith, low.busy, p.ticks)

  pub wait_until_loop-returns :
      (t fuel deadline : ℕ) (spinner : SpinWait) (r : ℕ) (v w : World)
      → ((u : ℕ) → t ≤ u → deadline < env.now u)
      → Held call v r w
      → HasTime t fuel spinner w
      → Totally
          (Ends Watched base env s l ls deadline v)
          (wait_until_loop env concurrency fuel s (l ∷ ls) deadline spinner r w)
  unfolding wait_until_loop
  wait_until_loop-returns t zero deadline spinner r v w passes h time = absurd (omega arith)
  wait_until_loop-returns t (suc fuel) deadline spinner r v w passes h time =
      elim (Bool-cases (is_neg (difference r s))) [
        | inl e ↦
            let (late, w₁, tested, check) = out_of_time-Checked deadline spinner w h.later.ahead in
            let (r', w', read, low) = scan call w₁ check.later.ahead in
            elim check.verdict [
              | inl f ↦
                  rw (e, wait_until_loop, ◌>>=◌, tested, f.0, ◌>>=◌, read)
                    (wait_until_loop-returns t fuel deadline (spin_once spinner).1 r' v w' passes
                      (Held-scan call (Later-trans Watched base h.later check.later) low)
                      (HasTime-next t fuel deadline spinner passes time (f.1) check.later low))
              | inr f ↦
                  rw (e, wait_until_loop, ◌>>=◌, tested, f.0)
                    (inr (Held-expires deadline h e check.later (f.1, f.2)))
            ]
        | inr e ↦ rw (e, wait_until_loop) (inl (Held-stops call h e))
      ]
