-- ===== src/SpinWaitStrategy/Keeps.antt =====
-- The spin wait strategy keeps the promises of a wait strategy.
use disruptorplus.Common.{ℕ, ◌+◌, ◌^◌, ◌≤◌, ◌<◌, inl, inr, List, ◌∷◌, All, arith}
use disruptorplus.Sequence.Distance.{IsAhead}
use disruptorplus.Memory.{Environment, World, arrive, ◌>>=◌}
use disruptorplus.Memory.Rely.{AllAhead, IsFair, Later-refl, Later-arrive}
use disruptorplus.SpinWait.{reset}
use disruptorplus.WaitStrategy.{Partly, Totally, Partly-map}
use disruptorplus.WaitStrategy.Promise.{
  IsReached, Ends, EndsFor, IsReached-Later, IsTimedOut-Later, ArrivesBy, IsWaitStrategy,
}
use disruptorplus.SpinWaitStrategy.{wait, wait_until, wait_for, signal_all, spin_wait_strategy}
use disruptorplus.SpinWaitStrategy.Held.{Call, Held-scan, scan, Due-scan}
use disruptorplus.SpinWaitStrategy.Untimed.{wait_loop-waits, wait_loop-returns}
use disruptorplus.SpinWaitStrategy.Timed.{wait_until_loop-waits, wait_until_loop-returns}

module _ {Watched : ℕ → Type 0} {base : ℕ} {env : Environment} {s l : ℕ} {ls : List ℕ}
    (concurrency fuel : ℕ) (call : Call Watched base env s l ls) (w : World)
    (ahead : AllAhead Watched base w.mem) where
  wait-waits : Partly (IsReached Watched base env s l ls w) (wait env concurrency fuel s (l ∷ ls) w)
  unfolding wait
  wait-waits =
      let (r, w', read, low) = scan call w ahead in
      rw (◌>>=◌, read)
        (wait_loop-waits concurrency call fuel (reset concurrency) r w w'
          (Held-scan call (Later-refl Watched base w ahead) low))

  wait-returns :
      (t : ℕ)
      → ArrivesBy Watched base env t s (l ∷ ls)
      → t ≤ w.tick + fuel
      → Totally (IsReached Watched base env s l ls w) (wait env concurrency fuel s (l ∷ ls) w)
  unfolding wait
  wait-returns t arrives time =
      let (r, w', read, low) = scan call w ahead in
      rw (◌>>=◌, read)
        (wait_loop-returns concurrency call t fuel (reset concurrency) r w w' arrives
          (Held-scan call (Later-refl Watched base w ahead) low)
          (Due-scan call t fuel ahead arrives time low))

  wait_until-waits :
      (deadline : ℕ)
      → Partly
          (Ends Watched base env s l ls deadline w)
          (wait_until env concurrency fuel s (l ∷ ls) deadline w)
  unfolding wait_until
  wait_until-waits deadline =
      let (r, w', read, low) = scan call w ahead in
      rw (◌>>=◌, read)
        (wait_until_loop-waits concurrency call fuel deadline (reset concurrency) r w w'
          (Held-scan call (Later-refl Watched base w ahead) low))

  -- The wait with a deadline returns if the clock passes it: after ten rounds the clock is read in
  -- each round, so that fuel for more than ten rounds and for the time until then is enough.
  pub wait_until-returns :
      (t deadline : ℕ)
      → ((u : ℕ) → t ≤ u → deadline < env.now u)
      → (10 < fuel) × (t ≤ w.tick + fuel)
      → Totally
          (Ends Watched base env s l ls deadline w)
          (wait_until env concurrency fuel s (l ∷ ls) deadline w)
  unfolding wait_until reset
  wait_until-returns t deadline passes time =
      let (r, w', read, low) = scan call w ahead in
      rw (◌>>=◌, read)
        (wait_until_loop-returns concurrency call t fuel deadline (reset concurrency) r w w' passes
          (Held-scan call (Later-refl Watched base w ahead) low) (omega (arith, low.busy)))

module _ {Watched : ℕ → Type 0} {base : ℕ} {env : Environment} {s l : ℕ} {ls : List ℕ}
    (concurrency fuel : ℕ) (call : Call Watched base env s l ls) (w : World)
    (ahead : AllAhead Watched base w.mem) where
  -- The clock is read in the first access, and the deadline counted from there.
  Ends-EndsFor :
      (timeout r : ℕ) (w' : World)
      → Ends Watched base env s l ls (env.now w.tick + timeout) (arrive env w) r w'
      → EndsFor Watched base env s l ls timeout w r w'
  Ends-EndsFor timeout r w' (inl e) =
      inl
        (IsReached-Later Watched base env (Later-arrive Watched base env w call.fair ahead) r w' e)
  Ends-EndsFor timeout r w' (inr e) = inr (
    w.tick,
    omega arith,
    omega (arith, e.during),
    IsTimedOut-Later Watched base env (Later-arrive Watched base env w call.fair ahead) r w' e,
  )

  wait_for-waits :
      (timeout : ℕ)
      → Partly
          (EndsFor Watched base env s l ls timeout w)
          (wait_for env concurrency fuel s (l ∷ ls) timeout w)
  unfolding wait_for
  wait_for-waits timeout =
      let first = Later-arrive Watched base env w call.fair ahead in
      Partly-map
        (wait_until env concurrency fuel s (l ∷ ls) (env.now w.tick + timeout) (arrive env w))
        (Ends-EndsFor timeout)
        (wait_until-waits concurrency fuel call (arrive env w) first.ahead
          (env.now w.tick + timeout))

module _ (Watched : ℕ → Type 0) (base : ℕ) (env : Environment) where
  -- Where the other threads only ever advance the sequence numbers, `spin_wait_strategy` does what
  -- a wait strategy is documented to do.
  pub spin_wait_strategy-IsWaitStrategy :
      (concurrency fuel : ℕ)
      → base < 2 ^ 64
      → IsFair Watched base env
      → IsWaitStrategy Watched base env (spin_wait_strategy env concurrency fuel)
  unfolding spin_wait_strategy signal_all
  spin_wait_strategy-IsWaitStrategy concurrency fuel small fair =
      let call = λ (s l : ℕ) (ls : List ℕ) (hs : IsAhead base s) (watched : All Watched (l ∷ ls)).
        let c : Call Watched base env s l ls = record {
          small = small;
          fair = fair;
          sought = hs;
          watched = watched;
        } in
        c in
      record {
        waits = λ s l ls w hs ws a. wait-waits concurrency fuel (call s l ls hs ws) w a;
        returns = λ t s l ls w hs ws a. wait-returns concurrency fuel (call s l ls hs ws) w a t;
        waits_until = λ s l deadline ls w hs ws a.
            wait_until-waits concurrency fuel (call s l ls hs ws) w a deadline;
        waits_for = λ s l timeout ls w hs ws a.
            wait_for-waits concurrency fuel (call s l ls hs ws) w a timeout;
        signals = λ w a. Later-refl Watched base w a;
      }
