-- ===== src/MultiThreadedClaimStrategy/Ordered.antt =====
-- `wait_until_published`: a reader is told only of items that have been published, in order.
use disruptorplus.Common.{
  ℕ, ◌+◌, ◌^◌, ◌≤◌, ◌<◌, ◌≡◌, refl, sym, is_pos, true, Option, none, some, [], ◌∷◌, arith,
}
use disruptorplus.Sequence.{add_sequence, difference}
use disruptorplus.Sequence.Distance.{distance, IsAhead, difference-eq-sub}
use disruptorplus.Memory.{Environment, World, arrive, pure, ◌>>=◌}
use disruptorplus.Memory.Rely.{AllAhead, Later-refl}
use disruptorplus.WaitStrategy.{
  WaitStrategy, Partly, Totally, Partly-bind, Totally-bind, bind-eq_bind,
}
use disruptorplus.WaitStrategy.Promise.{Setting, ArrivesBy}
use disruptorplus.MultiThreadedClaimStrategy.{
  MultiThreadedClaimStrategy, entry, wait_loop, last_published_after, wait_until_published,
  wait_until_published_until, wait_until_published_for,
}
use disruptorplus.MultiThreadedClaimStrategy.Reading.{
  IsLastPublished, IsFound, last_published_loop-ends, last_published_loop-returns,
}
use disruptorplus.MultiThreadedClaimStrategy.Waiting.{
  Waits, Waited, wait_loop-Waited, wait_until_loop-eq-wait_loop, wait_loop-returns,
}

module _ {Watched : ℕ → Type 0} {base : ℕ} {env : Environment} {ws : WaitStrategy}
    (setting : Setting Watched base env ws) (cs : MultiThreadedClaimStrategy)
    (watched : (x : ℕ) → Watched (entry cs x)) (known s : ℕ) (known_ahead : IsAhead base known)
    (sought : IsAhead base s) (order : distance base known < distance base s) (v : World)
    (ahead : AllAhead Watched base v.mem) where
  open setting use {small, fair}

  -- The `assert` at the beginning.
  asserted : is_pos (difference s known) ≡ true
  asserted = ground (arith, difference-eq-sub base s known small sought known_ahead)

  begins : Waits setting cs watched known s known_ahead sought v known v
  begins = record {
    later = Later-refl Watched base v ahead;
    ahead = known_ahead;
    within = omega arith;
    all = λ x hx after upto. absurd (omega arith);
  }

  -- The call of `last_published_after` at the end.
  continues :
      (w : World)
      → Waited setting cs watched known s known_ahead sought v w
      → IsFound setting cs watched known s v s w
  continues w h = record { later = h.0; ahead = sought; onward = omega arith; all = h.1 }

  -- `wait_until_published`, when it returns, returns a sequence number not before the one asked
  -- for, such that all numbers after the one known up to it are published, and the next is not.
  pub wait_until_published-IsLastPublished :
      (fuel : ℕ)
      → Partly
          (IsLastPublished setting cs watched known s v)
          (wait_until_published env ws cs fuel s known v)
  unfolding wait_until_published last_published_after
  wait_until_published-IsLastPublished fuel = rw asserted (
      Partly-bind (IsLastPublished setting cs watched known s v)
        (wait_loop env ws cs fuel s (add_sequence known 1)) _ v
        (λ _ w h. last_published_loop-ends setting cs watched fuel s w (continues w h))
        (wait_loop-Waited setting cs watched known s known_ahead sought v fuel known v begins))

  -- It does return if the numbers after the one known up to the one asked for are published in
  -- time. Its fuel has to reach as far as entries can be from the base.
  pub wait_until_published_all-returns :
      (t fuel : ℕ)
      → ((x : ℕ)
          → distance base known < distance base x
          → distance base x ≤ distance base s
          → ArrivesBy Watched base env t x (entry cs x ∷ []))
      → t ≤ v.tick + ws.patience
      → 2 ^ 62 ≤ distance base known + fuel
      → Totally
          (IsLastPublished setting cs watched known s v)
          (wait_until_published env ws cs fuel s known v)
  unfolding wait_until_published last_published_after
  wait_until_published_all-returns t fuel arrives time enough = rw asserted (
      Totally-bind (IsLastPublished setting cs watched known s v)
        (wait_loop env ws cs fuel s (add_sequence known 1)) _ v
        (λ _ w h.
          last_published_loop-returns setting cs watched (2 ^ 62)
            (λ u m a below x. (fair.keeps u m a (entry cs x) (watched x)).near) fuel s w
            (continues w h) (λ x. (h.0.ahead (entry cs x) (watched x)).near) sought.near
            (omega arith))
        (wait_loop-returns setting cs watched known s known_ahead sought v t arrives fuel known v
          begins (omega arith) time (omega (arith, sought.near))))

  -- The overload with a time point has the same outcome as the one without, whatever the time
  -- point: it does not pass it on to the wait strategy, whose waits return nothing before the
  -- number asked for, and so it never takes its early return.
  pub wait_until_published_until-eq-wait_until_published :
      (fuel timeout_time : ℕ)
      → wait_until_published_until env ws cs fuel s known timeout_time v
        ≡ wait_until_published env ws cs fuel s known v
  unfolding wait_until_published_until wait_until_published last_published_after
  wait_until_published_until-eq-wait_until_published fuel timeout_time =
      rw
        (
          asserted,
          ◌>>=◌,
          wait_until_loop-eq-wait_loop setting cs watched known s known_ahead sought v fuel known v
              begins,
        )
        (sym (
          bind-eq_bind {B = Option ℕ}
            (λ _ w. Waited setting cs watched known s known_ahead sought v w)
            (wait_loop env ws cs fuel s (add_sequence known 1))
            (λ _. last_published_after env ws cs fuel s) (λ _. pure none)
            (λ early. elim early [ some r ↦ pure r | none ↦ last_published_after env ws cs fuel s ])
            v (wait_loop-Waited setting cs watched known s known_ahead sought v fuel known v begins)
            (λ _ w h. refl)))

-- The overload with a duration reads the clock first, and then does the same, whatever the
-- duration.
pub wait_until_published_for-IsLastPublished :
    {Watched : ℕ → Type 0} {base : ℕ} {env : Environment} {ws : WaitStrategy}
    (setting : Setting Watched base env ws) (cs : MultiThreadedClaimStrategy)
    (watched : (x : ℕ) → Watched (entry cs x)) (known s : ℕ) (known_ahead : IsAhead base known)
    (sought : IsAhead base s) (order : distance base known < distance base s) (v : World)
    (ahead : AllAhead Watched base (arrive env v).mem) (fuel timeout : ℕ)
    → Partly
        (IsLastPublished setting cs watched known s (arrive env v))
        (wait_until_published_for env ws cs fuel s known timeout v)
unfolding wait_until_published_for
wait_until_published_for-IsLastPublished {env} setting cs watched known s known_ahead sought order v
      ahead fuel timeout =
    rw
      (wait_until_published_until-eq-wait_until_published setting cs watched known s known_ahead
        sought order (arrive env v) ahead fuel (env.now v.tick + timeout))
      (wait_until_published-IsLastPublished setting cs watched known s known_ahead sought order
        (arrive env v) ahead fuel)
