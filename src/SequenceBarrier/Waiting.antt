-- ===== src/SequenceBarrier/Waiting.antt =====
-- Waiting for one barrier.
use disruptorplus.Common.{ℕ, ◌+◌, ◌≤◌, [], ◌∷◌, inr, arith}
use disruptorplus.Sequence.Distance.{IsAhead}
use disruptorplus.Memory.{Environment, World, arrive}
use disruptorplus.Memory.Rely.{AllAhead, Later-arrive}
use disruptorplus.WaitStrategy.{WaitStrategy, Partly, Totally}
use disruptorplus.WaitStrategy.Promise.{IsReached, Ends, EndsFor, ArrivesBy, Setting}
use disruptorplus.WaitStrategy.Asking.{Glance, ask-wait, ask-wait_until, ask-wait_for, ask-returns}
use disruptorplus.SequenceBarrier.{
  SequenceBarrier, wait_until_published, wait_until_published_for, wait_until_published_until,
}

module _ {Watched : ℕ → Type 0} {base : ℕ} {env : Environment} {ws : WaitStrategy}
    (setting : Setting Watched base env ws) (barrier : SequenceBarrier)
    (watched : Watched barrier.cell) (s : ℕ) (sought : IsAhead base s) (w : World)
    (ahead : AllAhead Watched base w.mem) where
  glance :
      Glance setting s barrier.cell [] sought
        (watched, tt)
        w
        ((arrive env w).mem barrier.cell)
        (arrive env w)
  glance =
      let first = Later-arrive Watched base env w setting.fair ahead in
      record {
        later = first;
        ahead = first.ahead barrier.cell watched;
        reached = inr (omega arith);
      }

  -- `wait_until_published` on a barrier, when it returns, returns a sequence number at or after the
  -- one asked for, and the barrier is not behind what it returns.
  pub wait_until_published-IsReached :
      Partly
        (IsReached Watched base env s barrier.cell [] w)
        (wait_until_published env ws barrier s w)
  unfolding wait_until_published
  wait_until_published-IsReached = ask-wait setting s barrier.cell [] sought (watched, tt) glance

  -- It does return if the sequence number is published in time.
  pub wait_until_published-returns :
      (t : ℕ)
      → ArrivesBy Watched base env t s (barrier.cell ∷ [])
      → t ≤ w.tick + ws.patience
      → Totally
          (IsReached Watched base env s barrier.cell [] w)
          (wait_until_published env ws barrier s w)
  unfolding wait_until_published
  wait_until_published-returns = ask-returns setting s barrier.cell [] sought (watched, tt) glance

  -- The overload with a time point reaches the sequence number, or returns an earlier one and the
  -- clock has shown a time past that point.
  pub wait_until_published_until-Ends :
      (timeout_time : ℕ)
      → Partly
          (Ends Watched base env s barrier.cell [] timeout_time w)
          (wait_until_published_until env ws barrier s timeout_time w)
  unfolding wait_until_published_until
  wait_until_published_until-Ends =
      ask-wait_until setting s barrier.cell [] sought (watched, tt) glance

  -- So does the overload with a duration, counted from a clock reading during the call.
  pub wait_until_published_for-EndsFor :
      (timeout : ℕ)
      → Partly
          (EndsFor Watched base env s barrier.cell [] timeout w)
          (wait_until_published_for env ws barrier s timeout w)
  unfolding wait_until_published_for
  wait_until_published_for-EndsFor =
      ask-wait_for setting s barrier.cell [] sought (watched, tt) glance
