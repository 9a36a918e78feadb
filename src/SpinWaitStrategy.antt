-- ===== src/SpinWaitStrategy.antt =====
-- include/disruptorplus/spin_wait_strategy.hpp: waiting by a backing-off spin loop, on fuel.
pub mod Held
pub mod Untimed
pub mod Timed
pub mod Keeps
pub mod Looking
use disruptorplus.Common.{
  ℕ, zero, suc, ◌+◌, Bool, true, false, List, is_neg, ltb, if◌then◌else◌, [], ◌∷◌,
}
use disruptorplus.Sequence.{difference}
use disruptorplus.Memory.{
  Environment, Action, Outcome, done, waiting, failed, ◌>>=◌, ◌>>◌, pure, clock_now,
}
use disruptorplus.Minimum.{minimum_sequence_after}
use disruptorplus.SpinWait.{SpinWait, spin_once, next_spin_will_yield, reset}
use disruptorplus.WaitStrategy.{WaitStrategy}

module _ (env : Environment) (concurrency : ℕ) where
  -- `while (difference(result, sequence) < 0)` of the untimed wait.
  pub wait_loop : ℕ → ℕ → List ℕ → SpinWait → ℕ → Action ℕ
  wait_loop zero sequence sequences spinner result w =
      if is_neg (difference result sequence) then waiting else done result w
  wait_loop (suc fuel) sequence sequences spinner result w =
      elim (is_neg (difference result sequence)) [
        | true ↦
            (minimum_sequence_after env sequence sequences
                >>= wait_loop fuel sequence sequences (spin_once spinner).1)
              w
        | false ↦ done result w
      ]

  -- The test `spinner.next_spin_will_yield() && timeoutTime < Clock::now()`.
  unfoldable pub out_of_time : SpinWait → ℕ → Action Bool
  out_of_time spinner timeout_time =
      if next_spin_will_yield spinner
      then (do now ← clock_now env; pure (ltb timeout_time now))
      else pure false

  -- The same loop of the wait with a deadline.
  pub wait_until_loop : ℕ → ℕ → List ℕ → ℕ → SpinWait → ℕ → Action ℕ
  wait_until_loop zero sequence sequences timeout_time spinner result w =
      if is_neg (difference result sequence) then waiting else done result w
  wait_until_loop (suc fuel) sequence sequences timeout_time spinner result w =
      let rest : Action ℕ =
        minimum_sequence_after env sequence sequences
        >>= wait_until_loop fuel sequence sequences timeout_time (spin_once spinner).1 in
      elim (is_neg (difference result sequence)) [
        | true ↦ (do late ← out_of_time spinner timeout_time; if late then pure result else rest) w
        | false ↦ done result w
      ]

  -- `assert(count > 0)` is that of `minimum_sequence_after`, which comes first.
  unfoldable pub wait : ℕ → ℕ → List ℕ → Action ℕ
  unfolding wait_loop
  wait fuel sequence sequences = do
    result ← minimum_sequence_after env sequence sequences
    wait_loop fuel sequence sequences (reset concurrency) result

  unfoldable pub wait_until : ℕ → ℕ → List ℕ → ℕ → Action ℕ
  unfolding wait_until_loop
  wait_until fuel sequence sequences timeout_time = do
    result ← minimum_sequence_after env sequence sequences
    wait_until_loop fuel sequence sequences timeout_time (reset concurrency) result

  unfoldable pub wait_for : ℕ → ℕ → List ℕ → ℕ → Action ℕ
  unfolding wait_until
  wait_for fuel sequence sequences timeout = do
    now ← clock_now env
    wait_until fuel sequence sequences (now + timeout)

  -- Nothing to do: the waiting threads keep looking.
  unfoldable pub signal_all : Action (Unit {0})
  signal_all = pure tt

  unfoldable pub spin_wait_strategy : ℕ → WaitStrategy
  unfolding wait wait_until wait_for signal_all
  spin_wait_strategy fuel = record {
    patience = fuel;
    wait = wait fuel;
    wait_for = wait_for fuel;
    wait_until = wait_until fuel;
    signal_all = signal_all;
  }
