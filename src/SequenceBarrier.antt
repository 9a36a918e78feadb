-- ===== src/SequenceBarrier.antt =====
-- include/disruptorplus/sequence_barrier.hpp: one atomic sequence number that a thread publishes
-- and others wait for.
pub mod Waiting
pub mod Publishing
use disruptorplus.Common.{ℕ, ◌-◌, ◌^◌, [], ◌∷◌, is_neg, if◌then◌else◌}
use disruptorplus.Sequence.{difference}
use disruptorplus.Memory.{Environment, World, Action, done, ◌>>=◌, ◌>>◌, pure, load, store, update}
use disruptorplus.WaitStrategy.{WaitStrategy}

-- `&m_waitStrategy` and `&m_lastPublished`; the padding holds no data.
pub record SequenceBarrier : Type 0 where
  pub strategy : ℕ
  pub cell : ℕ

-- The constructor, at the address that it initialises. No thread shares the object yet.
unfoldable pub sequence_barrier : (strategy cell : ℕ) → Action SequenceBarrier
sequence_barrier strategy cell w =
    done (record { strategy = strategy; cell = cell })
      (record w { mem = update w.mem cell (2 ^ 64 - 1) })

module _ (env : Environment) (ws : WaitStrategy) where
  unfoldable pub last_published : SequenceBarrier → Action ℕ
  last_published barrier = load env barrier.cell

  unfoldable pub wait_until_published : SequenceBarrier → ℕ → Action ℕ
  unfolding last_published
  wait_until_published barrier sequence = do
    current ← last_published barrier
    if is_neg (difference current sequence)
        then ws.wait sequence (barrier.cell ∷ [])
        else pure current

  -- The overload with a `duration`.
  unfoldable pub wait_until_published_for : SequenceBarrier → ℕ → ℕ → Action ℕ
  unfolding last_published
  wait_until_published_for barrier sequence timeout = do
    current ← last_published barrier
    if is_neg (difference current sequence)
        then ws.wait_for sequence (barrier.cell ∷ []) timeout
        else pure current

  -- The overload with a `time_point`.
  unfoldable pub wait_until_published_until : SequenceBarrier → ℕ → ℕ → Action ℕ
  unfolding last_published
  wait_until_published_until barrier sequence timeout_time = do
    current ← last_published barrier
    if is_neg (difference current sequence)
        then ws.wait_until sequence (barrier.cell ∷ []) timeout_time
        else pure current

  unfoldable pub publish : SequenceBarrier → ℕ → Action (Unit {0})
  publish barrier sequence = do store env barrier.cell sequence; ws.signal_all
