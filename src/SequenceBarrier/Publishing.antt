-- ===== src/SequenceBarrier/Publishing.antt =====
-- Publishing on a barrier: what other threads, and later calls of this one, find there.
use disruptorplus.Common.{ℕ, suc, ◌≤◌, ◌≡◌, arith}
use disruptorplus.Sequence.Distance.{distance, IsAhead}
use disruptorplus.Memory.{Environment, Memory, World, arrive, update}
use disruptorplus.Memory.Rely.{AllAhead, Later, Later-trans, Later-store}
use disruptorplus.WaitStrategy.{WaitStrategy, Totally, Totally-map}
use disruptorplus.WaitStrategy.Promise.{Setting}
use disruptorplus.SequenceBarrier.{SequenceBarrier, publish}

module _ {Watched : ℕ → Type 0} {base : ℕ} {env : Environment} {ws : WaitStrategy}
    (setting : Setting Watched base env ws) (barrier : SequenceBarrier)
    (owned : (t : ℕ) (m : Memory) → env.others t m barrier.cell ≡ m barrier.cell) (s : ℕ)
    (sought : IsAhead base s) (w : World) (ahead : AllAhead Watched base w.mem)
    (onward : distance base (w.mem barrier.cell) ≤ distance base s) where
  abbrev stored : World
  stored = record { tick = suc w.tick; mem = update (arrive env w).mem barrier.cell s }

  Later-stored : Later Watched base w stored
  Later-stored =
      Later-store Watched base env w setting.fair ahead barrier.cell s sought
        (omega (arith, owned w.tick w.mem, onward))

  -- `publish` on a barrier that only this thread publishes on, of a sequence number not before the
  -- last one, moves no sequence number back, and from then on the barrier is at or after it.
  pub publish-Later :
      Watched barrier.cell
      → Totally
          (λ _ w'.
            Later Watched base w w' × (distance base s ≤ distance base (w'.mem barrier.cell)))
          (publish env ws barrier s w)
  unfolding publish
  publish-Later watched =
      Totally-map (ws.signal_all stored)
        (λ _ w' p. (
          Later-trans Watched base Later-stored p,
          let moved = p.advances barrier.cell watched in ground arith,
        ))
        (setting.keeps.signals stored Later-stored.ahead)
