-- ===== src/MultiThreadedClaimStrategy/Publishing.antt =====
-- `publish` of one sequence number: its entry is written, and the `assert` holds, if its slot was
-- claimed.
use disruptorplus.Common.{ℕ, suc, ◌≤◌, ◌≡◌, ◌≢◌, ap, ◌∙◌, ◌==◌, true, replicate, arith}
use disruptorplus.Sequence.{sub_sequence}
use disruptorplus.Sequence.Distance.{distance, IsAhead}
use disruptorplus.Memory.{Environment, Memory, World, arrive, update, ◌>>=◌}
use disruptorplus.Memory.Rely.{AllAhead, Later, Later-trans, Later-arrive, Later-store}
use disruptorplus.RingBuffer.{RingBuffer}
use disruptorplus.WaitStrategy.{WaitStrategy, Totally, Totally-map, Totally-bind}
use disruptorplus.WaitStrategy.Promise.{Setting}
use disruptorplus.MultiThreadedClaimStrategy.{
  MultiThreadedClaimStrategy, entry, set_published, publish,
}
use disruptorplus.MultiThreadedClaimStrategy.Reading.{IsPublished}

-- The array of published numbers is indexed like a ring buffer of the same size.
abbrev pub ring : MultiThreadedClaimStrategy → RingBuffer (Unit {0})
ring cs = record {
  size = cs.buffer_size;
  mask = cs.index_mask;
  elements = replicate cs.buffer_size tt;
}

-- Another thread leaves the entry of `x` alone: its slot is claimed by this one.
abbrev pub IsOwned : Environment → MultiThreadedClaimStrategy → ℕ → Type 0
IsOwned env cs x = (t : ℕ) (m : Memory) → env.others t m (entry cs x) ≡ m (entry cs x)

-- The item before it in its slot has been published.
abbrev pub IsVacant : MultiThreadedClaimStrategy → ℕ → World → Type 0
IsVacant cs x w = w.mem (entry cs x) ≡ sub_sequence x cs.buffer_size

module _ {Watched : ℕ → Type 0} {base : ℕ} {env : Environment} {ws : WaitStrategy}
    (setting : Setting Watched base env ws) (cs : MultiThreadedClaimStrategy)
    (watched : (x : ℕ) → Watched (entry cs x)) where
  open setting use {small, fair, keeps}

  -- What `set_published` leaves behind.
  pub record IsStored (x : ℕ) (w w' : World) : Type 0 where
    pub later : Later Watched base w w'
    pub here : w'.mem (entry cs x) ≡ x
    pub others :
        (y : ℕ)
        → IsOwned env cs y
        → entry cs y ≢ entry cs x
        → w'.mem (entry cs y) ≡ w.mem (entry cs y)

  module _ (x : ℕ) (sought : IsAhead base x) (reaches : cs.buffer_size ≤ distance base x)
      (owned : IsOwned env cs x) where
    abbrev stored : World → World
    stored w = record {
      tick = suc (suc w.tick);
      mem = update (arrive env (arrive env w)).mem (entry cs x) x;
    }

    stored-IsStored :
        (w : World) → AllAhead Watched base w.mem → IsVacant cs x w → IsStored x w (stored w)
    stored-IsStored w ahead vacant =
        let first = Later-arrive Watched base env w fair ahead in
        let still = owned (suc w.tick) (arrive env w).mem ∙ owned w.tick w.mem ∙ vacant in
        record {
          later = Later-trans Watched base first (
              Later-store Watched base env (arrive env w) fair first.ahead (entry cs x) x sought
                (rw still (omega (arith, sought.small))));
          here = ground arith;
          others = λ y theirs ne.
              let same = theirs (suc w.tick) (arrive env w).mem ∙ theirs w.tick w.mem in
              ground arith;
        }

    pub set_published-IsStored :
        (w : World)
        → AllAhead Watched base w.mem
        → IsVacant cs x w
        → Totally (λ _ w'. IsStored x w w') (set_published env ws cs x w)
    unfolding set_published
    set_published-IsStored w ahead vacant =
        let there : (arrive env w).mem (entry cs x) ≡ sub_sequence x cs.buffer_size =
          owned w.tick w.mem ∙ vacant in
        let passes : ((arrive env w).mem (entry cs x) == sub_sequence x cs.buffer_size) ≡ true =
          ground arith in
        rw (passes, ◌>>=◌) (stored-IsStored w ahead vacant)

    -- `publish` of a sequence number whose slot this thread has claimed returns, and its `assert`
    -- holds; it moves no sequence number back, and afterwards the number is published.
    pub publish-IsPublished :
        (w : World)
        → AllAhead Watched base w.mem
        → IsVacant cs x w
        → Totally
            (λ _ w'. Later Watched base w w' × IsPublished base cs x w')
            (publish env ws cs x w)
    unfolding publish
    publish-IsPublished w ahead vacant =
        Totally-bind (λ _ w'. Later Watched base w w' × IsPublished base cs x w')
          (set_published env ws cs x) _ w
          (λ _ w₁ set.
            Totally-map (ws.signal_all w₁)
              (λ _ w' p. (
                Later-trans Watched base set.later p,
                omega (arith, p.advances (entry cs x) (watched x), ap (distance base) set.here),
              ))
              (keeps.signals w₁ set.later.ahead))
          (set_published-IsStored w ahead vacant)
