-- ===== src/Benchmark/Waits.antt =====
-- The waits of the library return as the steps of the programs' threads say.
use disruptorplus.Common.{ℕ, ◌≡◌, refl, List, [], ◌∷◌, All, is_neg, false, arith}
use disruptorplus.Sequence.{difference, add_sequence}
use disruptorplus.Sequence.Distance.{distance, IsAhead, difference-eq-sub}
use disruptorplus.Memory.{Environment, World, Memory}
use disruptorplus.Memory.Rely.{AllAhead, AllReached, least, least-AllReached, AllReached-weaken}
use disruptorplus.SequenceBarrier.Waiting as BarrierWaiting
use disruptorplus.SequenceBarrierGroup
use disruptorplus.SequenceBarrierGroup.{SequenceBarrierGroup, is_empty}
use disruptorplus.SequenceBarrierGroup.Waiting as GroupWaiting
use disruptorplus.WaitStrategy.{WaitStrategy, Partly, Partly-map, Partly-bind, MayReturn}
use disruptorplus.WaitStrategy.Promise.{IsReached, Setting}
use disruptorplus.SingleThreadedClaimStrategy.{
  SingleThreadedClaimStrategy, claim_one, wait_until_published, wait_until_published_after, needed,
}
use disruptorplus.SingleThreadedClaimStrategy.Claiming.{IsReady, needed-IsAhead}

module _ {Watched : ℕ → Type 0} {base : ℕ} {env : Environment} {ws : WaitStrategy}
    (setting : Setting Watched base env ws) where
  reached-passed :
      (m : Memory) (r : ℕ)
      → AllAhead Watched base m
      → IsAhead base r
      → (ls : List ℕ) → All Watched ls
      → AllReached base m (distance base r) ls
      → All (λ l. is_neg (difference (m l) r) ≡ false) ls
  reached-passed m r ahead at [] h reached = tt
  reached-passed m r ahead at (l ∷ ls) h reached = (
    ground (arith, difference-eq-sub base (m l) r setting.small (ahead l h.0) at, reached.0),
    reached-passed m r ahead at ls h.1 reached.1,
  )

  IsReached-MayReturn :
      (s l : ℕ) (ls : List ℕ) {w : World}
      → IsAhead base s
      → All Watched (l ∷ ls)
      → (r : ℕ) (w' : World) → IsReached Watched base env s l ls w r w'
      → MayReturn w'.mem s (l ∷ ls) r
  IsReached-MayReturn s l ls sought watched r w' h = (
    h.ahead.small,
    ground (arith, difference-eq-sub base r s setting.small h.ahead sought, h.enough),
    reached-passed w'.mem r h.later.ahead h.ahead (l ∷ ls) watched (
        AllReached-weaken base w'.mem (distance base r) (least base w'.mem l ls) (l ∷ ls) h.below
          (least-AllReached base w'.mem l ls)),
  )

  module _ (w : World) (ahead : AllAhead Watched base w.mem) where
    -- Where the other threads only advance the sequence numbers: what `claim_one` returns is the
    -- next number and the moved strategy, there are claim barriers, and it is a time when the wait for
    -- them may return.
    pub claim_one-MayReturn :
        (cs : SingleThreadedClaimStrategy) {l : ℕ} {ls : List ℕ}
        → IsReady base cs l ls
        → All Watched (l ∷ ls)
        → Partly
            (λ result w'.
              (result ≡ (
                cs.next_sequence_to_claim,
                record cs { next_sequence_to_claim = add_sequence cs.next_sequence_to_claim 1 },
              ))
              × (is_empty cs.claim_barrier.sequences ≡ false)
              × (r : ℕ) × MayReturn w'.mem (needed cs) cs.claim_barrier.sequences r)
            (claim_one env ws cs w)
    unfolding claim_one
    claim_one-MayReturn cs {l} {ls} ready watched =
        Partly-bind _
          (SequenceBarrierGroup.wait_until_published env ws cs.claim_barrier (needed cs)) _ w
          (λ r w' h. (
            refl,
            rw ready.barriers refl,
            r,
            rw ready.barriers
                (IsReached-MayReturn (needed cs) l ls (needed-IsAhead ready) watched r w' h),
          ))
          (GroupWaiting.wait_until_published-IsReached setting cs.claim_barrier ready.barriers
            watched w ahead (needed cs) (needed-IsAhead ready))

    -- So do the consumers' waits.
    module _ (s : ℕ) (sought : IsAhead base s) where
      pub wait-MayReturn :
          (cs : SingleThreadedClaimStrategy) (known : ℕ)
          → Watched cs.read_barrier.cell
          → Partly
              (λ r w'. MayReturn w'.mem s (cs.read_barrier.cell ∷ []) r)
              (wait_until_published_after env ws cs s known w)
      unfolding wait_until_published_after wait_until_published
      wait-MayReturn cs known watched =
          Partly-map _ (IsReached-MayReturn s cs.read_barrier.cell [] sought (watched, tt)) (
            BarrierWaiting.wait_until_published-IsReached setting cs.read_barrier watched s sought w
              ahead)

      pub group_wait-MayReturn :
          (group : SequenceBarrierGroup) {l : ℕ} {ls : List ℕ}
          → group.sequences ≡ l ∷ ls
          → All Watched (l ∷ ls)
          → Partly
              (λ r w'. MayReturn w'.mem s group.sequences r)
              (SequenceBarrierGroup.wait_until_published env ws group s w)
      group_wait-MayReturn group {l} {ls} members watched =
          Partly-map {Q = λ r w'. MayReturn w'.mem s group.sequences r} _
            (λ r w' h. rw members (IsReached-MayReturn s l ls sought watched r w' h))
            (GroupWaiting.wait_until_published-IsReached setting group members watched w ahead s
              sought)
