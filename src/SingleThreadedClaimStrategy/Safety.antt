-- ===== src/SingleThreadedClaimStrategy/Safety.antt =====
-- A claimed slot holds no item that a consumer has still to read.
use disruptorplus.Common.{ℕ, ◌+◌, ◌^◌, ◌≤◌, ◌<◌, ◌≡◌, ◌≢◌, ap, ◌∷◌, All, List, arith}
use disruptorplus.Sequence.{add_sequence}
use disruptorplus.Sequence.Distance.{distance, distance-add_sequence}
use disruptorplus.Memory.{World, Environment, done}
use disruptorplus.Memory.Rely.{AllAhead, least}
use disruptorplus.WaitStrategy.{WaitStrategy}
use disruptorplus.WaitStrategy.Promise.{Setting}
use disruptorplus.RingBuffer.{RingBuffer, slot}
use disruptorplus.RingBuffer.Slots.{IsValid}
use disruptorplus.RingBuffer.Window.{slot-ne}
use disruptorplus.SequenceRange.{SequenceRange, at}
use disruptorplus.SingleThreadedClaimStrategy.{SingleThreadedClaimStrategy, claim, claim_one}
use disruptorplus.SingleThreadedClaimStrategy.Claiming.{IsReady, IsClaimed}
use disruptorplus.SingleThreadedClaimStrategy.Blocking.{claim-IsClaimed, claim_one-IsClaimedOne}

-- When the slots of `range` are claimed, a sequence number `x` before the claim that some consumer
-- has not yet passed has its item in another slot than each of those: claiming, and then writing to
-- the slots, overwrites nothing that is still to be read.
pub IsClaimed-slots_free {ℓ} :
    {T : Type ℓ} (b : RingBuffer T) {Watched : ℕ → Type 0} {base l : ℕ} {ls : List ℕ}
    {cs : SingleThreadedClaimStrategy} {count : ℕ} {w : World} {range : SequenceRange}
    {cs' : SingleThreadedClaimStrategy} {w' : World}
    → IsValid b
    → b.size ≡ cs.buffer_size
    → IsReady base cs l ls
    → IsClaimed Watched base l ls cs count w range cs' w'
    → (i x : ℕ) → i < range.size
    → x < 2 ^ 64
    → distance base x < distance base cs.next_sequence_to_claim
    → least base w'.mem l ls < distance base x
    → slot b (at range i) ≢ slot b x
unfolding at
IsClaimed-slots_free b {base} {l} {ls} {cs} {range} {w'} v same ready c i x hi hx before unread =
    let next = cs.next_sequence_to_claim in
    let bound : distance base next + i ≤ least base w'.mem l ls + cs.buffer_size =
      omega (arith, c.room, ap (distance base) c.first) in
    let moved =
      distance-add_sequence base next i ready.small ready.next.small
        (omega (arith, ready.next.near, ready.buffer)) in
    let first : add_sequence range.first i ≡ add_sequence next i =
      ap (λ (f : ℕ). add_sequence f i) c.first in
    rw first (
      slot-ne b base (least base w'.mem l ls) x (add_sequence next i) v ready.small (hx, moved.1)
        unread (omega (arith, moved.0)) (omega (arith, moved.0, same)))

module _ {ℓ} {T : Type ℓ} (b : RingBuffer T) {Watched : ℕ → Type 0} {base : ℕ} {env : Environment}
    {ws : WaitStrategy} (setting : Setting Watched base env ws) (cs : SingleThreadedClaimStrategy)
    {l : ℕ} {ls : List ℕ} (ready : IsReady base cs l ls) (watched : All Watched (l ∷ ls))
    (w : World) (ahead : AllAhead Watched base w.mem) (valid : IsValid b)
    (same : b.size ≡ cs.buffer_size) (x : ℕ) (small : x < 2 ^ 64)
    (before : distance base x < distance base cs.next_sequence_to_claim) where
  -- When `claim` has returned a range, a sequence number before it that some consumer has still to
  -- pass has its item in another slot than each number of the range: what the writer puts there
  -- overwrites nothing that is still to be read.
  pub claim-slots_free :
      (count : ℕ) {range : SequenceRange} {cs' : SingleThreadedClaimStrategy} {w' : World}
      → claim env ws cs count w ≡ done (range, cs') w'
      → least base w'.mem l ls < distance base x
      → (i : ℕ) → i < range.size
      → slot b (at range i) ≢ slot b x
  claim-slots_free count returned unread i hi =
      IsClaimed-slots_free b valid same ready
        (rw returned at (claim-IsClaimed setting cs ready watched w ahead count)) i x hi small
        before unread

  -- The same for `claim_one`.
  pub claim_one-slot_free :
      {seq : ℕ} {cs' : SingleThreadedClaimStrategy} {w' : World}
      → claim_one env ws cs w ≡ done (seq, cs') w'
      → least base w'.mem l ls < distance base x
      → slot b seq ≢ slot b x
  claim_one-slot_free {w'} returned unread =
      let c = rw returned at (claim_one-IsClaimedOne setting cs ready watched w ahead) in
      rw c.claimed (
        slot-ne b base (least base w'.mem l ls) x cs.next_sequence_to_claim valid ready.small
          (small, ready.next.small) unread before
          (omega (arith, c.room, ap (distance base) c.claimed, same)))
