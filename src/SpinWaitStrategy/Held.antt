-- ===== src/SpinWaitStrategy/Held.antt =====
-- A wait in progress: what the result of the last scan of the atomics says, and when the next scan
-- will find the sequence number.
use disruptorplus.Common.{
  ℕ, suc, ◌+◌, ◌^◌, ◌≤◌, ◌<◌, ◌≡◌, ◌⊎◌, inl, inr, List, ◌∷◌, All, is_neg, true, false, dec_lt,
  arith,
}
use disruptorplus.Sequence.{difference}
use disruptorplus.Sequence.Distance.{distance, IsAhead, difference-eq-sub}
use disruptorplus.Memory.{Environment, World, arrive, done}
use disruptorplus.Memory.Rely.{AllAhead, IsFair, Later, Later-trans, least, AllReached-le-least}
use disruptorplus.Minimum.{minimum_sequence_after}
use disruptorplus.Minimum.After.{IsLowestAfter, minimum_sequence_after-IsLowestAfter}
use disruptorplus.WaitStrategy.Promise.{IsReached, ArrivesBy}

-- What holds of every call that waits for `s` on the atomics `l ∷ ls`.
pub record Call (Watched : ℕ → Type 0) (base : ℕ) (env : Environment) (s l : ℕ) (ls : List ℕ)
    : Type 0 where
  pub small : base < 2 ^ 64
  pub fair : IsFair Watched base env
  pub sought : IsAhead base s
  pub watched : All Watched (l ∷ ls)

module _ {Watched : ℕ → Type 0} {base : ℕ} {env : Environment} {s l : ℕ} {ls : List ℕ}
    (call : Call Watched base env s l ls) where
  open call use {small, fair, sought, watched}

  -- A result in hand, read since the world `v` and now in the world `w`.
  pub record Held (v : World) (r : ℕ) (w : World) : Type 0 where
    pub later : Later Watched base v w
    pub ahead : IsAhead base r
    pub reached : (distance base r < distance base s) ⊎ (distance base r ≤ least base w.mem l ls)

  pub Held-scan :
      {v w : World} {r' : ℕ} {w' : World}
      → Later Watched base v w
      → IsLowestAfter Watched env base s l ls w r' w'
      → Held v r' w'
  Held-scan p low = record {
    later = Later-trans Watched base p low.later;
    ahead = low.ahead;
    reached = low.reached;
  }

  -- The test of the loops, on a result in hand.
  pub Held-stops :
      {v w : World} {r : ℕ}
      → Held v r w
      → is_neg (difference r s) ≡ false
      → IsReached Watched base env s l ls v r w
  Held-stops {r} h e = record {
    later = h.later;
    ahead = h.ahead;
    enough = ground (arith, difference-eq-sub base r s small h.ahead sought);
    below = ground (arith, difference-eq-sub base r s small h.ahead sought, h.reached);
  }

  pub scan :
      (w : World)
      → AllAhead Watched base w.mem
      → (r : ℕ) × (w' : World) × (minimum_sequence_after env s (l ∷ ls) w ≡ done r w')
        × IsLowestAfter Watched env base s l ls w r w'
  scan w a =
      minimum_sequence_after-IsLowestAfter Watched base s env small fair sought l ls w watched a

  -- The result in hand has reached `s`, or it is not yet time for it and there is fuel left.
  abbrev pub Due : ℕ → ℕ → World → ℕ → Type 0
  Due t r w fuel = (distance base s ≤ distance base r) ⊎ ((t < w.tick + fuel) × (0 < fuel))

  pub Due-scan :
      (t fuel : ℕ) {w : World} {r : ℕ} {w' : World}
      → AllAhead Watched base w.mem
      → ArrivesBy Watched base env t s (l ∷ ls)
      → t ≤ w.tick + fuel
      → IsLowestAfter Watched env base s l ls w r w'
      → Due t r w' fuel
  Due-scan t fuel {w} a arrives time low = elim (dec_lt w.tick t) [
    | yes early ↦ inr (omega (arith, low.busy), omega arith)
    | no late ↦ inl (
        omega (
          arith,
          low.above,
          AllReached-le-least base (arrive env w).mem (distance base s) l ls
              (arrives w.tick (omega arith) w.mem a),
        ))
  ]

  pub Due-stop :
      {t r : ℕ} {v w : World} → Held v r w → Due t r w 0 → is_neg (difference r s) ≡ false
  Due-stop {r} h due = ground (arith, due, difference-eq-sub base r s small h.ahead sought)

  pub Due-next :
      {t r fuel : ℕ} {v w : World}
      → Held v r w
      → Due t r w (suc fuel)
      → is_neg (difference r s) ≡ true
      → t ≤ w.tick + fuel
  Due-next {r} h due e = ground (arith, due, difference-eq-sub base r s small h.ahead sought)
