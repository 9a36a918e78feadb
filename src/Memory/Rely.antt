-- ===== src/Memory/Rely.antt =====
-- What a thread may rely on: the other threads only ever advance the sequence numbers.
use disruptorplus.Common.{
  ℕ, suc, ◌≤◌, min, Bool, true, false, if◌then◌else◌, ◌==◌, List, [], ◌∷◌, All, arith,
}
use disruptorplus.Sequence.Distance.{distance, IsAhead}
use disruptorplus.Memory.{Memory, Environment, World, arrive, update}

-- `Watched` picks the atomics in question, and `base` is a sequence number behind all of them.
module _ (Watched : ℕ → Type 0) (base : ℕ) where
  -- All watched sequence numbers lie less than half the number range ahead of the base.
  abbrev pub AllAhead : Memory → Type 0
  AllAhead m = (l : ℕ) → Watched l → IsAhead base (m l)

  -- No watched sequence number has moved back.
  abbrev pub Advances : Memory → Memory → Type 0
  Advances m m' = (l : ℕ) → Watched l → distance base (m l) ≤ distance base (m' l)

  -- The rely condition on the other threads.
  pub record IsFair (env : Environment) : Type 0 where
    pub keeps : (t : ℕ) (m : Memory) → AllAhead m → AllAhead (env.others t m)
    pub grows : (t : ℕ) (m : Memory) → AllAhead m → Advances m (env.others t m)

-- What holds of the world after some accesses of a thread that writes no watched atomic.
module _ (Watched : ℕ → Type 0) (base : ℕ) where
  pub record Later (w w' : World) : Type 0 where
    pub ahead : AllAhead Watched base w'.mem
    pub advances : Advances Watched base w.mem w'.mem
    pub ticks : w.tick ≤ w'.tick

  pub Later-refl : (w : World) → AllAhead Watched base w.mem → Later w w
  Later-refl w a = record { ahead = a; advances = λ l h. omega arith; ticks = omega arith }

  pub Later-trans : {u v w : World} → Later u v → Later v w → Later u w
  Later-trans p q = record {
    ahead = q.ahead;
    advances = λ l h. omega (arith, p.advances l h, q.advances l h);
    ticks = omega arith;
  }

  pub Later-arrive :
      (env : Environment) (w : World)
      → IsFair Watched base env
      → AllAhead Watched base w.mem
      → Later w (arrive env w)
  Later-arrive env w fair a = record {
    ahead = fair.keeps w.tick w.mem a;
    advances = fair.grows w.tick w.mem a;
    ticks = omega arith;
  }

  IsAhead-if :
      (b : Bool) {x y : ℕ} → IsAhead base x → IsAhead base y → IsAhead base (if b then x else y)
  IsAhead-if true hx hy = hx
  IsAhead-if false hx hy = hy

  -- A store moves an atomic on.
  pub Later-store :
      (env : Environment) (w : World)
      → IsFair Watched base env
      → AllAhead Watched base w.mem
      → (k v : ℕ) → IsAhead base v
      → distance base ((arrive env w).mem k) ≤ distance base v
      → Later w (record { tick = suc w.tick; mem = update (arrive env w).mem k v })
  Later-store env w fair a k v hv onward =
      let first = Later-arrive env w fair a in
      record {
        ahead = λ l h. IsAhead-if (l == k) hv (first.ahead l h);
        advances = λ l h. ground (arith, first.advances l h);
        ticks = omega arith;
      }

-- Each of the atomics has come at least `b` steps from the base.
abbrev pub AllReached : ℕ → Memory → ℕ → List ℕ → Type 0
AllReached base m b ls = All (λ l. b ≤ distance base (m l)) ls

module _ (Watched : ℕ → Type 0) (base : ℕ) where
  -- What all atomics have reached stays reached.
  pub AllReached-Later :
      {w w' : World} (b : ℕ) (ls : List ℕ)
      → Later Watched base w w'
      → All Watched ls
      → AllReached base w.mem b ls
      → AllReached base w'.mem b ls
  AllReached-Later b [] p h r = tt
  AllReached-Later b (l ∷ ls) p h r =
      (omega (arith, p.advances l h.0, r.0), AllReached-Later b ls p h.1 r.1)

module _ (base : ℕ) (m : Memory) where
  -- How far the least advanced of the atomics has come from the base.
  abbrev pub least : ℕ → List ℕ → ℕ
  least l [] = distance base (m l)
  least l (k ∷ ks) = min (distance base (m l)) (least k ks)

  pub AllReached-weaken :
      (a b : ℕ) (ls : List ℕ) → a ≤ b → AllReached base m b ls → AllReached base m a ls
  AllReached-weaken a b [] h r = tt
  AllReached-weaken a b (l ∷ ls) h r = (omega arith, AllReached-weaken a b ls h r.1)

  pub least-AllReached : (l : ℕ) (ls : List ℕ) → AllReached base m (least l ls) (l ∷ ls)
  least-AllReached l [] = (omega arith, tt)
  least-AllReached l (k ∷ ks) = (
    omega arith,
    AllReached-weaken (least l (k ∷ ks)) (least k ks) (k ∷ ks) (omega arith)
        (least-AllReached k ks),
  )

  pub AllReached-le-least : (b l : ℕ) (ls : List ℕ) → AllReached base m b (l ∷ ls) → b ≤ least l ls
  AllReached-le-least b l [] r = r.0
  AllReached-le-least b l (k ∷ ks) r = omega (arith, r.0, AllReached-le-least b k ks r.1)

-- The least advanced atomic advances.
pub least-Later :
    (Watched : ℕ → Type 0) (base : ℕ) {w w' : World} (l : ℕ) (ls : List ℕ)
    → Later Watched base w w'
    → All Watched (l ∷ ls)
    → least base w.mem l ls ≤ least base w'.mem l ls
least-Later Watched base {w} {w'} l ls p h =
    AllReached-le-least base w'.mem (least base w.mem l ls) l ls (
      AllReached-Later Watched base (least base w.mem l ls) (l ∷ ls) p h
        (least-AllReached base w.mem l ls))
