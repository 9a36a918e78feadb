-- ===== src/WaitStrategy/Promise.antt =====
-- What a wait strategy promises, in a memory that the other threads only ever advance.
use disruptorplus.Common.{ℕ, ◌+◌, ◌≤◌, ◌<◌, ◌⊎◌, ◌^◌, inl, inr, arith, List, ◌∷◌, All}
use disruptorplus.Sequence.Distance.{distance, IsAhead}
use disruptorplus.Memory.{Environment, Memory, World}
use disruptorplus.Memory.Rely.{AllAhead, IsFair, Later, Later-trans, AllReached, least}
use disruptorplus.WaitStrategy.{WaitStrategy, Partly, Totally}

module _ (Watched : ℕ → Type 0) (base : ℕ) (env : Environment) where
  -- A wait for `s` on `l ∷ ls` that began in `w` and returned `r` in `w'`: `r` is not before `s`,
  -- and no atomic is behind `r`.
  pub record IsReached (s l : ℕ) (ls : List ℕ) (w : World) (r : ℕ) (w' : World) : Type 0 where
    pub later : Later Watched base w w'
    pub ahead : IsAhead base r
    pub enough : distance base s ≤ distance base r
    pub below : distance base r ≤ least base w'.mem l ls

  -- A timed wait that gave up: `r` precedes `s`, and during the call the clock showed a time past
  -- the deadline.
  pub record IsTimedOut (s deadline : ℕ) (w : World) (r : ℕ) (w' : World) : Type 0 where
    pub later : Later Watched base w w'
    pub ahead : IsAhead base r
    pub short : distance base r < distance base s
    pub read_at : ℕ
    pub during : (w.tick ≤ read_at) × (read_at < w'.tick)
    pub late : deadline < env.now read_at

  -- The two ways in which a timed wait returns.
  abbrev pub Ends : (s l : ℕ) (ls : List ℕ) (deadline : ℕ) → World → ℕ → World → Type 0
  Ends s l ls deadline w r w' = IsReached s l ls w r w' ⊎ IsTimedOut s deadline w r w'

  -- What happens from a later world on, happens from the world before it on.
  pub IsReached-Later :
      {s l : ℕ} {ls : List ℕ} {v w : World}
      → Later Watched base v w
      → (r : ℕ) (w' : World) → IsReached s l ls w r w'
      → IsReached s l ls v r w'
  IsReached-Later p r w' e = record {
    later = Later-trans Watched base p e.later;
    ahead = e.ahead;
    enough = e.enough;
    below = e.below;
  }

  -- With a timeout the deadline is counted from a clock reading made during the call.
  abbrev pub EndsFor : (s l : ℕ) (ls : List ℕ) (timeout : ℕ) → World → ℕ → World → Type 0
  EndsFor s l ls timeout w r w' =
      IsReached s l ls w r w'
      ⊎ ((u : ℕ) × (w.tick ≤ u) × (u < w'.tick) × IsTimedOut s (env.now u + timeout) w r w')

  pub IsTimedOut-Later :
      {s deadline : ℕ} {v w : World}
      → Later Watched base v w
      → (r : ℕ) (w' : World) → IsTimedOut s deadline w r w'
      → IsTimedOut s deadline v r w'
  IsTimedOut-Later p r w' e = record {
    later = Later-trans Watched base p e.later;
    ahead = e.ahead;
    short = e.short;
    read_at = e.read_at;
    during = omega (arith, p.ticks, e.during);
    late = e.late;
  }

  pub Ends-Later :
      {s l deadline : ℕ} {ls : List ℕ} {v w : World}
      → Later Watched base v w
      → (r : ℕ) (w' : World) → Ends s l ls deadline w r w'
      → Ends s l ls deadline v r w'
  Ends-Later p r w' (inl e) = inl (IsReached-Later p r w' e)
  Ends-Later p r w' (inr e) = inr (IsTimedOut-Later p r w' e)

  pub EndsFor-Later :
      (timeout : ℕ) {s l : ℕ} {ls : List ℕ} {v w : World}
      → Later Watched base v w
      → (r : ℕ) (w' : World) → EndsFor s l ls timeout w r w'
      → EndsFor s l ls timeout v r w'
  EndsFor-Later timeout p r w' (inl e) = inl (IsReached-Later p r w' e)
  EndsFor-Later timeout p r w' (inr (u, from, before, e)) =
      inr (u, omega (arith, p.ticks), before, IsTimedOut-Later p r w' e)

  -- From the access number `t` on, the other threads have published `s` in all of the atomics.
  abbrev pub ArrivesBy : (t s : ℕ) (ls : List ℕ) → Type 0
  ArrivesBy t s ls =
      (u : ℕ)
      → t ≤ u
      → (m : Memory) → AllAhead Watched base m
      → AllReached base (env.others u m) (distance base s) ls

  pub record IsWaitStrategy (ws : WaitStrategy) : Type 0 where
    -- A wait that returns has reached its sequence number.
    pub waits :
        (s l : ℕ) (ls : List ℕ) (w : World)
        → IsAhead base s
        → All Watched (l ∷ ls)
        → AllAhead Watched base w.mem
        → Partly (IsReached s l ls w) (ws.wait s (l ∷ ls) w)
    -- It does return if the sequence number is published in time for its fuel.
    pub returns :
        (t s l : ℕ) (ls : List ℕ) (w : World)
        → IsAhead base s
        → All Watched (l ∷ ls)
        → AllAhead Watched base w.mem
        → ArrivesBy t s (l ∷ ls)
        → t ≤ w.tick + ws.patience
        → Totally (IsReached s l ls w) (ws.wait s (l ∷ ls) w)
    -- A wait with a deadline reaches its sequence number or has seen the deadline pass.
    pub waits_until :
        (s l deadline : ℕ) (ls : List ℕ) (w : World)
        → IsAhead base s
        → All Watched (l ∷ ls)
        → AllAhead Watched base w.mem
        → Partly (Ends s l ls deadline w) (ws.wait_until s (l ∷ ls) deadline w)
    -- So does a wait with a timeout, its deadline being counted from when it was called.
    pub waits_for :
        (s l timeout : ℕ) (ls : List ℕ) (w : World)
        → IsAhead base s
        → All Watched (l ∷ ls)
        → AllAhead Watched base w.mem
        → Partly (EndsFor s l ls timeout w) (ws.wait_for s (l ∷ ls) timeout w)
    -- A signal is sent without failing, and changes no atomic of this thread's view backwards.
    pub signals :
        (w : World)
        → AllAhead Watched base w.mem
        → Totally (λ _ w'. Later Watched base w w') (ws.signal_all w)

  -- What the theorems about waiting suppose of the memory, the other threads and the strategy.
  pub record Setting (ws : WaitStrategy) : Type 0 where
    pub small : base < 2 ^ 64
    pub fair : IsFair Watched base env
    pub keeps : IsWaitStrategy ws
