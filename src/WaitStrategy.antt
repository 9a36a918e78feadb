-- ===== src/WaitStrategy.antt =====
-- The wait strategy that the class templates of include/disruptorplus take as a parameter: its
-- functions, and what its documentation promises of them.
pub mod Promise
pub mod Asking
use disruptorplus.Common.{ℕ, ◌<◌, ◌^◌, List, All, is_neg, false, ◌≡◌, refl}
use disruptorplus.Sequence.{difference}
use disruptorplus.Memory.{Memory, Action, World, Outcome, done, failed, waiting, ◌>>=◌}

-- The three `wait_until_published` and `signal_all_when_blocking`. Times are numbers of ticks of
-- the clock, and `patience` is the fuel of the waiting loops.
pub record WaitStrategy : Type 0 where
  pub patience : ℕ
  pub wait : (sequence : ℕ) (sequences : List ℕ) → Action ℕ
  pub wait_for : (sequence : ℕ) (sequences : List ℕ) (timeout : ℕ) → Action ℕ
  pub wait_until : (sequence : ℕ) (sequences : List ℕ) (timeout_time : ℕ) → Action ℕ
  pub signal_all : Action (Unit {0})

-- `r` is what a wait for `s` on the atomics `ls` may return in the memory `m`.
abbrev pub MayReturn : Memory → (s : ℕ) (ls : List ℕ) (r : ℕ) → Type 0
MayReturn m s ls r =
    (r < 2 ^ 64)
    × (is_neg (difference r s) ≡ false)
    × All (λ l. is_neg (difference (m l) r) ≡ false) ls

-- A call that returns has the property, and no `assert` fails; it may still be waiting.
abbrev pub Partly : {A : Type 0} → (A → World → Type 0) → Outcome A → Type 0
Partly P (done a w) = P a w
Partly P failed = ⊥
Partly P waiting = Unit

-- The call returns, with the property.
abbrev pub Totally : {A : Type 0} → (A → World → Type 0) → Outcome A → Type 0
Totally P (done a w) = P a w
Totally P failed = ⊥
Totally P waiting = ⊥

pub Partly-map :
    {A : Type 0} {P Q : A → World → Type 0} (o : Outcome A)
    → ((a : A) (w : World) → P a w → Q a w)
    → Partly P o
    → Partly Q o
Partly-map (done a w) f h = f a w h
Partly-map failed f h = h
Partly-map waiting f h = h

pub Totally-map :
    {A : Type 0} {P Q : A → World → Type 0} (o : Outcome A)
    → ((a : A) (w : World) → P a w → Q a w)
    → Totally P o
    → Totally Q o
Totally-map (done a w) f h = f a w h
Totally-map failed f h = h
Totally-map waiting f h = h

-- What follows a call that has a property.
pub Partly-bind :
    {A B : Type 0} {P : A → World → Type 0} (Q : B → World → Type 0) (m : Action A)
    (f : A → Action B) (w : World)
    → ((a : A) (w' : World) → P a w' → Partly Q (f a w'))
    → Partly P (m w)
    → Partly Q ((m >>= f) w)
Partly-bind {A} {B} {P} Q m f w next h = go (m w) h
  where
    go :
        (o : Outcome A)
        → Partly P o
        → Partly Q (elim o [ done a w' ↦ f a w' | failed ↦ failed | waiting ↦ waiting ])
    go (done a w') p = next a w' p
    go failed p = p
    go waiting p = p

pub Totally-bind :
    {A B : Type 0} {P : A → World → Type 0} (Q : B → World → Type 0) (m : Action A)
    (f : A → Action B) (w : World)
    → ((a : A) (w' : World) → P a w' → Totally Q (f a w'))
    → Totally P (m w)
    → Totally Q ((m >>= f) w)
Totally-bind {A} {B} {P} Q m f w next h = go (m w) h
  where
    go :
        (o : Outcome A)
        → Totally P o
        → Totally Q (elim o [ done a w' ↦ f a w' | failed ↦ failed | waiting ↦ waiting ])
    go (done a w') p = next a w' p
    go failed p = p
    go waiting p = p

-- Two ways to go on from a call that have the same outcome wherever it may return.
pub bind-eq_bind :
    {A B C : Type 0} (P : A → World → Type 0) (m : Action A) (f : A → Action C) (g : A → Action B)
    (h : B → Action C) (w : World)
    → Partly P (m w)
    → ((a : A) (w' : World) → P a w' → f a w' ≡ (g a >>= h) w')
    → (m >>= f) w ≡ ((m >>= g) >>= h) w
bind-eq_bind {A} {B} {C} P m f g h w kept same = go (m w) kept
  where
    go :
        (o : Outcome A)
        → Partly P o
        → ◌≡◌ {A = Outcome C}
            (elim o [ done a w' ↦ f a w' | failed ↦ failed | waiting ↦ waiting ])
            (elim (elim o as (λ x. Outcome B) [
              | done a w' ↦ g a w'
              | failed ↦ failed
              | waiting ↦ waiting
            ])
              as (λ x. Outcome C) [ done b w' ↦ h b w' | failed ↦ failed | waiting ↦ waiting ])
    go (done a w') p = same a w' p
    go failed p = absurd p
    go waiting p = refl

-- Two properties of one call.
pub Partly-both :
    {A : Type 0} (P Q : A → World → Type 0) (o : Outcome A)
    → Partly P o
    → Partly Q o
    → Partly (λ a w. P a w × Q a w) o
Partly-both P Q (done a w) p q = (p, q)
Partly-both P Q failed p q = p
Partly-both P Q waiting p q = tt

pub Totally→Partly :
    {A : Type 0} (P : A → World → Type 0) (o : Outcome A) → Totally P o → Partly P o
Totally→Partly P (done a w) h = h
Totally→Partly P failed h = h
Totally→Partly P waiting h = tt

-- The same with what a call that still waits tells of its surroundings.
abbrev pub Mostly : {A : Type 0} → Type 0 → (A → World → Type 0) → Outcome A → Type 0
Mostly W P (done a w) = P a w
Mostly W P failed = ⊥
Mostly W P waiting = W

pub Mostly-map :
    {A : Type 0} {V W : Type 0} (P : A → World → Type 0) (o : Outcome A)
    → (V → W)
    → Mostly V P o
    → Mostly W P o
Mostly-map P (done a w) f h = h
Mostly-map P failed f h = h
Mostly-map P waiting f h = f h

pub Mostly→Partly :
    {A : Type 0} (W : Type 0) (P : A → World → Type 0) (o : Outcome A) → Mostly W P o → Partly P o
Mostly→Partly W P (done a w) h = h
Mostly→Partly W P failed h = h
Mostly→Partly W P waiting h = tt

pub Mostly→Totally :
    {A : Type 0} (W : Type 0) (P : A → World → Type 0) (o : Outcome A)
    → (W → ⊥)
    → Mostly W P o
    → Totally P o
Mostly→Totally W P (done a w) f h = h
Mostly→Totally W P failed f h = h
Mostly→Totally W P waiting f h = f h
