-- ===== src/WaitStrategy/Asking.antt =====
-- The shape that the waits of barriers and groups share: look once, and ask the wait strategy only
-- if what was read precedes the sequence number.
use disruptorplus.Common.{
  ℕ, ◌+◌, ◌≤◌, ◌<◌, ◌≡◌, ◌⊎◌, inl, inr, List, ◌∷◌, All, is_neg, false, Bool-cases, if◌then◌else◌,
  arith,
}
use disruptorplus.Sequence.{difference}
use disruptorplus.Sequence.Distance.{distance, IsAhead, difference-eq-sub}
use disruptorplus.Memory.{Environment, World, pure}
use disruptorplus.Memory.Rely.{Later, least}
use disruptorplus.WaitStrategy.{WaitStrategy, Partly, Totally, Partly-map, Totally-map}
use disruptorplus.WaitStrategy.Promise.{
  IsReached, IsReached-Later, Ends, Ends-Later, EndsFor, EndsFor-Later, ArrivesBy, Setting,
}

module _ {Watched : ℕ → Type 0} {base : ℕ} {env : Environment} {ws : WaitStrategy}
    (setting : Setting Watched base env ws) (s l : ℕ) (ls : List ℕ) (sought : IsAhead base s)
    (watched : All Watched (l ∷ ls)) where
  open setting use {small, keeps}

  -- `current`, read from the atomics between the worlds `w` and `w'`.
  pub record Glance (w : World) (current : ℕ) (w' : World) : Type 0 where
    pub later : Later Watched base w w'
    pub ahead : IsAhead base current
    pub reached :
        (distance base current < distance base s) ⊎ (distance base current ≤ least base w'.mem l ls)

  module _ {w w' : World} {current : ℕ} (glance : Glance w current w') where
    open glance use {later, ahead, reached}

    at_once : is_neg (difference current s) ≡ false → IsReached Watched base env s l ls w current w'
    at_once e = record {
      later = later;
      ahead = ahead;
      enough = ground (arith, difference-eq-sub base current s small ahead sought);
      below = ground (arith, reached, difference-eq-sub base current s small ahead sought);
    }

    pub ask-wait :
        Partly
          (IsReached Watched base env s l ls w)
          ((if is_neg (difference current s) then ws.wait s (l ∷ ls) else pure current) w')
    ask-wait = elim (Bool-cases (is_neg (difference current s))) [
      | inl e ↦ rw e (
          Partly-map (ws.wait s (l ∷ ls) w') (IsReached-Later Watched base env later)
            (keeps.waits s l ls w' sought watched later.ahead))
      | inr e ↦ rw e (at_once e)
    ]

    pub ask-wait_until :
        (deadline : ℕ)
        → Partly (Ends Watched base env s l ls deadline w) (
            (if is_neg (difference current s)
                then ws.wait_until s (l ∷ ls) deadline
                else pure current)
              w')
    ask-wait_until deadline = elim (Bool-cases (is_neg (difference current s))) [
      | inl e ↦ rw e (
          Partly-map (ws.wait_until s (l ∷ ls) deadline w') (Ends-Later Watched base env later)
            (keeps.waits_until s l deadline ls w' sought watched later.ahead))
      | inr e ↦ rw e (inl (at_once e))
    ]

    pub ask-wait_for :
        (timeout : ℕ)
        → Partly (EndsFor Watched base env s l ls timeout w) (
            (if is_neg (difference current s) then ws.wait_for s (l ∷ ls) timeout else pure current)
              w')
    ask-wait_for timeout = elim (Bool-cases (is_neg (difference current s))) [
      | inl e ↦ rw e (
          Partly-map (ws.wait_for s (l ∷ ls) timeout w')
            (EndsFor-Later Watched base env timeout later)
            (keeps.waits_for s l timeout ls w' sought watched later.ahead))
      | inr e ↦ rw e (inl (at_once e))
    ]

    pub ask-returns :
        (t : ℕ)
        → ArrivesBy Watched base env t s (l ∷ ls)
        → t ≤ w.tick + ws.patience
        → Totally
            (IsReached Watched base env s l ls w)
            ((if is_neg (difference current s) then ws.wait s (l ∷ ls) else pure current) w')
    ask-returns t arrives time = elim (Bool-cases (is_neg (difference current s))) [
      | inl e ↦ rw e (
          Totally-map (ws.wait s (l ∷ ls) w') (IsReached-Later Watched base env later) (
            keeps.returns t s l ls w' sought watched later.ahead arrives
              (omega (arith, later.ticks))))
      | inr e ↦ rw e (at_once e)
    ]
