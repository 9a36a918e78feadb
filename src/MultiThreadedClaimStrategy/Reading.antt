-- ===== src/MultiThreadedClaimStrategy/Reading.antt =====
-- `last_published_after`: how far a reader may read.
use disruptorplus.Common.{
  ℕ, zero, suc, ◌+◌, ◌^◌, ◌≤◌, ◌<◌, ◌≡◌, ◌≢◌, inl, inr, ◌==◌, true, false, Bool-cases, dec_lt,
  arith,
}
use disruptorplus.Sequence.{add_sequence}
use disruptorplus.Sequence.Distance.{distance, IsAhead, distance-add_sequence}
use disruptorplus.Memory.{Environment, Memory, World, arrive}
use disruptorplus.Memory.Rely.{AllAhead, Later, Later-refl, Later-trans, Later-arrive}
use disruptorplus.WaitStrategy.{WaitStrategy, Partly, Totally}
use disruptorplus.WaitStrategy.Promise.{Setting}
use disruptorplus.MultiThreadedClaimStrategy.{
  MultiThreadedClaimStrategy, entry, is_published, last_published_loop, last_published_after,
}

distance-injective :
    (base x y : ℕ)
    → base < 2 ^ 64
    → x < 2 ^ 64
    → y < 2 ^ 64
    → distance base x ≡ distance base y
    → x ≡ y
distance-injective base x y h hx hy e = omega arith

module _ (base : ℕ) (cs : MultiThreadedClaimStrategy) where
  -- The entry of `x` holds `x`, or a number behind it whose item has taken its slot since.
  abbrev pub IsPublished : ℕ → World → Type 0
  IsPublished x w = distance base x ≤ distance base (w.mem (entry cs x))

  -- All sequence numbers after `known` up to `r` are published.
  abbrev pub AllPublished : (known r : ℕ) → World → Type 0
  AllPublished known r w =
      (x : ℕ)
      → x < 2 ^ 64
      → distance base known < distance base x
      → distance base x ≤ distance base r
      → IsPublished x w

  -- No entry holds a sequence number `top` steps from the base or farther.
  abbrev pub AllBelow : (top : ℕ) → Memory → Type 0
  AllBelow top m = (x : ℕ) → distance base (m (entry cs x)) < top

module _ {Watched : ℕ → Type 0} {base : ℕ} {env : Environment} {ws : WaitStrategy}
    (setting : Setting Watched base env ws) (cs : MultiThreadedClaimStrategy)
    (watched : (x : ℕ) → Watched (entry cs x)) where
  open setting use {small, fair}

  pub AllPublished-Later :
      (known r : ℕ) {v w : World}
      → Later Watched base v w
      → AllPublished base cs known r v
      → AllPublished base cs known r w
  AllPublished-Later known r p all x hx after upto =
      omega (arith, p.advances (entry cs x) (watched x), all x hx after upto)

  -- One more is published.
  pub AllPublished-suc :
      (known r : ℕ) (w : World)
      → IsAhead base r
      → AllPublished base cs known r w
      → IsPublished base cs (add_sequence r 1) w
      → AllPublished base cs known (add_sequence r 1) w
  AllPublished-suc known r w hr all one x hx after upto =
      let (moved, fits) = distance-add_sequence base r 1 small hr.small (omega (arith, hr.near)) in
      elim (dec_lt (distance base r) (distance base x)) [
        | yes beyond ↦
            let same : add_sequence r 1 ≡ x =
              distance-injective base (add_sequence r 1) x small fits hx (omega arith) in
            rw same at one
        | no within ↦ all x hx after (omega arith)
      ]

  -- The result of `last_published_after`, for a reader that began in `v` and knew that the numbers
  -- up to `known` are published; `s` is where it began to look.
  pub record IsLastPublished (known s : ℕ) (v : World) (r : ℕ) (w' : World) : Type 0 where
    pub later : Later Watched base v w'
    pub ahead : IsAhead base r
    pub onward : distance base s ≤ distance base r
    pub all : AllPublished base cs known r w'
    pub stops : w'.mem (entry cs (add_sequence r 1)) ≢ add_sequence r 1

  -- What the loop keeps: `r` is the last number found.
  pub record IsFound (known s : ℕ) (v : World) (r : ℕ) (w : World) : Type 0 where
    pub later : Later Watched base v w
    pub ahead : IsAhead base r
    pub onward : distance base s ≤ distance base r
    pub all : AllPublished base cs known r w

  -- The other threads publish nothing at `top` or behind it.
  abbrev pub IsBounded : (top : ℕ) → Type 0
  IsBounded top =
      (u : ℕ) (m : Memory)
      → AllAhead Watched base m
      → AllBelow base cs top m
      → AllBelow base cs top (env.others u m)

  module _ {known s : ℕ} {v : World} where
    IsFound-arrive :
        (r : ℕ) (w : World) → IsFound known s v r w → IsFound known s v r (arrive env w)
    IsFound-arrive r w f =
        let first = Later-arrive Watched base env w fair f.later.ahead in
        record {
          later = Later-trans Watched base f.later first;
          ahead = f.ahead;
          onward = f.onward;
          all = AllPublished-Later known r first f.all;
        }

    IsFound-next :
        (r : ℕ) (w : World)
        → IsFound known s v r w
        → (w.mem (entry cs (add_sequence r 1)) == add_sequence r 1) ≡ true
        → IsFound known s v (add_sequence r 1) w
    IsFound-next r w f e =
        let (moved, fits) =
          distance-add_sequence base r 1 small f.ahead.small (omega (arith, f.ahead.near)) in
        let same : w.mem (entry cs (add_sequence r 1)) ≡ add_sequence r 1 = ground arith in
        record {
          later = f.later;
          ahead =
              rw same at (f.later.ahead (entry cs (add_sequence r 1)) (watched (add_sequence r 1)));
          onward = omega (arith, f.onward);
          all = AllPublished-suc known r w f.ahead f.all (rw same (omega arith));
        }

    IsFound-stops :
        (r : ℕ) (w : World)
        → IsFound known s v r w
        → (w.mem (entry cs (add_sequence r 1)) == add_sequence r 1) ≡ false
        → IsLastPublished known s v r w
    IsFound-stops r w f e = record {
      later = f.later;
      ahead = f.ahead;
      onward = f.onward;
      all = f.all;
      stops = λ same. ground arith;
    }

    pub last_published_loop-ends :
        (fuel r : ℕ) (w : World)
        → IsFound known s v r w
        → Partly
            (IsLastPublished known s v)
            (last_published_loop env ws cs fuel (add_sequence r 1) r w)
    unfolding last_published_loop is_published
    last_published_loop-ends zero r w f = tt
    last_published_loop-ends (suc fuel) r w f =
        let f' = IsFound-arrive r w f in
        elim (Bool-cases ((arrive env w).mem (entry cs (add_sequence r 1)) == add_sequence r 1)) [
          | inl e ↦ rw e (
              last_published_loop-ends fuel (add_sequence r 1) (arrive env w)
                (IsFound-next r (arrive env w) f' e))
          | inr e ↦ rw e (IsFound-stops r (arrive env w) f' e)
        ]

    -- Where the writers stay below `top`, so does the loop.
    pub last_published_loop-returns :
        (top : ℕ)
        → IsBounded top
        → (fuel r : ℕ) (w : World) → IsFound known s v r w
        → AllBelow base cs top w.mem
        → distance base r < top
        → top ≤ distance base r + fuel
        → Totally
            (IsLastPublished known s v)
            (last_published_loop env ws cs fuel (add_sequence r 1) r w)
    unfolding last_published_loop is_published
    last_published_loop-returns top bounded zero r w f below under enough = absurd (omega arith)
    last_published_loop-returns top bounded (suc fuel) r w f below under enough =
        let f' = IsFound-arrive r w f in
        let below' = bounded w.tick w.mem f.later.ahead below in
        let (moved, fits) =
          distance-add_sequence base r 1 small f.ahead.small (omega (arith, f.ahead.near)) in
        elim (Bool-cases ((arrive env w).mem (entry cs (add_sequence r 1)) == add_sequence r 1)) [
          | inl e ↦
              let same : (arrive env w).mem (entry cs (add_sequence r 1)) ≡ add_sequence r 1 =
                ground arith in
              let lower = rw same at (below' (add_sequence r 1)) in
              rw e (
                last_published_loop-returns top bounded fuel (add_sequence r 1) (arrive env w)
                  (IsFound-next r (arrive env w) f' e) below' lower (omega arith))
          | inr e ↦ rw e (IsFound-stops r (arrive env w) f' e)
        ]

  module _ (known : ℕ) (ahead : IsAhead base known) (w : World)
      (all_ahead : AllAhead Watched base w.mem) where
    starts : IsFound known known w known w
    starts = record {
      later = Later-refl Watched base w all_ahead;
      ahead = ahead;
      onward = omega arith;
      all = λ x hx after upto. absurd (omega arith);
    }

    -- `last_published_after`, when it returns, returns a sequence number not before the one known,
    -- such that all numbers between the two are published when it returns, and the next one is not.
    pub last_published_after-IsLastPublished :
        (fuel : ℕ)
        → Partly (IsLastPublished known known w) (last_published_after env ws cs fuel known w)
    unfolding last_published_after
    last_published_after-IsLastPublished fuel = last_published_loop-ends fuel known w starts

    -- It does return if the writers do not go on publishing for ever: `top` bounds all entries,
    -- whatever the others do, and the fuel reaches from the number known to there.
    pub last_published_after-returns :
        (top fuel : ℕ)
        → IsBounded top
        → AllBelow base cs top w.mem
        → distance base known < top
        → top ≤ distance base known + fuel
        → Totally (IsLastPublished known known w) (last_published_after env ws cs fuel known w)
    unfolding last_published_after
    last_published_after-returns top fuel bounded below under enough =
        last_published_loop-returns top bounded fuel known w starts below under enough
