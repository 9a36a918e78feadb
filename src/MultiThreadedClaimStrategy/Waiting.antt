-- ===== src/MultiThreadedClaimStrategy/Waiting.antt =====
-- The loops of `wait_until_published`: waiting for one sequence number after the other.
use disruptorplus.Common.{
  ℕ, zero, suc, ◌+◌, ◌≤◌, ◌<◌, ◌≡◌, refl, inl, inr, ◌==◌, true, false, Bool-cases, is_pos, is_neg,
  none, [], ◌∷◌, arith,
}
use disruptorplus.Sequence.{add_sequence, difference}
use disruptorplus.Sequence.Distance.{
  distance, IsAhead, distance-add_sequence, difference-eq-distances, difference-eq-sub,
}
use disruptorplus.Memory.{Environment, World, arrive, pure, ◌>>=◌}
use disruptorplus.Memory.Rely.{Later, Later-trans, Later-arrive}
use disruptorplus.WaitStrategy.{
  WaitStrategy, Partly, Totally, Partly-bind, Totally-bind, bind-eq_bind,
}
use disruptorplus.WaitStrategy.Promise.{Setting, IsReached, ArrivesBy}
use disruptorplus.MultiThreadedClaimStrategy.{
  MultiThreadedClaimStrategy, entry, is_published, wait_loop, wait_until_loop,
}
use disruptorplus.MultiThreadedClaimStrategy.Reading.{
  IsPublished, AllPublished, AllPublished-Later, AllPublished-suc,
}

module _ {Watched : ℕ → Type 0} {base : ℕ} {env : Environment} {ws : WaitStrategy}
    (setting : Setting Watched base env ws) (cs : MultiThreadedClaimStrategy)
    (watched : (x : ℕ) → Watched (entry cs x)) (known s : ℕ) (known_ahead : IsAhead base known)
    (sought : IsAhead base s) (v : World) where
  open setting use {small, fair, keeps}

  -- In the loop, the numbers after `known` up to `r` are published, and `r + 1` is next.
  pub record Waits (r : ℕ) (w : World) : Type 0 where
    pub later : Later Watched base v w
    pub ahead : IsAhead base r
    pub within : distance base r ≤ distance base s
    pub all : AllPublished base cs known r w

  -- The end of the loop.
  abbrev pub Waited : World → Type 0
  Waited w = Later Watched base v w × AllPublished base cs known s w

  next-IsAhead :
      (r : ℕ) (w : World)
      → Waits r w
      → is_pos (difference (add_sequence r 1) s) ≡ false
      → IsAhead base (add_sequence r 1) × (distance base (add_sequence r 1) ≤ distance base s)
  next-IsAhead r w h e =
      let (moved, fits) =
        distance-add_sequence base r 1 small h.ahead.small (omega (arith, h.ahead.near)) in
      let d =
        difference-eq-distances base (add_sequence r 1) s small fits sought.small
          (omega (arith, h.ahead.near)) (omega (arith, sought.near)) in
      let upto : distance base (add_sequence r 1) ≤ distance base s = ground arith in
      (record { small = fits; near = omega (arith, sought.near) }, upto)

  stops :
      (r : ℕ) (w : World) → Waits r w → is_pos (difference (add_sequence r 1) s) ≡ true → Waited w
  stops r w h e =
      let (moved, fits) =
        distance-add_sequence base r 1 small h.ahead.small (omega (arith, h.ahead.near)) in
      let d =
        difference-eq-distances base (add_sequence r 1) s small fits sought.small
          (omega (arith, h.ahead.near)) (omega (arith, sought.near)) in
      let end : distance base s ≤ distance base r = ground arith in
      (h.later, λ x hx after upto. h.all x hx after (omega arith))

  -- The next number, published in a later world.
  onward :
      (r : ℕ) (w w' : World)
      → Waits r w
      → IsAhead base (add_sequence r 1) × (distance base (add_sequence r 1) ≤ distance base s)
      → Later Watched base w w'
      → IsPublished base cs (add_sequence r 1) w'
      → Waits (add_sequence r 1) w'
  onward r w w' h next later one = record {
    later = Later-trans Watched base h.later later;
    ahead = next.0;
    within = next.1;
    all =
        AllPublished-suc setting cs watched known r w' h.ahead
          (AllPublished-Later setting cs watched known r later h.all) one;
  }

  -- Looking at an entry, and waiting for it where the number is not there yet.
  module _ (r : ℕ) (w : World) (h : Waits r w)
      (next : IsAhead base (add_sequence r 1)
        × (distance base (add_sequence r 1) ≤ distance base s)) where
    abbrev seq : ℕ
    seq = add_sequence r 1

    look : Later Watched base w (arrive env w)
    look = Later-arrive Watched base env w fair h.later.ahead

    found : ((arrive env w).mem (entry cs seq) == seq) ≡ true → Waits seq (arrive env w)
    found e =
        let same : (arrive env w).mem (entry cs seq) ≡ seq = ground arith in
        onward r w (arrive env w) h next look (rw same (omega arith))

    reached :
        (x : ℕ) (w' : World)
        → IsReached Watched base env seq (entry cs seq) [] (arrive env w) x w'
        → Waits seq w' × (is_neg (difference x seq) ≡ false)
    reached x w' q = (
      onward r w w' h next (Later-trans Watched base look q.later)
          (omega (arith, q.enough, q.below)),
      ground (arith, q.enough, difference-eq-sub base x seq small q.ahead next.0),
    )

    waits :
        Partly
          (IsReached Watched base env seq (entry cs seq) [] (arrive env w))
          (ws.wait seq (entry cs seq ∷ []) (arrive env w))
    waits = keeps.waits seq (entry cs seq) [] (arrive env w) next.0 (watched seq, tt) look.ahead

    returns :
        (t : ℕ)
        → ArrivesBy Watched base env t seq (entry cs seq ∷ [])
        → t ≤ w.tick + ws.patience
        → Totally
            (IsReached Watched base env seq (entry cs seq) [] (arrive env w))
            (ws.wait seq (entry cs seq ∷ []) (arrive env w))
    returns t arrives time =
        keeps.returns t seq (entry cs seq) [] (arrive env w) next.0 (watched seq, tt) look.ahead
          arrives (omega arith)

  -- The untimed loop.
  pub wait_loop-Waited :
      (fuel r : ℕ) (w : World)
      → Waits r w
      → Partly (λ _. Waited) (wait_loop env ws cs fuel s (add_sequence r 1) w)
  unfolding wait_loop is_published
  wait_loop-Waited zero r w h = tt
  wait_loop-Waited (suc fuel) r w h = elim (Bool-cases (is_pos (difference (add_sequence r 1) s))) [
    | inl e ↦ rw e (stops r w h e)
    | inr e ↦
        let next = next-IsAhead r w h e in
        elim (Bool-cases ((arrive env w).mem (entry cs (add_sequence r 1)) == add_sequence r 1)) [
          | inl here ↦
              rw (e, here)
                (wait_loop-Waited fuel (add_sequence r 1) (arrive env w) (found r w h next here))
          | inr away ↦
              rw (e, away)
                (Partly-bind (λ _. Waited) (ws.wait (add_sequence r 1) _) _ (arrive env w)
                  (λ x w' q.
                    wait_loop-Waited fuel (add_sequence r 1) w' (reached r w h next x w' q).0)
                  (waits r w h next))
        ]
  ]

  -- The untimed loop returns if each number that it waits for is published by the access `t`.
  pub wait_loop-returns :
      (t : ℕ)
      → ((x : ℕ)
          → distance base known < distance base x
          → distance base x ≤ distance base s
          → ArrivesBy Watched base env t x (entry cs x ∷ []))
      → (fuel r : ℕ) (w : World) → Waits r w
      → distance base known ≤ distance base r
      → t ≤ w.tick + ws.patience
      → distance base s < distance base r + fuel
      → Totally (λ _. Waited) (wait_loop env ws cs fuel s (add_sequence r 1) w)
  unfolding wait_loop is_published
  wait_loop-returns t arrives zero r w h begun time enough = absurd (omega (arith, h.within))
  wait_loop-returns t arrives (suc fuel) r w h begun time enough =
      elim (Bool-cases (is_pos (difference (add_sequence r 1) s))) [
        | inl e ↦ rw e (stops r w h e)
        | inr e ↦
            let next = next-IsAhead r w h e in
            let (moved, fits) =
              distance-add_sequence base r 1 small h.ahead.small (omega (arith, h.ahead.near)) in
            elim (Bool-cases
              ((arrive env w).mem (entry cs (add_sequence r 1)) == add_sequence r 1)) [
                | inl here ↦
                    rw (e, here)
                      (wait_loop-returns t arrives fuel (add_sequence r 1) (arrive env w)
                        (found r w h next here) (omega arith) (omega arith) (omega arith))
                | inr away ↦
                    rw (e, away)
                      (Totally-bind (λ _. Waited) (ws.wait (add_sequence r 1) _) _ (arrive env w)
                        (λ x w' q.
                          wait_loop-returns t arrives fuel (add_sequence r 1) w'
                            (reached r w h next x w' q).0 (omega arith)
                            (omega (arith, q.later.ticks)) (omega arith))
                        (returns r w h next t (arrives (add_sequence r 1) (omega arith) next.1)
                          time))
              ]
      ]

  -- The loop with a deadline does what the untimed loop does.
  pub wait_until_loop-eq-wait_loop :
      (fuel r : ℕ) (w : World)
      → Waits r w
      → wait_until_loop env ws cs fuel s (add_sequence r 1) w
        ≡ (wait_loop env ws cs fuel s (add_sequence r 1) >>= λ _. pure none) w
  unfolding wait_until_loop wait_loop is_published
  wait_until_loop-eq-wait_loop zero r w h = refl
  wait_until_loop-eq-wait_loop (suc fuel) r w h =
      elim (Bool-cases (is_pos (difference (add_sequence r 1) s))) [
        | inl e ↦ rw e refl
        | inr e ↦
            let next = next-IsAhead r w h e in
            elim (Bool-cases
              ((arrive env w).mem (entry cs (add_sequence r 1)) == add_sequence r 1)) [
                | inl here ↦
                    rw (e, ◌>>=◌, here)
                      (wait_until_loop-eq-wait_loop fuel (add_sequence r 1) (arrive env w)
                        (found r w h next here))
                | inr away ↦
                    rw (e, ◌>>=◌, away)
                      (bind-eq_bind _ (ws.wait (add_sequence r 1) _) _ _ _ (arrive env w)
                        (waits r w h next)
                        (λ x w' q.
                          let (waits', in_time) = reached r w h next x w' q in
                          rw in_time
                            (wait_until_loop-eq-wait_loop fuel (add_sequence r 1) w' waits')))
              ]
      ]
