-- ===== src/Minimum/After.antt =====
-- `minimum_sequence_after` against the advancing memory.
use disruptorplus.Common.{
  ℕ, ◌^◌, ◌≤◌, ◌<◌, ◌≡◌, refl, ◌⊎◌, inl, inr, List, [], ◌∷◌, All, ℤ, is_neg, min_ℤ, Bool-cases,
  dec_lt, arith,
}
use disruptorplus.Sequence.{difference, add_sequence, to_unsigned}
use disruptorplus.Sequence.Distance.{distance, IsAhead, difference-eq-sub}
use disruptorplus.Memory.{Environment, World, arrive, done}
use disruptorplus.Memory.Rely.{
  AllAhead, IsFair, Later, Later-refl, Later-trans, Later-arrive, AllReached, AllReached-Later,
  least, least-AllReached, AllReached-le-least,
}
use disruptorplus.Minimum.{min_delta_from, minimum_sequence_after}

-- `r`, returned in `w'` by a scan of `l ∷ ls` for `s` begun in `w`: it is not before the least of
-- the atomics at the first access, and either it precedes `s` or no atomic is behind it now.
pub record IsLowestAfter (Watched : ℕ → Type 0) (env : Environment) (base s l : ℕ) (ls : List ℕ)
    (w : World) (r : ℕ) (w' : World) : Type 0 where
  pub later : Later Watched base w w'
  pub ahead : IsAhead base r
  pub above : least base (arrive env w).mem l ls ≤ distance base r
  pub busy : w.tick < w'.tick
  pub reached : (distance base r < distance base s) ⊎ (distance base r ≤ least base w'.mem l ls)

module _ (Watched : ℕ → Type 0) (base s : ℕ) (env : Environment) (small : base < 2 ^ 64)
    (fair : IsFair Watched base env) (hs : IsAhead base s) where
  -- The result of the loop from the difference of the value `v`, which is that of `least_read`.
  record Scan (v : ℕ) (ls : List ℕ) (w : World) (result : ℤ × World) : Type 0 where
    least_read : ℕ
    delta : result.0 ≡ difference least_read s
    later : Later Watched base w result.1
    ahead : IsAhead base least_read
    left : distance base least_read ≤ distance base v
    above :
        (b : ℕ) → b ≤ distance base v → AllReached base w.mem b ls → b ≤ distance base least_read
    reached :
        (distance base least_read < distance base s)
        ⊎ AllReached base result.1.mem (distance base least_read) ls

  record IsLower (v x r : ℕ) : Type 0 where
    ahead : IsAhead base r
    left : distance base r ≤ distance base v
    right : distance base r ≤ distance base x
    either : (b : ℕ) → b ≤ distance base v → b ≤ distance base x → b ≤ distance base r
    delta : min_ℤ (difference v s) (difference x s) ≡ difference r s

  IsLower-IsLower : (v x : ℕ) → IsAhead base v → IsAhead base x → (r : ℕ) × IsLower v x r
  IsLower-IsLower v x hv hx = elim (dec_lt (distance base x) (distance base v)) [
    | yes p ↦ (
      x,
      record {
        ahead = hx;
        left = omega arith;
        right = omega arith;
        either = λ b p q. q;
        delta =
            ground (
              arith,
              difference-eq-sub base x s small hx hs,
              difference-eq-sub base v s small hv hs,
            );
      },
    )
    | no p ↦ (
      v,
      record {
        ahead = hv;
        left = omega arith;
        right = omega arith;
        either = λ b p q. p;
        delta =
            ground (
              arith,
              difference-eq-sub base x s small hx hs,
              difference-eq-sub base v s small hv hs,
            );
      },
    )
  ]

  Scan-cons :
      {v r l : ℕ} {ls : List ℕ} {w : World} {result : ℤ × World}
      → Watched l
      → All Watched ls
      → AllAhead Watched base w.mem
      → IsLower v ((arrive env w).mem l) r
      → Scan r ls (arrive env w) result
      → Scan v (l ∷ ls) w result
  Scan-cons {l} {ls} {w} hl hls a two rest = record {
    least_read = rest.least_read;
    delta = rest.delta;
    later = Later-trans Watched base first rest.later;
    ahead = rest.ahead;
    left = omega (arith, rest.left, two.left);
    above = λ b p q.
        rest.above b (two.either b p (omega (arith, q.0, first.advances l hl)))
          (AllReached-Later Watched base b ls first hls q.1);
    reached = elim rest.reached [
      | inl before ↦ inl before
      | inr all ↦ inr (omega (arith, rest.left, two.right, rest.later.advances l hl), all)
    ];
  }
    where
      first : Later Watched base w (arrive env w)
      first = Later-arrive Watched base env w fair a

  Scan-stop :
      (v : ℕ) (ls : List ℕ) (w : World)
      → AllAhead Watched base w.mem
      → IsAhead base v
      → (distance base v < distance base s) ⊎ AllReached base w.mem (distance base v) ls
      → Scan v ls w (difference v s, w)
  Scan-stop v ls w a hv reached = record {
    least_read = v;
    delta = refl;
    later = Later-refl Watched base w a;
    ahead = hv;
    left = omega arith;
    above = λ b p q. p;
    reached = reached;
  }

  min_delta_from-Scan :
      (v : ℕ) (ls : List ℕ) (w : World)
      → All Watched ls
      → IsAhead base v
      → AllAhead Watched base w.mem
      → Scan v ls w (min_delta_from env s (difference v s) ls w)
  unfolding min_delta_from
  min_delta_from-Scan v [] w h hv a = Scan-stop v [] w a hv (inr tt)
  min_delta_from-Scan v (l ∷ ls) w h hv a = elim (Bool-cases (is_neg (difference v s))) [
    | inl negative ↦
        rw negative (
          Scan-stop v (l ∷ ls) w a hv
            (inl (ground (arith, difference-eq-sub base v s small hv hs))))
    | inr positive ↦
        let first = Later-arrive Watched base env w fair a in
        let (r, two) = IsLower-IsLower v ((arrive env w).mem l) hv (first.ahead l h.0) in
        rw (positive, two.delta)
          (Scan-cons h.0 h.1 a two
            (min_delta_from-Scan r ls (arrive env w) h.1 two.ahead first.ahead))
  ]

  -- Adding the sequence number back to the difference gives the value that was read.
  difference-cancel : (v : ℕ) → IsAhead base v → add_sequence (to_unsigned (difference v s)) s ≡ v
  unfolding difference
  difference-cancel v hv = ground (arith, hs.small)

  -- `minimum_sequence_after` of one atomic or more returns a sequence number that is not before the
  -- least of them at the call's first access; and either it precedes the sequence asked for, or the
  -- least of them has reached it when the call returns.
  pub minimum_sequence_after-IsLowestAfter :
      (l : ℕ) (ls : List ℕ) (w : World)
      → All Watched (l ∷ ls)
      → AllAhead Watched base w.mem
      → (r : ℕ) × (w' : World) × (minimum_sequence_after env s (l ∷ ls) w ≡ done r w')
        × IsLowestAfter Watched env base s l ls w r w'
  unfolding minimum_sequence_after
  minimum_sequence_after-IsLowestAfter l ls w h a =
      let first = Later-arrive Watched base env w fair a in
      let x = (arrive env w).mem l in
      let scan = min_delta_from-Scan x ls (arrive env w) h.1 (first.ahead l h.0) first.ahead in
      let q = least-AllReached base (arrive env w).mem l ls in
      (
        scan.least_read,
        _,
        rw (scan.delta, difference-cancel scan.least_read scan.ahead),
        record {
          later = Later-trans Watched base first scan.later;
          ahead = scan.ahead;
          above = scan.above (least base (arrive env w).mem l ls) q.0 q.1;
          busy = scan.later.ticks;
          reached = elim scan.reached [
            | inl before ↦ inl before
            | inr all ↦ inr (
                AllReached-le-least base _ _ l ls
                  (omega (arith, scan.left, scan.later.advances l h.0), all))
          ];
        },
      )
