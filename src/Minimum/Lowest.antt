-- ===== src/Minimum/Lowest.antt =====
-- `minimum_sequence` against the advancing memory: what it returns, every atomic has published.
use disruptorplus.Common.{
  ℕ, ◌^◌, ◌≤◌, ◌<◌, ◌≡◌, refl, List, [], ◌∷◌, All, is_neg, if◌then◌else◌, arith,
}
use disruptorplus.Sequence.{difference}
use disruptorplus.Sequence.Distance.{distance, IsAhead, difference-eq-sub}
use disruptorplus.Memory.{Environment, World, arrive, done}
use disruptorplus.Memory.Rely.{
  AllAhead, IsFair, Later, Later-refl, Later-trans, Later-arrive, AllReached, AllReached-Later,
  least, least-AllReached, AllReached-le-least,
}
use disruptorplus.Minimum.{minimum_from, minimum_sequence}

-- `r`, returned in the world `w'` by a scan of the atomics `l ∷ ls` begun in `w`, lies at or before
-- all of them as they are now, and not before the least of them as it was when the scan began.
pub record IsLowest (Watched : ℕ → Type 0) (base l : ℕ) (ls : List ℕ) (w : World) (r : ℕ)
    (w' : World) : Type 0 where
  pub later : Later Watched base w w'
  pub ahead : IsAhead base r
  pub below : distance base r ≤ least base w'.mem l ls
  pub above : least base w.mem l ls ≤ distance base r

module _ (Watched : ℕ → Type 0) (base : ℕ) (env : Environment) (small : base < 2 ^ 64)
    (fair : IsFair Watched base env) where
  abbrev lower : ℕ → ℕ → ℕ
  lower v x = if is_neg (difference x v) then x else v

  record IsLower (v x r : ℕ) : Type 0 where
    ahead : IsAhead base r
    left : distance base r ≤ distance base v
    right : distance base r ≤ distance base x
    either : (b : ℕ) → b ≤ distance base v → b ≤ distance base x → b ≤ distance base r

  IsLower-IsLower : (v x : ℕ) → IsAhead base v → IsAhead base x → IsLower v x (lower v x)
  IsLower-IsLower v x hv hx = record {
    ahead = ground (arith, difference-eq-sub base x v small hx hv);
    left = ground (arith, difference-eq-sub base x v small hx hv);
    right = ground (arith, difference-eq-sub base x v small hx hv);
    either = λ b p q. ground (arith, difference-eq-sub base x v small hx hv);
  }

  -- The same of the rest of the loop, that starts from the minimum `v` found so far.
  record Scan (v : ℕ) (ls : List ℕ) (w : World) (r : ℕ) (w' : World) : Type 0 where
    later : Later Watched base w w'
    ahead : IsAhead base r
    left : distance base r ≤ distance base v
    below : AllReached base w'.mem (distance base r) ls
    above : (b : ℕ) → b ≤ distance base v → AllReached base w.mem b ls → b ≤ distance base r

  Scan-cons :
      {v r l : ℕ} {ls : List ℕ} {w w' : World}
      → Watched l
      → All Watched ls
      → IsAhead base v
      → AllAhead Watched base w.mem
      → Scan (lower v ((arrive env w).mem l)) ls (arrive env w) r w'
      → Scan v (l ∷ ls) w r w'
  Scan-cons {v} {r} {l} {ls} {w} hl hs hv a rest = record {
    later = Later-trans Watched base first rest.later;
    ahead = rest.ahead;
    left = omega (arith, rest.left, two.left);
    below = (omega (arith, rest.left, two.right, rest.later.advances l hl), rest.below);
    above = λ b p q.
        rest.above b (two.either b p (omega (arith, q.0, first.advances l hl)))
          (AllReached-Later Watched base b ls first hs q.1);
  }
    where
      first : Later Watched base w (arrive env w)
      first = Later-arrive Watched base env w fair a

      two : IsLower v ((arrive env w).mem l) (lower v ((arrive env w).mem l))
      two = IsLower-IsLower v ((arrive env w).mem l) hv (first.ahead l hl)

  minimum_from-Scan :
      (v : ℕ) (ls : List ℕ) (w : World)
      → All Watched ls
      → IsAhead base v
      → AllAhead Watched base w.mem
      → Scan v ls w (minimum_from env v ls w).0 (minimum_from env v ls w).1
  unfolding minimum_from
  minimum_from-Scan v [] w hs hv a = record {
    later = Later-refl Watched base w a;
    ahead = hv;
    left = omega arith;
    below = tt;
    above = λ b p q. p;
  }
  minimum_from-Scan v (l ∷ ls) w hs hv a =
      let first = Later-arrive Watched base env w fair a in
      let two = IsLower-IsLower v ((arrive env w).mem l) hv (first.ahead l hs.0) in
      Scan-cons hs.0 hs.1 hv a (
        minimum_from-Scan (lower v ((arrive env w).mem l)) ls (arrive env w) hs.1 two.ahead
          first.ahead)

  -- `minimum_sequence` of one atomic or more, read while the other threads advance them, returns a
  -- sequence number between the least of them when the call began and the least when it returns.
  pub minimum_sequence-IsLowest :
      (l : ℕ) (ls : List ℕ) (w : World)
      → All Watched (l ∷ ls)
      → AllAhead Watched base w.mem
      → (r : ℕ) × (w' : World) × (minimum_sequence env (l ∷ ls) w ≡ done r w')
        × IsLowest Watched base l ls w r w'
  unfolding minimum_sequence
  minimum_sequence-IsLowest l ls w hs a =
      let first = Later-arrive Watched base env w fair a in
      let scan =
        minimum_from-Scan ((arrive env w).mem l) ls (arrive env w) hs.1 (first.ahead l hs.0)
          first.ahead in
      (
        _,
        _,
        refl,
        record {
          later = Later-trans Watched base first scan.later;
          ahead = scan.ahead;
          below =
              AllReached-le-least base _ _ l ls
                (omega (arith, scan.left, scan.later.advances l hs.0), scan.below);
          above =
              let q = least-AllReached base w.mem l ls in
              scan.above (least base w.mem l ls) (omega (arith, q.0, first.advances l hs.0))
                (AllReached-Later Watched base (least base w.mem l ls) ls first hs.1 q.1);
        },
      )
