-- ===== src/Minimum.antt =====
-- include/disruptorplus/sequence.hpp: `minimum_sequence` and `minimum_sequence_after`, over the
-- addresses of the atomics. Their loops never block, so they map worlds to worlds.
pub mod Lowest
pub mod After
pub mod Looking
use disruptorplus.Common.{
  ℕ, ◌+◌, ◌%◌, ◌≤◌, List, [], ◌∷◌, ℤ, pos, is_neg, min_ℤ, true, false, if◌then◌else◌,
}
use disruptorplus.Sequence.{difference, to_unsigned, add_sequence}
use disruptorplus.Memory.{Environment, World, Outcome, done, failed, Action, arrive}

module _ (env : Environment) where
  -- The loop of `minimum_sequence` from the second atomic on.
  pub minimum_from : ℕ → List ℕ → World → ℕ × World
  minimum_from minimum [] w = (minimum, w)
  minimum_from minimum (l ∷ ls) w =
      let w' = arrive env w in
      let seq = w'.mem l in
      minimum_from (if is_neg (difference seq minimum) then seq else minimum) ls w'

  -- An empty array fails the `assert`.
  unfoldable pub minimum_sequence : List ℕ → Action ℕ
  unfolding minimum_from
  minimum_sequence [] w = failed
  minimum_sequence (l ∷ ls) w =
      let w' = arrive env w in let (r, w'') = minimum_from (w'.mem l) ls w' in done r w''

  -- The loop of `minimum_sequence_after`: it stops at the first negative difference.
  pub min_delta_from : ℕ → ℤ → List ℕ → World → ℤ × World
  min_delta_from minimum d [] w = (d, w)
  min_delta_from minimum d (l ∷ ls) w =
      let w' = arrive env w in
      let rest = min_delta_from minimum (min_ℤ d (difference (w'.mem l) minimum)) ls w' in
      if is_neg d then (d, w) else rest

  unfoldable pub minimum_sequence_after : ℕ → List ℕ → Action ℕ
  unfolding min_delta_from
  minimum_sequence_after minimum [] w = failed
  minimum_sequence_after minimum (l ∷ ls) w =
      let w' = arrive env w in
      let (d, w'') = min_delta_from minimum (difference (w'.mem l) minimum) ls w' in
      done (add_sequence (to_unsigned d) minimum) w''
