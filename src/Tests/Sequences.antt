-- ===== src/Tests/Sequences.antt =====
-- Sequence numbers across the wrap past zero, and their minima.
use disruptorplus.Common.{ℕ, ◌-◌, ◌^◌, ◌≡◌, refl, [], ◌∷◌, pos, negsuc, sub_ℕ, arith}
use disruptorplus.Sequence.{difference}
use disruptorplus.Sequence.Distance.{difference-eq-distances}
use disruptorplus.Memory.{World, done}
use disruptorplus.Minimum.{minimum_sequence, minimum_sequence_after}
use disruptorplus.Minimum.Lowest.{IsLowest, minimum_sequence-IsLowest}
use disruptorplus.Minimum.After.{IsLowestAfter, minimum_sequence_after-IsLowestAfter}
use disruptorplus.SequenceRange.{SequenceRange}
use disruptorplus.Tests.Scene.{base, Any, env, env-IsFair, start, start-AllAhead}

difference_wraps : (difference 2 (2 ^ 64 - 1) ≡ pos 3) × (difference (2 ^ 64 - 1) 2 ≡ negsuc 2)
unfolding difference
difference_wraps = (refl, refl)

difference-eq-distances_example : difference 2 (2 ^ 64 - 1) ≡ sub_ℕ 18 15
difference-eq-distances_example =
    difference-eq-distances base 2 (2 ^ 64 - 1) (omega arith) (omega arith) (omega arith)
      (omega arith) (omega arith)

minimum_sequence-IsLowest_example :
    (r : ℕ) × (w' : World) × (minimum_sequence env (1 ∷ 2 ∷ []) start ≡ done r w')
    × IsLowest Any base 1 (2 ∷ []) start r w'
minimum_sequence-IsLowest_example =
    minimum_sequence-IsLowest Any base env (omega arith) env-IsFair 1 (2 ∷ []) start (tt, (tt, tt))
      start-AllAhead

minimum_sequence_after-IsLowestAfter_example :
    (r : ℕ) × (w' : World) × (minimum_sequence_after env 3 (1 ∷ 2 ∷ []) start ≡ done r w')
    × IsLowestAfter Any env base 3 1 (2 ∷ []) start r w'
minimum_sequence_after-IsLowestAfter_example =
    minimum_sequence_after-IsLowestAfter Any base 3 env (omega arith) env-IsFair (omega arith) 1
      (2 ∷ []) start (tt, (tt, tt)) start-AllAhead

-- The three sequence numbers -1, 0 and 1.
abbrev across : SequenceRange
across = record { first = 2 ^ 64 - 1; size = 3 }
