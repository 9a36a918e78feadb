-- ===== src/Minimum/Looking.antt =====
-- Calls that only look at the memory: `minimum_sequence` and `minimum_sequence_after`.
use disruptorplus.Common.{ℕ, List, [], ◌∷◌, ℤ, is_neg, Bool-cases, inl, inr}
use disruptorplus.Memory.{Environment, World, Action, arrive}
use disruptorplus.Minimum.{minimum_from, minimum_sequence, min_delta_from, minimum_sequence_after}
use disruptorplus.WaitStrategy.{Partly}

module _ (env : Environment) where
  -- From `w` on this thread has only looked: the others alone have changed the memory.
  pub data OnlyLooks (w : World) : World → Type 0 where
    at_once : OnlyLooks w w
    look : {u : World} → OnlyLooks w u → OnlyLooks w (arrive env u)

  pub OnlyLooks-trans : {u v w : World} → OnlyLooks u v → OnlyLooks v w → OnlyLooks u w
  OnlyLooks-trans p at_once = p
  OnlyLooks-trans p (look q) = look (OnlyLooks-trans p q)

  -- A call that, begun in `w`, fails no `assert` and has only looked when it returns.
  abbrev pub Looks : {A : Type 0} → Action A → World → Type 0
  Looks m w = Partly (λ _ w'. OnlyLooks w w') (m w)

  minimum_from-OnlyLooks :
      (ls : List ℕ) (v : ℕ) (w : World) → OnlyLooks w (minimum_from env v ls w).1
  unfolding minimum_from
  minimum_from-OnlyLooks [] v w = at_once
  minimum_from-OnlyLooks (l ∷ ls) v w =
      OnlyLooks-trans (look at_once) (minimum_from-OnlyLooks ls _ (arrive env w))

  min_delta_from-OnlyLooks :
      (s : ℕ) (ls : List ℕ) (d : ℤ) (w : World) → OnlyLooks w (min_delta_from env s d ls w).1
  unfolding min_delta_from
  min_delta_from-OnlyLooks s [] d w = at_once
  min_delta_from-OnlyLooks s (l ∷ ls) d w = elim (Bool-cases (is_neg d)) [
    | inl e ↦ rw e at_once
    | inr e ↦ rw e (OnlyLooks-trans (look at_once) (min_delta_from-OnlyLooks s ls _ (arrive env w)))
  ]

  pub minimum_sequence-Looks :
      (l : ℕ) (ls : List ℕ) (w : World) → Looks (minimum_sequence env (l ∷ ls)) w
  unfolding minimum_sequence
  minimum_sequence-Looks l ls w =
      OnlyLooks-trans (look at_once) (minimum_from-OnlyLooks ls _ (arrive env w))

  pub minimum_sequence_after-Looks :
      (s l : ℕ) (ls : List ℕ) (w : World) → Looks (minimum_sequence_after env s (l ∷ ls)) w
  unfolding minimum_sequence_after
  minimum_sequence_after-Looks s l ls w =
      OnlyLooks-trans (look at_once) (min_delta_from-OnlyLooks s ls _ (arrive env w))
