-- ===== src/SequenceRange/Elements.antt =====
-- Which sequence numbers a range holds, and where its last one lies.
use disruptorplus.Common.{ℕ, ◌+◌, ◌-◌, ◌%◌, ◌^◌, ◌≤◌, ◌<◌, ◌≡◌, ◌↔◌, pos, arith}
use disruptorplus.Sequence.{difference}
use disruptorplus.Sequence.Distance.{distance}
use disruptorplus.SequenceRange.{SequenceRange, end, last, at}

-- The sequence numbers `r[i]`, for `i` below the size, are exactly those whose distance from the
-- first one is below the size, and no two indices give the same one; wrapping past zero included.
pub at-elements :
    (r : SequenceRange) (x : ℕ)
    → r.first < 2 ^ 64
    → r.size < 2 ^ 64
    → x < 2 ^ 64
    → (distance r.first x < r.size) ↔ ((i : ℕ) × (i < r.size) × (at r i ≡ x))
unfolding at
at-elements r x hf hs hx = (λ h. (distance r.first x, h, omega arith), λ (i, below, e). omega arith)

-- The distance from `r[i]` on to `last()` counts the elements behind it, so `last()` is the element
-- with index `size - 1`, and `end()` comes right after it.
pub difference-last-at :
    (r : SequenceRange) (i : ℕ)
    → r.first < 2 ^ 64
    → i < r.size
    → r.size ≤ 2 ^ 63
    → (difference (last r) (at r i) ≡ pos (r.size - 1 - i)) × (end r ≡ (last r + 1) % 2 ^ 64)
unfolding difference at last end
difference-last-at r i hf hi hs = (ground arith, omega arith)
