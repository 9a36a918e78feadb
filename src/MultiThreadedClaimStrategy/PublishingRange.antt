-- ===== src/MultiThreadedClaimStrategy/PublishingRange.antt =====
-- `publish` of a range: all its entries are written, and no `assert` fails, if its slots were
-- claimed.
use disruptorplus.Common.{ℕ, zero, suc, ◌+◌, ◌-◌, ◌^◌, ◌≤◌, ◌<◌, ◌≡◌, ◌≢◌, ap, ◌∙◌, dec_lt, arith}
use disruptorplus.Sequence.Distance.{distance, IsAhead, distance-add_sequence}
use disruptorplus.Memory.{Environment, World}
use disruptorplus.Memory.Rely.{AllAhead, Later, Later-refl, Later-trans}
use disruptorplus.RingBuffer.{slot}
use disruptorplus.RingBuffer.Slots.{IsValid}
use disruptorplus.RingBuffer.Window.{slot-ne}
use disruptorplus.SequenceRange.{SequenceRange, at}
use disruptorplus.WaitStrategy.{WaitStrategy, Totally, Totally-map, Totally-bind}
use disruptorplus.WaitStrategy.Promise.{Setting}
use disruptorplus.MultiThreadedClaimStrategy.{
  MultiThreadedClaimStrategy, entry, set_published, set_published_from, publish_range,
}
use disruptorplus.MultiThreadedClaimStrategy.Reading.{IsPublished}
use disruptorplus.MultiThreadedClaimStrategy.Publishing.{
  ring, IsOwned, IsVacant, IsStored, set_published-IsStored,
}

-- Claimed numbers have different entries.
entry-ne :
    (cs : MultiThreadedClaimStrategy) (base low x y : ℕ)
    → IsValid (ring cs)
    → base < 2 ^ 64
    → (x < 2 ^ 64) × (y < 2 ^ 64)
    → low < distance base x
    → distance base x < distance base y
    → distance base y ≤ low + cs.buffer_size
    → entry cs y ≢ entry cs x
unfolding entry slot
entry-ne cs base low x y valid small words after before room e =
    slot-ne (ring cs) base low x y valid small words after before room (omega arith)

module _ {Watched : ℕ → Type 0} {base : ℕ} {env : Environment} {ws : WaitStrategy}
    (setting : Setting Watched base env ws) (cs : MultiThreadedClaimStrategy)
    (watched : (x : ℕ) → Watched (entry cs x)) where
  open setting use {small, fair, keeps}

  -- A range whose slots this thread has claimed.
  pub record IsHeld (range : SequenceRange) : Type 0 where
    pub valid : IsValid (ring cs)
    pub sized : range.size ≤ cs.buffer_size
    pub reaches : cs.buffer_size ≤ distance base range.first
    pub first : range.first < 2 ^ 64
    pub near : distance base range.first + range.size < 2 ^ 62
    pub owned : (i : ℕ) → i < range.size → IsOwned env cs (at range i)

  module _ (range : SequenceRange) (held : IsHeld range) (v : World) where
    at-IsAhead :
        (i : ℕ)
        → i < range.size
        → IsAhead base (at range i) × (distance base (at range i) ≡ distance base range.first + i)
    unfolding at
    at-IsAhead i h =
        let (there, fits) =
          distance-add_sequence base range.first i small held.first (omega (arith, held.near)) in
        (record { small = fits; near = omega (arith, held.near) }, there)

    entries-ne : (i j : ℕ) → i < j → j < range.size → entry cs (at range j) ≢ entry cs (at range i)
    entries-ne i j before h =
        let (a, there) = at-IsAhead i (omega arith) in
        let (b, here) = at-IsAhead j h in
        entry-ne cs base (distance base range.first - 1) (at range i) (at range j) held.valid small
          (a.small, b.small) (omega (arith, held.reaches, held.sized)) (omega arith)
          (omega (arith, held.reaches, held.sized))

    -- What the loop keeps: the numbers before index `i` are published, the others are not yet.
    pub record Writes (i : ℕ) (w : World) : Type 0 where
      pub later : Later Watched base v w
      pub done : (j : ℕ) → j < i → IsPublished base cs (at range j) w
      pub vacant : (j : ℕ) → i ≤ j → j < range.size → IsVacant cs (at range j) w

    Writes-next :
        (i : ℕ) (w w' : World) (h : i < range.size)
        → Writes i w
        → IsStored setting cs watched (at range i) w w'
        → Writes (suc i) w'
    Writes-next i w w' h before set = record {
      later = Later-trans Watched base before.later set.later;
      done = λ j hj. elim (dec_lt j i) [
        | yes old ↦
            let moved = set.later.advances (entry cs (at range j)) (watched (at range j)) in
            omega (arith, before.done j old)
        | no new ↦
            let same : i ≡ j = omega arith in
            let here = ap (distance base) set.here in
            rw same at (let fresh : IsPublished base cs (at range i) w' = omega arith in fresh)
      ];
      vacant = λ j hj below.
          set.others (at range j) (held.owned j below) (entries-ne i j (omega arith) below)
          ∙ before.vacant j (omega arith) below;
    }

    set_published_from-Writes :
        (left i : ℕ) (w : World)
        → i + left ≡ range.size
        → Writes i w
        → Totally (λ _ w'. Writes range.size w') (set_published_from env ws cs range left i w)
    unfolding set_published_from
    set_published_from-Writes zero i w e h = let same : i ≡ range.size = omega arith in rw same at h
    set_published_from-Writes (suc left) i w e h =
        let inside : i < range.size = omega arith in
        let (sought, there) = at-IsAhead i inside in
        Totally-bind (λ _ w'. Writes range.size w') (set_published env ws cs (at range i)) _ w
          (λ _ w₁ set.
            set_published_from-Writes left (suc i) w₁ (omega arith)
              (Writes-next i w w₁ inside h set))
          (set_published-IsStored setting cs watched (at range i) sought
            (omega (arith, held.reaches)) (held.owned i inside) w h.later.ahead
            (h.vacant i (omega arith) inside))

    -- `publish` of a claimed range returns, and no `assert` fails; it moves no sequence number
    -- back, and afterwards all numbers of the range are published.
    pub publish_range-IsPublished :
        AllAhead Watched base v.mem
        → ((j : ℕ) → j < range.size → IsVacant cs (at range j) v)
        → Totally
            (λ _ w'.
              Later Watched base v w'
              × ((j : ℕ) → j < range.size → IsPublished base cs (at range j) w'))
            (publish_range env ws cs range v)
    unfolding publish_range
    publish_range-IsPublished ahead vacant =
        Totally-bind
          (λ _ w'.
            Later Watched base v w'
            × ((j : ℕ) → j < range.size → IsPublished base cs (at range j) w'))
          (set_published_from env ws cs range range.size 0) _ v
          (λ _ w₁ h.
            Totally-map (ws.signal_all w₁)
              (λ _ w' p. (
                Later-trans Watched base h.later p,
                λ j below.
                    let moved = p.advances (entry cs (at range j)) (watched (at range j)) in
                    omega (arith, h.done j below),
              ))
              (keeps.signals w₁ h.later.ahead))
          (set_published_from-Writes range.size 0 v (omega arith) (record {
            later = Later-refl Watched base v ahead;
            done = λ j h. absurd (omega arith);
            vacant = λ j h below. vacant j below;
          }))
