-- ===== src/Benchmark/Programs/Wired.antt =====
-- The four programs set up what their threads need.
use mathlib.Core.List.{Memᴰ}
use mathlib.Core.List.Memᴰ
use disruptorplus.Common.{
  ℕ, zero, suc, ◌+◌, ◌^◌, ◌≤◌, ◌<◌, ◌≡◌, ◌⊎◌, inl, inr, refl, List, [], ◌∷◌, ◌-◌, ◌==◌, false,
  arith, ℕ_discrete,
}
use disruptorplus.Memory.{World, ◌>>=◌, update}
use disruptorplus.RingBuffer.{RingBuffer}
use disruptorplus.RingBuffer.Slots.{IsValid}
use disruptorplus.SequenceBarrier.{sequence_barrier}
use disruptorplus.SequenceBarrierGroup
use disruptorplus.SequenceBarrierGroup.{is_empty}
use disruptorplus.SingleThreadedClaimStrategy.{add_claim_barrier}
use disruptorplus.WaitStrategy.{Totally}
use disruptorplus.Benchmark.{Program, start}
use disruptorplus.Benchmark.Wiring.{IsAwaited, claimed, through, IsWired, IsOrdered}
use disruptorplus.Benchmark.Programs.{
  from_writer, from_previous, joined_by_last, unicast, multicast, pipeline, diamond,
}
use disruptorplus.Benchmark.Programs.Built.{
  cells, cells-mem, mem-cells, cells-not_empty, initial, initial-barrier, initial-cell, fresh,
  buffer-made, claim_strategy-eq, make_barriers-eq, add_barriers-eq, add_claim_barriers-eq,
}

-- What a set-up that passes its asserts returns: a program with the number of items and of
-- consumers asked for and the wiring that its threads need; and the memory is, at the program's
-- atomics, the one in which its threads start.
pub record IsSetUp (iteration_count consumer_count : ℕ) (made : Program × RingBuffer ℕ) (w : World)
    : Type 0 where
  pub items : made.0.iteration_count ≡ iteration_count
  pub consumers : made.0.consumer_count ≡ consumer_count
  pub wired : IsWired made.0 made.1
  pub ordered : IsOrdered made.0
  pub writer_begins :
      w.mem made.0.claim_strategy.read_barrier.cell
      ≡ (start made.0 made.1).mem made.0.claim_strategy.read_barrier.cell
  pub consumers_begin :
      (k : ℕ)
      → k < made.0.consumer_count
      → w.mem (made.0.barrier k) ≡ (start made.0 made.1).mem (made.0.barrier k)

abbrev shaped : (size items count : ℕ) → (ℕ → List ℕ) → List ℕ → Program
shaped size items count upstream claims = record {
  iteration_count = items;
  consumer_count = count;
  barrier = suc;
  upstream = upstream;
  claim_strategy = record (fresh size) {
    claim_barrier = record { strategy = 0; sequences = claims };
  };
}

module _ (e items count : ℕ) (few : items < 2 ^ 64) (upstream : ℕ → List ℕ) (claims : List ℕ) where
  shaped-IsSetUp :
      (b : RingBuffer ℕ) (w : World)
      → (2 ^ e ≤ 2 ^ 62) × IsValid b × (b.size ≡ 2 ^ e)
      → (w.mem 0 ≡ 2 ^ 64 - 1) × ((k : ℕ) → k < count → w.mem (suc k) ≡ 2 ^ 64 - 1)
      → ((k : ℕ) → k < count → IsAwaited (shaped (2 ^ e) items count upstream claims) k)
      → ((k : ℕ) → k < count → (u : ℕ) × Memᴰ u (upstream k))
      → IsOrdered (shaped (2 ^ e) items count upstream claims)
      → IsSetUp items count (shaped (2 ^ e) items count upstream claims, b) w
  shaped-IsSetUp b w (small, valid, sized) (first, rest) awaited fed ordered = record {
    items = refl;
    consumers = refl;
    wired = record {
      valid = valid;
      sized = sized;
      short = small;
      counted = few;
      fresh = refl;
      awaited = awaited;
      fed = fed;
      separate = λ j k hj hk ne. omega arith;
      apart = λ k h. omega arith;
    };
    ordered = ordered;
    writer_begins = first;
    consumers_begin = rest;
  }

-- The memory after the claim strategy's read barrier and the consumers' barriers.
begins :
    (count : ℕ) (w : World)
    → let m = initial count (update w.mem 0 (2 ^ 64 - 1)) in
      (m 0 ≡ 2 ^ 64 - 1) × ((k : ℕ) → k < count → m (suc k) ≡ 2 ^ 64 - 1)
begins count w = (
  initial-cell count (update w.mem 0 (2 ^ 64 - 1)),
  initial-barrier count (update w.mem 0 (2 ^ 64 - 1)),
)

module _ (e items : ℕ) (w : World) (short : e ≤ 62) (few : items < 2 ^ 64) where
  -- unicast.cpp
  unicast-IsSetUp : Totally (IsSetUp items 1) (unicast (2 ^ e) items w)
  unfolding unicast sequence_barrier add_claim_barrier SequenceBarrierGroup.add
  unicast-IsSetUp =
      let (small, (b, made, valid, sized)) = buffer-made e short in
      rw (◌>>=◌, claim_strategy-eq e w small, made)
        (shaped-IsSetUp e items 1 few from_writer (1 ∷ []) b _ (small, valid, sized) (begins 1 w)
          (λ k h. let first : k ≡ 0 = omega arith in rw first (claimed (Memᴰ.head refl)))
          (λ k h. (0, Memᴰ.head refl))
          (record {
            sources = λ k u h m. inl (Memᴰ.eq_of_singleton m);
            claims = λ f m. (0, omega arith, Memᴰ.eq_of_singleton m);
            some_claim = refl;
          }))

  multicast-IsSetUp :
      (count : ℕ) → Totally (IsSetUp items (suc count)) (multicast (2 ^ e) items (suc count) w)
  unfolding multicast
  multicast-IsSetUp count =
      let (small, (b, made, valid, sized)) = buffer-made e short in
      rw (◌>>=◌, claim_strategy-eq e w small, made, add_claim_barriers-eq (2 ^ e) (suc count))
        (shaped-IsSetUp e items (suc count) few from_writer (cells (suc count)) b _
          (small, valid, sized) (begins (suc count) w) (λ k h. claimed (cells-mem (suc count) k h))
          (λ k h. (0, Memᴰ.head refl))
          (record {
            sources = λ k u h m. inl (Memᴰ.eq_of_singleton m);
            claims = λ f m. mem-cells (suc count) f m;
            some_claim = cells-not_empty count;
          }))

  module _ (last : ℕ) where
    pipeline-awaited :
        (d k : ℕ)
        → k + d ≡ last
        → IsAwaited (shaped (2 ^ e) items (suc last) from_previous (suc last ∷ [])) k
    pipeline-awaited zero k h =
        let same : k ≡ last = omega arith in rw same (claimed (Memᴰ.head refl))
    pipeline-awaited (suc d) k h =
        through (suc k) (omega arith) (Memᴰ.head refl) (pipeline-awaited d (suc k) (omega arith))

    previous-source :
        (k u : ℕ) → Memᴰ u (from_previous k) → (u ≡ 0) ⊎ ((j : ℕ) × (j < k) × (u ≡ suc j))
    previous-source zero u m = inl (Memᴰ.eq_of_singleton m)
    previous-source (suc k) u m = inr (k, omega arith, Memᴰ.eq_of_singleton m)

    previous-fed : (k : ℕ) → (u : ℕ) × Memᴰ u (from_previous k)
    previous-fed zero = (0, Memᴰ.head refl)
    previous-fed (suc k) = (suc k, Memᴰ.head refl)

    pipeline-IsSetUp : Totally (IsSetUp items (suc last)) (pipeline (2 ^ e) items (suc last) w)
    unfolding pipeline add_claim_barrier SequenceBarrierGroup.add
    pipeline-IsSetUp =
        let (small, (b, made, valid, sized)) = buffer-made e short in
        rw (◌>>=◌, claim_strategy-eq e w small, made, make_barriers-eq (suc last))
          (shaped-IsSetUp e items (suc last) few from_previous (suc last ∷ []) b _
            (small, valid, sized) (begins (suc last) w)
            (λ k h. pipeline-awaited (last - k) k (omega arith)) (λ k h. previous-fed k)
            (record {
              sources = λ k u h m. previous-source k u m;
              claims = λ f m. (last, omega arith, Memᴰ.eq_of_singleton m);
              some_claim = refl;
            }))

  -- The last consumer waits for the `n + 1` consumers before it.
  module _ (n : ℕ) where
    abbrev joined : ℕ → List ℕ
    joined = joined_by_last (suc (suc n)) (record { strategy = 0; sequences = cells (suc n) })

    last-joined : joined (suc n) ≡ cells (suc n)
    last-joined = ground arith

    other-joined : (k : ℕ) → k < suc n → joined k ≡ 0 ∷ []
    other-joined k h = let e : (suc k == suc (suc n)) ≡ false = ground arith in rw e refl

    diamond-awaited :
        (k : ℕ)
        → k < suc (suc n)
        → IsAwaited (shaped (2 ^ e) items (suc (suc n)) joined (suc (suc n) ∷ [])) k
    diamond-awaited k h =
        let last = claimed {k = suc n} (Memᴰ.head refl) in
        elim (ℕ_discrete k (suc n)) [
          | yes same ↦ rw same last
          | no ne ↦
              through (suc n) (omega arith) (rw last-joined (cells-mem (suc n) k (omega arith)))
                last
        ]

    diamond-fed : (k : ℕ) → k < suc (suc n) → (u : ℕ) × Memᴰ u (joined k)
    diamond-fed k h = elim (ℕ_discrete k (suc n)) [
      | yes same ↦ (1, rw (same, last-joined) (cells-mem (suc n) 0 (omega arith)))
      | no ne ↦ (0, rw (other-joined k (omega arith)) (Memᴰ.head refl))
    ]

    diamond-source :
        (k u : ℕ)
        → k < suc (suc n)
        → Memᴰ u (joined k)
        → (u ≡ 0) ⊎ ((j : ℕ) × (j < k) × (u ≡ suc j))
    diamond-source k u h m = elim (ℕ_discrete k (suc n)) [
      | yes same ↦
          let (j, below, e) = mem-cells (suc n) u (rw (same, last-joined) at m) in
          inr (j, omega arith, e)
      | no ne ↦ inl (Memᴰ.eq_of_singleton (rw (other-joined k (omega arith)) at m))
    ]

    diamond-IsSetUp : Totally (IsSetUp items (suc (suc n))) (diamond (2 ^ e) items (suc (suc n)) w)
    unfolding diamond sequence_barrier add_claim_barrier SequenceBarrierGroup.add
    diamond-IsSetUp =
        let (small, (b, made, valid, sized)) = buffer-made e short in
        rw (◌>>=◌, claim_strategy-eq e w small, made, add_barriers-eq (suc n))
          (shaped-IsSetUp e items (suc (suc n)) few joined (suc (suc n) ∷ []) b _
            (small, valid, sized) (begins (suc (suc n)) w) diamond-awaited diamond-fed
            (record {
              sources = diamond-source;
              claims = λ f m. (suc n, omega arith, Memᴰ.eq_of_singleton m);
              some_claim = refl;
            }))

-- With a buffer of a power of two up to 2 ^ 62 slots and fewer than 2 ^ 64 items, the four programs
-- set up as `IsSetUp` says: the constructors and the calls that add barriers pass their asserts,
-- the threads are wired as they must be, and all sequence barriers hold what the threads start
-- with. This is with one consumer in unicast, one or more in multicast and in pipeline, and two or
-- more in diamond.
pub programs-IsSetUp :
    (e items count : ℕ) (w : World)
    → e ≤ 62
    → items < 2 ^ 64
    → Totally (IsSetUp items 1) (unicast (2 ^ e) items w)
      × Totally (IsSetUp items (suc count)) (multicast (2 ^ e) items (suc count) w)
      × Totally (IsSetUp items (suc count)) (pipeline (2 ^ e) items (suc count) w)
      × Totally (IsSetUp items (suc (suc count))) (diamond (2 ^ e) items (suc (suc count)) w)
programs-IsSetUp e items count w short few = (
  unicast-IsSetUp e items w short few,
  multicast-IsSetUp e items w short few count,
  pipeline-IsSetUp e items w short few count,
  diamond-IsSetUp e items w short few count,
)
