-- ===== src/Benchmark/Programs/Built.antt =====
-- What the constructors and loops of the programs make.
use Prim.Native.Nat.{bit_and}
use mathlib.Core.List.{Memᴰ}
use mathlib.Core.List.Memᴰ
use native.Mathlib.Nat.{pow-le-pow_right, one-le-pow}
use disruptorplus.Common.{
  ℕ, zero, suc, ◌^◌, ◌≤◌, ◌<◌, ◌≡◌, inl, inr, refl, ap, ◌∙◌, List, [], ◌∷◌, ◌++◌, ◌-◌, ◌==◌, ◌&&◌,
  ltb, true, false, some, arith, ℕ_discrete, bit_and-pow-pred,
}
use disruptorplus.Sequence.{sub_sequence}
use disruptorplus.Memory.{Memory, World, update, done, ◌>>=◌}
use disruptorplus.RingBuffer.{RingBuffer, ring_buffer}
use disruptorplus.RingBuffer.Slots.{IsValid, ring_buffer-IsValid, ring_buffer_iff_power}
use disruptorplus.SequenceBarrier.{sequence_barrier}
use disruptorplus.SequenceBarrierGroup
use disruptorplus.SequenceBarrierGroup.{is_empty}
use disruptorplus.SingleThreadedClaimStrategy.{
  SingleThreadedClaimStrategy, single_threaded_claim_strategy, add_claim_barrier,
}
use disruptorplus.Benchmark.Programs.{make_barriers, add_barriers, add_claim_barriers}

-- The atomics of the first barriers.
abbrev pub cells : ℕ → List ℕ
cells zero = []
cells (suc n) = cells n ++ (suc n ∷ [])

pub cells-mem : (n k : ℕ) → k < n → Memᴰ (suc k) (cells n)
cells-mem zero k h = absurd (omega arith)
cells-mem (suc n) k h = elim (ℕ_discrete k n) [
  | yes e ↦ rw e (Memᴰ.append_right (cells n) (Memᴰ.head refl))
  | no ne ↦ Memᴰ.append_left (suc n ∷ []) (cells-mem n k (omega arith))
]

pub mem-cells : (n u : ℕ) → Memᴰ u (cells n) → (j : ℕ) × (j < n) × (u ≡ suc j)
mem-cells zero u m = elim m [ ]
mem-cells (suc n) u m = elim (Memᴰ.append_cases (cells n) m) [
  | inl m' ↦ let (j, below, e) = mem-cells n u m' in (j, omega arith, e)
  | inr last ↦ (n, omega arith, Memᴰ.eq_of_singleton last)
]

pub cells-not_empty : (n : ℕ) → is_empty (cells (suc n)) ≡ false
cells-not_empty zero = refl
cells-not_empty (suc n) = go (cells (suc n)) (suc (suc n))
  where
    go : (ls : List ℕ) (l : ℕ) → is_empty (ls ++ (l ∷ [])) ≡ false
    go [] l = refl
    go (k ∷ ks) l = refl

-- The memory with the first barriers.
abbrev pub initial : ℕ → Memory → Memory
initial zero m = m
initial (suc n) m = update (initial n m) (suc n) (2 ^ 64 - 1)

pub initial-barrier : (n : ℕ) (m : Memory) (k : ℕ) → k < n → initial n m (suc k) ≡ 2 ^ 64 - 1
initial-barrier zero m k h = absurd (omega arith)
initial-barrier (suc n) m k h = elim (ℕ_discrete k n) [
  | yes e ↦ let same : (suc k == suc n) ≡ true = ground arith in rw same refl
  | no ne ↦
      let other : (suc k == suc n) ≡ false = ground arith in
      rw other (initial-barrier n m k (omega arith))
]

pub initial-cell : (n : ℕ) (m : Memory) → initial n m 0 ≡ m 0
initial-cell zero m = refl
initial-cell (suc n) m =
    let other : (0 == suc n) ≡ false = ground arith in rw other (initial-cell n m)

-- What the claim strategy's constructor makes.
abbrev pub fresh : ℕ → SingleThreadedClaimStrategy
fresh size = record {
  buffer_size = size;
  next_sequence_to_claim = 0;
  claim_barrier = SequenceBarrierGroup.sequence_barrier_group 0;
  read_barrier = record { strategy = 0; cell = 0 };
}

pub buffer-made :
    (e : ℕ)
    → e ≤ 62
    → (2 ^ e ≤ 2 ^ 62)
      × ((b : RingBuffer ℕ) × (ring_buffer 0 (2 ^ e) ≡ some b) × IsValid b × (b.size ≡ 2 ^ e))
buffer-made e h =
    let short : 2 ^ e ≤ 2 ^ 62 = pow-le-pow_right (omega arith) h in
    let (b, made) = (ring_buffer_iff_power 0 (2 ^ e) (omega (arith, short))).1 (e, refl) in
    let (valid, sized) = ring_buffer-IsValid 0 (2 ^ e) (omega (arith, short)) made in
    (short, (b, made, valid, sized))

-- A power of two passes the `assert` of the claim strategies' constructors.
pub size-passes :
    (e : ℕ)
    → 2 ^ e ≤ 2 ^ 62
    → (ltb 0 (2 ^ e) && bit_and (2 ^ e) (sub_sequence (2 ^ e) 1) == 0) ≡ true
size-passes e small =
    let masked : sub_sequence (2 ^ e) 1 ≡ 2 ^ e - 1 = omega (arith, small, one-le-pow e 2) in
    let clean : bit_and (2 ^ e) (sub_sequence (2 ^ e) 1) ≡ 0 =
      ap (λ (m : ℕ). bit_and (2 ^ e) m) masked ∙ bit_and-pow-pred e in
    ground (arith, one-le-pow e 2, clean)

pub claim_strategy-eq :
    (e : ℕ) (w : World)
    → 2 ^ e ≤ 2 ^ 62
    → single_threaded_claim_strategy (2 ^ e) 0 0 w
      ≡ done (fresh (2 ^ e)) (record w { mem = update w.mem 0 (2 ^ 64 - 1) })
unfolding single_threaded_claim_strategy sequence_barrier
claim_strategy-eq e w small = rw (size-passes e small, ◌>>=◌) refl

pub make_barriers-eq :
    (n : ℕ) (w : World) → make_barriers n w ≡ done tt (record w { mem = initial n w.mem })
unfolding make_barriers sequence_barrier
make_barriers-eq zero w = refl
make_barriers-eq (suc n) w = rw (◌>>=◌, make_barriers-eq n w) refl

pub add_barriers-eq :
    (n : ℕ) (w : World)
    → add_barriers (SequenceBarrierGroup.sequence_barrier_group 0) n w
      ≡ done (record { strategy = 0; sequences = cells n }) (record w { mem = initial n w.mem })
unfolding add_barriers sequence_barrier SequenceBarrierGroup.add
add_barriers-eq zero w = refl
add_barriers-eq (suc n) w = rw (◌>>=◌, add_barriers-eq n w) refl

pub add_claim_barriers-eq :
    (size n : ℕ) (w : World)
    → add_claim_barriers (fresh size) n w
      ≡ done
          (record (fresh size) { claim_barrier = record { strategy = 0; sequences = cells n } })
          (record w { mem = initial n w.mem })
unfolding add_claim_barriers sequence_barrier add_claim_barrier SequenceBarrierGroup.add
add_claim_barriers-eq size zero w = refl
add_claim_barriers-eq size (suc n) w = rw (◌>>=◌, add_claim_barriers-eq size n w) refl
