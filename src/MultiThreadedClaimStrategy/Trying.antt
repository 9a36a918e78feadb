-- ===== src/MultiThreadedClaimStrategy/Trying.antt =====
-- `try_claim`: the compare-exchange loop on the shared counter.
use disruptorplus.Common.{
  ℕ, zero, suc, ◌+◌, ◌-◌, ◌^◌, ◌≤◌, ◌<◌, ◌≡◌, refl, ◌⊎◌, inl, inr, Bool, true, false, is_neg, pos,
  ◌+ℤ◌, ◌==◌, sub_ℕ, min, Bool-cases, dec_lt, arith,
}
use disruptorplus.Sequence.{add_sequence, to_unsigned, difference}
use disruptorplus.Sequence.Distance.{
  distance, IsAhead, distance-add_sequence, difference-add_sequence,
}
use disruptorplus.Memory.{Environment, Memory, World, arrive, update, compare_exchange_weak, ◌>>=◌}
use disruptorplus.Memory.Rely.{Later, Later-trans, Later-arrive, Later-store}
use disruptorplus.SequenceRange.{SequenceRange}
use disruptorplus.WaitStrategy.{WaitStrategy, Mostly, Mostly-map}
use disruptorplus.WaitStrategy.Promise.{Setting}
use disruptorplus.MultiThreadedClaimStrategy.{MultiThreadedClaimStrategy, try_claim_loop}

-- From the access `t` on, no other thread claims, and no exchange fails spuriously.
abbrev pub Settles : Environment → MultiThreadedClaimStrategy → ℕ → Type 0
Settles env cs t =
    (u : ℕ)
    → t ≤ u
    → (env.spurious u ≡ false)
      × ((m : Memory) → env.others u m cs.next_claimable ≡ m cs.next_claimable)

module _ {Watched : ℕ → Type 0} {base : ℕ} {env : Environment} {ws : WaitStrategy}
    (setting : Setting Watched base env ws) (cs : MultiThreadedClaimStrategy)
    (counter : Watched cs.next_claimable) (range : SequenceRange) (count r : ℕ)
    (read : IsAhead base r) (space : distance base r + cs.buffer_size + 1 < 2 ^ 62)
    (v : World) where
  open setting use {small, fair}

  -- A success that returns `range'` in `w'`, for what the claim barriers had published, `r`: the
  -- range begins where the counter stood; it takes all slots that `r` leaves free from there, as
  -- far as asked for; and the counter is past its end.
  pub record Claims (range' : SequenceRange) (w' : World) : Type 0 where
    pub later : Later Watched base v w'
    pub first : IsAhead base range'.first
    pub drawn : distance base (v.mem cs.next_claimable) ≤ distance base range'.first
    pub free : distance base range'.first ≤ distance base r + cs.buffer_size
    pub sized :
        range'.size
        ≡ min count (suc (distance base r + cs.buffer_size) - distance base range'.first)
    pub taken : distance base range'.first + range'.size ≤ distance base (w'.mem cs.next_claimable)

  -- A refusal leaves the out-parameter alone, and the counter is past all free slots.
  abbrev pub Refuses : Bool × SequenceRange → World → Type 0
  Refuses t w' =
      (t ≡ (false, range))
      × Later Watched base v w'
      × (distance base r + cs.buffer_size < distance base (w'.mem cs.next_claimable))

  abbrev pub Tries : Bool × SequenceRange → World → Type 0
  Tries t w' = (t.0 ≡ true) × Claims t.1 w' ⊎ Refuses t w'

  -- If the loop is still going when its fuel is spent, the others have not settled in time.
  abbrev pub Contended : (fuel : ℕ) → World → Type 0
  Contended fuel w = (t : ℕ) → Settles env cs t → t < w.tick + fuel → 0 < fuel → ⊥

  -- What the loop keeps, about the `c` that is left of the count.
  pub record Holds (c : ℕ) (w : World) : Type 0 where
    pub later : Later Watched base v w
    pub drawn : distance base (v.mem cs.next_claimable) ≤ distance base (w.mem cs.next_claimable)
    pub upto : c ≤ count
    pub left :
        min count (suc (distance base r + cs.buffer_size) - distance base (w.mem cs.next_claimable))
        ≤ c

  module _ (c : ℕ) (w : World) (h : Holds c w) where
    abbrev sequence : ℕ
    sequence = w.mem cs.next_claimable

    sequence-IsAhead : IsAhead base sequence
    sequence-IsAhead = h.later.ahead cs.next_claimable counter

    difference-claimable :
        difference (add_sequence r cs.buffer_size) sequence
        ≡ sub_ℕ (distance base r + cs.buffer_size) (distance base sequence)
    difference-claimable =
        difference-add_sequence base r sequence cs.buffer_size small read sequence-IsAhead
          (omega arith)

    refuses :
        is_neg (difference (add_sequence r cs.buffer_size) sequence) ≡ true
        → Refuses (false, range) w
    refuses e = (refl, h.later, ground (arith, difference-claimable))

    -- The slots that the next exchange tries to take.
    abbrev taking : ℕ
    taking = min c (to_unsigned (difference (add_sequence r cs.buffer_size) sequence +ℤ pos 1))

    taking-eq-min :
        is_neg (difference (add_sequence r cs.buffer_size) sequence) ≡ false
        → (taking ≡ min count (suc (distance base r + cs.buffer_size) - distance base sequence))
          × (distance base sequence ≤ distance base r + cs.buffer_size)
    taking-eq-min e =
        let free : distance base sequence ≤ distance base r + cs.buffer_size =
          ground (arith, difference-claimable) in
        let all : to_unsigned (difference (add_sequence r cs.buffer_size) sequence +ℤ pos 1)
            ≡ suc (distance base r + cs.buffer_size) - distance base sequence =
          ground (arith, difference-claimable) in
        (omega (arith, all, h.left, h.upto), free)

    -- An exchange that fails reads the counter again.
    fails :
        is_neg (difference (add_sequence r cs.buffer_size) sequence) ≡ false
        → Holds taking (arrive env w)
    fails e =
        let first = Later-arrive Watched base env w fair h.later.ahead in
        let on = first.advances cs.next_claimable counter in
        record {
          later = Later-trans Watched base h.later first;
          drawn = omega (arith, h.drawn);
          upto = omega (arith, h.upto);
          left = omega (arith, taking-eq-min e);
        }

    abbrev exchanged : World
    exchanged = record {
      tick = suc w.tick;
      mem = update (arrive env w).mem cs.next_claimable (add_sequence sequence taking);
    }

    -- One that succeeds takes the slots.
    succeeds :
        is_neg (difference (add_sequence r cs.buffer_size) sequence) ≡ false
        → ((arrive env w).mem cs.next_claimable == sequence) ≡ true
        → Claims (record { first = sequence; size = taking }) exchanged
    succeeds e same =
        let (size, free) = taking-eq-min e in
        let (there, fits) =
          distance-add_sequence base sequence taking small sequence-IsAhead.small
            (omega (arith, sequence-IsAhead.near)) in
        let stays : (arrive env w).mem cs.next_claimable ≡ sequence = ground arith in
        record {
          later = Later-trans Watched base h.later (
              Later-store Watched base env w fair h.later.ahead cs.next_claimable
                (add_sequence sequence taking) (record { small = fits; near = omega arith })
                (rw stays (omega arith)));
          first = sequence-IsAhead;
          drawn = h.drawn;
          free = free;
          sized = size;
          taken = ground arith;
        }

    -- Where the others have settled, the exchange succeeds.
    fails-Contended :
        (fuel : ℕ)
        → (Settles env cs w.tick → ⊥)
        → Contended fuel (arrive env w)
        → Contended (suc fuel) w
    fails-Contended fuel busy later t settles enough some_fuel = elim (dec_lt w.tick t) [
      | yes early ↦ later t settles (omega arith) (omega arith)
      | no late ↦ absurd (busy (λ u hu. settles u (omega arith)))
    ]

  pub try_claim_loop-Tries :
      (fuel c : ℕ) (w : World)
      → Holds c w
      → Mostly (Contended fuel w) Tries (
          try_claim_loop env ws cs fuel
            (add_sequence r cs.buffer_size)
            range
            c
            (w.mem cs.next_claimable)
            w)
  unfolding try_claim_loop
  try_claim_loop-Tries zero c w h = λ t settles enough some_fuel. absurd (omega arith)
  try_claim_loop-Tries (suc fuel) c w h =
      elim (Bool-cases
        (is_neg (difference (add_sequence r cs.buffer_size) (w.mem cs.next_claimable)))) [
          | inl e ↦ rw e (inr (refuses c w h e))
          | inr e ↦
              let rest = try_claim_loop-Tries fuel (taking c w h) (arrive env w) (fails c w h e) in
              elim (Bool-cases (env.spurious w.tick)) [
                | inl s ↦
                    rw (e, ◌>>=◌, compare_exchange_weak, s)
                      (Mostly-map Tries _
                        (fails-Contended c w h fuel
                          (λ settles. ground (arith, settles w.tick (omega arith))))
                        rest)
                | inr s ↦
                    elim (Bool-cases
                      ((arrive env w).mem cs.next_claimable == w.mem cs.next_claimable)) [
                        | inl same ↦
                            rw (e, ◌>>=◌, compare_exchange_weak, s, same)
                              (inl (refl, succeeds c w h e same))
                        | inr other ↦
                            rw (e, ◌>>=◌, compare_exchange_weak, s, other)
                              (Mostly-map Tries _
                                (fails-Contended c w h fuel (λ settles.
                                  ground (arith, (settles w.tick (omega arith)).1 w.mem)))
                                rest)
                      ]
              ]
        ]
