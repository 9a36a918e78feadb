-- ===== src/BlockingWaitStrategy/Serving.antt =====
-- A thread that holds the lock comes to release it, in steps of its own call.
use disruptorplus.Common.{
  ℕ, ◌≡◌, ◌≢◌, refl, ap, ◌∙◌, ◌⊎◌, inl, inr, true, false, if◌then◌else◌, ◌==◌, Bool-cases, List, [],
  ◌∷◌, ℤ, is_neg, min_ℤ, none, arith,
}
use disruptorplus.Sequence.{difference, to_unsigned, add_sequence}
use disruptorplus.BlockingWaitStrategy.{
  Phase, idle, locking, testing, scanning, refused, sleeping, leaving, stored, signalling,
  signalled, State, moves, wake, Step, call, lock, scan_first, scan_next, refuse, accept, sleep,
  wake_spuriously, leave, store, store_next, lock_signal, notify_all, unlock_signal,
}
use disruptorplus.BlockingWaitStrategy.Signals.{holds, IsSound}
use disruptorplus.BlockingWaitStrategy.Reachable.{Step-IsSound}
use disruptorplus.BlockingWaitStrategy.Holding.{IsManned, Step-IsManned}

-- The steps of calls that are under way: no call begins, no number is stored, and no thread wakes
-- up without a signal.
abbrev pub IsUnderWay : {σ τ : State} → Step σ τ → Type 0
IsUnderWay (call t s l ls at) = ⊥
IsUnderWay (store t l v at) = ⊥
IsUnderWay (store_next t l v at) = ⊥
IsUnderWay (wake_spuriously t s ls at) = ⊥
IsUnderWay (lock t s ls at free) = Unit
IsUnderWay (scan_first t s l ls at) = Unit
IsUnderWay (scan_next t s l ls left d at enough) = Unit
IsUnderWay (refuse t s ls left d at behind) = Unit
IsUnderWay (accept t s ls d at enough) = Unit
IsUnderWay (sleep t s ls at) = Unit
IsUnderWay (leave t s ls r at) = Unit
IsUnderWay (lock_signal t at free) = Unit
IsUnderWay (notify_all t at) = Unit
IsUnderWay (unlock_signal t at) = Unit

pub data Run : State → State → Type 0 where
  stop : {σ : State} → Run σ σ
  go : {σ τ υ : State} (s : Step σ τ) → IsUnderWay s → Run τ υ → Run σ υ

pub Run-trans : {σ τ υ : State} → Run σ τ → Run τ υ → Run σ υ
Run-trans stop rest = rest
Run-trans (go s u run) rest = go s u (Run-trans run rest)

pub Run-IsSound : {σ τ : State} → Run σ τ → IsSound σ → IsSound τ
Run-IsSound stop h = h
Run-IsSound (go {σ} {τ} s u run) h = Run-IsSound run (Step-IsSound σ τ s h)

pub Run-IsManned : {σ τ : State} → Run σ τ → IsManned σ → IsManned τ
Run-IsManned stop h = h
Run-IsManned (go s u run) h = Run-IsManned run (Step-IsManned s h)

pub moves_self : (σ : State) (t : ℕ) (q : Phase) → (moves σ t q).threads t ≡ q
moves_self σ t q = let e : (t == t) ≡ true = ground arith in rw e refl

pub moves_other : (σ : State) (t j : ℕ) (q : Phase) → j ≢ t → (moves σ t q).threads j ≡ σ.threads j
moves_other σ t j q ne = let e : (j == t) ≡ false = ground arith in rw e refl

-- The thread `k` has released the lock, and the others stand where they stood or are woken.
pub record IsReleased (k : ℕ) (σ τ : State) : Type 0 where
  pub run : Run σ τ
  pub free : τ.mutex ≡ none
  pub same : τ.mem ≡ σ.mem
  pub others : (j : ℕ) → j ≢ k → (τ.threads j ≡ σ.threads j) ⊎ (τ.threads j ≡ wake (σ.threads j))

abbrev pub Releases : ℕ → State → Type 0
Releases k σ = (τ : State) × IsReleased k σ τ

-- The last step of a call of `k`.
Releases-at_last :
    (σ : State) (k : ℕ) (q : Phase) (s : Step σ (record (moves σ k q) { mutex = none }))
    → IsUnderWay s
    → Releases k σ
Releases-at_last σ k q s u = (
  record (moves σ k q) { mutex = none },
  record {
    run = go s u stop;
    free = refl;
    same = refl;
    others = λ j ne. inl (moves_other σ k j q ne);
  },
)

-- A step before it.
Releases-later :
    (σ : State) (k : ℕ) (q : Phase) (s : Step σ (moves σ k q))
    → IsUnderWay s
    → Releases k (moves σ k q)
    → Releases k σ
Releases-later σ k q s u (τ, h) = (
  τ,
  record {
    run = go s u h.run;
    free = h.free;
    same = h.same;
    others = λ j ne.
        let other = moves_other σ k j q ne in
        elim (h.others j ne) [ inl e ↦ inl (e ∙ other) | inr e ↦ inr (e ∙ ap wake other) ];
  },
)

refusal-Releases :
    (k s : ℕ) (ls left : List ℕ) (d : ℤ) (σ : State)
    → σ.threads k ≡ scanning s ls left d
    → is_neg d ≡ true
    → Releases k σ
refusal-Releases k s ls left d σ at behind =
    Releases-later σ k (refused s ls) (refuse k s ls left d at behind) tt (
      Releases-at_last (moves σ k (refused s ls)) k (sleeping s ls)
        (sleep k s ls (moves_self σ k (refused s ls))) tt)

scanning-Releases :
    (k s : ℕ) (ls left : List ℕ) (d : ℤ) (σ : State)
    → σ.threads k ≡ scanning s ls left d
    → Releases k σ
scanning-Releases k s ls [] d σ at = elim (Bool-cases (is_neg d)) [
  | inl behind ↦ refusal-Releases k s ls [] d σ at behind
  | inr enough ↦
      let q = leaving s ls (add_sequence (to_unsigned d) s) in
      Releases-later σ k q (accept k s ls d at enough) tt (
        Releases-at_last (moves σ k q) k idle
          (leave k s ls (add_sequence (to_unsigned d) s) (moves_self σ k q)) tt)
]
scanning-Releases k s ls (l ∷ left) d σ at =
    let q = scanning s ls left (min_ℤ d (difference (σ.mem l) s)) in
    let rest =
      scanning-Releases k s ls left (min_ℤ d (difference (σ.mem l) s)) (moves σ k q)
        (moves_self σ k q) in
    elim (Bool-cases (is_neg d)) [
      | inl behind ↦ refusal-Releases k s ls (l ∷ left) d σ at behind
      | inr enough ↦ Releases-later σ k q (scan_next k s l ls left d at enough) tt rest
    ]

signalled-Releases : (k : ℕ) (σ : State) → σ.threads k ≡ signalled → Releases k σ
signalled-Releases k σ at = Releases-at_last σ k idle (unlock_signal k at) tt

-- A thread that signals wakes all others before it releases the lock.
pub signalling-wakes :
    (k : ℕ) (σ : State)
    → σ.threads k ≡ signalling
    → (τ : State) × IsReleased k σ τ × ((j : ℕ) → j ≢ k → τ.threads j ≡ wake (σ.threads j))
signalling-wakes k σ at =
    let σ' : State = record σ { threads = λ j. if j == k then signalled else wake (σ.threads j) } in
    let self : (k == k) ≡ true = ground arith in
    let woken : (j : ℕ) → j ≢ k → (if j == k then idle else σ'.threads j) ≡ wake (σ.threads j) =
      λ j ne. let other : (j == k) ≡ false = ground arith in rw other refl in
    (
      record (moves σ' k idle) { mutex = none },
      record {
        run = go (notify_all k at) tt (go (unlock_signal k (rw self refl)) tt stop);
        free = refl;
        same = refl;
        others = λ j ne. inr (woken j ne);
      },
      woken,
    )

-- Whatever a thread does with the lock, it releases it.
pub holder-Releases :
    (k : ℕ) (σ : State) (p : Phase) → σ.threads k ≡ p → holds p ≡ true → IsManned σ → Releases k σ
holder-Releases k σ (testing s []) at held manned = absurd ((rw at at (manned.full k)) refl)
holder-Releases k σ (testing s (l ∷ ls)) at held manned =
    let q = scanning s (l ∷ ls) ls (difference (σ.mem l) s) in
    Releases-later σ k q (scan_first k s l ls at) tt
      (scanning-Releases k s (l ∷ ls) ls (difference (σ.mem l) s) (moves σ k q) (moves_self σ k q))
holder-Releases k σ (scanning s ls left d) at held manned = scanning-Releases k s ls left d σ at
holder-Releases k σ (refused s ls) at held manned =
    Releases-at_last σ k (sleeping s ls) (sleep k s ls at) tt
holder-Releases k σ (leaving s ls r) at held manned =
    Releases-at_last σ k idle (leave k s ls r at) tt
holder-Releases k σ signalling at held manned = let (τ, h, _) = signalling-wakes k σ at in (τ, h)
holder-Releases k σ signalled at held manned = signalled-Releases k σ at
holder-Releases k σ idle at held manned = absurd (ground arith)
holder-Releases k σ (locking s ls) at held manned = absurd (ground arith)
holder-Releases k σ (sleeping s ls) at held manned = absurd (ground arith)
holder-Releases k σ stored at held manned = absurd (ground arith)
