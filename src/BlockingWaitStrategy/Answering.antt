-- ===== src/BlockingWaitStrategy/Answering.antt =====
-- A thread that waits for what is published can come to return, whatever the others are doing.
use disruptorplus.Common.{
  ℕ, ◌≡◌, ◌≢◌, refl, sym, ap, ◌∙◌, ◌⊎◌, inl, inr, true, false, Bool-cases, List, [], ◌∷◌, ℤ, is_neg,
  min_ℤ, Option, none, some, arith,
}
use disruptorplus.Sequence.{difference, to_unsigned, add_sequence}
use disruptorplus.Memory.{Memory}
use disruptorplus.BlockingWaitStrategy.{
  Phase, idle, locking, testing, scanning, refused, sleeping, leaving, stored, signalling,
  signalled, State, moves, wake, lock, scan_first, scan_next, refuse, accept, sleep, lock_signal,
}
use disruptorplus.BlockingWaitStrategy.Signals.{holds, is_pending, Behind, IsSound}
use disruptorplus.BlockingWaitStrategy.Reachable.{Reachable, Reachable-IsSound}
use disruptorplus.BlockingWaitStrategy.Holding.{IsManned, Reachable-IsManned}
use disruptorplus.BlockingWaitStrategy.Serving.{
  Run, stop, go, Run-trans, Run-IsSound, Run-IsManned, moves_self, moves_other, signalling-wakes,
  holder-Releases,
}

-- The thread's call waits for `s` on the atomics `ls`.
abbrev pub IsWaiting : Phase → ℕ → List ℕ → Type 0
IsWaiting p s ls =
    (p ≡ locking s ls)
    ⊎ (p ≡ testing s ls)
    ⊎ ((left : List ℕ) × (d : ℤ) × (p ≡ scanning s ls left d))
    ⊎ (p ≡ refused s ls)
    ⊎ (p ≡ sleeping s ls)

-- After steps of the calls under way, the thread is about to return a result.
abbrev pub IsAnswered : (t s : ℕ) → List ℕ → State → Type 0
IsAnswered t s ls σ = (τ : State) × Run σ τ × (r : ℕ) × (τ.threads t ≡ leaving s ls r)

IsAnswered-Run :
    (t s : ℕ) (ls : List ℕ) {σ τ : State} → Run σ τ → IsAnswered t s ls τ → IsAnswered t s ls σ
IsAnswered-Run t s ls run (υ, rest, r, at) = (υ, Run-trans run rest, r, at)

not-Behind :
    (m : Memory) (s l : ℕ) (ls : List ℕ)
    → (Behind m s (l ∷ ls) → ⊥)
    → is_neg (difference (m l) s) ≡ false
not-Behind m s l ls published = elim (Bool-cases (is_neg (difference (m l) s))) [
  | inl behind ↦ absurd (published (inl behind))
  | inr enough ↦ enough
]

min-not_neg : (a b : ℤ) → is_neg a ≡ false → is_neg b ≡ false → is_neg (min_ℤ a b) ≡ false
min-not_neg a b ha hb = ground arith

scanning-IsAnswered :
    (t s : ℕ) (ls left : List ℕ) (d : ℤ) (σ : State)
    → σ.threads t ≡ scanning s ls left d
    → is_neg d ≡ false
    → (Behind σ.mem s left → ⊥)
    → IsAnswered t s ls σ
scanning-IsAnswered t s ls [] d σ at enough published =
    let r = add_sequence (to_unsigned d) s in
    (
      moves σ t (leaving s ls r),
      go (accept t s ls d at enough) tt stop,
      r,
      moves_self σ t (leaving s ls r),
    )
scanning-IsAnswered t s ls (l ∷ left) d σ at enough published =
    let d' = min_ℤ d (difference (σ.mem l) s) in
    IsAnswered-Run t s ls (go (scan_next t s l ls left d at enough) tt stop) (
      scanning-IsAnswered t s ls left d' (moves σ t (scanning s ls left d'))
        (moves_self σ t (scanning s ls left d'))
        (min-not_neg d (difference (σ.mem l) s) enough (not-Behind σ.mem s l left published))
        λ behind. published (inr behind))

testing-IsAnswered :
    (t s : ℕ) (ls : List ℕ) (σ : State)
    → σ.threads t ≡ testing s ls
    → IsManned σ
    → (Behind σ.mem s ls → ⊥)
    → IsAnswered t s ls σ
testing-IsAnswered t s [] σ at manned published = absurd ((rw at at (manned.full t)) refl)
testing-IsAnswered t s (l ∷ ls) σ at manned published =
    let q = scanning s (l ∷ ls) ls (difference (σ.mem l) s) in
    IsAnswered-Run t s (l ∷ ls) (go (scan_first t s l ls at) tt stop) (
      scanning-IsAnswered t s (l ∷ ls) ls (difference (σ.mem l) s) (moves σ t q) (moves_self σ t q)
        (not-Behind σ.mem s l ls published) λ behind. published (inr behind))

locking-IsAnswered :
    (t s : ℕ) (ls : List ℕ) (σ : State)
    → σ.threads t ≡ locking s ls
    → σ.mutex ≡ none
    → IsManned σ
    → (Behind σ.mem s ls → ⊥)
    → IsAnswered t s ls σ
locking-IsAnswered t s ls σ at free manned published =
    let run = go (lock t s ls at free) tt stop in
    IsAnswered-Run t s ls run (
      testing-IsAnswered t s ls (record (moves σ t (testing s ls)) { mutex = some t })
        (moves_self σ t (testing s ls)) (Run-IsManned run manned) published)

-- The thread that has a signal to send wakes the one that sleeps.
woken-IsAnswered :
    (t s u : ℕ) (ls : List ℕ) (σ : State)
    → σ.threads t ≡ sleeping s ls
    → σ.threads u ≡ stored
    → σ.mutex ≡ none
    → IsManned σ
    → (Behind σ.mem s ls → ⊥)
    → IsAnswered t s ls σ
unfolding wake
woken-IsAnswered t s u ls σ at pending free manned published =
    let ne : t ≢ u = λ same. let clash = sym at ∙ ap σ.threads same ∙ pending in ground arith in
    let σ' : State = record (moves σ u signalling) { mutex = some u } in
    let (τ, h, woken) = signalling-wakes u σ' (moves_self σ u signalling) in
    let run = go (lock_signal u pending free) tt h.run in
    let here : σ'.threads t ≡ sleeping s ls = moves_other σ u t signalling ne ∙ at in
    let now : τ.threads t ≡ locking s ls = woken t ne ∙ ap wake here in
    IsAnswered-Run t s ls run
      (locking-IsAnswered t s ls τ now h.free (Run-IsManned run manned) (rw h.same published))

sleeping-IsAnswered :
    (t s : ℕ) (ls : List ℕ) (σ : State)
    → σ.threads t ≡ sleeping s ls
    → σ.mutex ≡ none
    → IsSound σ
    → IsManned σ
    → (Behind σ.mem s ls → ⊥)
    → IsAnswered t s ls σ
sleeping-IsAnswered t s ls σ at free sound manned published = elim (rw at at (sound.reason t)) [
  | inl behind ↦ absurd (published behind)
  | inr (u, pending) ↦ sends u (σ.threads u) refl pending
]
  where
    sends : (u : ℕ) (p : Phase) → σ.threads u ≡ p → is_pending p ≡ true → IsAnswered t s ls σ
    sends u stored e h = woken-IsAnswered t s u ls σ at e free manned published
    sends u signalling e h = absurd (ground (arith, sound.exclusive u (ap holds e), free))
    sends u idle e h = absurd (ground arith)
    sends u (locking s' ls') e h = absurd (ground arith)
    sends u (testing s' ls') e h = absurd (ground arith)
    sends u (scanning s' ls' left d) e h = absurd (ground arith)
    sends u (refused s' ls') e h = absurd (ground arith)
    sends u (sleeping s' ls') e h = absurd (ground arith)
    sends u (leaving s' ls' r) e h = absurd (ground arith)
    sends u signalled e h = absurd (ground arith)

-- The lock is free, and the thread waits for it or sleeps.
free-IsAnswered :
    (t s : ℕ) (ls : List ℕ) (σ : State)
    → (σ.threads t ≡ locking s ls) ⊎ (σ.threads t ≡ sleeping s ls)
    → σ.mutex ≡ none
    → IsSound σ
    → IsManned σ
    → (Behind σ.mem s ls → ⊥)
    → IsAnswered t s ls σ
free-IsAnswered t s ls σ (inl at) free sound manned published =
    locking-IsAnswered t s ls σ at free manned published
free-IsAnswered t s ls σ (inr at) free sound manned published =
    sleeping-IsAnswered t s ls σ at free sound manned published

woken-waits :
    (p q : Phase) (s : ℕ) (ls : List ℕ)
    → (p ≡ locking s ls) ⊎ (p ≡ sleeping s ls)
    → (q ≡ p) ⊎ (q ≡ wake p)
    → (q ≡ locking s ls) ⊎ (q ≡ sleeping s ls)
unfolding wake
woken-waits p q s ls (inl e) (inl same) = inl (same ∙ e)
woken-waits p q s ls (inl e) (inr woken) = inl (woken ∙ ap wake e)
woken-waits p q s ls (inr e) (inl same) = inr (same ∙ e)
woken-waits p q s ls (inr e) (inr woken) = inl (woken ∙ ap wake e)

-- Whoever has the lock.
outside-IsAnswered :
    (t s : ℕ) (ls : List ℕ) (σ : State) (mutex : Option ℕ)
    → σ.mutex ≡ mutex
    → (σ.threads t ≡ locking s ls) ⊎ (σ.threads t ≡ sleeping s ls)
    → IsSound σ
    → IsManned σ
    → (Behind σ.mem s ls → ⊥)
    → IsAnswered t s ls σ
outside-IsAnswered t s ls σ none free at sound manned published =
    free-IsAnswered t s ls σ at free sound manned published
outside-IsAnswered t s ls σ (some k) taken at sound manned published =
    let held = manned.holder k taken in
    let ne : t ≢ k = λ same. elim at [
      | inl e ↦
          let clash = sym (ap holds e) ∙ ap (λ j. holds (σ.threads j)) same ∙ held in ground arith
      | inr e ↦
          let clash = sym (ap holds e) ∙ ap (λ j. holds (σ.threads j)) same ∙ held in ground arith
    ] in
    let (τ, h) = holder-Releases k σ (σ.threads k) refl held manned in
    IsAnswered-Run t s ls h.run (
      free-IsAnswered t s ls τ (woken-waits (σ.threads t) (τ.threads t) s ls at (h.others t ne))
        h.free (Run-IsSound h.run sound) (Run-IsManned h.run manned) (rw h.same published))

refused-IsAnswered :
    (t s : ℕ) (ls : List ℕ) (σ : State)
    → σ.threads t ≡ refused s ls
    → IsSound σ
    → IsManned σ
    → (Behind σ.mem s ls → ⊥)
    → IsAnswered t s ls σ
refused-IsAnswered t s ls σ at sound manned published =
    let run = go (sleep t s ls at) tt stop in
    IsAnswered-Run t s ls run (
      sleeping-IsAnswered t s ls (record (moves σ t (sleeping s ls)) { mutex = none })
        (moves_self σ t (sleeping s ls)) refl (Run-IsSound run sound) (Run-IsManned run manned)
        published)

waiting-IsAnswered :
    (t s : ℕ) (ls : List ℕ) (σ : State)
    → IsWaiting (σ.threads t) s ls
    → IsSound σ
    → IsManned σ
    → (Behind σ.mem s ls → ⊥)
    → IsAnswered t s ls σ
waiting-IsAnswered t s ls σ (inl at) sound manned published =
    outside-IsAnswered t s ls σ σ.mutex refl (inl at) sound manned published
waiting-IsAnswered t s ls σ (inr (inl at)) sound manned published =
    testing-IsAnswered t s ls σ at manned published
waiting-IsAnswered t s ls σ (inr (inr (inl (left, d, at)))) sound manned published =
    elim (Bool-cases (is_neg d)) [
      | inr enough ↦
          scanning-IsAnswered t s ls left d σ at enough
            λ behind. published ((rw at at (sound.left t)) σ.mem behind)
      | inl behind ↦
          let run = go (refuse t s ls left d at behind) tt stop in
          IsAnswered-Run t s ls run (
            refused-IsAnswered t s ls (moves σ t (refused s ls)) (moves_self σ t (refused s ls))
              (Run-IsSound run sound) (Run-IsManned run manned) published)
    ]
waiting-IsAnswered t s ls σ (inr (inr (inr (inl at)))) sound manned published =
    refused-IsAnswered t s ls σ at sound manned published
waiting-IsAnswered t s ls σ (inr (inr (inr (inr at)))) sound manned published =
    outside-IsAnswered t s ls σ σ.mutex refl (inr at) sound manned published

-- In every state that the threads reach, if all atomics that a waiting thread waits for have
-- published its number, then the calls under way, with no further call, store or spurious wake-up,
-- can go on to where the thread is about to return.
pub Reachable-IsAnswered :
    (m : Memory) (σ : State) (t s : ℕ) (ls : List ℕ)
    → Reachable m σ
    → IsWaiting (σ.threads t) s ls
    → (Behind σ.mem s ls → ⊥)
    → IsAnswered t s ls σ
Reachable-IsAnswered m σ t s ls reachable waits published =
    waiting-IsAnswered t s ls σ waits (Reachable-IsSound m σ reachable)
      (Reachable-IsManned m σ reachable) published
