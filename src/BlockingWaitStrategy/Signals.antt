-- ===== src/BlockingWaitStrategy/Signals.antt =====
-- No wake-up is lost: a thread is blocked only while an atomic that it waits for is behind, or
-- while a signal is still to be sent.
use disruptorplus.Common.{
  ℕ, ◌≡◌, ◌≢◌, refl, sym, ◌∙◌, ◌⊎◌, inl, inr, Bool, true, false, if◌then◌else◌, ◌==◌, Bool-cases,
  List, [], ◌∷◌, is_neg, Option, none, some, arith,
}
use disruptorplus.Sequence.{difference}
use disruptorplus.Memory.{Memory}
use disruptorplus.BlockingWaitStrategy.{
  Phase, idle, locking, testing, scanning, refused, sleeping, leaving, stored, signalling,
  signalled, State, moves, wake,
}

-- Which phases hold the lock.
abbrev pub holds : Phase → Bool
holds (testing s ls) = true
holds (scanning s ls left d) = true
holds (refused s ls) = true
holds (leaving s ls r) = true
holds signalling = true
holds signalled = true
holds idle = false
holds (locking s ls) = false
holds (sleeping s ls) = false
holds stored = false

-- Which phases have a signal still to send.
abbrev pub is_pending : Phase → Bool
is_pending stored = true
is_pending signalling = true
is_pending idle = false
is_pending (locking s ls) = false
is_pending (testing s ls) = false
is_pending (scanning s ls left d) = false
is_pending (refused s ls) = false
is_pending (sleeping s ls) = false
is_pending (leaving s ls r) = false
is_pending signalled = false

abbrev pub Pending : (ℕ → Phase) → Type 0
Pending threads = (u : ℕ) × (is_pending (threads u) ≡ true)

-- One of the atomics is behind `s`.
abbrev pub Behind : Memory → ℕ → List ℕ → Type 0
Behind m s [] = ⊥
Behind m s (l ∷ ls) = (is_neg (difference (m l) s) ≡ true) ⊎ Behind m s ls

-- Why a thread blocks, or is going to.
abbrev pub Reason : Memory → Phase → Type 0
Reason m (scanning s ls left d) = is_neg d ≡ true → Behind m s ls
Reason m (refused s ls) = Behind m s ls
Reason m (sleeping s ls) = Behind m s ls
Reason m idle = Unit
Reason m (locking s ls) = Unit
Reason m (testing s ls) = Unit
Reason m (leaving s ls r) = Unit
Reason m stored = Unit
Reason m signalling = Unit
Reason m signalled = Unit

-- The atomics left to scan are among those waited for.
abbrev pub Left : Phase → Type 0
Left (scanning s ls left d) = (m : Memory) → Behind m s left → Behind m s ls
Left idle = Unit
Left (locking s ls) = Unit
Left (testing s ls) = Unit
Left (refused s ls) = Unit
Left (sleeping s ls) = Unit
Left (leaving s ls r) = Unit
Left stored = Unit
Left signalling = Unit
Left signalled = Unit

pub record IsSound (σ : State) : Type 0 where
  pub exclusive : (k : ℕ) → holds (σ.threads k) ≡ true → σ.mutex ≡ some k
  pub left : (k : ℕ) → Left (σ.threads k)
  pub reason : (k : ℕ) → Reason σ.mem (σ.threads k) ⊎ Pending σ.threads

-- A property of all threads, where one has moved on.
pub at-moved :
    (P : ℕ → Phase → Type 0) (f : ℕ → Phase) (t : ℕ) (q : Phase)
    → P t q
    → ((k : ℕ) → k ≢ t → P k (f k))
    → (k : ℕ) → P k (if k == t then q else f k)
at-moved P f t q here there k = elim (Bool-cases (k == t)) [
  | inl e ↦ let same : t ≡ k = ground arith in rw e (rw same at here)
  | inr e ↦ rw e (there k (λ same. ground arith))
]

Pending-moved :
    (f : ℕ → Phase) (t : ℕ) (q : Phase)
    → (is_pending (f t) ≡ false) ⊎ (is_pending q ≡ true)
    → Pending f
    → Pending (λ k. if k == t then q else f k)
Pending-moved f t q quiet (u, h) = elim (Bool-cases (u == t)) [
  | inl e ↦ (
    t,
    let here : (t == t) ≡ true = ground arith in
        let same : u ≡ t = ground arith in
        rw here
          (elim quiet [ inl none_yet ↦ absurd (ground (arith, rw same at h)) | inr still ↦ still ]),
  )
  | inr e ↦ (u, rw e h)
]

-- One thread moves on, and the lock is perhaps taken or released.
pub moved-IsSound :
    (σ : State) (t : ℕ) (q : Phase) (mutex : Option ℕ)
    → IsSound σ
    → (is_pending (σ.threads t) ≡ false) ⊎ (is_pending q ≡ true)
    → Left q
    → Reason σ.mem q ⊎ Pending σ.threads
    → ((k : ℕ) → holds ((moves σ t q).threads k) ≡ true → mutex ≡ some k)
    → IsSound (record (moves σ t q) { mutex = mutex })
moved-IsSound σ t q mutex sound quiet left reason exclusive = record {
  exclusive = exclusive;
  left = at-moved (λ k p. Left p) σ.threads t q left (λ k ne. sound.left k);
  reason =
      at-moved (λ k p. Reason σ.mem p ⊎ Pending (moves σ t q).threads) σ.threads t q
        (again q reason) (λ k ne. again (σ.threads k) (sound.reason k));
}
  where
    again :
        (p : Phase)
        → Reason σ.mem p ⊎ Pending σ.threads
        → Reason σ.mem p ⊎ Pending (moves σ t q).threads
    again p (inl h) = inl h
    again p (inr h) = inr (Pending-moved σ.threads t q quiet h)

-- The lock stays where it is.
pub keeps_lock :
    (σ : State) (t : ℕ) (q : Phase)
    → IsSound σ
    → holds q ≡ holds (σ.threads t)
    → (k : ℕ) → holds ((moves σ t q).threads k) ≡ true
    → σ.mutex ≡ some k
keeps_lock σ t q sound same =
    at-moved (λ k p. holds p ≡ true → σ.mutex ≡ some k) σ.threads t q
      (λ h. sound.exclusive t (sym same ∙ h)) (λ k ne. sound.exclusive k)

-- A free lock is held by no thread, so that it can be taken.
pub takes_lock :
    (σ : State) (t : ℕ) (q : Phase)
    → IsSound σ
    → σ.mutex ≡ none
    → (k : ℕ) → holds ((moves σ t q).threads k) ≡ true
    → ◌≡◌ {A = Option ℕ} (some t) (some k)
takes_lock σ t q sound free =
    at-moved (λ k p. holds p ≡ true → ◌≡◌ {A = Option ℕ} (some t) (some k)) σ.threads t q
      (λ h. refl)
      (λ k ne h. let taken = sound.exclusive k h in absurd (ground (arith, taken, free)))

-- The thread that holds the lock is the only one, so that after its release none does.
pub drops_lock :
    (σ : State) (t : ℕ) (q : Phase)
    → IsSound σ
    → holds (σ.threads t) ≡ true
    → holds q ≡ false
    → (k : ℕ) → holds ((moves σ t q).threads k) ≡ true
    → ◌≡◌ {A = Option ℕ} none (some k)
drops_lock σ t q sound held free =
    at-moved (λ k p. holds p ≡ true → ◌≡◌ {A = Option ℕ} none (some k)) σ.threads t q
      (λ h. absurd (ground (arith, sym free ∙ h)))
      (λ k ne h.
        let mine = sound.exclusive t held in
        let theirs = sound.exclusive k h in absurd (ground (arith, sym theirs ∙ mine, ne)))

pub holds-wake : (p : Phase) → holds (wake p) ≡ holds p
unfolding wake
holds-wake idle = refl
holds-wake (locking s ls) = refl
holds-wake (testing s ls) = refl
holds-wake (scanning s ls left d) = refl
holds-wake (refused s ls) = refl
holds-wake (sleeping s ls) = refl
holds-wake (leaving s ls r) = refl
holds-wake stored = refl
holds-wake signalling = refl
holds-wake signalled = refl

pub Left-wake : (p : Phase) → Left p → Left (wake p)
unfolding wake
Left-wake idle h = tt
Left-wake (locking s ls) h = tt
Left-wake (testing s ls) h = tt
Left-wake (scanning s ls left d) h = h
Left-wake (refused s ls) h = tt
Left-wake (sleeping s ls) h = tt
Left-wake (leaving s ls r) h = tt
Left-wake stored h = tt
Left-wake signalling h = tt
Left-wake signalled h = tt

-- A thread that does not hold the lock has no reason to block once it is woken.
pub Reason-wake : (m : Memory) (p : Phase) → holds p ≡ false → Reason m (wake p)
unfolding wake
Reason-wake m idle h = tt
Reason-wake m (locking s ls) h = tt
Reason-wake m (testing s ls) h = tt
Reason-wake m (scanning s ls left d) h = absurd (ground arith)
Reason-wake m (refused s ls) h = absurd (ground arith)
Reason-wake m (sleeping s ls) h = tt
Reason-wake m (leaving s ls r) h = tt
Reason-wake m stored h = tt
Reason-wake m signalling h = tt
Reason-wake m signalled h = tt
