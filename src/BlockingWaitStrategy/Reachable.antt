-- ===== src/BlockingWaitStrategy/Reachable.antt =====
-- Every step keeps what Signals states of the threads, and so it holds in every reachable state.
use disruptorplus.Common.{
  ℕ, ◌≡◌, ◌⊎◌, refl, ap, sym, ◌∙◌, inl, inr, true, if◌then◌else◌, ◌==◌, Bool-cases, ◌∷◌, min_ℤ,
  Option, none, some, arith,
}
use disruptorplus.Sequence.{difference}
use disruptorplus.Memory.{Memory, update}
use disruptorplus.BlockingWaitStrategy.{
  idle, locking, testing, scanning, refused, sleeping, leaving, stored, signalling, signalled,
  State, moves, wake, Step, call, lock, scan_first, scan_next, refuse, accept, sleep,
  wake_spuriously, leave, store, store_next, lock_signal, notify_all, unlock_signal,
}
use disruptorplus.BlockingWaitStrategy.Signals.{
  holds, is_pending, Pending, Reason, Left, IsSound, at-moved, moved-IsSound, keeps_lock,
  takes_lock, drops_lock, holds-wake, Left-wake, Reason-wake,
}

-- A store leaves a signal to be sent.
store-IsSound :
    (σ : State) (t l v : ℕ)
    → IsSound σ
    → σ.threads t ≡ idle
    → IsSound (record (moves σ t stored) { mem = update σ.mem l v })
store-IsSound σ t l v sound at = record {
  exclusive = keeps_lock σ t stored sound (sym (ap holds at));
  left = at-moved (λ k p. Left p) σ.threads t stored tt (λ k ne. sound.left k);
  reason = λ k. inr (t, let here : (t == t) ≡ true = ground arith in rw here refl);
}

-- A signal wakes all that are blocked, and no other thread holds the lock.
notify-IsSound :
    (σ : State) (t : ℕ)
    → IsSound σ
    → σ.threads t ≡ signalling
    → IsSound (record σ { threads = λ k. if k == t then signalled else wake (σ.threads k) })
notify-IsSound σ t sound at =
    let mine = sound.exclusive t (ap holds at) in
    record {
      exclusive =
          at-moved (λ k p. holds p ≡ true → σ.mutex ≡ some k) (λ k. wake (σ.threads k)) t signalled
            (λ h. mine) (λ k ne h. sound.exclusive k (sym (holds-wake (σ.threads k)) ∙ h));
      left =
          at-moved (λ k p. Left p) (λ k. wake (σ.threads k)) t signalled tt
            (λ k ne. Left-wake (σ.threads k) (sound.left k));
      reason = λ k. inl (
          at-moved (λ k p. Reason σ.mem p) (λ k. wake (σ.threads k)) t signalled tt
            (λ k ne. elim (Bool-cases (holds (σ.threads k))) [
              | inl held ↦ absurd (ground (arith, sym (sound.exclusive k held) ∙ mine, ne))
              | inr not_held ↦ Reason-wake σ.mem (σ.threads k) not_held
            ])
            k);
    }

pub Step-IsSound : (σ τ : State) → Step σ τ → IsSound σ → IsSound τ
Step-IsSound σ _ (call t s l ls at) sound =
    moved-IsSound σ t (locking s (l ∷ ls)) σ.mutex sound (inl (ap is_pending at)) tt (inl tt)
      (keeps_lock σ t (locking s (l ∷ ls)) sound (sym (ap holds at)))
Step-IsSound σ _ (lock t s ls at free) sound =
    moved-IsSound σ t (testing s ls) (some t) sound (inl (ap is_pending at)) tt (inl tt)
      (takes_lock σ t (testing s ls) sound free)
Step-IsSound σ _ (scan_first t s l ls at) sound =
    moved-IsSound σ t (scanning s (l ∷ ls) ls (difference (σ.mem l) s)) σ.mutex sound
      (inl (ap is_pending at)) (λ m h. inr h) (inl (λ e. inl e))
      (keeps_lock σ t (scanning s (l ∷ ls) ls (difference (σ.mem l) s)) sound (sym (ap holds at)))
Step-IsSound σ _ (scan_next t s l ls left d at enough) sound =
    let among = rw at at (sound.left t) in
    moved-IsSound σ t (scanning s ls left (min_ℤ d (difference (σ.mem l) s))) σ.mutex sound
      (inl (ap is_pending at)) (λ m h. among m (inr h))
      (inl (λ e. among σ.mem (inl (ground arith))))
      (keeps_lock σ t (scanning s ls left (min_ℤ d (difference (σ.mem l) s))) sound
        (sym (ap holds at)))
Step-IsSound σ _ (refuse t s ls left d at behind) sound =
    moved-IsSound σ t (refused s ls) σ.mutex sound (inl (ap is_pending at)) tt
      (elim (rw at at (sound.reason t)) [ inl why ↦ inl (why behind) | inr pending ↦ inr pending ])
      (keeps_lock σ t (refused s ls) sound (sym (ap holds at)))
Step-IsSound σ _ (accept t s ls d at enough) sound =
    moved-IsSound σ t (leaving s ls _) σ.mutex sound (inl (ap is_pending at)) tt (inl tt)
      (keeps_lock σ t (leaving s ls _) sound (sym (ap holds at)))
Step-IsSound σ _ (sleep t s ls at) sound =
    moved-IsSound σ t (sleeping s ls) none sound (inl (ap is_pending at)) tt
      (rw at at (sound.reason t)) (drops_lock σ t (sleeping s ls) sound (ap holds at) refl)
Step-IsSound σ _ (wake_spuriously t s ls at) sound =
    moved-IsSound σ t (locking s ls) σ.mutex sound (inl (ap is_pending at)) tt (inl tt)
      (keeps_lock σ t (locking s ls) sound (sym (ap holds at)))
Step-IsSound σ _ (leave t s ls r at) sound =
    moved-IsSound σ t idle none sound (inl (ap is_pending at)) tt (inl tt)
      (drops_lock σ t idle sound (ap holds at) refl)
Step-IsSound σ _ (store t l v at) sound = store-IsSound σ t l v sound at
Step-IsSound σ _ (store_next t l v at) sound = record {
  exclusive = sound.exclusive;
  left = sound.left;
  reason = λ k. inr (t, ap is_pending at);
}
Step-IsSound σ _ (lock_signal t at free) sound =
    moved-IsSound σ t signalling (some t) sound (inr refl) tt (inl tt)
      (takes_lock σ t signalling sound free)
Step-IsSound σ _ (notify_all t at) sound = notify-IsSound σ t sound at
Step-IsSound σ _ (unlock_signal t at) sound =
    moved-IsSound σ t idle none sound (inl (ap is_pending at)) tt (inl tt)
      (drops_lock σ t idle sound (ap holds at) refl)

-- What the constructor leaves: no thread is in any of the functions.
abbrev pub blocking_wait_strategy : Memory → State
blocking_wait_strategy m = record { mutex = none; threads = λ k. idle; mem = m }

pub data Reachable (m : Memory) : State → Type 0 where
  initially : Reachable m (blocking_wait_strategy m)
  next : (σ τ : State) → Reachable m σ → Step σ τ → Reachable m τ

pub Reachable-IsSound : (m : Memory) (σ : State) → Reachable m σ → IsSound σ
Reachable-IsSound m _ initially = record {
  exclusive = λ k h. absurd (ground arith);
  left = λ k. tt;
  reason = λ k. inl tt;
}
Reachable-IsSound m _ (next σ τ before step) = Step-IsSound σ τ step (Reachable-IsSound m σ before)

-- In every state that the threads reach, each thread that is blocked or is going to block has an
-- atomic that is behind the number it waits for, unless some thread has stored a number and has not
-- yet notified; and the lock is held by one thread at most.
pub Reachable-signals :
    (m : Memory) (σ : State)
    → Reachable m σ
    → ((t : ℕ) → Reason σ.mem (σ.threads t) ⊎ Pending σ.threads)
      × ((j k : ℕ) → holds (σ.threads j) ≡ true → holds (σ.threads k) ≡ true → j ≡ k)
Reachable-signals m σ reachable =
    let sound = Reachable-IsSound m σ reachable in
    (
      sound.reason,
      λ j k hj hk.
          let one = sound.exclusive j hj in
          let two = sound.exclusive k hk in
          let same : ◌≡◌ {A = Option ℕ} (some j) (some k) = sym one ∙ two in ground arith,
    )
