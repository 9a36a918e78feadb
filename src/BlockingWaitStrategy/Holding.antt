-- ===== src/BlockingWaitStrategy/Holding.antt =====
-- A lock that is taken is held by the thread it names, and no wait is for no atomics.
use disruptorplus.Common.{
  ℕ, ◌≡◌, ◌≢◌, refl, sym, ap, ◌∙◌, true, [], ◌∷◌, min_ℤ, Option, none, some, arith,
}
use disruptorplus.Sequence.{difference, to_unsigned, add_sequence}
use disruptorplus.Memory.{Memory}
use disruptorplus.BlockingWaitStrategy.{
  Phase, idle, locking, testing, scanning, refused, sleeping, leaving, stored, signalling,
  signalled, State, moves, wake, Step, call, lock, scan_first, scan_next, refuse, accept, sleep,
  wake_spuriously, leave, store, store_next, lock_signal, notify_all, unlock_signal,
}
use disruptorplus.BlockingWaitStrategy.Signals.{holds, at-moved, holds-wake}
use disruptorplus.BlockingWaitStrategy.Reachable.{Reachable, initially, next}

abbrev pub Full : Phase → Type 0
Full (locking s ls) = ls ≢ []
Full (testing s ls) = ls ≢ []
Full (scanning s ls left d) = ls ≢ []
Full (refused s ls) = ls ≢ []
Full (sleeping s ls) = ls ≢ []
Full (leaving s ls r) = Unit
Full idle = Unit
Full stored = Unit
Full signalling = Unit
Full signalled = Unit

pub record IsManned (σ : State) : Type 0 where
  pub holder : (k : ℕ) → σ.mutex ≡ some k → holds (σ.threads k) ≡ true
  pub full : (k : ℕ) → Full (σ.threads k)

Full-wake : (p : Phase) → Full p → Full (wake p)
unfolding wake
Full-wake (locking s ls) h = h
Full-wake (testing s ls) h = h
Full-wake (scanning s ls left d) h = h
Full-wake (refused s ls) h = h
Full-wake (sleeping s ls) h = h
Full-wake (leaving s ls r) h = tt
Full-wake idle h = tt
Full-wake stored h = tt
Full-wake signalling h = tt
Full-wake signalled h = tt

module _ (σ : State) (t : ℕ) (q : Phase) (manned : IsManned σ) (fills : Full q) where
  Full-moved : (k : ℕ) → Full ((moves σ t q).threads k)
  Full-moved = at-moved (λ k p. Full p) σ.threads t q fills (λ k ne. manned.full k)

  -- The thread keeps the lock, or keeps out of it.
  keeps-IsManned : holds q ≡ holds (σ.threads t) → IsManned (moves σ t q)
  keeps-IsManned same = record {
    holder =
        at-moved (λ k p. σ.mutex ≡ some k → holds p ≡ true) σ.threads t q
          (λ h. same ∙ manned.holder t h) (λ k ne. manned.holder k);
    full = Full-moved;
  }

  takes-IsManned : holds q ≡ true → IsManned (record (moves σ t q) { mutex = some t })
  takes-IsManned held = record {
    holder =
        at-moved (λ k p. ◌≡◌ {A = Option ℕ} (some t) (some k) → holds p ≡ true) σ.threads t q
          (λ h. held) (λ k ne h. absurd (ground (arith, h, ne)));
    full = Full-moved;
  }

  drops-IsManned : IsManned (record (moves σ t q) { mutex = none })
  drops-IsManned = record { holder = λ k h. absurd (ground (arith, h)); full = Full-moved }

pub Step-IsManned : {σ τ : State} → Step σ τ → IsManned σ → IsManned τ
Step-IsManned {σ} (call t s l ls at) h =
    keeps-IsManned σ t (locking s (l ∷ ls)) h (λ e. ground arith) (sym (ap holds at))
Step-IsManned {σ} (lock t s ls at free) h =
    takes-IsManned σ t (testing s ls) h (rw at at (h.full t)) refl
Step-IsManned {σ} (scan_first t s l ls at) h =
    keeps-IsManned σ t (scanning s (l ∷ ls) ls (difference (σ.mem l) s)) h (rw at at (h.full t))
      (sym (ap holds at))
Step-IsManned {σ} (scan_next t s l ls left d at enough) h =
    keeps-IsManned σ t (scanning s ls left (min_ℤ d (difference (σ.mem l) s))) h
      (rw at at (h.full t)) (sym (ap holds at))
Step-IsManned {σ} (refuse t s ls left d at behind) h =
    keeps-IsManned σ t (refused s ls) h (rw at at (h.full t)) (sym (ap holds at))
Step-IsManned {σ} (accept t s ls d at enough) h =
    keeps-IsManned σ t (leaving s ls (add_sequence (to_unsigned d) s)) h tt (sym (ap holds at))
Step-IsManned {σ} (sleep t s ls at) h = drops-IsManned σ t (sleeping s ls) h (rw at at (h.full t))
Step-IsManned {σ} (wake_spuriously t s ls at) h =
    keeps-IsManned σ t (locking s ls) h (rw at at (h.full t)) (sym (ap holds at))
Step-IsManned {σ} (leave t s ls r at) h = drops-IsManned σ t idle h tt
Step-IsManned {σ} (store t l v at) h =
    let kept = keeps-IsManned σ t stored h tt (sym (ap holds at)) in
    record { holder = kept.holder; full = kept.full }
Step-IsManned {σ} (store_next t l v at) h = record { holder = h.holder; full = h.full }
Step-IsManned {σ} (lock_signal t at free) h = takes-IsManned σ t signalling h tt refl
Step-IsManned {σ} (notify_all t at) h = record {
  holder =
      at-moved (λ k p. σ.mutex ≡ some k → holds p ≡ true) (λ k. wake (σ.threads k)) t signalled
        (λ e. refl) (λ k ne e. holds-wake (σ.threads k) ∙ h.holder k e);
  full =
      at-moved (λ k p. Full p) (λ k. wake (σ.threads k)) t signalled tt
        (λ k ne. Full-wake (σ.threads k) (h.full k));
}
Step-IsManned {σ} (unlock_signal t at) h = drops-IsManned σ t idle h tt

pub Reachable-IsManned : (m : Memory) (σ : State) → Reachable m σ → IsManned σ
Reachable-IsManned m _ initially = record {
  holder = λ k h. absurd (ground (arith, h));
  full = λ k. tt;
}
Reachable-IsManned m _ (next σ τ before step) = Step-IsManned step (Reachable-IsManned m σ before)
