-- ===== src/BlockingWaitStrategy/Awaiting.antt =====
-- What a wait on the condition variable returns, where the sequence numbers only advance.
use mathlib.Core.List.{Memᴰ}
use mathlib.Core.List.Memᴰ
use disruptorplus.Common.{
  ℕ, ◌^◌, ◌≤◌, ◌<◌, ◌≡◌, refl, inl, inr, List, [], ◌∷◌, All, ℤ, is_neg, min_ℤ, false, arith,
}
use disruptorplus.Sequence.{difference, add_sequence, to_unsigned}
use disruptorplus.Sequence.Distance.{distance, IsAhead, difference-eq-sub}
use disruptorplus.Memory.{Memory, update}
use disruptorplus.WaitStrategy.{MayReturn}
use disruptorplus.BlockingWaitStrategy.{
  Phase, idle, locking, testing, scanning, refused, sleeping, leaving, stored, signalling,
  signalled, State, moves, wake, Step, call, lock, scan_first, scan_next, refuse, accept, sleep,
  wake_spuriously, leave, store, store_next, lock_signal, notify_all, unlock_signal,
}
use disruptorplus.BlockingWaitStrategy.Found.{
  Advancing, Found, Found-Advancing, Found-wake, lower, from_difference,
}
use disruptorplus.BlockingWaitStrategy.Signals.{at-moved}
use disruptorplus.BlockingWaitStrategy.Reachable.{blocking_wait_strategy}

module _ (base : ℕ) where
  -- The states that are reached by steps of which each store moves a number on.
  pub data Advances (m : Memory) : State → Type 0 where
    at_first : ((l : ℕ) → IsAhead base (m l)) → Advances m (blocking_wait_strategy m)
    onward : {σ τ : State} → Advances m σ → Step σ τ → Advancing base σ.mem τ.mem → Advances m τ

  module _ (small : base < 2 ^ 64) where
    -- One thread has moved on, and the memory is perhaps further on.
    moved-Found :
        (σ : State) (m : Memory) (t : ℕ) (q : Phase)
        → Advancing base σ.mem m
        → ((k : ℕ) → Found base σ.mem (σ.threads k))
        → Found base m q
        → (k : ℕ) → Found base m ((moves σ t q).threads k)
    moved-Found σ m t q on found here =
        at-moved (λ k p. Found base m p) σ.threads t q here
          (λ k ne. Found-Advancing base σ.mem m on (σ.threads k) (found k))

    next-Found :
        (σ : State) (t s l : ℕ) (ls left : List ℕ) (d : ℤ)
        → IsAhead base (σ.mem l)
        → Found base σ.mem (scanning s ls (l ∷ left) d)
        → Found base σ.mem (scanning s ls left (min_ℤ d (difference (σ.mem l) s)))
    next-Found σ t s l ls left d hl h hs =
        let (r, hr, e, seen) = h hs in
        let (y, hy, least, left_le, right_le) = lower base small s r (σ.mem l) hs hr hl in
        (
          y,
          hy,
          rw e least,
          λ k n. elim (seen k n) [
            | inr passed ↦ inr (omega (arith, passed, left_le))
            | inl (Memᴰ.head same) ↦ inr (rw same right_le)
            | inl (Memᴰ.tail more) ↦ inl more
          ],
        )

    first-Found :
        (σ : State) (s l : ℕ) (ls : List ℕ)
        → IsAhead base (σ.mem l)
        → Found base σ.mem (scanning s (l ∷ ls) ls (difference (σ.mem l) s))
    first-Found σ s l ls hl hs = (
      σ.mem l,
      hl,
      refl,
      λ k n. elim n [ Memᴰ.head same ↦ inr (rw same (omega arith)) | Memᴰ.tail more ↦ inl more ],
    )

    accept-Found :
        (σ : State) (s : ℕ) (ls : List ℕ) (d : ℤ)
        → is_neg d ≡ false
        → Found base σ.mem (scanning s ls [] d)
        → Found base σ.mem (leaving s ls (add_sequence (to_unsigned d) s))
    accept-Found σ s ls d enough h hs =
        let (r, hr, e, seen) = h hs in
        let (same, from) = from_difference base small s r hs hr (rw e at enough) in
        rw (e, same)
          (
            hr,
            from,
            λ l n. elim (seen l n) [
              | inl none_left ↦ absurd (Memᴰ.not-nil none_left)
              | inr passed ↦ passed
            ],
          )

    Step-Found :
        {σ τ : State}
        → Step σ τ
        → Advancing base σ.mem τ.mem
        → ((l : ℕ) → IsAhead base (σ.mem l))
        → ((k : ℕ) → Found base σ.mem (σ.threads k))
        → (k : ℕ) → Found base τ.mem (τ.threads k)
    Step-Found {σ} (call t s l ls at) on ahead found =
        moved-Found σ σ.mem t (locking s (l ∷ ls)) on found tt
    Step-Found {σ} (lock t s ls at free) on ahead found =
        moved-Found σ σ.mem t (testing s ls) on found tt
    Step-Found {σ} (scan_first t s l ls at) on ahead found =
        moved-Found σ σ.mem t (scanning s (l ∷ ls) ls (difference (σ.mem l) s)) on found
          (first-Found σ s l ls (ahead l))
    Step-Found {σ} (scan_next t s l ls left d at enough) on ahead found =
        moved-Found σ σ.mem t (scanning s ls left (min_ℤ d (difference (σ.mem l) s))) on found
          (next-Found σ t s l ls left d (ahead l) (rw at at (found t)))
    Step-Found {σ} (refuse t s ls left d at behind) on ahead found =
        moved-Found σ σ.mem t (refused s ls) on found tt
    Step-Found {σ} (accept t s ls d at enough) on ahead found =
        moved-Found σ σ.mem t (leaving s ls (add_sequence (to_unsigned d) s)) on found
          (accept-Found σ s ls d enough (rw at at (found t)))
    Step-Found {σ} (sleep t s ls at) on ahead found =
        moved-Found σ σ.mem t (sleeping s ls) on found tt
    Step-Found {σ} (wake_spuriously t s ls at) on ahead found =
        moved-Found σ σ.mem t (locking s ls) on found tt
    Step-Found {σ} (leave t s ls r at) on ahead found = moved-Found σ σ.mem t idle on found tt
    Step-Found {σ} (store t l v at) on ahead found =
        moved-Found σ (update σ.mem l v) t stored on found tt
    Step-Found {σ} (store_next t l v at) on ahead found =
        λ k. Found-Advancing base σ.mem (update σ.mem l v) on (σ.threads k) (found k)
    Step-Found {σ} (lock_signal t at free) on ahead found =
        moved-Found σ σ.mem t signalling on found tt
    Step-Found {σ} (notify_all t at) on ahead found =
        at-moved (λ k p. Found base σ.mem p) (λ k. wake (σ.threads k)) t signalled tt
          (λ k ne. Found-wake base σ.mem (σ.threads k) (found k))
    Step-Found {σ} (unlock_signal t at) on ahead found = moved-Found σ σ.mem t idle on found tt

    Advances-Found :
        {m : Memory} {σ : State}
        → Advances m σ
        → ((l : ℕ) → IsAhead base (σ.mem l)) × ((k : ℕ) → Found base σ.mem (σ.threads k))
    Advances-Found (at_first ahead) = (ahead, λ k. tt)
    Advances-Found (onward before s on) =
        let (ahead, found) = Advances-Found before in (λ l. (on l).0, Step-Found s on ahead found)

    passed-MayReturn :
        (m : Memory) (r : ℕ)
        → ((l : ℕ) → IsAhead base (m l))
        → IsAhead base r
        → (ls : List ℕ) → ((l : ℕ) → Memᴰ l ls → distance base r ≤ distance base (m l))
        → All (λ l. is_neg (difference (m l) r) ≡ false) ls
    passed-MayReturn m r ahead hr [] h = tt
    passed-MayReturn m r ahead hr (l ∷ ls) h = (
      ground (arith, difference-eq-sub base (m l) r small (ahead l) hr, h l (Memᴰ.head refl)),
      passed-MayReturn m r ahead hr ls λ k n. h k (Memᴰ.tail n),
    )

    -- Where stores only move sequence numbers on, and none comes further than 2 ^ 62 from a base
    -- behind them all, a thread that is about to return from a wait for a number ahead of the base
    -- returns one that is not before it, and that no atomic waited for is behind.
    pub leaving-MayReturn :
        {m : Memory} {σ : State} (t s : ℕ) (ls : List ℕ) (r : ℕ)
        → Advances m σ
        → IsAhead base s
        → σ.threads t ≡ leaving s ls r
        → MayReturn σ.mem s ls r
    leaving-MayReturn {m} {σ} t s ls r before hs at =
        let (ahead, found) = Advances-Found before in
        let (hr, from, passed) = (rw at at (found t)) hs in
        (
          hr.small,
          ground (arith, difference-eq-sub base r s small hr hs, from),
          passed-MayReturn σ.mem r ahead hr ls passed,
        )
