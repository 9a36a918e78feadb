-- ===== src/BlockingWaitStrategy.antt =====
-- include/disruptorplus/blocking_wait_strategy.hpp: waiting on a condition variable. The mutex, the
-- condition variable and the threads that wait, publish and signal are one state, and every atomic
-- access or call of one of them a step.
pub mod Signals
pub mod Reachable
pub mod Found
pub mod Awaiting
pub mod Holding
pub mod Serving
pub mod Answering
use disruptorplus.Common.{
  ℕ, ◌≡◌, true, false, if◌then◌else◌, ◌==◌, List, [], ◌∷◌, ℤ, is_neg, min_ℤ, Option, none, some,
}
use disruptorplus.Sequence.{difference, to_unsigned, add_sequence}
use disruptorplus.Memory.{Memory, update}

-- Where a thread stands: outside; in `wait_until_published`, from the call to the return; or
-- between the store of a sequence number and the end of `signal_all_when_blocking`.
pub data Phase : Type 0 where
  idle : Phase
  -- About to take the lock, at the beginning or after a wake-up.
  locking : (sequence : ℕ) (sequences : List ℕ) → Phase
  -- Holding the lock, about to evaluate the predicate.
  testing : (sequence : ℕ) (sequences : List ℕ) → Phase
  -- In the loop of `minimum_sequence_after`, with the atomics that are left and the least
  -- difference.
  scanning : (sequence : ℕ) (sequences : List ℕ) (left : List ℕ) (delta : ℤ) → Phase
  -- The predicate was false.
  refused : (sequence : ℕ) (sequences : List ℕ) → Phase
  -- Blocked on the condition variable, without the lock.
  sleeping : (sequence : ℕ) (sequences : List ℕ) → Phase
  -- The predicate was true, and the lock is still held.
  leaving : (sequence : ℕ) (sequences : List ℕ) (result : ℕ) → Phase
  -- One number or more are stored, and the lock for the signal is not yet taken.
  stored : Phase
  -- Holding the lock, before and after `notify_all`.
  signalling : Phase
  signalled : Phase

pub record State : Type 0 where
  pub mutex : Option ℕ
  pub threads : ℕ → Phase
  pub mem : Memory

abbrev pub moves : State → ℕ → Phase → State
moves σ t p = record σ { threads = λ k. if k == t then p else σ.threads k }

-- `notify_all`: every blocked thread goes on to take the lock.
unfoldable pub wake : Phase → Phase
wake (sleeping s ls) = locking s ls
wake idle = idle
wake (locking s ls) = locking s ls
wake (testing s ls) = testing s ls
wake (scanning s ls left d) = scanning s ls left d
wake (refused s ls) = refused s ls
wake (leaving s ls r) = leaving s ls r
wake stored = stored
wake signalling = signalling
wake signalled = signalled

-- The steps of all threads. A call with an array of no atomics fails the `assert`, and is no step.
-- Any number may be stored in any atomic, by a thread that may store more and then signals, as
-- `publish` of the barriers and of the claim strategies does, of a range too that is not empty.
pub data Step (σ : State) : State → Type 0 where
  call : (t s l : ℕ) (ls : List ℕ) → σ.threads t ≡ idle → Step σ (moves σ t (locking s (l ∷ ls)))
  lock :
      (t s : ℕ) (ls : List ℕ)
      → σ.threads t ≡ locking s ls
      → σ.mutex ≡ none
      → Step σ (record (moves σ t (testing s ls)) { mutex = some t })
  scan_first :
      (t s l : ℕ) (ls : List ℕ)
      → σ.threads t ≡ testing s (l ∷ ls)
      → Step σ (moves σ t (scanning s (l ∷ ls) ls (difference (σ.mem l) s)))
  scan_next :
      (t s l : ℕ) (ls left : List ℕ) (d : ℤ)
      → σ.threads t ≡ scanning s ls (l ∷ left) d
      → is_neg d ≡ false
      → Step σ (moves σ t (scanning s ls left (min_ℤ d (difference (σ.mem l) s))))
  refuse :
      (t s : ℕ) (ls left : List ℕ) (d : ℤ)
      → σ.threads t ≡ scanning s ls left d
      → is_neg d ≡ true
      → Step σ (moves σ t (refused s ls))
  accept :
      (t s : ℕ) (ls : List ℕ) (d : ℤ)
      → σ.threads t ≡ scanning s ls [] d
      → is_neg d ≡ false
      → Step σ (moves σ t (leaving s ls (add_sequence (to_unsigned d) s)))
  -- The lock is released and the thread blocks in one step.
  sleep :
      (t s : ℕ) (ls : List ℕ)
      → σ.threads t ≡ refused s ls
      → Step σ (record (moves σ t (sleeping s ls)) { mutex = none })
  wake_spuriously :
      (t s : ℕ) (ls : List ℕ) → σ.threads t ≡ sleeping s ls → Step σ (moves σ t (locking s ls))
  leave :
      (t s : ℕ) (ls : List ℕ) (r : ℕ)
      → σ.threads t ≡ leaving s ls r
      → Step σ (record (moves σ t idle) { mutex = none })
  store :
      (t l v : ℕ)
      → σ.threads t ≡ idle
      → Step σ (record (moves σ t stored) { mem = update σ.mem l v })
  store_next : (t l v : ℕ) → σ.threads t ≡ stored → Step σ (record σ { mem = update σ.mem l v })
  lock_signal :
      (t : ℕ)
      → σ.threads t ≡ stored
      → σ.mutex ≡ none
      → Step σ (record (moves σ t signalling) { mutex = some t })
  notify_all :
      (t : ℕ)
      → σ.threads t ≡ signalling
      → Step σ (record σ { threads = λ k. if k == t then signalled else wake (σ.threads k) })
  unlock_signal :
      (t : ℕ) → σ.threads t ≡ signalled → Step σ (record (moves σ t idle) { mutex = none })
