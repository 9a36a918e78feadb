-- ===== src/Tests/Blocked.antt =====
-- Two threads with a blocking wait strategy: one goes to sleep waiting for 3, the other stores 3.
use disruptorplus.Common.{ℕ, ◌-◌, ◌^◌, ◌≡◌, ◌⊎◌, refl, [], ◌∷◌, true, none, some, arith, inr}
use disruptorplus.Sequence.{difference}
use disruptorplus.Memory.{Memory, update}
use disruptorplus.BlockingWaitStrategy.{
  locking, testing, scanning, refused, sleeping, stored, State, moves, call, lock, scan_first,
  refuse, accept, sleep, store, leaving,
}
use disruptorplus.BlockingWaitStrategy.Signals.{holds, Pending, Reason}
use disruptorplus.BlockingWaitStrategy.Reachable.{
  blocking_wait_strategy, Reachable, initially, next, Reachable-signals,
}
use disruptorplus.BlockingWaitStrategy.Answering.{IsAnswered, Reachable-IsAnswered}
use disruptorplus.BlockingWaitStrategy.Found.{Advancing}
use disruptorplus.BlockingWaitStrategy.Awaiting.{Advances, at_first, onward, leaving-MayReturn}
use disruptorplus.WaitStrategy.{MayReturn}
use disruptorplus.Sequence.Distance.{IsAhead}

abbrev begin : Memory
begin = λ l. 2 ^ 64 - 1

abbrev called : State
called = moves (blocking_wait_strategy begin) 0 (locking 3 (1 ∷ []))

abbrev locked : State
locked = record (moves called 0 (testing 3 (1 ∷ []))) { mutex = some 0 }

abbrev scanned : State
scanned = moves locked 0 (scanning 3 (1 ∷ []) [] (difference (2 ^ 64 - 1) 3))

abbrev failed : State
failed = moves scanned 0 (refused 3 (1 ∷ []))

abbrev asleep : State
asleep = record (moves failed 0 (sleeping 3 (1 ∷ []))) { mutex = none }

abbrev published : State
published = record (moves asleep 1 stored) { mem = update begin 1 3 }

published-Reachable : Reachable begin published
unfolding difference
published-Reachable =
    next asleep published
      (next failed asleep
        (next scanned failed
          (next locked scanned
            (next called locked
              (next (blocking_wait_strategy begin) called initially (call 0 3 1 [] refl))
              (lock 0 3 (1 ∷ []) refl refl))
            (scan_first 0 3 1 [] refl))
          (refuse 0 3 (1 ∷ []) [] (difference (2 ^ 64 - 1) 3) refl refl))
        (sleep 0 3 (1 ∷ []) refl))
      (store 1 1 3 refl)

-- The second thread has still to signal.
Reachable-signals_example :
    ((t : ℕ) → Reason published.mem (published.threads t) ⊎ Pending published.threads)
    × ((j k : ℕ) → holds (published.threads j) ≡ true → holds (published.threads k) ≡ true → j ≡ k)
Reachable-signals_example = Reachable-signals begin published published-Reachable

Reachable-IsAnswered_example : IsAnswered 0 3 (1 ∷ []) published
unfolding difference
Reachable-IsAnswered_example =
    Reachable-IsAnswered begin published 0 3 (1 ∷ []) published-Reachable
      (inr (inr (inr (inr refl)))) λ behind. ground arith

-- All atomics stand at 5, and the first thread waits for 3.
abbrev five : Memory
five = λ l. 5

five-IsAhead : (l : ℕ) → IsAhead 0 (five l)
five-IsAhead l = record { small = omega arith; near = omega arith }

five-Advancing : Advancing 0 five five
five-Advancing l = (five-IsAhead l, omega arith)

five-Advances : Advances 0 five (
    moves
      (moves
        (record (moves
          (moves (blocking_wait_strategy five) 0 (locking 3 (1 ∷ [])))
          0
          (testing 3 (1 ∷ []))) { mutex = some 0 })
        0
        (scanning 3 (1 ∷ []) [] (difference 5 3)))
      0
      (leaving 3 (1 ∷ []) 5))
unfolding difference
five-Advances =
    onward
      (onward
        (onward (onward (at_first five-IsAhead) (call 0 3 1 [] refl) five-Advancing)
          (lock 0 3 (1 ∷ []) refl refl) five-Advancing)
        (scan_first 0 3 1 [] refl) five-Advancing)
      (accept 0 3 (1 ∷ []) (difference 5 3) refl refl) five-Advancing

leaving-MayReturn_example : MayReturn five 3 (1 ∷ []) 5
leaving-MayReturn_example =
    leaving-MayReturn 0 (omega arith) 0 3 (1 ∷ []) 5 five-Advances
      (record { small = omega arith; near = omega arith }) refl
