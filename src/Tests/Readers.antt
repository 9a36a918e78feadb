-- ===== src/Tests/Readers.antt =====
-- A reader of what several writers publish, in the scene where all entries reach 3.
use disruptorplus.Common.{ℕ, ◌-◌, ◌^◌, ◌<◌, ◌≤◌, ◌≡◌, [], ◌∷◌, arith}
use disruptorplus.Sequence.Distance.{distance}
use disruptorplus.WaitStrategy.{Partly, Totally}
use disruptorplus.WaitStrategy.Promise.{ArrivesBy}
use disruptorplus.SpinWaitStrategy.{spin_wait_strategy}
use disruptorplus.MultiThreadedClaimStrategy.{
  entry, wait_until_published, wait_until_published_until,
}
use disruptorplus.MultiThreadedClaimStrategy.Reading.{IsLastPublished}
use disruptorplus.MultiThreadedClaimStrategy.Ordered.{
  wait_until_published-IsLastPublished, wait_until_published_all-returns,
  wait_until_published_until-eq-wait_until_published,
}
use disruptorplus.Tests.Scene.{base, Any, env, start, start-AllAhead, ws, setting}
use disruptorplus.Tests.Shared.{shared}

everywhere : (x : ℕ) → Any (entry shared x)
everywhere x = tt

abbrev known : ℕ
known = 2 ^ 64 - 1

wait_until_published-IsLastPublished_example :
    Partly
      (IsLastPublished setting shared everywhere known 3 start)
      (wait_until_published env ws shared 20 3 known start)
wait_until_published-IsLastPublished_example =
    wait_until_published-IsLastPublished setting shared everywhere known 3 (omega arith)
      (omega arith) (omega arith) start start-AllAhead 20

all_arrive :
    (x : ℕ)
    → distance base known < distance base x
    → distance base x ≤ distance base 3
    → ArrivesBy Any base env 2 x (entry shared x ∷ [])
all_arrive x after upto u from m a = ground arith

wait_until_published_all-returns_example :
    Totally
      (IsLastPublished setting shared everywhere known 3 start)
      (wait_until_published env ws shared (2 ^ 62) 3 known start)
unfolding spin_wait_strategy
wait_until_published_all-returns_example =
    wait_until_published_all-returns setting shared everywhere known 3 (omega arith) (omega arith)
      (omega arith) start start-AllAhead 2 (2 ^ 62) all_arrive (omega arith) (omega arith)

-- The time point 0 has passed from the second access on.
wait_until_published_until-eq-wait_until_published_example :
    wait_until_published_until env ws shared 20 3 known 0 start
    ≡ wait_until_published env ws shared 20 3 known start
wait_until_published_until-eq-wait_until_published_example =
    wait_until_published_until-eq-wait_until_published setting shared everywhere known 3
      (omega arith) (omega arith) (omega arith) start start-AllAhead 20 0
