-- ===== src/Tests/Waits.antt =====
-- Waiting for one barrier and for two, with and without a deadline.
use disruptorplus.Common.{refl, [], ◌∷◌, false, arith}
use disruptorplus.Sequence.Distance.{IsAhead}
use disruptorplus.Memory.{Environment}
use disruptorplus.Memory.Rely.{IsFair}
use disruptorplus.SequenceBarrier.{SequenceBarrier}
use disruptorplus.SequenceBarrierGroup
use disruptorplus.SequenceBarrierGroup.{SequenceBarrierGroup}
use disruptorplus.SequenceBarrierGroup.Waiting.{wait_until_published-IsReached}
use disruptorplus.SpinWaitStrategy.{spin_wait_strategy, wait_until}
use disruptorplus.SpinWaitStrategy.Held.{Call}
use disruptorplus.SpinWaitStrategy.Keeps.{spin_wait_strategy-IsWaitStrategy, wait_until-returns}
use disruptorplus.WaitStrategy.{Partly, Totally}
use disruptorplus.WaitStrategy.Promise.{IsReached, Ends, IsWaitStrategy}
use disruptorplus.Tests.Scene.{base, Any, env, env-IsFair, start, start-AllAhead, ws, setting}

abbrev both : SequenceBarrierGroup
both = record { strategy = 7; sequences = 1 ∷ 2 ∷ [] }

abbrev single : SequenceBarrier
single = record { strategy = 7; cell = 1 }

three-IsAhead : IsAhead base 3
three-IsAhead = record { small = omega arith; near = omega arith }

spin_wait_strategy-IsWaitStrategy_example :
    IsWaitStrategy Any base env (spin_wait_strategy env 4 30)
spin_wait_strategy-IsWaitStrategy_example =
    spin_wait_strategy-IsWaitStrategy Any base env 4 30 (omega arith) env-IsFair

call : Call Any base env 3 1 (2 ∷ [])
call = record {
  small = omega arith;
  fair = env-IsFair;
  sought = three-IsAhead;
  watched = (tt, (tt, tt));
}

-- The clock passes 50 from the sixth access on.
wait_until-returns_example :
    Totally (Ends Any base env 3 1 (2 ∷ []) 50 start) (wait_until env 4 30 3 (1 ∷ 2 ∷ []) 50 start)
wait_until-returns_example =
    wait_until-returns 4 30 call start start-AllAhead 6 50 (λ u h. omega arith) (omega arith)

wait_until_published-IsReached_example :
    Partly
      (IsReached Any base env 3 1 (2 ∷ []) start)
      (SequenceBarrierGroup.wait_until_published env ws both 3 start)
wait_until_published-IsReached_example =
    wait_until_published-IsReached setting both refl (tt, (tt, tt)) start start-AllAhead 3
      three-IsAhead

-- With no other thread, a barrier moves on from -1 to 2.
abbrev alone : Environment
alone = record { others = λ t m. m; now = λ t. t; spurious = λ t. false }

alone-IsFair : IsFair Any base alone
alone-IsFair = record { keeps = λ t m a. a; grows = λ t m a l h. omega arith }
