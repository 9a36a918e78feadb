-- ===== src/SequenceBarrierGroup/Waiting.antt =====
-- Waiting for all barriers of a group.
use disruptorplus.Common.{ℕ, ◌+◌, ◌≤◌, ◌≡◌, List, ◌∷◌, All}
use disruptorplus.Sequence.Distance.{IsAhead}
use disruptorplus.Memory.{Environment, World, done, ◌>>=◌}
use disruptorplus.Memory.Rely.{AllAhead}
use disruptorplus.Minimum.{minimum_sequence_after}
use disruptorplus.Minimum.After.{minimum_sequence_after-IsLowestAfter}
use disruptorplus.Minimum.Lowest.{IsLowest, minimum_sequence-IsLowest}
use disruptorplus.WaitStrategy.{WaitStrategy, Partly, Totally}
use disruptorplus.WaitStrategy.Promise.{IsReached, Ends, EndsFor, ArrivesBy, Setting}
use disruptorplus.WaitStrategy.Asking.{Glance, ask-wait, ask-wait_until, ask-wait_for, ask-returns}
use disruptorplus.SequenceBarrierGroup.{
  SequenceBarrierGroup, last_published, wait_until_published, wait_until_published_for,
  wait_until_published_until,
}

module _ {Watched : ℕ → Type 0} {base : ℕ} {env : Environment} {ws : WaitStrategy}
    (setting : Setting Watched base env ws) (group : SequenceBarrierGroup) {l : ℕ} {ls : List ℕ}
    (members : group.sequences ≡ l ∷ ls) (watched : All Watched (l ∷ ls)) (w : World)
    (ahead : AllAhead Watched base w.mem) where
  -- `last_published` of a group with barriers returns, without blocking, a sequence number between
  -- the least advanced barrier at its beginning and the least advanced at its end.
  pub last_published-IsLowest :
      Totally (IsLowest Watched base l ls w) (last_published env ws group w)
  unfolding last_published
  last_published-IsLowest =
      let (r, w', read, low) =
        minimum_sequence-IsLowest Watched base env setting.small setting.fair l ls w watched
          ahead in
      rw (members, ◌>>=◌, members, read) low

  module _ (s : ℕ) (sought : IsAhead base s) where
    scan :
        (r : ℕ) × (w' : World) × (minimum_sequence_after env s (l ∷ ls) w ≡ done r w')
        × Glance setting s l ls sought watched w r w'
    scan =
        let (r, w', read, low) =
          minimum_sequence_after-IsLowestAfter Watched base s env setting.small setting.fair sought
            l ls w watched ahead in
        (r, w', read, record { later = low.later; ahead = low.ahead; reached = low.reached })

    -- `wait_until_published` on a group with barriers, when it returns, returns a sequence number
    -- at or after the one asked for, and no barrier of the group is behind what it returns.
    pub wait_until_published-IsReached :
        Partly (IsReached Watched base env s l ls w) (wait_until_published env ws group s w)
    unfolding wait_until_published
    wait_until_published-IsReached =
        let (r, w', read, glance) = scan in
        rw (members, ◌>>=◌, members, read, members) (ask-wait setting s l ls sought watched glance)

    -- It does return if all barriers publish the sequence number in time.
    pub wait_until_published-returns :
        (t : ℕ)
        → ArrivesBy Watched base env t s (l ∷ ls)
        → t ≤ w.tick + ws.patience
        → Totally (IsReached Watched base env s l ls w) (wait_until_published env ws group s w)
    unfolding wait_until_published
    wait_until_published-returns t arrives time =
        let (r, w', read, glance) = scan in
        rw (members, ◌>>=◌, members, read, members)
          (ask-returns setting s l ls sought watched glance t arrives time)

    -- The overload with a time point reaches the sequence number, or returns an earlier one and the
    -- clock has shown a time past that point.
    pub wait_until_published_until-Ends :
        (timeout_time : ℕ)
        → Partly
            (Ends Watched base env s l ls timeout_time w)
            (wait_until_published_until env ws group s timeout_time w)
    unfolding wait_until_published_until
    wait_until_published_until-Ends timeout_time =
        let (r, w', read, glance) = scan in
        rw (members, ◌>>=◌, members, read, members)
          (ask-wait_until setting s l ls sought watched glance timeout_time)

    -- So does the overload with a duration, counted from a clock reading during the call.
    pub wait_until_published_for-EndsFor :
        (timeout : ℕ)
        → Partly
            (EndsFor Watched base env s l ls timeout w)
            (wait_until_published_for env ws group s timeout w)
    unfolding wait_until_published_for
    wait_until_published_for-EndsFor timeout =
        let (r, w', read, glance) = scan in
        rw (members, ◌>>=◌, members, read, members)
          (ask-wait_for setting s l ls sought watched glance timeout)
