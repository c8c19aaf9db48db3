-- ===== src/Clock/Delay.antt =====
-- gwr-engine/src/time/clock.rs: the futures that wait for a tick. The state of the clock is shared,
-- so a poll and a drop take it and give it back.
use gwr.Base.{
  ap, not, ℕ, ◌+◌, Option, none, some, Bool, true, false, ltb, if◌then◌else◌, Outcome, ok, panic,
  ◌≡◌, refl, Bool-cases, inl, inr,
}
use gwr.Clock.{ClockTick, ClockState, phase_begin, tick_lt, schedule, unschedule}
use gwr.Clock.Laws.{IsValid, schedule_lem, unschedule_lem}

pub record ClockDelay : Type 0 where
  pub until : ClockTick
  pub can_exit : Bool
  pub waiter_id : Option ℕ
  pub done : Bool

unfoldable pub delay_until : ClockTick → Bool → ClockDelay
delay_until until can_exit = record {
  until = until;
  can_exit = can_exit;
  waiter_id = none;
  done = false;
}

unfoldable pub wait_ticks : ClockState → ℕ → ClockDelay
unfolding delay_until
wait_ticks s ticks = delay_until (record { tick = s.now.tick + ticks; phase = phase_begin }) false

unfoldable pub wait_ticks_or_exit : ClockState → ℕ → ClockDelay
unfolding delay_until
wait_ticks_or_exit s ticks =
    delay_until (record { tick = s.now.tick + ticks; phase = phase_begin }) true

unfoldable pub next_tick_and_phase : ClockState → ℕ → ClockDelay
unfolding delay_until
next_tick_and_phase s phase = delay_until (record { tick = s.now.tick + 1; phase = phase }) false

unfoldable pub wait_phase : ClockState → ℕ → Outcome ClockDelay
unfolding delay_until
wait_phase s phase =
    if ltb phase s.now.phase
    then panic
    else ok (delay_until (record { tick = s.now.tick; phase = phase }) false)

-- `if let Some(waiter_id)`, in `poll` and in `drop`.
unfoldable pub cancel : ClockState → ClockDelay → ClockState
cancel s d = elim (d.waiter_id) [ some waiter_id ↦ unschedule s d.until waiter_id | none ↦ s ]

-- Whether the future is ready.
unfoldable pub poll : ClockState → ClockDelay → ℕ → ClockState × ClockDelay × Bool
unfolding cancel
poll s d waker =
    if d.done
    then (s, d, true)
    else if tick_lt s.now d.until
    then (scheduled.0, record d { waiter_id = some scheduled.1 }, false)
    else (s, record d { waiter_id = none; done = true }, true)
  where
    scheduled : ClockState × ℕ
    scheduled = schedule (cancel s d) d.until waker d.can_exit

unfoldable pub drop : ClockState → ClockDelay → ClockState
unfolding cancel
drop s d = cancel s d

-- Every operation keeps the queue of the clock in order.
cancel-IsValid : (s : ClockState) (d : ClockDelay) → IsValid s → IsValid (cancel s d)
unfolding cancel
cancel-IsValid s d v = go d.waiter_id
  where
    go : (o : Option ℕ) → IsValid (elim o [ some id ↦ unschedule s d.until id | none ↦ s ])
    go none = v
    go (some id) = (unschedule_lem s d.until id v).1

-- A poll of a delay that is not done is ready exactly if the time has come. Until then it is
-- registered, under the id that a later poll or drop removes; the queue of the clock stays in order
-- and the time does not change.
poll_lem :
    (s : ClockState) (d : ClockDelay) (waker : ℕ)
    → IsValid s
    → d.done ≡ false
    → let (s', d', is_ready) = poll s d waker in
      (is_ready ≡ not (tick_lt s.now d.until))
      × (d'.done ≡ is_ready)
      × IsValid s'
      × (d'.waiter_id ≡ (if is_ready then none else some (cancel s d).next_waiter_id))
unfolding poll cancel
poll_lem s d waker v waits = elim (Bool-cases (tick_lt s.now d.until)) [
  | inl before ↦
      let (others, id, next, valid) =
        schedule_lem (cancel s d) d.until waker d.can_exit (cancel-IsValid s d v) in
      rw (waits, before) (refl, refl, valid, ap some id)
  | inr reached ↦ rw (waits, reached) (refl, refl, v, refl)
]
