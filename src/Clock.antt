-- ===== src/Clock.antt =====
-- gwr-engine/src/time/clock.rs: ticks, and the queue of tasks that wait for one. A waker is the
-- number of its task, and a registered `Resolve` the number of its callback.
pub mod Delay
pub mod Entries
pub mod Laws
use gwr.Base.{
  ℕ, ◌+◌, ◌-◌, ◌^◌, Option, none, some, List, [], ◌∷◌, ◌++◌, Bool, true, false, ◌==◌, ◌&&◌, ◌||◌,
  not, ltb, if◌then◌else◌, get_or, set, insert_at, remove_at, position, Outcome, ok, panic,
}

pub record ClockTick : Type 0 where
  pub tick : ℕ
  pub phase : ℕ

abbrev pub phase_begin : ℕ
phase_begin = 0

abbrev pub phase_end : ℕ
phase_end = 2 ^ 32 - 1

pub set_tick : ClockTick → ℕ → ClockTick
set_tick t tick = record t { tick = tick }

pub set_phase : ClockTick → ℕ → ClockTick
set_phase t phase = record t { phase = phase }

-- `==` and `cmp` of ticks: by tick, then by phase.
abbrev pub tick_eq : ClockTick → ClockTick → Bool
tick_eq a b = a.tick == b.tick && a.phase == b.phase

abbrev pub tick_lt : ClockTick → ClockTick → Bool
tick_lt a b = ltb a.tick b.tick || (a.tick == b.tick && ltb a.phase b.phase)

pub record TaskWaker : Type 0 where
  pub id : ℕ
  pub waker : ℕ
  pub can_exit : Bool

pub record ClockState : Type 0 where
  pub now : ClockTick
  pub next_waiter_id : ℕ
  pub waiting : List (List TaskWaker)
  pub waiting_times : List ClockTick
  pub to_resolve : List ℕ

unfoldable pub new : ClockState
new = record {
  now = record { tick = 0; phase = phase_begin };
  next_waiter_id = 0;
  waiting = [];
  waiting_times = [];
  to_resolve = [];
}

-- The two queues of `schedule`: the waker joins those of its time, or its time is put before the
-- first earlier one, or at the end. The indices are those of the two searches.
unfoldable pub add_at :
    Option ℕ
    → Option ℕ
    → ClockTick
    → TaskWaker
    → List ClockTick
    → List (List TaskWaker)
    → List ClockTick × List (List TaskWaker)
add_at (some index) _ t w times waiting =
    (times, set waiting index (get_or waiting index [] ++ w ∷ []))
add_at none (some index) t w times waiting =
    (insert_at times index t, insert_at waiting index (w ∷ []))
add_at none none t w times waiting = (times ++ t ∷ [], waiting ++ (w ∷ []) ∷ [])

unfoldable pub add_waker :
    ClockTick
    → TaskWaker
    → List ClockTick
    → List (List TaskWaker)
    → List ClockTick × List (List TaskWaker)
unfolding add_at
add_waker t w times waiting =
    add_at (position (λ x. tick_eq x t) times) (position (λ x. tick_lt x t) times) t w times waiting

unfoldable pub schedule : ClockState → ClockTick → ℕ → Bool → ClockState × ℕ
schedule s schedule_time waker can_exit = (
  record s { next_waiter_id = s.next_waiter_id + 1; waiting = added.1; waiting_times = added.0 },
  s.next_waiter_id,
)
  where
    added : List ClockTick × List (List TaskWaker)
    added =
        add_waker schedule_time
          (record { id = s.next_waiter_id; waker = waker; can_exit = can_exit }) s.waiting_times
          s.waiting

abbrev pub is_empty {ℓ} : {A : Type ℓ} → List A → Bool
is_empty [] = true
is_empty (x ∷ xs) = false

-- `waiting[time_index].remove(waiter_index)`, and the time goes with its last waker.
unfoldable pub drop_waker :
    ℕ → ℕ → List ClockTick → List (List TaskWaker) → List ClockTick × List (List TaskWaker)
drop_waker time_index waiter_index times waiting =
    if is_empty (remove_at (get_or waiting time_index []) waiter_index)
    then (remove_at times time_index, remove_at waiting time_index)
    else (times, set waiting time_index (remove_at (get_or waiting time_index []) waiter_index))

-- The indices are those of the time, and of the waker among the wakers of the time.
unfoldable pub remove_at_time :
    Option ℕ → ℕ → List ClockTick → List (List TaskWaker) → List ClockTick × List (List TaskWaker)
unfolding drop_waker
remove_at_time none waiter_id times waiting = (times, waiting)
remove_at_time (some time_index) waiter_id times waiting =
    elim (position (λ w. w.id == waiter_id) (get_or waiting time_index [])) [
      | none ↦ (times, waiting)
      | some waiter_index ↦ drop_waker time_index waiter_index times waiting
    ]

unfoldable pub remove_waker :
    ClockTick → ℕ → List ClockTick → List (List TaskWaker) → List ClockTick × List (List TaskWaker)
unfolding remove_at_time
remove_waker t waiter_id times waiting =
    remove_at_time (position (λ x. tick_eq x t) times) waiter_id times waiting

unfoldable pub unschedule : ClockState → ClockTick → ℕ → ClockState
unschedule s schedule_time waiter_id = record s { waiting_times = removed.0; waiting = removed.1 }
  where
    removed : List ClockTick × List (List TaskWaker)
    removed = remove_waker schedule_time waiter_id s.waiting_times s.waiting

-- The callbacks run (they are answered in order, beside the state), and time must not go back.
unfoldable pub advance_time : ClockState → ClockTick → Outcome (ClockState × List ℕ)
advance_time s to_time =
    if tick_lt to_time s.now
    then panic
    else ok (record s { to_resolve = []; now = to_time }, s.to_resolve)
