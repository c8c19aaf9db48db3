-- ===== src/Tests/EngineTests.antt =====
-- The time of a simulation and the executor at concrete clocks and tasks.
use gwr.Base.{
  ℕ, ◌*◌, ◌/◌, Bool, ◌≤◌, ◌<◌, ◌≡◌, refl, min, Option, none, some, List, [], ◌∷◌, All, true, false,
  if◌then◌else◌, ◌==◌, ok, ◌>>=◌, get_or, set, arith,
}
use gwr.Clock.{ClockTick, ClockState, TaskWaker, schedule, new as new_clock, add_waker}
use gwr.Clock.Entries.{entries}
use gwr.SimTime.{Floats, thousand, to_ns, Clock, SimTime, get_clock, advance_time, new}
use gwr.SimTime.Nanos.{two_pow, FloatLaws}
use gwr.SimTime.Waiters.{IsReady}
use gwr.SimTime.Advance.{IsCurrent, advance_time-le, advance_time-back}
use gwr.SimTime.Wait.{waiting_for, schedule-IsCurrent}
use gwr.Executor.{Futures, ExecutorState, complete}

-- The bits of `100.0` and of `1000.0`.
abbrev mhz_100 : ℕ
mhz_100 = 4636737291354636288

abbrev mhz_1000 : ℕ
mhz_1000 = thousand

-- Operations on the bits of numbers: a product keeps them, a division by 100 keeps them, and one by a
-- larger frequency gives less. (The bits of a number are about its logarithm.)
abbrev ns : Floats
ns = record {
  of_u64 = λ t. min (t * 1000) (two_pow 64);
  div = λ a freq_mhz. if freq_mhz == mhz_100 then a else a / 10;
  mul = λ a b. a;
}

ns-FloatLaws : FloatLaws ns
ns-FloatLaws = record {
  of_u64_mono = λ t u h small. omega arith;
  of_u64-le = λ t small. omega arith;
  div_mono = λ a b freq_mhz h le usable. divides_mono a b (freq_mhz == mhz_100) h;
  div-le = λ a freq_mhz le usable. divides-le a (freq_mhz == mhz_100) le;
  mul_mono = λ a b h le. h;
  mul-lt = λ a le. omega arith;
}
  where
    divides_mono :
        (a b : ℕ) (slow : Bool)
        → a ≤ b
        → (if slow then a else a / 10) ≤ (if slow then b else b / 10)
    divides_mono a b true h = h
    divides_mono a b false h = omega arith

    divides-le : (a : ℕ) (slow : Bool) → a ≤ two_pow 64 → (if slow then a else a / 10) ≤ two_pow 964
    divides-le a true h = omega arith
    divides-le a false h = omega arith

abbrev tick : ℕ → ClockTick
tick t = record { tick = t; phase = 0 }

abbrev waits : ℕ → TaskWaker
waits id = record { id = id; waker = id; can_exit = false }

-- A clock of 100 MHz with a waiter at tick 1.
abbrev slow_clock : Clock
slow_clock = record {
  freq_mhz = mhz_100;
  shared_state = record {
    now = tick 0;
    next_waiter_id = 1;
    waiting = (waits 0 ∷ []) ∷ [];
    waiting_times = tick 1 ∷ [];
    to_resolve = [];
  };
}

slow_clock-IsReady : IsReady slow_clock
unfolding entries
slow_clock-IsReady = record {
  usable = (omega arith, omega arith);
  in_u64 = (omega arith, tt);
  in_order = record { parallel = refl; falling = (tt, refl, tt) };
  after = (refl, tt);
}

abbrev start : SimTime
start = record { current_ns = 0; clocks = slow_clock ∷ [] }

advance_time-le_example :
    (s' : SimTime) × (wakers : Option (List TaskWaker)) × (callbacks : List ℕ) × (advance_time ns
        start
      ≡ ok (s', wakers, callbacks))
    × (0 ≤ s'.current_ns)
    × IsCurrent ns s'.current_ns s'.clocks
    × All IsReady s'.clocks
advance_time-le_example =
    advance_time-le ns ns-FloatLaws start (slow_clock-IsReady, tt) (omega arith, tt)

schedule-IsCurrent_example :
    All IsReady (set (slow_clock ∷ []) 0 (waiting_for ns ns-FloatLaws slow_clock (tick 2) 9 true))
    × IsCurrent ns 0
        (set (slow_clock ∷ []) 0 (waiting_for ns ns-FloatLaws slow_clock (tick 2) 9 true))
schedule-IsCurrent_example =
    schedule-IsCurrent ns ns-FloatLaws start 0 slow_clock (tick 2) 9 true (slow_clock-IsReady, tt)
      (omega arith, tt) refl (omega arith) refl (omega arith)

-- The slow clock has been at tick 1, so it is 10 ns, and now a task waits a tick of the clock of 1000
-- MHz, which has had no waiter yet.
abbrev idle_slow : Clock
idle_slow = record {
  freq_mhz = mhz_100;
  shared_state = record {
    now = tick 1;
    next_waiter_id = 1;
    waiting = [];
    waiting_times = [];
    to_resolve = [];
  };
}

abbrev fast_clock : Clock
fast_clock = record {
  freq_mhz = mhz_1000;
  shared_state = record {
    now = tick 0;
    next_waiter_id = 1;
    waiting = (waits 0 ∷ []) ∷ [];
    waiting_times = tick 1 ∷ [];
    to_resolve = [];
  };
}

abbrev lagging : SimTime
lagging = record { current_ns = 1000; clocks = idle_slow ∷ fast_clock ∷ [] }

idle_slow-IsReady : IsReady idle_slow
unfolding entries
idle_slow-IsReady = record {
  usable = (omega arith, omega arith);
  in_u64 = tt;
  in_order = record { parallel = refl; falling = tt };
  after = tt;
}

fast_clock-IsReady : IsReady fast_clock
unfolding entries
fast_clock-IsReady = record {
  usable = (omega arith, omega arith);
  in_u64 = (omega arith, tt);
  in_order = record { parallel = refl; falling = (tt, refl, tt) };
  after = (refl, tt);
}

advance_time-back_example :
    (s' : SimTime) × (wakers : Option (List TaskWaker)) × (callbacks : List ℕ) × (advance_time ns
        lagging
      ≡ ok (s', wakers, callbacks))
    × (s'.current_ns < 1000)
unfolding to_ns
advance_time-back_example =
    advance_time-back ns ns-FloatLaws lagging 1 fast_clock (tick 1)
      (idle_slow-IsReady, (fast_clock-IsReady, tt)) refl refl (omega arith)

-- The same state by calls: a wait of a tick on either clock, the first of which ends before the second
-- begins.
abbrev with_state : SimTime → ℕ → ClockState → SimTime
with_state s i c = record s {
  clocks = set s.clocks i (record (get_or s.clocks i fast_clock) { shared_state = c });
}

abbrev wait_tick : SimTime → ℕ → SimTime
wait_tick s i =
    with_state s i (schedule (get_or s.clocks i fast_clock).shared_state (tick 1) 0 false).0

lagging_reached :
    (advance_time ns (wait_tick (get_clock (get_clock new mhz_100).0 mhz_1000).0 0) >>= λ r.
    ok (wait_tick r.0 1))
    ≡ ok lagging
unfolding advance_time get_clock schedule add_waker new_clock to_ns
lagging_reached = refl

-- Futures that are complete when they are polled.
abbrev at_once : Futures ℕ (Unit {0})
at_once = record {
  poll = λ f i sh. ok (record { shared = sh; queued = []; result = complete });
  resolve = λ r w. (w, []);
  order = λ queue. queue;
  floats = ns;
}

abbrev one_task : ExecutorState ℕ (Unit {0})
one_task = record {
  tasks = some 7 ∷ [];
  task_queue = [];
  new_tasks = 0 ∷ [];
  shared = record { time = start; finished = false; rest = tt };
}

-- The task is complete, time has gone to the waiter, and the task that it woke was polled no more.
abbrev all_done : ExecutorState ℕ (Unit {0})
all_done = record {
  tasks = none ∷ [];
  task_queue = [];
  new_tasks = [];
  shared = record {
    time = record { current_ns = 1000; clocks = idle_slow ∷ [] };
    finished = false;
    rest = tt;
  };
}
