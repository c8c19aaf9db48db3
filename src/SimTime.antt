-- ===== src/SimTime.antt =====
-- gwr-engine/src/time/simtime.rs, and the order of clocks in clock.rs beside it: all clocks of a
-- simulation, and the time that they share. A clock is shared by its index. A frequency and a time in ns
-- are floating-point numbers that are not negative: they stand as their bit patterns, whose order is that
-- of the numbers. The operations on these numbers are the machine's, and a parameter.
pub mod Nanos
pub mod Waiters
pub mod Advance
pub mod Wait
pub mod Exit
use gwr.Base.{
  ℕ, zero, suc, ◌+◌, ◌-◌, ◌^◌, ◌*◌, Option, none, some, List, [], ◌∷◌, ◌++◌, Bool, true, false,
  ◌==◌, ◌&&◌, ◌||◌, ltb, if◌then◌else◌, length, get_or, set, position, Outcome, ok, panic, ◌>>=◌,
}
use gwr.Clock.{
  advance_time as advance_clock, new as new_clock, ClockTick, ClockState, TaskWaker, phase_end,
}

-- The bits of `f64::MAX`.
abbrev pub max_ns : ℕ
max_ns = 2047 * 2 ^ 52 - 1

pub record Clock : Type 0 where
  pub freq_mhz : ℕ
  pub shared_state : ClockState

pub record SimTime : Type 0 where
  pub current_ns : ℕ
  pub clocks : List Clock

abbrev pub new : SimTime
new = record { current_ns = 0; clocks = [] }

-- The index of the clock of a frequency, which is made if there is none.
abbrev pub found_or_made : SimTime → ℕ → Option ℕ → SimTime × ℕ
found_or_made s freq_mhz (some i) = (s, i)
found_or_made s freq_mhz none = (
  record s { clocks = s.clocks ++ record { freq_mhz = freq_mhz; shared_state = new_clock } ∷ [] },
  length s.clocks,
)

unfoldable pub get_clock : SimTime → ℕ → SimTime × ℕ
get_clock s freq_mhz =
    found_or_made s freq_mhz (position (λ (c : Clock). c.freq_mhz == freq_mhz) s.clocks)

abbrev pub last {ℓ} : {A : Type ℓ} → List A → Option A
last [] = none
last (x ∷ []) = some x
last (x ∷ y ∷ ys) = last (y ∷ ys)

-- What `pop` leaves.
abbrev pub popped {ℓ} : {A : Type ℓ} → List A → List A
popped [] = []
popped (x ∷ []) = []
popped (x ∷ y ∷ ys) = x ∷ popped (y ∷ ys)

-- The loops of `can_exit`: over the tasks of a time, the times of a clock, and the clocks.
abbrev pub tasks_can_exit : List TaskWaker → Bool
tasks_can_exit [] = true
tasks_can_exit (w ∷ ws) = w.can_exit && tasks_can_exit ws

abbrev pub waiting_can_exit : List (List TaskWaker) → Bool
waiting_can_exit [] = true
waiting_can_exit (ws ∷ waiting) = tasks_can_exit ws && waiting_can_exit waiting

abbrev pub clocks_can_exit : List Clock → Bool
clocks_can_exit [] = true
clocks_can_exit (c ∷ cs) = waiting_can_exit c.shared_state.waiting && clocks_can_exit cs

unfoldable pub can_exit : SimTime → Bool
can_exit s = clocks_can_exit s.clocks

-- `tick as f64`, and the division and the product of two numbers.
pub record Floats : Type 0 where
  pub of_u64 : ℕ → ℕ
  pub div : ℕ → ℕ → ℕ
  pub mul : ℕ → ℕ → ℕ

-- The bits of `1000.0`.
abbrev pub thousand : ℕ
thousand = 4652007308841189376

module _ (floats : Floats) where
  -- The time of a tick at a frequency.
  unfoldable pub to_ns : ℕ → ℕ → ℕ
  to_ns freq_mhz tick = floats.mul (floats.div (floats.of_u64 tick) freq_mhz) thousand

  abbrev pub ns_or_max : ℕ → Option ClockTick → ℕ
  ns_or_max freq_mhz none = max_ns
  ns_or_max freq_mhz (some t) = to_ns freq_mhz t.tick

  abbrev pub time_of_next : Clock → ℕ
  time_of_next c = ns_or_max c.freq_mhz (last c.shared_state.waiting_times)

  abbrev pub phase_or_max : Option ClockTick → ℕ
  phase_or_max none = phase_end
  phase_or_max (some t) = t.phase

  abbrev pub phase_of_next : Clock → ℕ
  phase_of_next c = phase_or_max (last c.shared_state.waiting_times)

  -- `cmp` is `Less`.
  abbrev pub before : Clock → Clock → Bool
  before a b =
      ltb (time_of_next a) (time_of_next b)
      || (time_of_next a == time_of_next b && ltb (phase_of_next a) (phase_of_next b))

  -- `min_by`, which keeps the first of equal elements, with the index of what it keeps.
  unfoldable pub min_from : Clock → ℕ → ℕ → List Clock → Clock × ℕ
  min_from best k i [] = (best, k)
  min_from best k i (c ∷ cs) =
      let kept = min_from best k (i + 1) cs in
      let replaced = min_from c i (i + 1) cs in if before c best then replaced else kept

  -- The time of the clock `next_clock`, number `k`, is taken, if it has one.
  abbrev pub advance_to :
      SimTime → Clock → ℕ → Option ClockTick → Outcome (SimTime × Option (List TaskWaker) × List ℕ)
  advance_to s next_clock k none = ok (s, none, [])
  advance_to s next_clock k (some clock_time) = do
    let c = next_clock.shared_state
    advanced ← advance_clock (record c { waiting_times = popped c.waiting_times }) clock_time
    ok (
      record {
        current_ns = to_ns next_clock.freq_mhz clock_time.tick;
        clocks =
            set s.clocks k (record next_clock {
              shared_state = record advanced.0 { waiting = popped c.waiting };
            });
      },
      last c.waiting,
      advanced.1,
    )

  abbrev pub advance_first :
      SimTime → List Clock → Outcome (SimTime × Option (List TaskWaker) × List ℕ)
  advance_first s [] = ok (s, none, [])
  advance_first s (c ∷ cs) =
      advance_to s (min_from c 0 1 cs).0 (min_from c 0 1 cs).1
        (last (min_from c 0 1 cs).0.shared_state.waiting_times)

  -- The new state, the wakers, and the callbacks of the clock that have run.
  unfoldable pub advance_time : SimTime → Outcome (SimTime × Option (List TaskWaker) × List ℕ)
  unfolding min_from advance_clock
  advance_time s = advance_first s s.clocks
