-- ===== src/SimTime/Wait.antt =====
-- A task that waits for a time which is not over, on the clock and in the simulation, keeps the clocks
-- ready and current.
use gwr.Base.{
  ℕ, zero, suc, ◌≤◌, ◌<◌, ◌≡◌, Option, none, some, List, [], ◌∷◌, Bool, true, false, get_elem?, set,
  insert_at, position, All, All-append, u64_mod, arith,
}
use gwr.Clock.{ClockTick, ClockState, TaskWaker, tick_lt, tick_eq, add_at, add_waker, schedule}
use gwr.Clock.Laws.{schedule_lem}
use gwr.SimTime.{Floats, to_ns, Clock, SimTime, max_ns, last, ns_or_max, time_of_next}
use gwr.SimTime.Nanos.{FloatLaws, IsUsable, to_ns_mono, to_ns-lt}
use gwr.SimTime.Waiters.{All-set, All-get, FallingTimes, Falling-times, IsReady}
use gwr.SimTime.Advance.{IsCurrent}

All-insert_at {ℓ κ} :
    {A : Type ℓ} (P : A → Type κ) (xs : List A) (i : ℕ) (v : A)
    → All P xs
    → P v
    → All P (insert_at xs i v)
All-insert_at P xs zero v h p = (p, h)
All-insert_at P [] (suc i) v h p = (p, tt)
All-insert_at P (x ∷ xs) (suc i) v h p = (h.0, All-insert_at P xs i v h.1 p)

-- The times after a wait are those before it and that of the wait.
All-schedule :
    (P : ClockTick → Type 0) (s : ClockState) (t : ClockTick) (waker : ℕ) (can_exit : Bool)
    → All P s.waiting_times
    → P t
    → All P (schedule s t waker can_exit).0.waiting_times
unfolding schedule add_waker
All-schedule P s t waker can_exit h p =
    by_place (position (λ x. tick_eq x t) s.waiting_times)
      (position (λ x. tick_lt x t) s.waiting_times)
  where
    w : TaskWaker
    w = record { id = s.next_waiter_id; waker = waker; can_exit = can_exit }

    by_place :
        (same earlier : Option ℕ) → All P (add_at same earlier t w s.waiting_times s.waiting).0
    by_place (some i) earlier = h
    by_place none (some i) = All-insert_at P s.waiting_times i t h p
    by_place none none = All-append P s.waiting_times (t ∷ []) h (p, tt)

module _ (floats : Floats) (laws : FloatLaws floats) where
  -- All times of a clock are as late as the next.
  times_after :
      (freq_mhz ns : ℕ) (times : List ClockTick)
      → IsUsable freq_mhz
      → All (λ u. u.tick < u64_mod) times
      → FallingTimes times
      → ns ≤ ns_or_max floats freq_mhz (last times)
      → All (λ u. ns ≤ to_ns floats freq_mhz u.tick) times
  times_after freq_mhz ns [] usable small f h = tt
  times_after freq_mhz ns (t ∷ []) usable small f h = (h, tt)
  times_after freq_mhz ns (t ∷ u ∷ us) usable small f h =
      let rest = times_after freq_mhz ns (u ∷ us) usable small.1 f.1 h in
      (
        omega (
          arith,
          rest.0,
          to_ns_mono floats laws freq_mhz u.tick t.tick usable (before-le u t f.0.0) small.0,
        ),
        rest,
      )
    where
      before-le : (a b : ClockTick) → tick_lt a b ≡ true → a.tick ≤ b.tick
      before-le a b h = ground arith

  next_of_times :
      (freq_mhz ns : ℕ) (times : List ClockTick)
      → ns ≤ max_ns
      → All (λ u. ns ≤ to_ns floats freq_mhz u.tick) times
      → ns ≤ ns_or_max floats freq_mhz (last times)
  next_of_times freq_mhz ns [] m h = m
  next_of_times freq_mhz ns (t ∷ []) m h = h.0
  next_of_times freq_mhz ns (t ∷ u ∷ us) m h = next_of_times freq_mhz ns (u ∷ us) m h.1

  -- The clock after a task has begun to wait for the time `t`.
  abbrev pub waiting_for : Clock → ClockTick → ℕ → Bool → Clock
  waiting_for c t waker can_exit = record c {
    shared_state = (schedule c.shared_state t waker can_exit).0;
  }

  waiting_for-IsReady :
      (c : Clock) (t : ClockTick) (waker : ℕ) (can_exit : Bool)
      → IsReady c
      → t.tick < u64_mod
      → tick_lt t c.shared_state.now ≡ false
      → IsReady (waiting_for c t waker can_exit)
  unfolding schedule
  waiting_for-IsReady c t waker can_exit ready small not_over = record {
    usable = ready.usable;
    in_u64 =
        All-schedule (λ u. u.tick < u64_mod) c.shared_state t waker can_exit ready.in_u64 small;
    in_order = (schedule_lem c.shared_state t waker can_exit ready.in_order).3;
    after =
        All-schedule (λ u. tick_lt u c.shared_state.now ≡ false) c.shared_state t waker can_exit
          ready.after not_over;
  }

  -- For operations on floating-point numbers that keep the order and do not overflow on the times of
  -- ticks (`FloatLaws`), and clocks that are ready (their frequency is usable, their queue in order, and
  -- no waiter is due before the clock's own time), no waiter of which is due before the time of the
  -- simulation: a wait on a clock, for a time of 64 bits that is over neither on the clock nor in the
  -- simulation, leaves it so.
  pub schedule-IsCurrent :
      (s : SimTime) (k : ℕ) (c : Clock) (t : ClockTick) (waker : ℕ) (can_exit : Bool)
      → All IsReady s.clocks
      → IsCurrent floats s.current_ns s.clocks
      → get_elem? s.clocks k ≡ some c
      → t.tick < u64_mod
      → tick_lt t c.shared_state.now ≡ false
      → s.current_ns ≤ to_ns floats c.freq_mhz t.tick
      → All IsReady (set s.clocks k (waiting_for c t waker can_exit))
        × IsCurrent floats s.current_ns (set s.clocks k (waiting_for c t waker can_exit))
  schedule-IsCurrent s k c t waker can_exit ready current at small not_over not_past =
      let ready_c : IsReady c = All-get IsReady s.clocks k ready at in
      let current_c : s.current_ns ≤ time_of_next floats c =
        All-get (λ d. s.current_ns ≤ time_of_next floats d) s.clocks k current at in
      (
        All-set IsReady s.clocks k _ ready
            (waiting_for-IsReady c t waker can_exit ready_c small not_over),
        All-set (λ d. s.current_ns ≤ time_of_next floats d) s.clocks k
            (waiting_for c t waker can_exit) current
            (next_of_times c.freq_mhz s.current_ns _
              (omega (arith, to_ns-lt floats laws c.freq_mhz t.tick ready_c.usable small))
              (All-schedule (λ u. s.current_ns ≤ to_ns floats c.freq_mhz u.tick) c.shared_state t
                waker can_exit
                (times_after c.freq_mhz s.current_ns c.shared_state.waiting_times ready_c.usable
                  ready_c.in_u64
                  (Falling-times c.shared_state.waiting_times c.shared_state.waiting
                    ready_c.in_order.parallel ready_c.in_order.falling)
                  current_c)
                not_past)),
      )
