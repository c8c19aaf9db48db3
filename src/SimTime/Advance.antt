-- ===== src/SimTime/Advance.antt =====
-- Which clock `advance_time` chooses, and when the time of the simulation does not go back.
use gwr.Base.{
  ℕ, ◌+◌, ok_injective, ◌≤◌, ◌<◌, ◌≡◌, refl, sym, ap, ◌∙◌, inl, inr, Option, none, some, List, [],
  ◌∷◌, true, false, get_elem?, set, All, u64_mod, Bool-cases, arith, Outcome, ok,
}
use mathlib.Core.Path.{subst}
use gwr.Clock.{ClockTick, TaskWaker, tick_lt, advance_time as advance_clock}
use gwr.Clock.Entries.{entries}
use gwr.SimTime.{
  Floats, to_ns, Clock, SimTime, max_ns, last, popped, ns_or_max, time_of_next, before, min_from,
  advance_to, advance_first, advance_time,
}
use gwr.SimTime.Nanos.{FloatLaws, to_ns_mono, to_ns-lt}
use gwr.SimTime.Waiters.{
  All-set, All-get, All-popped, All-last, last-parallel, length-popped, entries-popped,
  Falling-popped, FallingTimes, Falling-times, last-first, IsReady,
}

-- No waiter of any clock is due before this time.
abbrev pub IsCurrent : Floats → ℕ → List Clock → Type 0
IsCurrent floats ns = All (λ c. ns ≤ time_of_next floats c)

module _ (floats : Floats) (laws : FloatLaws floats) where
  min_from-yes :
      (best : Clock) (k i : ℕ) (c : Clock) (cs : List Clock)
      → before floats c best ≡ true
      → min_from floats best k i (c ∷ cs) ≡ min_from floats c i (i + 1) cs
  unfolding min_from
  min_from-yes best k i c cs h = rw h refl

  min_from-no :
      (best : Clock) (k i : ℕ) (c : Clock) (cs : List Clock)
      → before floats c best ≡ false
      → min_from floats best k i (c ∷ cs) ≡ min_from floats best k (i + 1) cs
  unfolding min_from
  min_from-no best k i c cs h = rw h refl

  -- No clock has an earlier time.
  abbrev IsLeast : Clock × ℕ → List Clock → Type 0
  IsLeast chosen = All (λ c. time_of_next floats chosen.0 ≤ time_of_next floats c)

  -- The clock that is chosen has the least time.
  min_from-IsLeast :
      (best : Clock) (k i : ℕ) (cs : List Clock) → IsLeast (min_from floats best k i cs) (best ∷ cs)
  unfolding min_from
  min_from-IsLeast best k i [] = (omega arith, tt)
  min_from-IsLeast best k i (c ∷ cs) = elim (Bool-cases (before floats c best)) [
    | inl earlier ↦
        let (least, rest) = min_from-IsLeast c i (i + 1) cs in
        subst (λ r. IsLeast r (best ∷ c ∷ cs)) (sym (min_from-yes best k i c cs earlier))
          (omega (arith, least, before-le c best earlier), (least, rest))
    | inr later ↦
        let (least, rest) = min_from-IsLeast best k (i + 1) cs in
        subst (λ r. IsLeast r (best ∷ c ∷ cs)) (sym (min_from-no best k i c cs later))
          (least, (omega (arith, least, not_before-le c best later), rest))
  ]
    where
      before-le :
          (a b : Clock) → before floats a b ≡ true → time_of_next floats a ≤ time_of_next floats b
      before-le a b h = ground arith

      not_before-le :
          (a b : Clock) → before floats a b ≡ false → time_of_next floats b ≤ time_of_next floats a
      not_before-le a b h = ground arith

  min_from-All :
      (P : Clock → Type 0) (best : Clock) (k i : ℕ) (cs : List Clock)
      → P best
      → All P cs
      → P (min_from floats best k i cs).0
  unfolding min_from
  min_from-All P best k i [] h hs = h
  min_from-All P best k i (c ∷ cs) h hs = elim (Bool-cases (before floats c best)) [
    | inl earlier ↦
        subst (λ r. P r.0) (sym (min_from-yes best k i c cs earlier))
          (min_from-All P c i (i + 1) cs hs.0 hs.1)
    | inr later ↦
        subst (λ r. P r.0) (sym (min_from-no best k i c cs later))
          (min_from-All P best k (i + 1) cs h hs.1)
  ]

  -- What is left to wait for is not before the time that was taken.
  next_after :
      (c : Clock) (t : ClockTick)
      → IsReady c
      → FallingTimes c.shared_state.waiting_times
      → last c.shared_state.waiting_times ≡ some t
      → to_ns floats c.freq_mhz t.tick
        ≤ ns_or_max floats c.freq_mhz (last (popped c.shared_state.waiting_times))
  next_after c t ready falling e =
      by_last (popped c.shared_state.waiting_times)
        (last-first c.shared_state.waiting_times t falling e)
        (All-popped _ c.shared_state.waiting_times ready.in_u64)
    where
      by_last :
          (us : List ClockTick)
          → All (λ u. tick_lt t u ≡ true) us
          → All (λ u. u.tick < u64_mod) us
          → to_ns floats c.freq_mhz t.tick ≤ ns_or_max floats c.freq_mhz (last us)
      by_last [] h small =
          omega (
            arith,
            to_ns-lt floats laws c.freq_mhz t.tick ready.usable (All-last _ _ ready.in_u64 e),
          )
      by_last (u ∷ []) h small =
          to_ns_mono floats laws c.freq_mhz t.tick u.tick ready.usable (ground (arith, h.0)) small.0
      by_last (u ∷ v ∷ us) h small = by_last (v ∷ us) h.1 small.1

  -- What `advance_time` answers: there is nothing to wait for, or the least time of all clocks is taken:
  -- the greatest that passes over no waiter. The clocks stay ready, and still none is passed over.
  pub data Advanced (s : SimTime) (r : Outcome (SimTime × Option (List TaskWaker) × List ℕ))
      : Type 0 where
    idle : r ≡ ok (s, none, []) → IsCurrent floats max_ns s.clocks → Advanced s r
    advanced :
        (s' : SimTime) (wakers : List TaskWaker) (callbacks : List ℕ)
        → r ≡ ok (s', some wakers, callbacks)
        → IsCurrent floats s'.current_ns s.clocks
        → ((ns : ℕ) → IsCurrent floats ns s.clocks → ns ≤ s'.current_ns)
        → IsCurrent floats s'.current_ns s'.clocks
        → All IsReady s'.clocks
        → Advanced s r

  -- The chosen clock after its time `t` is taken.
  taken : Clock → ClockTick → Clock
  taken c t = record c {
    shared_state = record c.shared_state {
      waiting_times = popped c.shared_state.waiting_times;
      waiting = popped c.shared_state.waiting;
      to_resolve = [];
      now = t;
    };
  }

  module _ (c : Clock) (t : ClockTick) (ready : IsReady c)
      (e : last c.shared_state.waiting_times ≡ some t) where
    falling : FallingTimes c.shared_state.waiting_times
    falling =
        Falling-times c.shared_state.waiting_times c.shared_state.waiting ready.in_order.parallel
          ready.in_order.falling

    taken-IsReady : IsReady (taken c t)
    unfolding taken
    taken-IsReady = record {
      usable = ready.usable;
      in_u64 = All-popped _ c.shared_state.waiting_times ready.in_u64;
      in_order = record {
        parallel =
            length-popped c.shared_state.waiting_times c.shared_state.waiting
              ready.in_order.parallel;
        falling =
            rw
              (entries-popped c.shared_state.waiting_times c.shared_state.waiting
                ready.in_order.parallel)
              (Falling-popped (entries c.shared_state.waiting_times c.shared_state.waiting)
                ready.in_order.falling);
      };
      after =
          not_before (popped c.shared_state.waiting_times)
            (last-first c.shared_state.waiting_times t falling e);
    }
      where
        not_before :
            (us : List ClockTick)
            → All (λ u. tick_lt t u ≡ true) us
            → All (λ u. tick_lt u t ≡ false) us
        not_before [] h = tt
        not_before (u ∷ us) h = (ground (arith, h.0), not_before us h.1)

    advance_clock-taken :
        advance_clock
          (record c.shared_state { waiting_times = popped c.shared_state.waiting_times })
          t
        ≡ ok (
          record c.shared_state {
            waiting_times = popped c.shared_state.waiting_times;
            to_resolve = [];
            now = t;
          },
          c.shared_state.to_resolve,
        )
    unfolding advance_clock
    advance_clock-taken = rw (All-last c.shared_state.waiting_times ready.after e) refl
      where
        All-last :
            (us : List ClockTick)
            → All (λ u. tick_lt u c.shared_state.now ≡ false) us
            → last us ≡ some t
            → tick_lt t c.shared_state.now ≡ false
        All-last [] h p = cc
        All-last (u ∷ []) h p = ground (arith, h.0)
        All-last (u ∷ v ∷ us) h p = All-last (v ∷ us) h.1 p

    advance_to-taken :
        (s : SimTime) (k : ℕ)
        → advance_to floats s c k (some t)
          ≡ ok (
            record {
              current_ns = to_ns floats c.freq_mhz t.tick;
              clocks = set s.clocks k (taken c t);
            },
            last c.shared_state.waiting,
            c.shared_state.to_resolve,
          )
    unfolding taken
    advance_to-taken s k = rw advance_clock-taken refl

  advance_to-Advanced :
      (s : SimTime) (c : Clock) (k : ℕ)
      → IsReady c
      → All IsReady s.clocks
      → IsLeast (c, k) s.clocks
      → ((ns : ℕ) → IsCurrent floats ns s.clocks → ns ≤ time_of_next floats c)
      → (o : Option ClockTick) → last c.shared_state.waiting_times ≡ o
      → Advanced s (advance_to floats s c k o)
  unfolding taken
  advance_to-Advanced s c k ready all_ready least most none e = idle refl (
      subst (λ o. All (λ d. ns_or_max floats c.freq_mhz o ≤ time_of_next floats d) s.clocks) e
        least)
  advance_to-Advanced s c k ready all_ready least most (some t) e =
      let (wakers, woken) =
        last-parallel c.shared_state.waiting_times c.shared_state.waiting ready.in_order.parallel
          e in
      advanced _ wakers _
        (advance_to-taken c t ready e s k
          ∙ ap
              (λ w. ok (
                record {
                  current_ns = to_ns floats c.freq_mhz t.tick;
                  clocks = set s.clocks k (taken c t);
                },
                w,
                c.shared_state.to_resolve,
              ))
              woken)
        (subst (λ o. All (λ d. ns_or_max floats c.freq_mhz o ≤ time_of_next floats d) s.clocks) e
          least)
        (λ ns current. subst (λ o. ns ≤ ns_or_max floats c.freq_mhz o) e (most ns current))
        (All-set _ s.clocks k (taken c t)
          (subst (λ o. All (λ d. ns_or_max floats c.freq_mhz o ≤ time_of_next floats d) s.clocks) e
            least)
          (next_after c t ready (falling c t ready e) e))
        (All-set IsReady s.clocks k (taken c t) all_ready (taken-IsReady c t ready e))

  -- Of clocks that are ready, `advance_time` takes the least time, if there is one: it panics on none,
  -- passes over no waiter, and leaves the clocks ready.
  pub advance_time-Advanced :
      (s : SimTime) → All IsReady s.clocks → Advanced s (advance_time floats s)
  unfolding advance_time
  advance_time-Advanced s ready = go s.clocks refl
    where
      go : (clocks : List Clock) → s.clocks ≡ clocks → Advanced s (advance_first floats s clocks)
      go [] e = idle refl (subst (IsCurrent floats max_ns) (sym e) tt)
      go (c ∷ cs) e =
          let (here, rest) = subst (All IsReady) e ready in
          advance_to-Advanced s (min_from floats c 0 1 cs).0 (min_from floats c 0 1 cs).1
            (min_from-All IsReady c 0 1 cs here rest) ready
            (subst (IsLeast (min_from floats c 0 1 cs)) (sym e) (min_from-IsLeast c 0 1 cs))
            (λ ns current.
              let (current_here, current_rest) = subst (IsCurrent floats ns) e current in
              min_from-All (λ d. ns ≤ time_of_next floats d) c 0 1 cs current_here current_rest)
            _ refl

  -- Clocks that are ready stay ready.
  pub advance_time-Ready :
      (s s' : SimTime) (wakers : Option (List TaskWaker)) (callbacks : List ℕ)
      → All IsReady s.clocks
      → advance_time floats s ≡ ok (s', wakers, callbacks)
      → All IsReady s'.clocks
  advance_time-Ready s s' wakers callbacks ready e = elim (advance_time-Advanced s ready) [
    | idle r _ ↦
        subst (λ (t : SimTime). All IsReady t.clocks) (state (ok_injective (sym r ∙ e))) ready
    | advanced s'' _ _ r _ _ _ ready' ↦
        subst (λ (t : SimTime). All IsReady t.clocks) (state (ok_injective (sym r ∙ e))) ready'
  ]
    where
      state : {p q : SimTime × Option (List TaskWaker) × List ℕ} → p ≡ q → p.0 ≡ q.0
      state e = ap (λ (r : SimTime × Option (List TaskWaker) × List ℕ). r.0) e

  -- For operations on floating-point numbers that keep the order and do not overflow on the times of
  -- ticks (`FloatLaws`), and clocks that are ready (their frequency is usable, their queue in order, and
  -- no waiter is due before the clock's own time): where no waiter is due before the time of the
  -- simulation, `advance_time` returns, that time does not go back, still no waiter is due before it,
  -- and the clocks stay ready.
  pub advance_time-le :
      (s : SimTime)
      → All IsReady s.clocks
      → IsCurrent floats s.current_ns s.clocks
      → (s' : SimTime) × (wakers : Option (List TaskWaker)) × (callbacks : List ℕ) × (advance_time
            floats s
          ≡ ok (s', wakers, callbacks))
        × (s.current_ns ≤ s'.current_ns)
        × IsCurrent floats s'.current_ns s'.clocks
        × All IsReady s'.clocks
  advance_time-le s ready current = elim (advance_time-Advanced s ready) [
    | idle e _ ↦ (s, none, [], e, omega arith, current, ready)
    | advanced s' wakers callbacks e least most current' ready' ↦
        (s', some wakers, callbacks, e, most s.current_ns current, current', ready')
  ]

  -- For operations on floating-point numbers that keep the order and do not overflow on the times of
  -- ticks (`FloatLaws`), and clocks that are ready (their frequency is usable, their queue in order, and
  -- no waiter is due before the clock's own time): where the next waiter of some clock is due before the
  -- time of the simulation, `advance_time` returns, and that time goes back.
  pub advance_time-back :
      (s : SimTime) (k : ℕ) (c : Clock) (t : ClockTick)
      → All IsReady s.clocks
      → get_elem? s.clocks k ≡ some c
      → last c.shared_state.waiting_times ≡ some t
      → to_ns floats c.freq_mhz t.tick < s.current_ns
      → (s' : SimTime) × (wakers : Option (List TaskWaker)) × (callbacks : List ℕ) × (advance_time
            floats s
          ≡ ok (s', wakers, callbacks))
        × (s'.current_ns < s.current_ns)
  advance_time-back s k c t ready at e low = elim (advance_time-Advanced s ready) [
    | idle _ none_waits ↦ absurd (
        omega (
          arith,
          to_ns-lt floats laws c.freq_mhz t.tick c_ready.usable (All-last _ _ c_ready.in_u64 e),
          bound max_ns none_waits,
        ))
    | advanced s' wakers callbacks r least _ _ _ ↦
        (s', some wakers, callbacks, r, omega (arith, bound s'.current_ns least))
  ]
    where
      c_ready : IsReady c
      c_ready = All-get IsReady s.clocks k ready at

      bound : (ns : ℕ) → IsCurrent floats ns s.clocks → ns ≤ to_ns floats c.freq_mhz t.tick
      bound ns h =
          subst (λ o. ns ≤ ns_or_max floats c.freq_mhz o) e
            (All-get (λ d. ns ≤ time_of_next floats d) s.clocks k h at)
