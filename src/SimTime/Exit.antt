-- ===== src/SimTime/Exit.antt =====
-- Who waits, where `can_exit` lets a run end and where no time is left to advance to.
use gwr.Base.{
  ℕ, u64_mod, ◌<◌, ◌≤◌, ◌≡◌, refl, sym, ap, ◌∙◌, Option, none, some, List, [], ◌∷◌, All, Bool, true,
  false, ◌&&◌, length, arith, ok, ok_injective, true_ne_false,
}
use gwr.Clock.{ClockTick, TaskWaker}
use gwr.SimTime.{
  Floats, Clock, SimTime, max_ns, last, ns_or_max, tasks_can_exit, waiting_can_exit,
  clocks_can_exit, can_exit, advance_time,
}
use gwr.SimTime.Nanos.{FloatLaws, to_ns-lt}
use gwr.SimTime.Waiters.{All-last, IsReady}
use gwr.SimTime.Advance.{IsCurrent, idle, advanced, advance_time-Advanced}

-- Every task that waits for a tick of a clock may be left waiting.
abbrev pub MayBeLeft : Clock → Type 0
MayBeLeft c = All (λ tasks. All (λ (w : TaskWaker). w.can_exit ≡ true) tasks) c.shared_state.waiting

and_left : (a b : Bool) → (a && b) ≡ true → (a ≡ true) × (b ≡ true)
and_left true true e = (refl, refl)
and_left true false e = absurd (true_ne_false (sym e))
and_left false b e = absurd (true_ne_false (sym e))

pub can_exit-MayBeLeft : (s : SimTime) → can_exit s ≡ true → All MayBeLeft s.clocks
unfolding can_exit
can_exit-MayBeLeft s e = in_clocks s.clocks e
  where
    in_tasks :
        (ws : List TaskWaker)
        → tasks_can_exit ws ≡ true
        → All (λ (w : TaskWaker). w.can_exit ≡ true) ws
    in_tasks [] e = tt
    in_tasks (w ∷ ws) e = let (here, rest) = and_left w.can_exit _ e in (here, in_tasks ws rest)

    in_waiting :
        (waiting : List (List TaskWaker))
        → waiting_can_exit waiting ≡ true
        → All (λ tasks. All (λ (w : TaskWaker). w.can_exit ≡ true) tasks) waiting
    in_waiting [] e = tt
    in_waiting (ws ∷ waiting) e =
        let (here, rest) = and_left (tasks_can_exit ws) _ e in
        (in_tasks ws here, in_waiting waiting rest)

    in_clocks : (cs : List Clock) → clocks_can_exit cs ≡ true → All MayBeLeft cs
    in_clocks [] e = tt
    in_clocks (c ∷ cs) e =
        let (here, rest) = and_left (waiting_can_exit c.shared_state.waiting) _ e in
        (in_waiting c.shared_state.waiting here, in_clocks cs rest)

module _ (floats : Floats) (laws : FloatLaws floats) where
  none_waits :
      (c : Clock)
      → IsReady c
      → max_ns ≤ ns_or_max floats c.freq_mhz (last c.shared_state.waiting_times)
      → c.shared_state.waiting ≡ []
  none_waits c ready late =
      by_times c.shared_state.waiting_times c.shared_state.waiting ready.in_order.parallel
        ready.in_u64 (last c.shared_state.waiting_times) refl late
    where
      by_times :
          {A : Type 0} (times : List ClockTick) (waiting : List A)
          → length times ≡ length waiting
          → All (λ t. t.tick < u64_mod) times
          → (o : Option ClockTick) → last times ≡ o
          → max_ns ≤ ns_or_max floats c.freq_mhz o
          → waiting ≡ []
      by_times [] [] same small o e late = refl
      by_times [] (w ∷ waiting) same small o e late = absurd (omega arith)
      by_times (t ∷ []) waiting same small none e late = cc
      by_times (t ∷ u ∷ times) waiting same small none e late = absurd (some_last u times e)
        where
          some_last : (u : ClockTick) (times : List ClockTick) → last (u ∷ times) ≡ none → ⊥
          some_last u [] e = cc
          some_last u (v ∷ times) e = some_last v times e
      by_times (t ∷ times) waiting same small (some last_time) e late = absurd (
          omega (
            arith,
            late,
            to_ns-lt floats laws c.freq_mhz last_time.tick ready.usable
                (All-last (λ (u : ClockTick). u.tick < u64_mod) (t ∷ times) small e),
          ))

  all_may_exit :
      (cs : List Clock) → All IsReady cs → IsCurrent floats max_ns cs → clocks_can_exit cs ≡ true
  all_may_exit [] ready late = refl
  all_may_exit (c ∷ cs) ready late =
      rw (none_waits c ready.0 late.0) (all_may_exit cs ready.1 late.1)

  -- Where `advance_time` has no time to advance to, no task waits.
  pub advance_time-none :
      (s s' : SimTime) (callbacks : List ℕ)
      → All IsReady s.clocks
      → advance_time floats s ≡ ok (s', none, callbacks)
      → can_exit s ≡ true
  unfolding can_exit
  advance_time-none s s' callbacks ready e = elim (advance_time-Advanced floats laws s ready) [
    | idle r late ↦ all_may_exit s.clocks ready late
    | advanced s'' wakers callbacks' r _ _ _ _ ↦ absurd (
        not_none
          (ap (λ (p : SimTime × Option (List TaskWaker) × List ℕ). p.1) (ok_injective (sym r ∙ e))))
  ]
    where
      not_none : {ws : List TaskWaker} → some ws ≡ none → ⊥
      not_none p = cc
