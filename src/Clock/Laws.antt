-- ===== src/Clock/Laws.antt =====
-- What `schedule` and `unschedule` do to the wakers of every time.
use gwr.Base.{
  inl, inr, ℕ, ◌+◌, ◌≡◌, refl, List, [], ◌∷◌, ◌++◌, Bool, true, false, if◌then◌else◌, length, All,
  arith, Bool-cases,
}
use gwr.Clock.{ClockTick, TaskWaker, ClockState, tick_eq, tick_lt, is_empty, schedule, unschedule}
use gwr.Clock.Entries.{
  below-All, Entry, entries, wakers_at, Falling, add_entry, add_waker-entries, remove_id,
  remove_entry, remove_waker-entries,
}

-- The tasks that wait for a time, in the order in which they are woken.
unfoldable pub waiting_at : ClockState → ClockTick → List TaskWaker
waiting_at s t = wakers_at t (entries s.waiting_times s.waiting)

pub record IsValid (s : ClockState) : Type 0 where
  pub parallel : length s.waiting_times ≡ length s.waiting
  pub falling : Falling (entries s.waiting_times s.waiting)

wakers_none :
    (t : ClockTick) (es : List Entry) → All (λ e. tick_lt e.0 t ≡ true) es → wakers_at t es ≡ []
unfolding wakers_at
wakers_none t [] h = refl
wakers_none t ((x, ws) ∷ es) h = ground (arith, wakers_none t es h.1)

wakers_at-add_entry :
    (t u : ClockTick) (w : TaskWaker) (es : List Entry)
    → Falling es
    → wakers_at u (add_entry t w es)
      ≡ (if tick_eq t u then wakers_at u es ++ w ∷ [] else wakers_at u es)
unfolding wakers_at add_entry
wakers_at-add_entry t u w [] f = refl
wakers_at-add_entry t u w ((x, ws) ∷ es) f = elim (Bool-cases (tick_eq x t)) [
  | inl same ↦ rw same (ground arith)
  | inr other ↦ elim (Bool-cases (tick_lt x t)) [
    | inl before ↦
        rw (other, before) (ground (arith, wakers_none t es (below-All x t es before f.0)))
    | inr after ↦ rw (other, after) (ground (arith, wakers_at-add_entry t u w es f.2))
  ]
]

add_entry-below :
    (t x : ClockTick) (w : TaskWaker) (es : List Entry)
    → tick_lt t x ≡ true
    → All (λ e. tick_lt e.0 x ≡ true) es
    → All (λ e. tick_lt e.0 x ≡ true) (add_entry t w es)
unfolding add_entry
add_entry-below t x w [] h a = (h, tt)
add_entry-below t x w ((y, ws) ∷ es) h a = ground (arith, add_entry-below t x w es h a.1)

append_full : (ws : List TaskWaker) (w : TaskWaker) → is_empty (ws ++ w ∷ []) ≡ false
append_full [] w = refl
append_full (v ∷ ws) w = refl

add_entry-Falling :
    (t : ClockTick) (w : TaskWaker) (es : List Entry) → Falling es → Falling (add_entry t w es)
unfolding add_entry
add_entry-Falling t w [] f = (tt, refl, tt)
add_entry-Falling t w ((x, ws) ∷ es) f = elim (Bool-cases (tick_eq x t)) [
  | inl same ↦ rw same (f.0, append_full ws w, f.2)
  | inr other ↦ elim (Bool-cases (tick_lt x t)) [
    | inl before ↦ rw (other, before) ((before, below-All x t es before f.0), refl, f)
    | inr after ↦
        rw (other, after)
          (add_entry-below t x w es (ground arith) f.0, f.1, add_entry-Falling t w es f.2)
  ]
]

wakers_at-remove_entry :
    (t u : ClockTick) (id : ℕ) (es : List Entry)
    → Falling es
    → wakers_at u (remove_entry t id es)
      ≡ (if tick_eq t u then remove_id id (wakers_at u es) else wakers_at u es)
unfolding wakers_at remove_entry
wakers_at-remove_entry t u id [] f = unfold remove_id in ground arith
wakers_at-remove_entry t u id ((x, ws) ∷ es) f = elim (Bool-cases (tick_eq x t)) [
  | inl same ↦ elim (Bool-cases (is_empty (remove_id id ws))) [
    | inl gone ↦
        rw (same, gone)
          (ground
            (arith, empty_list (remove_id id ws) gone, wakers_none x es f.0, wakers_at_eq x u es))
    | inr some_left ↦ rw (same, some_left) (ground arith)
  ]
  | inr other ↦ rw other (ground (arith, wakers_at-remove_entry t u id es f.2))
]
  where
    empty_list : (ws : List TaskWaker) → is_empty ws ≡ true → ws ≡ []
    empty_list [] e = refl
    empty_list (w ∷ ws) e = cc

    wakers_at_eq :
        (x u : ClockTick) (es : List Entry) → tick_eq x u ≡ true → wakers_at u es ≡ wakers_at x es
    wakers_at_eq x u [] e = refl
    wakers_at_eq x u ((y, ws) ∷ es) e = ground (arith, wakers_at_eq x u es e)

remove_entry-below :
    (t x : ClockTick) (id : ℕ) (es : List Entry)
    → All (λ e. tick_lt e.0 x ≡ true) es
    → All (λ e. tick_lt e.0 x ≡ true) (remove_entry t id es)
unfolding remove_entry
remove_entry-below t x id [] a = tt
remove_entry-below t x id ((y, ws) ∷ es) a = ground (arith, remove_entry-below t x id es a.1)

remove_entry-Falling :
    (t : ClockTick) (id : ℕ) (es : List Entry) → Falling es → Falling (remove_entry t id es)
unfolding remove_entry
remove_entry-Falling t id [] f = tt
remove_entry-Falling t id ((x, ws) ∷ es) f =
    ground (arith, remove_entry-Falling t id es f.2, remove_entry-below t x id es f.0)

-- `schedule` puts the waker behind those of its time, under a new id, and changes no other time; the
-- queue stays in order.
pub schedule_lem :
    (s : ClockState) (t : ClockTick) (waker : ℕ) (can_exit : Bool)
    → IsValid s
    → let (s', id) = schedule s t waker can_exit in
      ((u : ClockTick)
        → waiting_at s' u ≡ (
            if tick_eq t u
            then waiting_at s u ++ record { id = id; waker = waker; can_exit = can_exit } ∷ []
            else waiting_at s u))
      × (id ≡ s.next_waiter_id)
      × (s'.next_waiter_id ≡ id + 1)
      × IsValid s'
unfolding schedule waiting_at
schedule_lem s t waker can_exit v =
    let (same, parallel) = add_waker-entries t w s.waiting_times s.waiting v.parallel v.falling in
    (
      λ u. rw same (wakers_at-add_entry t u w _ v.falling),
      refl,
      refl,
      record { parallel = parallel; falling = rw same (add_entry-Falling t w _ v.falling) },
    )
  where
    w : TaskWaker
    w = record { id = s.next_waiter_id; waker = waker; can_exit = can_exit }

-- `unschedule` removes the first waiter with the id from those of the time, if there is one, and
-- changes no other time; a time with no waiter left is gone, and the queue stays in order.
pub unschedule_lem :
    (s : ClockState) (t : ClockTick) (id : ℕ)
    → IsValid s
    → ((u : ClockTick)
        → waiting_at (unschedule s t id) u
          ≡ (if tick_eq t u then remove_id id (waiting_at s u) else waiting_at s u))
      × IsValid (unschedule s t id)
unfolding unschedule waiting_at
unschedule_lem s t id v =
    let (same, parallel) =
      remove_waker-entries t id s.waiting_times s.waiting v.parallel v.falling in
    (
      λ u. rw same (wakers_at-remove_entry t u id _ v.falling),
      record { parallel = parallel; falling = rw same (remove_entry-Falling t id _ v.falling) },
    )
