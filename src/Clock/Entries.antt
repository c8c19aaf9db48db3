-- ===== src/Clock/Entries.antt =====
-- The two queues of a clock as one list of times with their wakers, latest time first.
use gwr.Base.{
  inl, inr, ℕ, suc, ◌≡◌, refl, ap, Option, none, some, List, [], ◌∷◌, ◌++◌, true, false, ◌==◌,
  if◌then◌else◌, get_or, remove_at, position, shift, length, All, arith, Option-cases, Bool-cases,
}
use gwr.Clock.{
  ClockTick, TaskWaker, tick_eq, tick_lt, add_at, add_waker, remove_at_time, drop_waker,
  remove_waker, is_empty,
}

abbrev pub Entry : Type 0
Entry = ClockTick × List TaskWaker

unfoldable pub entries : List ClockTick → List (List TaskWaker) → List Entry
entries [] waiting = []
entries (t ∷ times) [] = []
entries (t ∷ times) (ws ∷ waiting) = (t, ws) ∷ entries times waiting

-- The wakers of a time.
unfoldable pub wakers_at : ClockTick → List Entry → List TaskWaker
wakers_at t [] = []
wakers_at t ((x, ws) ∷ es) = if tick_eq x t then ws else wakers_at t es

-- Strictly falling times, each with a waker.
abbrev pub Falling : List Entry → Type 0
Falling [] = Unit {0}
Falling ((x, ws) ∷ es) = All (λ e. tick_lt e.0 x ≡ true) es × (is_empty ws ≡ false) × Falling es

-- `schedule` on entries.
unfoldable pub add_entry : ClockTick → TaskWaker → List Entry → List Entry
add_entry t w [] = (t, w ∷ []) ∷ []
add_entry t w ((x, ws) ∷ es) =
    if tick_eq x t
    then (x, ws ++ w ∷ []) ∷ es
    else if tick_lt x t
    then (t, w ∷ []) ∷ (x, ws) ∷ es
    else (x, ws) ∷ add_entry t w es

none_equal :
    (t : ClockTick) (times : List ClockTick) (waiting : List (List TaskWaker))
    → length times ≡ length waiting
    → All (λ e. tick_lt e.0 t ≡ true) (entries times waiting)
    → position (λ x. tick_eq x t) times ≡ none
unfolding entries
none_equal t [] waiting l h = refl
none_equal t (x ∷ times) [] l h = absurd (omega arith)
none_equal t (x ∷ times) (ws ∷ waiting) l h =
    ground (arith, none_equal t times waiting (omega arith) h.1)

pub below-All :
    (x t : ClockTick) (es : List Entry)
    → tick_lt x t ≡ true
    → All (λ e. tick_lt e.0 x ≡ true) es
    → All (λ e. tick_lt e.0 t ≡ true) es
below-All x t [] h a = tt
below-All x t (e ∷ es) h a = (ground arith, below-All x t es h a.1)

-- What stands behind the head is changed as if the head were not there.
add_at-shift :
    (p q : Option ℕ) (t : ClockTick) (w : TaskWaker) (x : ClockTick) (ws : List TaskWaker)
    (times : List ClockTick) (waiting : List (List TaskWaker))
    → add_at (shift p) (shift q) t w (x ∷ times) (ws ∷ waiting)
      ≡ (x ∷ (add_at p q t w times waiting).0, ws ∷ (add_at p q t w times waiting).1)
unfolding add_at
add_at-shift (some i) q t w x ws times waiting = refl
add_at-shift none (some i) t w x ws times waiting = refl
add_at-shift none none t w x ws times waiting = refl

pub add_waker-entries :
    (t : ClockTick) (w : TaskWaker) (times : List ClockTick) (waiting : List (List TaskWaker))
    → length times ≡ length waiting
    → Falling (entries times waiting)
    → (entries (add_waker t w times waiting).0 (add_waker t w times waiting).1
        ≡ add_entry t w (entries times waiting))
      × (length (add_waker t w times waiting).0 ≡ length (add_waker t w times waiting).1)
unfolding entries add_waker add_entry
add_waker-entries t w [] [] l f = (refl, refl)
add_waker-entries t w [] (ws ∷ waiting) l f = absurd (omega arith)
add_waker-entries t w (x ∷ times) [] l f = absurd (omega arith)
add_waker-entries t w (x ∷ times) (ws ∷ waiting) l f = elim (Bool-cases (tick_eq x t)) [
  | inl same ↦ rw (same, add_at) (refl, l)
  | inr other ↦ elim (Bool-cases (tick_lt x t)) [
    | inl before ↦
        rw
          (
            other,
            before,
            none_equal t times waiting (omega arith) (below-All x t _ before f.0),
            add_at,
          )
          (refl, omega arith)
    | inr after ↦
        let (same_entries, same_length) = add_waker-entries t w times waiting (omega arith) f.2 in
        rw (other, after, add_at-shift _ _ t w x ws times waiting)
          (ap (◌∷◌ (x, ws)) same_entries, omega arith)
  ]
]

-- `unschedule` on entries.
unfoldable pub remove_id : ℕ → List TaskWaker → List TaskWaker
remove_id id ws = elim (position (λ w. w.id == id) ws) [
  | none ↦ ws
  | some index ↦ remove_at ws index
]

unfoldable pub remove_entry : ClockTick → ℕ → List Entry → List Entry
remove_entry t id [] = []
remove_entry t id ((x, ws) ∷ es) =
    if tick_eq x t
    then (if is_empty (remove_id id ws) then es else (x, remove_id id ws) ∷ es)
    else (x, ws) ∷ remove_entry t id es

remove_at_time-shift :
    (p : Option ℕ) (id : ℕ) (x : ClockTick) (ws : List TaskWaker) (times : List ClockTick)
    (waiting : List (List TaskWaker))
    → remove_at_time (shift p) id (x ∷ times) (ws ∷ waiting)
      ≡ (x ∷ (remove_at_time p id times waiting).0, ws ∷ (remove_at_time p id times waiting).1)
unfolding remove_at_time
remove_at_time-shift none id x ws times waiting = refl
remove_at_time-shift (some i) id x ws times waiting =
    go (position (λ w. w.id == id) (get_or waiting i []))
  where
    go :
        (p : Option ℕ)
        → (elim p as (λ _. List ClockTick × List (List TaskWaker)) [
          | none ↦ (x ∷ times, ws ∷ waiting)
          | some k ↦ drop_waker (suc i) k (x ∷ times) (ws ∷ waiting)
        ])
          ≡ (
            x
                ∷ (elim p as (λ _. List ClockTick × List (List TaskWaker)) [
                  | none ↦ (times, waiting)
                  | some k ↦ drop_waker i k times waiting
                ]).0,
            ws
                ∷ (elim p as (λ _. List ClockTick × List (List TaskWaker)) [
                  | none ↦ (times, waiting)
                  | some k ↦ drop_waker i k times waiting
                ]).1,
          )
    go none = refl
    go (some k) = elim (Bool-cases (is_empty (remove_at (get_or waiting i []) k))) [
      | inl e ↦ rw (e, drop_waker)
      | inr e ↦ rw (e, drop_waker)
    ]

remove_head :
    (id : ℕ) (x : ClockTick) (ws : List TaskWaker) (times : List ClockTick)
    (waiting : List (List TaskWaker))
    → length times ≡ length waiting
    → is_empty ws ≡ false
    → (entries
          (remove_at_time (some 0) id (x ∷ times) (ws ∷ waiting)).0
          (remove_at_time (some 0) id (x ∷ times) (ws ∷ waiting)).1
        ≡ (if is_empty (remove_id id ws)
            then entries times waiting
            else (x, remove_id id ws) ∷ entries times waiting))
      × (length (remove_at_time (some 0) id (x ∷ times) (ws ∷ waiting)).0
          ≡ length (remove_at_time (some 0) id (x ∷ times) (ws ∷ waiting)).1)
unfolding remove_at_time remove_id entries
remove_head id x ws times waiting l full = elim (Option-cases (position (λ w. w.id == id) ws)) [
  | inl e ↦ rw (e, remove_at_time, remove_id, full) (refl, omega arith)
  | inr (k, e) ↦ elim (Bool-cases (is_empty (remove_at ws k))) [
    | inl gone ↦ rw (e, remove_at_time, remove_id, gone, drop_waker) (refl, omega arith)
    | inr some_left ↦ rw (e, remove_at_time, remove_id, some_left, drop_waker) (refl, omega arith)
  ]
]

pub remove_waker-entries :
    (t : ClockTick) (id : ℕ) (times : List ClockTick) (waiting : List (List TaskWaker))
    → length times ≡ length waiting
    → Falling (entries times waiting)
    → (entries (remove_waker t id times waiting).0 (remove_waker t id times waiting).1
        ≡ remove_entry t id (entries times waiting))
      × (length (remove_waker t id times waiting).0 ≡ length (remove_waker t id times waiting).1)
unfolding entries remove_waker remove_entry
remove_waker-entries t id [] [] l f = (refl, refl)
remove_waker-entries t id [] (ws ∷ waiting) l f = absurd (omega arith)
remove_waker-entries t id (x ∷ times) [] l f = absurd (omega arith)
remove_waker-entries t id (x ∷ times) (ws ∷ waiting) l f = elim (Bool-cases (tick_eq x t)) [
  | inl same ↦ rw same (remove_head id x ws times waiting (omega arith) f.1)
  | inr other ↦
      let (same_entries, same_length) = remove_waker-entries t id times waiting (omega arith) f.2 in
      rw (other, remove_at_time-shift _ id x ws times waiting)
        (ap (◌∷◌ (x, ws)) same_entries, omega arith)
]
