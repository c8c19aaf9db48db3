-- ===== src/SimTime/Waiters.antt =====
-- What is left of the queue of a clock when its next time is taken.
use gwr.Base.{
  ℕ, zero, suc, ◌<◌, u64_mod, ◌≡◌, refl, ap, some, List, [], ◌∷◌, true, false, length, get_elem?,
  set, All, arith,
}
use mathlib.Core.Path.{subst}
use gwr.Clock.{ClockTick, TaskWaker, tick_lt}
use gwr.Clock.Entries.{Entry, entries, Falling}
use gwr.Clock.Laws.{IsValid}
use gwr.SimTime.{Clock, last, popped}
use gwr.SimTime.Nanos.{IsUsable}

pub All-set {ℓ κ} :
    {A : Type ℓ} (P : A → Type κ) (xs : List A) (i : ℕ) (v : A)
    → All P xs
    → P v
    → All P (set xs i v)
All-set P [] i v h p = tt
All-set P (x ∷ xs) zero v h p = (p, h.1)
All-set P (x ∷ xs) (suc i) v h p = (h.0, All-set P xs i v h.1 p)

pub All-popped {ℓ κ} : {A : Type ℓ} (P : A → Type κ) (xs : List A) → All P xs → All P (popped xs)
All-popped P [] h = tt
All-popped P (x ∷ []) h = tt
All-popped P (x ∷ y ∷ ys) h = (h.0, All-popped P (y ∷ ys) h.1)

pub length-popped {ℓ κ} :
    {A : Type ℓ} {B : Type κ} (xs : List A) (ys : List B)
    → length xs ≡ length ys
    → length (popped xs) ≡ length (popped ys)
length-popped [] [] e = refl
length-popped [] (y ∷ ys) e = absurd (omega arith)
length-popped (x ∷ xs) [] e = absurd (omega arith)
length-popped (x ∷ []) (y ∷ []) e = refl
length-popped (x ∷ []) (y ∷ z ∷ ys) e = absurd (omega arith)
length-popped (x ∷ z ∷ xs) (y ∷ []) e = absurd (omega arith)
length-popped (x ∷ z ∷ xs) (y ∷ w ∷ ys) e = ap suc (length-popped (z ∷ xs) (w ∷ ys) (omega arith))

pub entries-popped :
    (times : List ClockTick) (waiting : List (List TaskWaker))
    → length times ≡ length waiting
    → entries (popped times) (popped waiting) ≡ popped (entries times waiting)
unfolding entries
entries-popped [] waiting e = refl
entries-popped (t ∷ times) [] e = absurd (omega arith)
entries-popped (t ∷ []) (w ∷ []) e = refl
entries-popped (t ∷ []) (w ∷ v ∷ waiting) e = absurd (omega arith)
entries-popped (t ∷ u ∷ times) (w ∷ []) e = absurd (omega arith)
entries-popped (t ∷ u ∷ times) (w ∷ v ∷ waiting) e =
    ap (◌∷◌ (t, w)) (entries-popped (u ∷ times) (v ∷ waiting) (omega arith))

pub Falling-popped : (es : List Entry) → Falling es → Falling (popped es)
Falling-popped [] h = tt
Falling-popped (x ∷ []) h = tt
Falling-popped (x ∷ y ∷ ys) h = (All-popped _ (y ∷ ys) h.0, h.1, Falling-popped (y ∷ ys) h.2)

-- The times of the waiters, latest first.
abbrev pub FallingTimes : List ClockTick → Type 0
FallingTimes [] = Unit {0}
FallingTimes (t ∷ times) = All (λ u. tick_lt u t ≡ true) times × FallingTimes times

pub Falling-times :
    (times : List ClockTick) (waiting : List (List TaskWaker))
    → length times ≡ length waiting
    → Falling (entries times waiting)
    → FallingTimes times
unfolding entries
Falling-times [] waiting e h = tt
Falling-times (t ∷ times) [] e h = absurd (omega arith)
Falling-times (t ∷ times) (w ∷ waiting) e h =
    (times_below times waiting (omega arith) h.0, Falling-times times waiting (omega arith) h.2)
  where
    times_below :
        (us : List ClockTick) (ws : List (List TaskWaker))
        → length us ≡ length ws
        → All (λ e. tick_lt e.0 t ≡ true) (entries us ws)
        → All (λ u. tick_lt u t ≡ true) us
    times_below [] ws e h = tt
    times_below (u ∷ us) [] e h = absurd (omega arith)
    times_below (u ∷ us) (w ∷ ws) e h = (h.0, times_below us ws (omega arith) h.1)

-- The next time is before all others.
pub last-first :
    (times : List ClockTick) (t : ClockTick)
    → FallingTimes times
    → last times ≡ some t
    → All (λ u. tick_lt t u ≡ true) (popped times)
last-first [] t h e = tt
last-first (x ∷ []) t h e = tt
last-first (x ∷ y ∷ ys) t h e = (at_last (y ∷ ys) h.0 e, last-first (y ∷ ys) t h.1 e)
  where
    at_last :
        (us : List ClockTick)
        → All (λ u. tick_lt u x ≡ true) us
        → last us ≡ some t
        → tick_lt t x ≡ true
    at_last [] h e = cc
    at_last (u ∷ []) h e = ground (arith, h.0)
    at_last (u ∷ v ∷ us) h e = at_last (v ∷ us) h.1 e

-- A clock of a usable frequency, in order, none of whose waiters is due before its own time. (A tick is
-- a `u64`.)
pub record IsReady (c : Clock) : Type 0 where
  pub usable : IsUsable c.freq_mhz
  pub in_u64 : All (λ t. t.tick < u64_mod) c.shared_state.waiting_times
  pub in_order : IsValid c.shared_state
  pub after : All (λ t. tick_lt t c.shared_state.now ≡ false) c.shared_state.waiting_times

pub All-get {ℓ κ} :
    {A : Type ℓ} (P : A → Type κ) (xs : List A) (k : ℕ) {v : A}
    → All P xs
    → get_elem? xs k ≡ some v
    → P v
All-get P [] k h e = cc
All-get {A = A} P (x ∷ xs) zero h e = subst P (inner e) h.0
  where
    inner : {a b : A} → some a ≡ some b → a ≡ b
    inner p = cc
All-get P (x ∷ xs) (suc k) h e = All-get P xs k h.1 e

pub All-last {ℓ κ} :
    {A : Type ℓ} (P : A → Type κ) (xs : List A) {v : A} → All P xs → last xs ≡ some v → P v
All-last P [] h e = cc
All-last {A = A} P (x ∷ []) h e = subst P (inner e) h.0
  where
    inner : {a b : A} → some a ≡ some b → a ≡ b
    inner p = cc
All-last P (x ∷ y ∷ ys) h e = All-last P (y ∷ ys) h.1 e

-- Two lists of one length both have a last element, or neither has.
pub last-parallel {ℓ κ} :
    {A : Type ℓ} {B : Type κ} (xs : List A) (ys : List B) {x : A}
    → length xs ≡ length ys
    → last xs ≡ some x
    → (y : B) × (last ys ≡ some y)
last-parallel [] ys same e = cc
last-parallel (x ∷ xs) [] same e = absurd (omega arith)
last-parallel (x ∷ []) (y ∷ []) same e = (y, refl)
last-parallel (x ∷ []) (y ∷ z ∷ ys) same e = absurd (omega arith)
last-parallel (x ∷ z ∷ xs) (y ∷ []) same e = absurd (omega arith)
last-parallel (x ∷ z ∷ xs) (y ∷ w ∷ ys) same e = last-parallel (z ∷ xs) (w ∷ ys) (omega arith) e
