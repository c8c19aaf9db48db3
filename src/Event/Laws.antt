-- ===== src/Event/Laws.antt =====
-- Listeners are woken once and replaced, never piled up; no notification is lost.
use gwr.Base.{
  inl, inr, ℕ, ◌+◌, ◌≤◌, ◌<◌, ◌≡◌, refl, ap, ◌∙◌, Option, none, some, List, [], ◌∷◌, ◌++◌, map,
  Bool, true, false, ◌==◌, if◌then◌else◌, position, remove_at, shift, ok, error, already_triggered,
  arith, Bool-cases,
}
use gwr.Event.{
  ListenerWaker, Waiting, remove_listener, forget, ready, pending, OnceState, OnceFuture,
  notify_once, poll_once, RepeatedState, RepeatedFuture, notify, notify_result, listen, poll, drop,
}

-- The waker that is registered under an id.
unfoldable pub waker_of : ℕ → List ListenerWaker → Option ℕ
waker_of id [] = none
waker_of id (l ∷ ls) = if l.id == id then some l.waker else waker_of id ls

-- Ids from `lo` on, in order, below `hi`.
abbrev pub Rising : ℕ → ℕ → List ListenerWaker → Type 0
Rising lo hi [] = lo ≤ hi
Rising lo hi (l ∷ ls) = (lo ≤ l.id) × (l.id < hi) × Rising (l.id + 1) hi ls

abbrev pub IsValid : Waiting → Type 0
IsValid w = Rising 0 w.next_listener_id w.listeners

Rising-le :
    (lo lo' hi : ℕ) (ls : List ListenerWaker) → lo' ≤ lo → Rising lo hi ls → Rising lo' hi ls
Rising-le lo lo' hi [] h r = omega arith
Rising-le lo lo' hi (l ∷ ls) h r = (omega arith, r.1, r.2)

waker_of_below :
    (lo hi id : ℕ) (ls : List ListenerWaker) → Rising lo hi ls → id < lo → waker_of id ls ≡ none
unfolding waker_of
waker_of_below lo hi id [] r h = refl
waker_of_below lo hi id (l ∷ ls) r h = ground (arith, waker_of_below (l.id + 1) hi id ls r.2)

-- `remove_listener` on the list.
unfoldable pub without : ℕ → List ListenerWaker → List ListenerWaker
without id [] = []
without id (l ∷ ls) = if l.id == id then ls else l ∷ without id ls

remove-without :
    (id : ℕ) (ls : List ListenerWaker)
    → (elim (position (λ l. l.id == id) ls) [ some index ↦ remove_at ls index | none ↦ ls ])
      ≡ without id ls
unfolding without
remove-without id [] = refl
remove-without id (l ∷ ls) = elim (Bool-cases (l.id == id)) [
  | inl here ↦ rw here
  | inr later ↦ rw later (step (position (λ l. l.id == id) ls) (remove-without id ls))
]
  where
    step :
        (p : Option ℕ)
        → (elim p [ some index ↦ remove_at ls index | none ↦ ls ]) ≡ without id ls
        → (elim (shift p) [ some index ↦ remove_at (l ∷ ls) index | none ↦ l ∷ ls ])
          ≡ l ∷ without id ls
    step none e = ap (◌∷◌ l) e
    step (some i) e = ap (◌∷◌ l) e

remove_listener-without :
    (w : Waiting) (id : ℕ) → remove_listener w id ≡ record w { listeners = without id w.listeners }
unfolding remove_listener
remove_listener-without w id =
    step (position (λ l. l.id == id) w.listeners) (remove-without id w.listeners)
  where
    step :
        (p : Option ℕ)
        → (elim p [ some index ↦ remove_at w.listeners index | none ↦ w.listeners ])
          ≡ without id w.listeners
        → (elim p as (λ _. Waiting) [
          | some index ↦ record w { listeners = remove_at w.listeners index }
          | none ↦ w
        ])
          ≡ record w { listeners = without id w.listeners }
    step none e = ap (λ ls. record w { listeners = ls }) e
    step (some i) e = ap (λ ls. record w { listeners = ls }) e

without-Rising :
    (lo hi id : ℕ) (ls : List ListenerWaker) → Rising lo hi ls → Rising lo hi (without id ls)
unfolding without
without-Rising lo hi id [] r = r
without-Rising lo hi id (l ∷ ls) r =
    ground (
      arith,
      without-Rising (l.id + 1) hi id ls r.2,
      Rising-le (l.id + 1) lo hi ls (omega arith) r.2,
    )

waker_of-without :
    (lo hi id j : ℕ) (ls : List ListenerWaker)
    → Rising lo hi ls
    → waker_of j (without id ls) ≡ (if j == id then none else waker_of j ls)
unfolding waker_of without
waker_of-without lo hi id j [] r = ground arith
waker_of-without lo hi id j (l ∷ ls) r =
    ground
      (arith, waker_of-without (l.id + 1) hi id j ls r.2, waker_of_below (l.id + 1) hi j ls r.2)

waker_of-append :
    (lo hi j w : ℕ) (ls : List ListenerWaker)
    → Rising lo hi ls
    → waker_of j (ls ++ record { id = hi; waker = w } ∷ [])
      ≡ (if j == hi then some w else waker_of j ls)
unfolding waker_of
waker_of-append lo hi j w [] r = ground arith
waker_of-append lo hi j w (l ∷ ls) r = ground (arith, waker_of-append (l.id + 1) hi j w ls r.2)

append-Rising :
    (lo hi w : ℕ) (ls : List ListenerWaker)
    → Rising lo hi ls
    → Rising lo (hi + 1) (ls ++ record { id = hi; waker = w } ∷ [])
append-Rising lo hi w [] r = (r, omega arith, omega arith)
append-Rising lo hi w (l ∷ ls) r = (r.0, omega arith, append-Rising (l.id + 1) hi w ls r.2)

-- Whether the future's own listener has the id.
abbrev pub is_own : Option ℕ → ℕ → Bool
is_own none j = false
is_own (some i) j = j == i

forget_lem :
    (w : Waiting) (own : Option ℕ)
    → IsValid w
    → IsValid (forget w own)
      × ((forget w own).next_listener_id ≡ w.next_listener_id)
      × ((j : ℕ)
          → waker_of j (forget w own).listeners
            ≡ (if is_own own j then none else waker_of j w.listeners))
unfolding forget
forget_lem w none v = (v, refl, λ j. refl)
forget_lem w (some i) v = rw (remove_listener-without w i) (
  without-Rising 0 w.next_listener_id i w.listeners v,
  refl,
  λ j. waker_of-without 0 w.next_listener_id i j w.listeners v,
)

module _ {ℓ} {T : Type ℓ} where
  -- A poll of an event that has not fired registers the waker under a new id in place of the
  -- future's earlier listener, and leaves every other listener alone: polling again and again
  -- piles up nothing.
  pub poll_once_pending :
      (s : OnceState T) (f : OnceFuture) (waker : ℕ)
      → IsValid s.waiting
      → s.triggered ≡ false
      → let (s', f', answer) = poll_once s f waker in
        (answer ≡ pending)
        × (f'.listener_id ≡ some s.waiting.next_listener_id)
        × ((j : ℕ)
            → waker_of j s'.waiting.listeners ≡ (
                if j == s.waiting.next_listener_id
                then some waker
                else if is_own f.listener_id j
                then none
                else waker_of j s.waiting.listeners))
        × IsValid s'.waiting
  unfolding poll_once
  poll_once_pending s f waker v quiet =
      let (v', same_id, others) = forget_lem s.waiting f.listener_id v in
      rw (quiet, same_id)
        (
          refl,
          refl,
          (λ j.
              waker_of-append 0 (s.waiting.next_listener_id) j waker
                (forget s.waiting f.listener_id).listeners (rw same_id at v')
              ∙ rw (others j)),
          append-Rising 0 (s.waiting.next_listener_id) waker
              (forget s.waiting f.listener_id).listeners (rw same_id at v'),
        )

  -- An event fires once: the first notification wakes every listener, in the order in which they
  -- registered, and leaves none; from then on every poll is ready with the event's value, and a
  -- further notification is an error.
  pub notify_once_lem :
      (s : OnceState T)
      → (s.triggered ≡ true → notify_once s ≡ error already_triggered)
        × (s.triggered ≡ false
            → (s' : OnceState T) × (notify_once s ≡ ok (s', map (λ l. l.waker) s.waiting.listeners))
              × (s'.waiting.listeners ≡ [])
              × (notify_once s' ≡ error already_triggered)
              × ((f : OnceFuture) (waker : ℕ) → (poll_once s' f waker).2 ≡ ready s.result))
  unfolding notify_once poll_once
  notify_once_lem s = (
    (λ e. rw e),
    λ e. (
      record s { triggered = true; waiting = record (s.waiting) { listeners = [] } },
      rw e,
      refl,
      refl,
      λ f waker. refl,
    ),
  )

-- What may happen to a repeated event between a call of `listen` and a poll.
pub data Call {ℓ} (T : Type ℓ) : Type ℓ where
  notifies : Call T
  notifies_with : T → Call T
  polls : RepeatedFuture → ℕ → Call T
  drops : RepeatedFuture → Call T

module _ {ℓ} {T : Type ℓ} where
  unfoldable pub run : RepeatedState T → List (Call T) → RepeatedState T
  run s [] = s
  run s (notifies ∷ calls) = run (notify s).0 calls
  run s (notifies_with r ∷ calls) = run (notify_result s r).0 calls
  run s (polls f w ∷ calls) = run (poll s f w).0 calls
  run s (drops f ∷ calls) = run (drop s f) calls

  -- Whether there is a notification, and the value of the last that has one.
  unfoldable pub notified : List (Call T) → Bool
  notified [] = false
  notified (notifies ∷ calls) = true
  notified (notifies_with r ∷ calls) = true
  notified (polls f w ∷ calls) = notified calls
  notified (drops f ∷ calls) = notified calls

  unfoldable pub last_result : T → List (Call T) → T
  last_result r [] = r
  last_result r (notifies ∷ calls) = last_result r calls
  last_result r (notifies_with q ∷ calls) = last_result q calls
  last_result r (polls f w ∷ calls) = last_result r calls
  last_result r (drops f ∷ calls) = last_result r calls

  poll_frame :
      (s : RepeatedState T) (f : RepeatedFuture) (w : ℕ)
      → ((poll s f w).0.generation ≡ s.generation) × ((poll s f w).0.result ≡ s.result)
  unfolding poll
  poll_frame s f w = ground arith

  drop_frame :
      (s : RepeatedState T) (f : RepeatedFuture)
      → ((drop s f).generation ≡ s.generation) × ((drop s f).result ≡ s.result)
  unfolding drop
  drop_frame s f = ground arith

  run_frame :
      (s : RepeatedState T) (calls : List (Call T))
      → (s.generation ≤ (run s calls).generation)
        × (notified calls ≡ true → s.generation < (run s calls).generation)
        × (notified calls ≡ false → (run s calls).generation ≡ s.generation)
        × ((run s calls).result ≡ last_result s.result calls)
  unfolding run notified last_result notify notify_result
  run_frame s [] = (omega arith, (λ e. cc), (λ e. refl), refl)
  run_frame s (notifies ∷ calls) = ground (arith, run_frame (notify s).0 calls)
  run_frame s (notifies_with r ∷ calls) = ground (arith, run_frame (notify_result s r).0 calls)
  run_frame s (polls f w ∷ calls) = ground (arith, run_frame (poll s f w).0 calls, poll_frame s f w)
  run_frame s (drops f ∷ calls) = ground (arith, run_frame (drop s f) calls, drop_frame s f)

  -- No notification is lost: a future that was made before any number of calls is ready exactly if
  -- one of them was a notification, and then with the value that was set last.
  pub poll-run :
      (s : RepeatedState T) (calls : List (Call T)) (waker : ℕ)
      → (poll (run s calls) (listen s) waker).2
        ≡ (if notified calls then ready (last_result s.result calls) else pending)
  unfolding poll listen
  poll-run s calls waker = ground (arith, run_frame s calls)
