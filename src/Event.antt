-- ===== src/Event.antt =====
-- gwr-engine/src/events: the listeners of an event (waiting.rs), the event that fires once (once.rs)
-- and the one that fires repeatedly (repeated.rs). A waker is the number of its task.
pub mod Laws
use gwr.Base.{
  ℕ, ◌+◌, Option, none, some, List, [], ◌∷◌, ◌++◌, map, Bool, true, false, ◌==◌, ltb, if◌then◌else◌,
  position, remove_at, Outcome, ok, error, already_triggered,
}

pub record ListenerWaker : Type 0 where
  pub id : ℕ
  pub waker : ℕ

pub record Waiting : Type 0 where
  pub listeners : List ListenerWaker
  pub next_listener_id : ℕ

unfoldable pub new_waiting : Waiting
new_waiting = record { listeners = []; next_listener_id = 0 }

unfoldable pub register_listener : Waiting → ℕ → Waiting × ℕ
register_listener w waker = (
  record {
    listeners = w.listeners ++ record { id = w.next_listener_id; waker = waker } ∷ [];
    next_listener_id = w.next_listener_id + 1;
  },
  w.next_listener_id,
)

unfoldable pub remove_listener : Waiting → ℕ → Waiting
remove_listener w listener_id = elim (position (λ l. l.id == listener_id) w.listeners) [
  | some index ↦ record w { listeners = remove_at w.listeners index }
  | none ↦ w
]

-- The wakers that are woken, in order.
unfoldable pub wake_all : Waiting → Waiting × List ℕ
wake_all w = (record w { listeners = [] }, map (λ l. l.waker) w.listeners)

-- `take` of a listener id, and its removal.
unfoldable pub forget : Waiting → Option ℕ → Waiting
unfolding remove_listener
forget w none = w
forget w (some listener_id) = remove_listener w listener_id

-- What is common to the futures of both events: what a poll answers.
pub data Poll {ℓ} (T : Type ℓ) : Type ℓ where
  ready : T → Poll T
  pending : Poll T

pub record OnceState {ℓ} (T : Type ℓ) : Type ℓ where
  pub waiting : Waiting
  pub triggered : Bool
  pub result : T

pub record OnceFuture : Type 0 where
  pub done : Bool
  pub listener_id : Option ℕ

module _ {ℓ} {T : Type ℓ} where
  unfoldable pub new_once : T → OnceState T
  new_once value = record { waiting = new_waiting; triggered = false; result = value }

  unfoldable pub notify_once : OnceState T → Outcome (OnceState T × List ℕ)
  unfolding wake_all
  notify_once s =
      if s.triggered
      then error already_triggered
      else ok
          (record s { triggered = true; waiting = (wake_all s.waiting).0 }, (wake_all s.waiting).1)

  unfoldable pub listen_once : OnceState T → OnceFuture
  listen_once s = record { done = false; listener_id = none }

  unfoldable pub poll_once : OnceState T → OnceFuture → ℕ → OnceState T × OnceFuture × Poll T
  unfolding forget register_listener
  poll_once s f waker =
      if s.triggered then (s, record { done = true; listener_id = none }, ready s.result) else (
        record s { waiting = registered.0 },
        record f { listener_id = some registered.1 },
        pending,
      )
    where
      registered : Waiting × ℕ
      registered = register_listener (forget s.waiting f.listener_id) waker

  unfoldable pub drop_once : OnceState T → OnceFuture → OnceState T
  unfolding forget
  drop_once s f = if f.done then s else record s { waiting = forget s.waiting f.listener_id }

pub record RepeatedState {ℓ} (T : Type ℓ) : Type ℓ where
  pub waiting : Waiting
  pub generation : ℕ
  pub result : T

pub record RepeatedFuture : Type 0 where
  pub done : Bool
  pub listener_id : Option ℕ
  pub observed_generation : ℕ

module _ {ℓ} {T : Type ℓ} where
  unfoldable pub new_repeated : T → RepeatedState T
  new_repeated value = record { waiting = new_waiting; generation = 0; result = value }

  unfoldable pub notify : RepeatedState T → RepeatedState T × List ℕ
  unfolding wake_all
  notify s = (
    record s { generation = s.generation + 1; waiting = (wake_all s.waiting).0 },
    (wake_all s.waiting).1,
  )

  unfoldable pub notify_result : RepeatedState T → T → RepeatedState T × List ℕ
  unfolding notify
  notify_result s result = notify (record s { result = result })

  unfoldable pub listen : RepeatedState T → RepeatedFuture
  listen s = record { done = false; listener_id = none; observed_generation = s.generation }

  unfoldable pub poll :
      RepeatedState T → RepeatedFuture → ℕ → RepeatedState T × RepeatedFuture × Poll T
  unfolding forget register_listener
  poll s f waker =
      if ltb f.observed_generation s.generation
      then (s, record f { done = true; listener_id = none }, ready s.result)
      else (
        record s { waiting = registered.0 },
        record f { listener_id = some registered.1 },
        pending,
      )
    where
      registered : Waiting × ℕ
      registered = register_listener (forget s.waiting f.listener_id) waker

  unfoldable pub drop : RepeatedState T → RepeatedFuture → RepeatedState T
  unfolding forget
  drop s f = if f.done then s else record s { waiting = forget s.waiting f.listener_id }
