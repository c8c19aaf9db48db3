-- ===== src/Tests/EventTests.antt =====
-- Events with two listeners.
use gwr.Base.{ℕ, ◌≡◌, none, some, List, [], ◌∷◌, false, if◌then◌else◌}
use gwr.Event.{
  ListenerWaker, Waiting, OnceState, OnceFuture, RepeatedState, ready, pending, listen, poll,
}
use gwr.Event.Laws.{Call, notifies, notifies_with, polls, run, notified, last_result, poll-run}

abbrev listeners : List ListenerWaker
listeners = record { id = 0; waker = 40 } ∷ record { id = 2; waker = 42 } ∷ []

abbrev waiting : Waiting
waiting = record { listeners = listeners; next_listener_id = 3 }

abbrev once : OnceState ℕ
once = record { waiting = waiting; triggered = false; result = 6 }

abbrev future : OnceFuture
future = record { done = false; listener_id = some 0 }

abbrev repeated : RepeatedState ℕ
repeated = record { waiting = waiting; generation = 4; result = 6 }

abbrev calls : List (Call ℕ)
calls =
    notifies_with 7
    ∷ polls (record { done = false; listener_id = none; observed_generation = 5 }) 1
    ∷ notifies
    ∷ []

poll-run_example :
    (poll (run repeated calls) (listen repeated) 50).2
    ≡ (if notified calls then ready (last_result repeated.result calls) else pending)
poll-run_example = poll-run repeated calls 50
