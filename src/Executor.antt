-- ===== src/Executor.antt =====
-- gwr-engine/src/executor.rs: tasks are polled until they are complete; when none is left to poll, time
-- advances to the next waiters. A task is the number of its slot among all that were ever spawned. Futures
-- are not part of the executor: a record says what polling one does, what a callback of a clock does, and
-- in which order the tasks of a step come (as they were queued, or shuffled).
pub mod Laws
pub mod Keeps
use gwr.Base.{
  ℕ, zero, suc, ◌+◌, Option, none, some, List, [], ◌∷◌, ◌++◌, Bool, true, false, if◌then◌else◌,
  length, get_or, set, map, SimError, Outcome, ok, error, panic, ◌>>=◌,
}
use gwr.Clock.{TaskWaker, is_empty}
use gwr.SimTime.{Floats, SimTime, advance_time, can_exit}

-- `Poll<SimResult>`, with the future that is polled next.
pub data Polled (F : Type 0) : Type 0 where
  pending : F → Polled F
  complete : Polled F
  failed : SimError → Polled F

-- What is put among the new tasks: a task that is spawned, or one that is woken.
pub data Queued (F : Type 0) : Type 0 where
  spawn : F → Queued F
  wake : ℕ → Queued F

-- What the futures share: the time, the flag that the simulation has finished, and the rest.
pub record Shared (W : Type 0) : Type 0 where
  pub time : SimTime
  pub finished : Bool
  pub rest : W

pub record Effects (F W : Type 0) : Type 0 where
  pub shared : Shared W
  pub queued : List (Queued F)
  pub result : Polled F

pub record Futures (F W : Type 0) : Type 0 where
  -- Polling a future, by the task whose waker is in its context.
  pub poll : F → ℕ → Shared W → Outcome (Effects F W)
  -- A callback, with the tasks that it wakes.
  pub resolve : ℕ → W → W × List ℕ
  pub order : List ℕ → List ℕ
  pub floats : Floats

pub record ExecutorState (F W : Type 0) : Type 0 where
  pub tasks : List (Option F)
  pub task_queue : List ℕ
  pub new_tasks : List ℕ
  pub shared : Shared W

-- The slot is emptied when its future is ready.
abbrev pub slot_of : {F : Type 0} → Polled F → Option F
slot_of (pending f) = some f
slot_of complete = none
slot_of (failed e) = none

module _ {F W : Type 0} where
  -- `new_tasks.borrow_mut().push(..)`, of tasks that are spawned or woken.
  unfoldable pub push_new : List (Queued F) → ExecutorState F W → ExecutorState F W
  push_new [] s = s
  push_new (spawn f ∷ queued) s =
      push_new queued (record s {
        tasks = s.tasks ++ some f ∷ [];
        new_tasks = s.new_tasks ++ length s.tasks ∷ [];
      })
  push_new (wake i ∷ queued) s = push_new queued (record s { new_tasks = s.new_tasks ++ i ∷ [] })

  abbrev pub result_of : Polled F → ExecutorState F W → Outcome (ExecutorState F W)
  result_of (pending f) s = ok s
  result_of complete s = ok s
  result_of (failed e) s = error e

  abbrev pub wake_all : List TaskWaker → ExecutorState F W → ExecutorState F W
  wake_all wakers s = record s {
    new_tasks = s.new_tasks ++ map (λ (w : TaskWaker). w.waker) wakers;
  }

  abbrev pub woken : ExecutorState F W → Option (List TaskWaker) → ExecutorState F W × Bool
  woken s none = (s, false)
  woken s (some wakers) = (wake_all wakers s, true)

  module _ (futures : Futures F W) where
    -- A task that is complete is ready at once.
    abbrev pub poll_slot : ExecutorState F W → ℕ → Option F → Outcome (ExecutorState F W)
    poll_slot s i none = ok s
    poll_slot s i (some f) = do
      polled ← futures.poll f i s.shared
      result_of polled.result (
          push_new polled.queued
            (record s { tasks = set s.tasks i (slot_of polled.result); shared = polled.shared }))

    unfoldable pub poll_task : ExecutorState F W → ℕ → Outcome (ExecutorState F W)
    unfolding push_new
    poll_task s i = poll_slot s i (get_or s.tasks i none)

    -- The loop of `step`. What it does not reach is dropped.
    unfoldable pub drain : List ℕ → ExecutorState F W → Outcome (ExecutorState F W)
    unfolding poll_task
    drain [] s = ok s
    drain (i ∷ queue) s =
        let rest = poll_task s i >>= drain queue in if s.shared.finished then ok s else rest

    unfoldable pub step : ExecutorState F W → Outcome (ExecutorState F W)
    unfolding drain
    step s =
        drain (futures.order (s.task_queue ++ s.new_tasks))
          (record s { task_queue = []; new_tasks = [] })

    unfoldable pub resolve_all : List ℕ → ExecutorState F W → ExecutorState F W
    resolve_all [] s = s
    resolve_all (r ∷ callbacks) s = resolve_all callbacks (record s {
      shared = record s.shared { rest = (futures.resolve r s.shared.rest).0 };
      new_tasks = s.new_tasks ++ (futures.resolve r s.shared.rest).1;
    })

    -- Time advances; `false` where there is nothing to wait for.
    unfoldable pub advance : ExecutorState F W → Outcome (ExecutorState F W × Bool)
    unfolding advance_time resolve_all
    advance s = do
      advanced ← advance_time futures.floats s.shared.time
      let s' = resolve_all advanced.2 (record s { shared = record s.shared { time = advanced.0 } })
      ok (woken s' advanced.1)

    -- Whether `run` goes on after a step, and with which state.
    unfoldable pub after_step : ExecutorState F W → Outcome (ExecutorState F W × Bool)
    unfolding advance can_exit
    after_step s =
        if s.shared.finished
        then ok (s, false)
        else if is_empty s.new_tasks
        then (if can_exit s.shared.time then ok (s, false) else advance s)
        else ok (s, true)

    -- `none` where the rounds run out.
    unfoldable pub run : ℕ → ExecutorState F W → Outcome (Option (ExecutorState F W))
    unfolding step after_step
    run zero s = ok none
    run (suc rounds) s = do
      stepped ← step s
      next ← after_step stepped
      let again = run rounds next.0
      if next.1 then again else ok (some next.0)
