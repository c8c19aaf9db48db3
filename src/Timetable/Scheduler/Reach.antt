-- ===== src/Timetable/Scheduler/Reach.antt =====
-- The states that a timetable reaches are valid, from its start on.
use gwr.Base.{
  ℕ, ◌+◌, ◌≡◌, refl, sym, ap, ◌∙◌, Option, none, some, List, [], ◌∷◌, Bool, true, false, ◌==◌, ◌&&◌,
  not, if◌then◌else◌, ==-yes, ==-true, true_ne_false, arith, Outcome, ok, error, panic,
  ok_injective, returned, ◌>>=◌,
}
use gwr.Timetable.{Node, section_pe, is_tensor, node_at}
use gwr.Timetable.Scheduler.{Scheduler, is_on, num_unresolved, complete, update_complete_tensor}
use gwr.Timetable.Scheduler.Start.{
  update_complete_tensors, count_of, ready_of, empty_state, initial_count, is_initially_ready,
  initialize_scheduler_state, start,
}
use gwr.Timetable.Scheduler.Marks.{IsCounted, IsSound, num_named}
use gwr.Timetable.Scheduler.Completion.{IsConsistent, IsClosed, IsValid, complete-IsClosed}
use gwr.Timetable.Scheduler.Outputs.{HasTensorOutputs}
use gwr.Timetable.Scheduler.Runs.{
  Reached, started, dispatched, finished, set_task_active-IsValid, set_task_completed-IsValid,
}

-- The answers of `update_complete_tensor`.
abbrev unchanged : Scheduler → Outcome (Bool × Scheduler)
unchanged s = ok (false, s)

abbrev completed_now : ℕ → Scheduler → Outcome (Bool × Scheduler)
completed_now d s = ok (true, complete d s)

first : (a b : Bool) → (a && b) ≡ true → a ≡ true
first true b e = refl
first false b e = e

and_false : (b : Bool) → (b && false) ≡ false
and_false true = refl
and_false false = refl

module _ (nodes : List Node) where
  -- Before the first task nothing is active.
  abbrev IsQuiet : Scheduler → Type 0
  IsQuiet s = ((n : ℕ) → s.active n ≡ false) × IsClosed nodes s

  complete-IsQuiet :
      (d : ℕ) (node : Node) (s : Scheduler)
      → node_at nodes d ≡ ok node
      → s.completed d ≡ false
      → num_unresolved s.completed node.inputs ≡ 0
      → IsQuiet s
      → IsQuiet (complete d s)
  complete-IsQuiet d node s found unfinished resolved (quiet, closed) = (
    λ n. by_test (n == d) (quiet n),
    complete-IsClosed nodes d node found s unfinished resolved closed,
  )
    where
      by_test : (same : Bool) {idle : Bool} → idle ≡ false → (if same then false else idle) ≡ false
      by_test true h = refl
      by_test false h = h

  update_complete_tensor-IsQuiet :
      (d : ℕ) (s : Scheduler) (updated : Bool × Scheduler)
      → update_complete_tensor nodes d s ≡ ok updated
      → IsQuiet s
      → IsQuiet updated.1
  unfolding update_complete_tensor
  update_complete_tensor-IsQuiet d s updated e quiet = by_done (s.completed d) refl e
    where
      by_done :
          (done : Bool)
          → s.completed d ≡ done
          → (if done
              then unchanged s
              else (node_at nodes d >>= λ node.
                  if num_unresolved s.completed node.inputs == 0
                  then completed_now d s
                  else unchanged s))
            ≡ ok updated
          → IsQuiet updated.1
      by_done true f e = rw (sym (ok_injective e)) quiet
      by_done false f e =
          let (node, found, e1) = returned (node_at nodes d) _ e in
          by_resolved node found f (num_unresolved s.completed node.inputs == 0) refl e1
        where
          by_resolved :
              (node : Node)
              → node_at nodes d ≡ ok node
              → s.completed d ≡ false
              → (resolved : Bool) → (num_unresolved s.completed node.inputs == 0) ≡ resolved
              → (if resolved then completed_now d s else unchanged s) ≡ ok updated
              → IsQuiet updated.1
          by_resolved node found f true g e =
              rw (sym (ok_injective e)) (complete-IsQuiet d node s found f (==-true _ _ g) quiet)
          by_resolved node found f false g e = rw (sym (ok_injective e)) quiet

  update_complete_tensors-IsQuiet :
      (i : ℕ) (rest : List Node) (s t : Scheduler)
      → update_complete_tensors nodes i rest s ≡ ok t
      → IsQuiet s
      → IsQuiet t
  unfolding update_complete_tensors
  update_complete_tensors-IsQuiet i [] s t e quiet = rw (sym (ok_injective e)) quiet
  update_complete_tensors-IsQuiet i (node ∷ rest) s t e quiet =
      by_section (is_tensor node.node_section) e
        (λ s' e' quiet'. update_complete_tensors-IsQuiet (i + 1) rest s' t e' quiet')
    where
      by_section :
          (is : Bool)
          → (if is
              then (update_complete_tensor nodes i s >>= λ updated.
                  update_complete_tensors nodes (i + 1) rest updated.1)
              else update_complete_tensors nodes (i + 1) rest s)
            ≡ ok t
          → ((s' : Scheduler)
              → update_complete_tensors nodes (i + 1) rest s' ≡ ok t
              → IsQuiet s'
              → IsQuiet t)
          → IsQuiet t
      by_section false e next = next s e quiet
      by_section true e next =
          let (updated, first, later) = returned (update_complete_tensor nodes i s) _ e in
          next updated.1 later (update_complete_tensor-IsQuiet i s updated first quiet)

  initialize-IsCounted : (s : Scheduler) → IsCounted nodes [] (initialize_scheduler_state nodes s)
  unfolding initialize_scheduler_state initial_count is_initially_ready num_named count_of ready_of
  initialize-IsCounted s n pe node found on unfinished idle =
      (rw (count) (omega arith), ready ∙ ap (λ k. k == 0) (sym count))
    where
      count : initial_count nodes s.completed n ≡ num_unresolved s.completed node.inputs
      count = ap (count_of s.completed n) found ∙ rw (on, unfinished) refl

      ready :
          is_initially_ready nodes s.completed pe n ≡ (num_unresolved s.completed node.inputs == 0)
      ready = ap (ready_of s.completed pe n) found ∙ rw (on, unfinished, ==-yes pe pe refl) refl

  initialize-IsSound :
      (s : Scheduler) → IsQuiet s → IsSound nodes (initialize_scheduler_state nodes s)
  unfolding initialize_scheduler_state is_initially_ready ready_of
  initialize-IsSound s quiet pe n ready = by_node (node_at nodes n) refl ready
    where
      by_node :
          (o : Outcome Node)
          → node_at nodes n ≡ o
          → ready_of s.completed pe n o ≡ true
          → ((node : Node) × (node_at nodes n ≡ ok node) × (section_pe node.node_section ≡ some pe))
            × (s.completed n ≡ false)
            × (s.active n ≡ false)
      by_node (error reason) found e = absurd (true_ne_false (sym e))
      by_node panic found e = absurd (true_ne_false (sym e))
      by_node (ok node) found e =
          by_tests (section_pe node.node_section) refl (s.completed n) refl e
        where
          by_tests :
              (p : Option ℕ)
              → section_pe node.node_section ≡ p
              → (done : Bool) → s.completed n ≡ done
              → (is_on pe p && not done && num_unresolved s.completed node.inputs == 0) ≡ true
              → ((node : Node) × (node_at nodes n ≡ ok node)
                  × (section_pe node.node_section ≡ some pe))
                × (s.completed n ≡ false)
                × (s.active n ≡ false)
          by_tests none on done f e = absurd (true_ne_false (sym e))
          by_tests (some p) on true f e = absurd (
              true_ne_false (
                sym (first (p == pe && not true) (num_unresolved s.completed node.inputs == 0) e)
                ∙ and_false (p == pe)))
          by_tests (some p) on false f e = (
            (
              node,
              found,
              on
                  ∙ ap some (
                      ==-true p pe (
                        first (p == pe) (not false) (
                          first (p == pe && not false) (num_unresolved s.completed node.inputs == 0)
                            e))),
            ),
            f,
            quiet.0 n,
          )

  start-IsValid : (s : Scheduler) → start nodes ≡ ok s → IsValid nodes s
  unfolding start initialize_scheduler_state
  start-IsValid s e =
      let (updated, tensors, made) =
        returned (update_complete_tensors nodes 0 nodes (empty_state nodes)) _ e in
      let quiet =
        update_complete_tensors-IsQuiet 0 nodes (empty_state nodes) updated tensors
          ((λ n. refl), λ n node found done. absurd (true_ne_false (sym done))) in
      rw (sym (ok_injective made))
        (initialize-IsCounted updated, initialize-IsSound updated quiet, quiet.1)

-- Whatever the order in which ready tasks become active and active tasks are completed, for a graph whose
-- edges are listed at both ends and in which computations and stores write tensors: the inputs of
-- every node that is active or complete are complete, the ready tasks of a processing element are
-- exactly its tasks that are neither active nor complete and have only inputs that are complete, and
-- the count of a waiting task is the number of its inputs that are not complete.
pub Reached-IsValid :
    (nodes : List Node)
    → IsConsistent nodes
    → HasTensorOutputs nodes
    → (s : Scheduler) → Reached nodes s
    → IsValid nodes s
Reached-IsValid nodes consistent tensors s (started e) = start-IsValid nodes s e
Reached-IsValid nodes consistent tensors s (dispatched {s = before} pe n reached ready e) =
    set_task_active-IsValid nodes pe n before s ready e
      (Reached-IsValid nodes consistent tensors before reached)
Reached-IsValid nodes consistent tensors s (finished {s = before} n reached busy e) =
    set_task_completed-IsValid nodes consistent tensors n before s busy e
      (Reached-IsValid nodes consistent tensors before reached)
