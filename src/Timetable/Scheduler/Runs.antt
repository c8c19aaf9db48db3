-- ===== src/Timetable/Scheduler/Runs.antt =====
-- The states that a timetable reaches while its processing elements run ready tasks.
use gwr.Base.{
  ℕ, ◌≡◌, ◌≢◌, refl, sym, ap, ◌∙◌, Option, none, some, List, Bool, true, false, ◌==◌, ◌||◌,
  if◌then◌else◌, ==-yes, ==-no, ==-true, true_ne_false, arith, ok, ok_injective, returned,
  Bool-cases, inl, inr,
}
use native.Mathlib.Decide.{ℕ_discrete}
use gwr.Timetable.{Node, section_pe, node_at}
use gwr.Timetable.Scheduler.{
  Scheduler, insert, remove, num_unresolved, complete, take_ready, take_remaining, decrement,
  mark_successors_updated, set_task_active, set_task_completed, set_task_newly_completed,
}
use gwr.Timetable.Scheduler.Start.{start}
use gwr.Timetable.Scheduler.Marks.{IsSound, num_named}
use gwr.Timetable.Scheduler.Completion.{IsConsistent, IsValid, complete-IsValid, insert-false}
use gwr.Timetable.Scheduler.Outputs.{HasTensorOutputs, complete_outputs-IsValid}

-- The states that are reached when ready tasks are made active, and active tasks completed, in any order.
pub data Reached (nodes : List Node) : Scheduler → Type 0 where
  started : {s : Scheduler} → start nodes ≡ ok s → Reached nodes s
  dispatched :
      {s t : Scheduler} (pe n : ℕ)
      → Reached nodes s
      → s.ready pe n ≡ true
      → set_task_active nodes n s ≡ ok t
      → Reached nodes t
  finished :
      {s t : Scheduler} (n : ℕ)
      → Reached nodes s
      → s.active n ≡ true
      → set_task_completed nodes n s ≡ ok t
      → Reached nodes t

remove-true : (n m : ℕ) (f : ℕ → Bool) → remove n f m ≡ true → f m ≡ true
remove-true n m f e = by_test (m == n) e
  where
    by_test : (same : Bool) → (if same then false else f m) ≡ true → f m ≡ true
    by_test true e = absurd (true_ne_false (sym e))
    by_test false e = e

-- A task that leaves the ready tasks changes nothing for the others.
take_ready-true :
    (n : ℕ) (p : Option ℕ) (s : Scheduler) (pe m : ℕ)
    → (take_ready n p s).ready pe m ≡ true
    → s.ready pe m ≡ true
take_ready-true n none s pe m e = e
take_ready-true n (some p) s pe m e = by_test (pe == p) e
  where
    by_test :
        (same : Bool)
        → (if same then remove n (s.ready pe) else s.ready pe) m ≡ true
        → s.ready pe m ≡ true
    by_test true e = remove-true n m (s.ready pe) e
    by_test false e = e

take_ready-other :
    (n : ℕ) (p : Option ℕ) (s : Scheduler) (pe m : ℕ)
    → m ≢ n
    → (take_ready n p s).ready pe m ≡ s.ready pe m
take_ready-other n none s pe m ne = refl
take_ready-other n (some p) s pe m ne = by_test (pe == p)
  where
    by_test : (same : Bool) → (if same then remove n (s.ready pe) else s.ready pe) m ≡ s.ready pe m
    by_test true = rw (==-no m n ne) refl
    by_test false = refl

take_ready-removed :
    (n : ℕ) (pe : ℕ) (s : Scheduler) → (take_ready n (some pe) s).ready pe n ≡ false
take_ready-removed n pe s = rw (==-yes pe pe refl, ==-yes n n refl) refl

take_ready-gone :
    (nodes : List Node) (n : ℕ) (node : Node) (s : Scheduler)
    → node_at nodes n ≡ ok node
    → IsSound nodes s
    → (pe : ℕ) → (take_ready n (section_pe node.node_section) s).ready pe n ≡ false
take_ready-gone nodes n node s found sound pe =
    elim (Bool-cases ((take_ready n (section_pe node.node_section) s).ready pe n)) [
      | inl h ↦
          let ((node', found', on'), unfinished, idle) =
            sound pe n (take_ready-true n (section_pe node.node_section) s pe n h) in
          let here : section_pe node.node_section ≡ some pe =
            ap (λ m. section_pe m.node_section) (ok_injective (sym found ∙ found')) ∙ on' in
          absurd (
            true_ne_false
              (sym h ∙ ap (λ p. (take_ready n p s).ready pe n) here ∙ take_ready-removed n pe s))
      | inr h ↦ h
    ]

take_ready-false :
    (n : ℕ) (p : Option ℕ) (s : Scheduler)
    → ((pe : ℕ) → s.ready pe n ≡ false)
    → (pe : ℕ) → (take_ready n p s).ready pe n ≡ false
take_ready-false n p s gone pe = elim (Bool-cases ((take_ready n p s).ready pe n)) [
  | inl h ↦ absurd (true_ne_false (sym (take_ready-true n p s pe n h) ∙ gone pe))
  | inr h ↦ h
]

module _ (nodes : List Node) where
  -- An active task is not ready anyway.
  take_ready-IsValid :
      (n : ℕ) (p : Option ℕ) (s : Scheduler)
      → s.active n ≡ true
      → IsValid nodes s
      → IsValid nodes (take_ready n p s)
  take_ready-IsValid n p s busy (counted, sound, closed) = (
    (λ m pe node found on unfinished idle.
        let ne : m ≢ n = λ e. true_ne_false (sym busy ∙ ap s.active (sym e) ∙ idle) in
        let (count, exact) = counted m pe node found on unfinished idle in
        (count, take_ready-other n p s pe m ne ∙ exact)),
    (λ pe m ready. sound pe m (take_ready-true n p s pe m ready)),
    closed,
  )

  -- A task that is ready becomes active.
  pub set_task_active-IsValid :
      (pe n : ℕ) (s t : Scheduler)
      → s.ready pe n ≡ true
      → set_task_active nodes n s ≡ ok t
      → IsValid nodes s
      → IsValid nodes t
  unfolding set_task_active num_named
  set_task_active-IsValid pe n s t ready e (counted, sound, closed) =
      let ((node, found, on), unfinished, idle) = sound pe n ready in
      let (count, exact) = counted n pe node found on unfinished idle in
      let resolved : num_unresolved s.completed node.inputs ≡ 0 =
        omega (arith, count, ==-true _ _ (sym exact ∙ ready)) in
      rw (sym (ok_injective (rw found at e))) (
        (λ m pe' node' found' on' unfinished' idle'.
            let (ne, idle_before) = insert-false n m s.active idle' in
            let (count', exact') = counted m pe' node' found' on' unfinished' idle_before in
            (count', take_ready-other n (section_pe node.node_section) s pe' m ne ∙ exact')),
        (λ pe' m ready'.
            let (on', unfinished', idle') =
              sound pe' m (take_ready-true n (section_pe node.node_section) s pe' m ready') in
            (on', unfinished', still_idle node found pe' m ready' idle')),
        λ m node' found' done. elim (ℕ_discrete m n) [
          | yes e' ↦
              same_inputs node (ok_injective (sym found' ∙ ap (node_at nodes) e' ∙ found)) resolved
          | no ne ↦ closed m node' found' (rw (==-no m n ne) at done)
        ],
      )
    where
      same_inputs :
          {m : Node} (node : Node)
          → m ≡ node
          → num_unresolved s.completed node.inputs ≡ 0
          → num_unresolved s.completed m.inputs ≡ 0
      same_inputs node e' resolved = ap (λ k. num_unresolved s.completed k.inputs) e' ∙ resolved

      still_idle :
          (node : Node)
          → node_at nodes n ≡ ok node
          → (pe' m : ℕ) → (take_ready n (section_pe node.node_section) s).ready pe' m ≡ true
          → s.active m ≡ false
          → insert n s.active m ≡ false
      still_idle node found pe' m ready' idle' = elim (ℕ_discrete m n) [
        | yes e' ↦ absurd (
            true_ne_false (
              sym ready'
              ∙ ap ((take_ready n (section_pe node.node_section) s).ready pe') e'
              ∙ take_ready-gone nodes n node s found sound pe'))
        | no ne ↦ rw (==-no m n ne) idle'
      ]

  take_remaining-IsValid :
      (p : Option ℕ) (s t : Scheduler) (n : ℕ)
      → take_remaining p s ≡ ok t
      → IsValid nodes s
      → ((pe : ℕ) → s.ready pe n ≡ false)
      → IsValid nodes t × ((pe : ℕ) → t.ready pe n ≡ false) × (t.completed ≡ s.completed)
  take_remaining-IsValid none s t n e valid gone = rw (sym (ok_injective e)) (valid, gone, refl)
  take_remaining-IsValid (some pe) s t n e valid gone =
      let (left, counted, made) = returned (decrement (s.remaining pe)) _ e in
      rw (sym (ok_injective made)) (valid, gone, refl)

  -- An active task is completed, and so are the tensors that it completes.
  pub set_task_completed-IsValid :
      IsConsistent nodes
      → HasTensorOutputs nodes
      → (n : ℕ) (s t : Scheduler) → s.active n ≡ true
      → set_task_completed nodes n s ≡ ok t
      → IsValid nodes s
      → IsValid nodes t
  unfolding set_task_completed set_task_newly_completed
  set_task_completed-IsValid consistent tensors n s t busy e valid = by_test (s.completed n) refl e
    where
      resolved :
          (node : Node) → node_at nodes n ≡ ok node → num_unresolved s.completed node.inputs ≡ 0
      resolved node found = valid.2 n node found (by_done (s.completed n) (s.active n) busy)
        where
          by_done : (done active : Bool) → active ≡ true → (done || active) ≡ true
          by_done true active a = refl
          by_done false active a = a

      gone : (pe : ℕ) → s.ready pe n ≡ false
      gone pe = elim (Bool-cases (s.ready pe n)) [
        | inl h ↦
            let (found, unfinished, idle) = valid.1 pe n h in
            absurd (true_ne_false (sym busy ∙ idle))
        | inr h ↦ h
      ]

      by_test :
          (done : Bool)
          → s.completed n ≡ done
          → (if done then ok s else set_task_newly_completed nodes n s) ≡ ok t
          → IsValid nodes t
      by_test true f e = rw (sym (ok_injective e)) valid
      by_test false f e =
          let (node, found, e1) = returned (node_at nodes n) _ e in
          let pe = section_pe node.node_section in
          let (counted, left, e2) = returned (take_remaining pe (take_ready n pe s)) _ e1 in
          let (marked, counted_off, e3) =
            returned (mark_successors_updated nodes n (complete n counted)) _ e2 in
          let (ready, not_ready, same) =
            take_remaining-IsValid pe (take_ready n pe s) counted n left
              (take_ready-IsValid n pe s busy valid) (take_ready-false n pe s gone) in
          complete_outputs-IsValid nodes consistent node.node_section node.outputs marked t
            (tensors n node found) e3
            (complete-IsValid nodes consistent n node found counted (ap (λ c. c n) same ∙ f) marked
              not_ready (ap (λ c. num_unresolved c node.inputs) same ∙ resolved node found)
              counted_off ready)
