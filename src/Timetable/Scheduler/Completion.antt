-- ===== src/Timetable/Scheduler/Completion.antt =====
-- What completing a node keeps.
use gwr.Base.{
  ℕ, ◌+◌, ◌≡◌, ◌≢◌, refl, sym, ap, ap₂, true_ne_false, ◌∙◌, Option, none, some, List, [], ◌∷◌, Bool,
  true, false, ◌==◌, ◌||◌, if◌then◌else◌, ==-yes, ==-no, arith, ok, ok_injective,
}
use native.Mathlib.Decide.{ℕ_discrete}
use gwr.Timetable.{Node, node_at}
use gwr.Timetable.Scheduler.{Scheduler, insert, num_unresolved, complete, mark_successors_updated}
use gwr.Timetable.Scheduler.Marks.{num_named, IsCounted, IsSound}
use gwr.Timetable.Scheduler.Successors.{mark_successors-IsCounted}

num_unresolved-insert :
    (d : ℕ) (completed : ℕ → Bool) (inputs : List (Option ℕ))
    → completed d ≡ false
    → num_unresolved completed inputs
      ≡ num_unresolved (insert d completed) inputs + num_named d inputs
unfolding num_unresolved num_named
num_unresolved-insert d completed [] e = refl
num_unresolved-insert d completed (none ∷ inputs) e = num_unresolved-insert d completed inputs e
num_unresolved-insert d completed (some m ∷ inputs) e = elim (ℕ_discrete m d) [
  | yes same ↦
      rw (same, e, ==-yes d d refl) (omega (arith, num_unresolved-insert d completed inputs e))
  | no ne ↦
      rw (==-no m d ne, ==-no d m (λ h. absurd (ne (sym h))))
        (omega (arith, num_unresolved-insert d completed inputs e))
]

-- More complete nodes leave no more inputs unresolved.
pub num_unresolved_stays :
    (d : ℕ) (completed : ℕ → Bool) (inputs : List (Option ℕ))
    → completed d ≡ false
    → num_unresolved completed inputs ≡ 0
    → num_unresolved (insert d completed) inputs ≡ 0
num_unresolved_stays d completed inputs e resolved =
    omega (arith, num_unresolved-insert d completed inputs e)

module _ (nodes : List Node) where
  -- Each edge is listed at both of its nodes.
  abbrev pub IsConsistent : Type 0
  IsConsistent =
      (n d : ℕ) (node_n node_d : Node)
      → node_at nodes n ≡ ok node_n
      → node_at nodes d ≡ ok node_d
      → num_named n node_d.outputs ≡ num_named d node_n.inputs

  -- A node that is active or complete has only inputs that are complete.
  abbrev pub IsClosed : Scheduler → Type 0
  IsClosed s =
      (n : ℕ) (node : Node)
      → node_at nodes n ≡ ok node
      → (s.completed n || s.active n) ≡ true
      → num_unresolved s.completed node.inputs ≡ 0

  abbrev pub IsValid : Scheduler → Type 0
  IsValid s = IsCounted nodes [] s × IsSound nodes s × IsClosed s

pub insert-false : (d n : ℕ) (s : ℕ → Bool) → insert d s n ≡ false → (n ≢ d) × (s n ≡ false)
insert-false d n s e = by_test (n == d) refl e
  where
    by_test :
        (same : Bool)
        → (n == d) ≡ same
        → (if same then true else s n) ≡ false
        → (n ≢ d) × (s n ≡ false)
    by_test true g e = absurd (true_ne_false e)
    by_test false g e = ((λ h. true_ne_false (sym (==-yes n d h) ∙ g)), e)

module _ (nodes : List Node) (d : ℕ) (node_d : Node) (found_d : node_at nodes d ≡ ok node_d)
    (s : Scheduler) (unfinished_d : s.completed d ≡ false) where
  pub complete-IsClosed :
      num_unresolved s.completed node_d.inputs ≡ 0
      → IsClosed nodes s
      → IsClosed nodes (complete d s)
  complete-IsClosed resolved closed n node found done =
      omega (arith, num_unresolved-insert d s.completed node.inputs unfinished_d, before)
    where
      same_inputs : node ≡ node_d → num_unresolved s.completed node.inputs ≡ 0
      same_inputs e = ap (λ m. num_unresolved s.completed m.inputs) e ∙ resolved

      before : num_unresolved s.completed node.inputs ≡ 0
      before = elim (ℕ_discrete n d) [
        | yes e ↦ same_inputs (ok_injective (sym found ∙ ap (node_at nodes) e ∙ found_d))
        | no ne ↦ closed n node found (rw (==-no n d ne) at done)
      ]

module _ (nodes : List Node) (consistent : IsConsistent nodes) (d : ℕ) (node_d : Node)
    (found_d : node_at nodes d ≡ ok node_d) (s : Scheduler)
    (unfinished_d : s.completed d ≡ false) where
  complete-IsCounted : IsCounted nodes [] s → IsCounted nodes node_d.outputs (complete d s)
  unfolding num_named
  complete-IsCounted counted n pe node found on unfinished idle =
      let (ne, unfinished') = insert-false d n s.completed unfinished in
      let (count, ready) = counted n pe node found on unfinished' (rw (==-no n d ne) at idle) in
      (
        omega (
          arith,
          count,
          num_unresolved-insert d s.completed node.inputs unfinished_d,
          consistent n d node node_d found found_d,
        ),
        ready,
      )

  complete-IsSound :
      ((pe : ℕ) → s.ready pe d ≡ false) → IsSound nodes s → IsSound nodes (complete d s)
  complete-IsSound not_ready sound pe n ready =
      let (node, unfinished, idle) = sound pe n ready in
      let ne : n ≢ d = λ e. true_ne_false (sym ready ∙ ap (s.ready pe) e ∙ not_ready pe) in
      (node, rw (==-no n d ne) unfinished, rw (==-no n d ne) idle)

  -- A node whose inputs are complete, and that is not ready, is completed.
  pub complete-IsValid :
      (t : Scheduler)
      → ((pe : ℕ) → s.ready pe d ≡ false)
      → num_unresolved s.completed node_d.inputs ≡ 0
      → mark_successors_updated nodes d (complete d s) ≡ ok t
      → IsValid nodes s
      → IsValid nodes t
  unfolding mark_successors_updated
  complete-IsValid t not_ready resolved e (counted, sound, closed) =
      let (after_counted, after_sound, progress) =
        mark_successors-IsCounted nodes node_d.outputs (complete d s) t (rw found_d at e)
          (complete-IsCounted counted) (complete-IsSound not_ready sound) in
      (
        after_counted,
        after_sound,
        λ n node found done.
            ap (λ f. num_unresolved f node.inputs) progress.0
            ∙ complete-IsClosed nodes d node_d found_d s unfinished_d resolved closed n node found
                (ap₂ (λ f g. f n || g n) (sym progress.0) (sym progress.1) ∙ done),
      )
