-- ===== src/Timetable/Scheduler/Outputs.antt =====
-- Completing the outputs of a task keeps the state of the scheduler valid.
use gwr.Base.{
  ℕ, ◌≡◌, inl, inr, refl, sym, ap, ◌∙◌, Option, none, some, List, [], ◌∷◌, All, Bool, true, false,
  ◌==◌, if◌then◌else◌, Bool-cases, ==-true, Outcome, ok, panic-ne-ok, ok_injective, returned, ◌>>=◌,
}
use gwr.Timetable.{load, store, NodeSection, compute, memory, tensor, Node, section_pe, node_at}
use gwr.Timetable.Scheduler.{
  Scheduler, num_unresolved, complete, update_complete_tensor, mark_successors_updated,
  complete_tensor, complete_tensors, only_output, complete_outputs,
}
use gwr.Timetable.Scheduler.Completion.{IsConsistent, IsValid, complete-IsValid}

none_ne_some : {a : ℕ} → ¬ (◌≡◌ {A = Option ℕ} none (some a))
none_ne_some e = cc

-- A place of a list of outputs that names a tensor, if it names a node.
abbrev pub IsTensorAt : List Node → Option ℕ → Type 0
IsTensorAt nodes none = Unit
IsTensorAt nodes (some t) =
    (node : Node) × (node_at nodes t ≡ ok node) × (section_pe node.node_section ≡ none)

-- Whether a node completes its outputs: a computation or a store.
abbrev pub completes : NodeSection → Bool
completes (compute pe input_views output_views) = true
completes (memory load pe view) = false
completes (memory store pe view) = true
completes (tensor config) = false

-- The outputs of computations and of stores are tensors.
abbrev pub HasTensorOutputs : List Node → Type 0
HasTensorOutputs nodes =
    (n : ℕ) (node : Node)
    → node_at nodes n ≡ ok node
    → completes node.node_section ≡ true
    → All (IsTensorAt nodes) node.outputs

-- `update_complete_tensor` with the outcomes of its tests.
abbrev pub updated_by : Bool → Bool → ℕ → Scheduler → Outcome (Bool × Scheduler)
updated_by done resolved t s =
    if done then ok (false, s) else if resolved then ok (true, complete t s) else ok (false, s)

pub update_complete_tensor-updated_by :
    (nodes : List Node) (t : ℕ) (s : Scheduler) (node : Node)
    → node_at nodes t ≡ ok node
    → update_complete_tensor nodes t s
      ≡ updated_by (s.completed t) (num_unresolved s.completed node.inputs == 0) t s
unfolding update_complete_tensor
update_complete_tensor-updated_by nodes t s node found = rw found refl

module _ (nodes : List Node) (consistent : IsConsistent nodes) where
  complete_tensor-IsValid :
      (t : ℕ) (s after : Scheduler)
      → IsTensorAt nodes (some t)
      → complete_tensor nodes t s ≡ ok after
      → IsValid nodes s
      → IsValid nodes after
  unfolding complete_tensor
  complete_tensor-IsValid t s after (node, found, no_pe) e valid =
      let (updated, first, rest) = returned (update_complete_tensor nodes t s) _ e in
      by_tests (s.completed t) refl (num_unresolved s.completed node.inputs == 0) refl updated
        (sym (update_complete_tensor-updated_by nodes t s node found) ∙ first) rest
    where
      not_ready : (pe : ℕ) → s.ready pe t ≡ false
      not_ready pe = elim (Bool-cases (s.ready pe t)) [
        | inl h ↦
            let (on_pe, unfinished, idle) = valid.1 pe t h in
            absurd (
              none_ne_some (
                sym no_pe
                ∙ ap (λ m. section_pe m.node_section) (ok_injective (sym found ∙ on_pe.1))
                ∙ on_pe.2))
        | inr h ↦ h
      ]

      by_tests :
          (done : Bool)
          → s.completed t ≡ done
          → (resolved : Bool) → (num_unresolved s.completed node.inputs == 0) ≡ resolved
          → (updated : Bool × Scheduler) → updated_by done resolved t s ≡ ok updated
          → (if updated.0 then mark_successors_updated nodes t updated.1 else ok updated.1)
            ≡ ok after
          → IsValid nodes after
      by_tests true f resolved g updated u e =
          rw (sym (ok_injective (rw (sym (ok_injective u)) at e))) valid
      by_tests false f false g updated u e =
          rw (sym (ok_injective (rw (sym (ok_injective u)) at e))) valid
      by_tests false f true g updated u e =
          complete-IsValid nodes consistent t node found s f after not_ready (==-true _ _ g)
            (rw (sym (ok_injective u)) at e) valid

  complete_tensors-IsValid :
      (outputs : List (Option ℕ)) (s after : Scheduler)
      → All (IsTensorAt nodes) outputs
      → complete_tensors nodes outputs s ≡ ok after
      → IsValid nodes s
      → IsValid nodes after
  unfolding complete_tensors
  complete_tensors-IsValid [] s after tensors e valid = rw (sym (ok_injective e)) valid
  complete_tensors-IsValid (none ∷ outputs) s after (h, tensors) e valid =
      complete_tensors-IsValid outputs s after tensors e valid
  complete_tensors-IsValid (some t ∷ outputs) s after (h, tensors) e valid =
      let (middle, first, rest) = returned (complete_tensor nodes t s) _ e in
      complete_tensors-IsValid outputs middle after tensors rest
        (complete_tensor-IsValid t s middle h first valid)

  pub complete_outputs-IsValid :
      (section : NodeSection) (outputs : List (Option ℕ)) (s after : Scheduler)
      → (completes section ≡ true → All (IsTensorAt nodes) outputs)
      → complete_outputs nodes section outputs s ≡ ok after
      → IsValid nodes s
      → IsValid nodes after
  unfolding complete_outputs
  complete_outputs-IsValid (compute pe input_views output_views) outputs s after tensors e valid =
      complete_tensors-IsValid outputs s after (tensors refl) e valid
  complete_outputs-IsValid (memory load pe view) outputs s after tensors e valid =
      rw (sym (ok_injective e)) valid
  complete_outputs-IsValid (memory store pe view) outputs s after tensors e valid =
      single outputs (tensors refl) e
    where
      single :
          (outputs : List (Option ℕ))
          → All (IsTensorAt nodes) outputs
          → (only_output outputs >>= λ t. complete_tensor nodes t s) ≡ ok after
          → IsValid nodes after
      single [] tensors e = absurd (panic-ne-ok e)
      single (none ∷ outputs) tensors e = absurd (panic-ne-ok e)
      single (some t ∷ []) tensors e = complete_tensor-IsValid t s after tensors.0 e valid
      single (some t ∷ another ∷ more) tensors e = absurd (panic-ne-ok e)
  complete_outputs-IsValid (tensor config) outputs s after tensors e valid =
      rw (sym (ok_injective e)) valid
