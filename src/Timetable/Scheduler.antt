-- ===== src/Timetable/Scheduler.antt =====
-- gwr-timetable/src/lib.rs: which tasks are ready, active and complete. A set or a map of indices is the
-- function that looks one up; the set of a processing element is listed in ascending order.
pub mod Start
pub mod Marks
pub mod Successors
pub mod Completion
pub mod Outputs
pub mod Runs
pub mod Reach
use gwr.Base.{
  ℕ, zero, suc, ◌+◌, ◌-◌, Option, none, some, List, [], ◌∷◌, length, Bool, true, false, ◌==◌, ◌&&◌,
  ◌||◌, not, if◌then◌else◌, Outcome, ok, error, panic, ◌>>=◌, overflow, not_connected, wrong_count,
  is_some,
}
use gwr.Timetable.{
  MemoryOp, load, store, NodeSection, compute, memory, tensor, Node, section_pe, is_tensor, node_at,
}

pub record Scheduler : Type 0 where
  pub completed : ℕ → Bool
  pub active : ℕ → Bool
  pub ready : ℕ → ℕ → Bool
  pub remaining : ℕ → Option ℕ
  pub unresolved_input_counts : ℕ → ℕ

abbrev pub insert : ℕ → (ℕ → Bool) → ℕ → Bool
insert n s m = if m == n then true else s m

abbrev pub remove : ℕ → (ℕ → Bool) → ℕ → Bool
remove n s m = if m == n then false else s m

-- `map.entry(key)` set to a value that is computed from the value there.
abbrev pub update {ℓ} : {A : Type ℓ} → (ℕ → A) → ℕ → (A → A) → ℕ → A
update f key change k = if k == key then change (f k) else f k

-- `flatten().filter(|idx| !completed.contains(idx)).count()`
unfoldable pub num_unresolved : (ℕ → Bool) → List (Option ℕ) → ℕ
num_unresolved completed [] = 0
num_unresolved completed (none ∷ inputs) = num_unresolved completed inputs
num_unresolved completed (some idx ∷ inputs) =
    (if completed idx then 0 else 1) + num_unresolved completed inputs

abbrev pub is_on : ℕ → Option ℕ → Bool
is_on pe_idx none = false
is_on pe_idx (some pe) = pe == pe_idx

-- What is left of `mark_dependency_completed` once the processing element of the node is known.
unfoldable pub mark_on : ℕ → Option ℕ → Scheduler → Scheduler
mark_on node_idx none s = s
mark_on node_idx (some pe_idx) s =
    if s.completed node_idx || s.active node_idx
    then s
    else if s.unresolved_input_counts node_idx == 0
    then s
    else record s {
      unresolved_input_counts = update s.unresolved_input_counts node_idx (λ n. n - 1);
      ready =
          if s.unresolved_input_counts node_idx - 1 == 0
          then update s.ready pe_idx (insert node_idx)
          else s.ready;
    }

-- A task leaves the ready tasks of its processing element.
abbrev pub without : ℕ → Option ℕ → (ℕ → ℕ → Bool) → ℕ → ℕ → Bool
without node_idx none ready = ready
without node_idx (some pe_idx) ready = update ready pe_idx (remove node_idx)

abbrev pub take_ready : ℕ → Option ℕ → Scheduler → Scheduler
take_ready node_idx pe s = record s { ready = without node_idx pe s.ready }

-- A processing element has one task less to complete.
abbrev pub decrement : Option ℕ → Outcome ℕ
decrement none = error not_connected
decrement (some zero) = error overflow
decrement (some (suc n)) = ok n

abbrev pub take_remaining : Option ℕ → Scheduler → Outcome Scheduler
take_remaining none s = ok s
take_remaining (some pe_idx) s = do
  left ← decrement (s.remaining pe_idx)
  ok (record s { remaining = update s.remaining pe_idx (λ n. some left) })

-- A node is complete, and no longer active.
abbrev pub complete : ℕ → Scheduler → Scheduler
complete node_idx s = record s {
  active = remove node_idx s.active;
  completed = insert node_idx s.completed;
}

-- `get_output_tensor_node_idx().unwrap()`
abbrev pub only_output : List (Option ℕ) → Outcome ℕ
only_output [] = panic
only_output (none ∷ outputs) = panic
only_output (some idx ∷ []) = ok idx
only_output (some idx ∷ another ∷ more) = panic

module _ (nodes : List Node) where
  -- Whether the tensor is complete now and was not before, and the state.
  unfoldable pub update_complete_tensor : ℕ → Scheduler → Outcome (Bool × Scheduler)
  unfolding num_unresolved
  update_complete_tensor tensor_idx s = if s.completed tensor_idx then ok (false, s) else do
    tensor_node ← node_at nodes tensor_idx
    if num_unresolved s.completed tensor_node.inputs == 0
        then ok (true, complete tensor_idx s)
        else ok (false, s)

  unfoldable pub mark_dependency_completed : ℕ → Scheduler → Outcome Scheduler
  unfolding mark_on
  mark_dependency_completed node_idx s = do
    node ← node_at nodes node_idx
    ok (mark_on node_idx (section_pe node.node_section) s)

  -- The loop over the outputs of a node.
  unfoldable pub mark_successors : List (Option ℕ) → Scheduler → Outcome Scheduler
  unfolding mark_dependency_completed
  mark_successors [] s = ok s
  mark_successors (none ∷ outputs) s = mark_successors outputs s
  mark_successors (some output_node_idx ∷ outputs) s = do
    marked ← mark_dependency_completed output_node_idx s
    mark_successors outputs marked

  unfoldable pub mark_successors_updated : ℕ → Scheduler → Outcome Scheduler
  unfolding mark_successors
  mark_successors_updated node_idx s = do
    node ← node_at nodes node_idx
    mark_successors node.outputs s

  unfoldable pub complete_tensor : ℕ → Scheduler → Outcome Scheduler
  unfolding update_complete_tensor mark_successors_updated
  complete_tensor tensor_node_idx s = do
    updated ← update_complete_tensor tensor_node_idx s
    if updated.0 then mark_successors_updated tensor_node_idx updated.1 else ok updated.1

  unfoldable pub complete_tensors : List (Option ℕ) → Scheduler → Outcome Scheduler
  unfolding complete_tensor
  complete_tensors [] s = ok s
  complete_tensors (none ∷ outputs) s = complete_tensors outputs s
  complete_tensors (some tensor_node_idx ∷ outputs) s = do
    updated ← complete_tensor tensor_node_idx s
    complete_tensors outputs updated

  -- The outputs that a completed node completes.
  unfoldable pub complete_outputs : NodeSection → List (Option ℕ) → Scheduler → Outcome Scheduler
  unfolding complete_tensor complete_tensors
  complete_outputs (compute pe input_views output_views) outputs s = complete_tensors outputs s
  complete_outputs (memory load pe view) outputs s = ok s
  complete_outputs (memory store pe view) outputs s = do
    tensor_node_idx ← only_output outputs
    complete_tensor tensor_node_idx s
  complete_outputs (tensor config) outputs s = ok s

  unfoldable pub set_task_active : ℕ → Scheduler → Outcome Scheduler
  set_task_active node_idx s = do
    node ← node_at nodes node_idx
    let taken = take_ready node_idx (section_pe node.node_section) s
    ok (record taken { active = insert node_idx taken.active })

  -- `set_task_completed` of a task that is not complete yet.
  unfoldable pub set_task_newly_completed : ℕ → Scheduler → Outcome Scheduler
  unfolding mark_successors_updated complete_outputs
  set_task_newly_completed node_idx s = do
    node ← node_at nodes node_idx
    let pe = section_pe node.node_section
    counted ← take_remaining pe (take_ready node_idx pe s)
    marked ← mark_successors_updated node_idx (complete node_idx counted)
    complete_outputs node.node_section node.outputs marked

  unfoldable pub set_task_completed : ℕ → Scheduler → Outcome Scheduler
  unfolding set_task_newly_completed
  set_task_completed node_idx s =
      if s.completed node_idx then ok s else set_task_newly_completed node_idx s
