-- ===== src/Timetable/Scheduler/Start.antt =====
-- gwr-timetable/src/lib.rs: the state that a timetable starts with, and what it answers.
use gwr.Base.{
  ℕ, ◌+◌, Option, none, some, List, [], ◌∷◌, length, Bool, false, ◌==◌, ◌&&◌, ◌||◌, not,
  if◌then◌else◌, Outcome, ok, error, panic, ◌>>=◌, wrong_count, is_some,
}
use gwr.Timetable.{Node, section_pe, is_tensor, node_at}
use gwr.Timetable.Scheduler.{Scheduler, is_on, num_unresolved, update_complete_tensor}

-- The number of nodes of a processing element that are not complete, from node `i` on.
unfoldable pub num_open : (ℕ → Bool) → ℕ → ℕ → List Node → ℕ
num_open completed pe_idx i [] = 0
num_open completed pe_idx i (node ∷ nodes) =
    (if is_on pe_idx (section_pe node.node_section) && not (completed i) then 1 else 0)
    + num_open completed pe_idx (i + 1) nodes

unfoldable pub num_in : (ℕ → Bool) → ℕ → List Node → ℕ
num_in s i [] = 0
num_in s i (node ∷ nodes) = (if s i then 1 else 0) + num_in s (i + 1) nodes

abbrev pub unwrap_or_default : Option ℕ → ℕ
unwrap_or_default none = 0
unwrap_or_default (some n) = n

-- The number of inputs of a task that are not complete.
unfoldable pub count_of : (ℕ → Bool) → ℕ → Outcome Node → ℕ
unfolding num_unresolved
count_of completed node_idx (error reason) = 0
count_of completed node_idx panic = 0
count_of completed node_idx (ok node) =
    if is_some (section_pe node.node_section) && not (completed node_idx)
    then num_unresolved completed node.inputs
    else 0

unfoldable pub ready_of : (ℕ → Bool) → ℕ → ℕ → Outcome Node → Bool
unfolding num_unresolved
ready_of completed pe_idx node_idx (error reason) = false
ready_of completed pe_idx node_idx panic = false
ready_of completed pe_idx node_idx (ok node) =
    is_on pe_idx (section_pe node.node_section)
    && not (completed node_idx)
    && num_unresolved completed node.inputs == 0

module _ (nodes : List Node) where
  -- The loop over the nodes, from index `i` on.
  unfoldable pub update_complete_tensors : ℕ → List Node → Scheduler → Outcome Scheduler
  unfolding update_complete_tensor
  update_complete_tensors i [] s = ok s
  update_complete_tensors i (node ∷ rest) s =
      if is_tensor node.node_section
      then (update_complete_tensor nodes i s >>= λ updated.
          update_complete_tensors (i + 1) rest updated.1)
      else update_complete_tensors (i + 1) rest s

  -- The set of ready tasks of a processing element, from node `i` on.
  unfoldable pub listed : (ℕ → Bool) → ℕ → List Node → List ℕ
  listed s i [] = []
  listed s i (node ∷ rest) = let later = listed s (i + 1) rest in if s i then i ∷ later else later

  unfoldable pub ready_task_indices : ℕ → Scheduler → Bool × List ℕ
  unfolding listed
  ready_task_indices pe_idx s =
      (unwrap_or_default (s.remaining pe_idx) == 0, listed (s.ready pe_idx) 0 nodes)

  unfoldable pub check_tasks_complete : Scheduler → Outcome (Unit {0})
  unfolding num_in
  check_tasks_complete s =
      if not (num_in s.active 0 nodes == 0)
      then error wrong_count
      else if not (num_in s.completed 0 nodes == length nodes)
      then error wrong_count
      else ok tt

  -- Whether a processing element has nodes.
  unfoldable pub has_nodes : ℕ → List Node → Bool
  has_nodes pe_idx [] = false
  has_nodes pe_idx (node ∷ rest) =
      is_on pe_idx (section_pe node.node_section) || has_nodes pe_idx rest

  unfoldable pub initial_count : (ℕ → Bool) → ℕ → ℕ
  unfolding count_of
  initial_count completed node_idx = count_of completed node_idx (node_at nodes node_idx)

  unfoldable pub is_initially_ready : (ℕ → Bool) → ℕ → ℕ → Bool
  unfolding ready_of
  is_initially_ready completed pe_idx node_idx =
      ready_of completed pe_idx node_idx (node_at nodes node_idx)

  unfoldable pub initialize_scheduler_state : Scheduler → Scheduler
  unfolding num_open has_nodes initial_count is_initially_ready
  initialize_scheduler_state s = record s {
    ready = is_initially_ready s.completed;
    remaining = λ pe_idx.
        if has_nodes pe_idx nodes then some (num_open s.completed pe_idx 0 nodes) else none;
    unresolved_input_counts = initial_count s.completed;
  }

  abbrev pub empty_state : Scheduler
  empty_state = record {
    completed = λ n. false;
    active = λ n. false;
    ready = λ pe n. false;
    remaining = λ pe. none;
    unresolved_input_counts = λ n. 0;
  }

  -- The end of `new`.
  unfoldable pub start : Outcome Scheduler
  unfolding update_complete_tensors initialize_scheduler_state
  start = do
    updated ← update_complete_tensors 0 nodes empty_state
    ok (initialize_scheduler_state updated)
