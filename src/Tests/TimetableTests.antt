-- ===== src/Tests/TimetableTests.antt =====
-- A timetable of two tasks on one processing element, the second of which reads what the first writes.
use gwr.Base.{
  ℕ, ◌+◌, ◌≤◌, ◌≡◌, refl, Option, none, some, List, [], ◌∷◌, false, Outcome, ok, error, panic,
  arith,
}
use gwr.Tensor.{fp16, fp4, product}
use gwr.Timetable.{
  TensorViewSection, TensorConfigSection, NodeSection, compute, tensor, Node, Edge, wire, new_nodes,
}
use gwr.Timetable.Wiring
use gwr.Timetable.Checks.{
  validate, validate_view_in_range, tensor_view_offset, tensor_view_num_elements,
  memory_access_address_num_bytes, dtype_num_bytes,
}
use gwr.Timetable.Checks.Access
use gwr.Timetable.Scheduler.{Scheduler, set_task_active, set_task_completed}
use gwr.Timetable.Scheduler.Start.{start, empty_state, ready_task_indices}
use gwr.Timetable.Scheduler.Completion.{IsConsistent, IsValid}
use gwr.Timetable.Scheduler.Runs.{Reached, started, dispatched, finished}
use gwr.Timetable.Orders

abbrev config : TensorConfigSection
config = record { addr = 0; dtype = fp16; shape = 4 ∷ 6 ∷ [] }

abbrev task : NodeSection
task = compute (some 0) (none ∷ []) (none ∷ [])

abbrev sections : List NodeSection
sections = tensor config ∷ task ∷ tensor config ∷ task ∷ tensor config ∷ []

abbrev edge : ℕ → ℕ → Edge
edge from to = record { from = from; from_edge = none; to = to; to_edge = some 0 }

abbrev edges : List Edge
edges = edge 0 1 ∷ edge 1 2 ∷ edge 2 3 ∷ edge 3 4 ∷ []

abbrev node : NodeSection → List (Option ℕ) → List (Option ℕ) → Node
node section inputs outputs = record { node_section = section; inputs = inputs; outputs = outputs }

abbrev nodes : List Node
nodes =
    node (tensor config) [] (some 1 ∷ [])
    ∷ node task (some 0 ∷ []) (some 2 ∷ [])
    ∷ node (tensor config) (some 1 ∷ []) (some 3 ∷ [])
    ∷ node task (some 2 ∷ []) (some 4 ∷ [])
    ∷ node (tensor config) (some 3 ∷ []) []
    ∷ []

wired : wire (new_nodes sections) edges ≡ ok nodes
unfolding wire
wired = refl

checked : validate nodes nodes ≡ ok tt
unfolding validate
checked = refl

wire-IsConsistent_example : IsConsistent nodes
wire-IsConsistent_example = Wiring.wire-IsConsistent sections edges nodes wired

abbrev result : Outcome Scheduler → Scheduler
result (ok s) = s
result (error reason) = empty_state nodes
result panic = empty_state nodes

abbrev at_start : Scheduler
unfolding start
at_start = result (start nodes)

abbrev first_active : Scheduler
unfolding set_task_active
first_active = result (set_task_active nodes 1 at_start)

abbrev first_done : Scheduler
unfolding set_task_completed
first_done = result (set_task_completed nodes 1 first_active)

second_is_ready : ready_task_indices nodes 0 first_done ≡ (false, 3 ∷ [])
unfolding ready_task_indices first_done first_active at_start
second_is_ready = refl

reached : Reached nodes first_done
unfolding start set_task_active set_task_completed first_done first_active at_start
reached =
    finished {s = first_active} {t = first_done} 1
      (dispatched {s = at_start} {t = first_active} 0 1 (started refl) refl refl) refl refl

wire-Reached-IsValid_example : IsValid nodes first_done
wire-Reached-IsValid_example =
    Orders.wire-Reached-IsValid sections edges nodes wired checked first_done reached

-- Two rows of three of the four rows of six.
abbrev corner : TensorViewSection
corner = record { offsets = 2 ∷ 3 ∷ []; shape = 2 ∷ 3 ∷ [] }

tensor_view_offset_bound_example :
    (offset num_elements : ℕ) × (tensor_view_offset config (some corner) ≡ ok offset)
    × (tensor_view_num_elements config (some corner) ≡ ok num_elements)
    × (offset + num_elements ≤ product config.shape)
tensor_view_offset_bound_example =
    Access.tensor_view_offset_bound config corner (omega arith) in_range
      (omega arith, (omega arith, tt))
  where
    in_range : validate_view_in_range (some corner) config ≡ ok tt
    in_range = unfold validate_view_in_range in refl

memory_access_behind_example :
    (validate_view_in_range (some (Access.last_element 3)) (Access.row_of_4_bits 64 3) ≡ ok tt)
    × (num_bytes : ℕ) × (dtype_num_bytes fp4 (product (Access.row_of_4_bits 64 3).shape)
        ≡ ok num_bytes)
    × (memory_access_address_num_bytes (Access.row_of_4_bits 64 3) (some (Access.last_element 3))
        ≡ ok (64 + num_bytes, 1))
memory_access_behind_example = Access.memory_access_behind 64 3 (omega arith) (omega arith)
