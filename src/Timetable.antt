-- ===== src/Timetable.antt =====
-- gwr-timetable/src/lib.rs and types.rs: the graph of tasks and tensors of a timetable. A node is known by
-- its index, and the name of its processing element is resolved to an index. The operation of a
-- computation and the kind of an edge do not enter here.
pub mod Wiring
pub mod Checks
pub mod Scheduler
pub mod Orders
use gwr.Base.{
  ℕ, zero, suc, ◌+◌, ◌-◌, ◌*◌, Option, none, some, List, [], ◌∷◌, ◌++◌, length, get_elem?, get_or,
  set, replicate, Bool, true, false, ◌==◌, not, ltb, leb, if◌then◌else◌, Outcome, ok, error, panic,
  ◌>>=◌, already_connected, is_some,
}
use gwr.Tensor.{Shape, DataType, product}

pub data MemoryOp : Type 0 where
  load store : MemoryOp

pub record TensorViewSection : Type 0 where
  pub offsets : List ℕ
  pub shape : List ℕ

pub record TensorConfigSection : Type 0 where
  pub addr : ℕ
  pub dtype : DataType
  pub shape : Shape

pub data NodeSection : Type 0 where
  compute :
      Option ℕ → List (Option TensorViewSection) → List (Option TensorViewSection) → NodeSection
  memory : MemoryOp → Option ℕ → Option TensorViewSection → NodeSection
  tensor : TensorConfigSection → NodeSection

pub record Node : Type 0 where
  pub node_section : NodeSection
  pub inputs : List (Option ℕ)
  pub outputs : List (Option ℕ)

-- `id_pe`
abbrev pub section_pe : NodeSection → Option ℕ
section_pe (compute pe input_views output_views) = pe
section_pe (memory op pe view) = pe
section_pe (tensor config) = none

abbrev pub is_tensor : NodeSection → Bool
is_tensor (compute pe input_views output_views) = false
is_tensor (memory op pe view) = false
is_tensor (tensor config) = true

-- `nodes[node_idx]`
abbrev pub node_at : List Node → ℕ → Outcome Node
node_at [] i = panic
node_at (node ∷ nodes) zero = ok node
node_at (node ∷ nodes) (suc i) = node_at nodes i

-- An end of an edge with an index: the vector grows up to it, and its place has to be free.
abbrev pub grown : ℕ → List (Option ℕ) → List (Option ℕ)
grown idx edge_indices = edge_indices ++ replicate (idx + 1 - length edge_indices) none

-- An end without an index takes the first free place, or a new one.
unfoldable pub first_free : ℕ → List (Option ℕ) → List (Option ℕ)
first_free node_idx [] = some node_idx ∷ []
first_free node_idx (none ∷ edge_indices) = some node_idx ∷ edge_indices
first_free node_idx (some other ∷ edge_indices) = some other ∷ first_free node_idx edge_indices

unfoldable pub update_edge_indices : ℕ → Option ℕ → List (Option ℕ) → Outcome (List (Option ℕ))
unfolding first_free
update_edge_indices node_idx none edge_indices = ok (first_free node_idx edge_indices)
update_edge_indices node_idx (some idx) edge_indices =
    if is_some (get_or (grown idx edge_indices) idx none)
    then error already_connected
    else ok (set (grown idx edge_indices) idx (some node_idx))

-- An edge, by the indices of its nodes and of its ends.
pub record Edge : Type 0 where
  pub from : ℕ
  pub from_edge : Option ℕ
  pub to : ℕ
  pub to_edge : Option ℕ

-- The body of the loop over the edges. (The check of the file makes every end of an edge a node.)
unfoldable pub wire_edge : List Node → Edge → Outcome (List Node)
unfolding update_edge_indices
wire_edge nodes edge = do
  to_node ← node_at nodes edge.to
  inputs ← update_edge_indices edge.from edge.to_edge to_node.inputs
  let wired = set nodes edge.to (record to_node { inputs = inputs })
  from_node ← node_at wired edge.from
  outputs ← update_edge_indices edge.to edge.from_edge from_node.outputs
  ok (set wired edge.from (record from_node { outputs = outputs }))

unfoldable pub wire : List Node → List Edge → Outcome (List Node)
unfolding wire_edge
wire nodes [] = ok nodes
wire nodes (edge ∷ edges) = do wired ← wire_edge nodes edge; wire wired edges

abbrev pub new_nodes : List NodeSection → List Node
new_nodes [] = []
new_nodes (section ∷ sections) =
    record { node_section = section; inputs = []; outputs = [] } ∷ new_nodes sections
