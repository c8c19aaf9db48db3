-- ===== src/Timetable/Checks.antt =====
-- gwr-timetable/src/lib.rs: the checks of the graph, and the memory that a load or a store accesses.
pub mod Tensors
pub mod Access
use gwr.Base.{
  ℕ, zero, suc, ◌+◌, ◌*◌, Option, none, some, List, [], ◌∷◌, length, get_or, Bool, true, false,
  ◌==◌, not, ltb, if◌then◌else◌, Outcome, ok, error, panic, ◌>>=◌, add_u64, mul_u64, invalid_size,
  wrong_length, wrong_count, not_connected,
}
use gwr.Tensor.{Shape, DataType, num_bits, div_ceil}
use gwr.Timetable.{
  MemoryOp, load, store, TensorViewSection, TensorConfigSection, NodeSection, compute, memory,
  tensor, Node, node_at,
}

-- The loop over the dimensions.
unfoldable pub dims_in_range : List ℕ → List ℕ → Shape → Outcome (Unit {0})
dims_in_range [] sizes dims = ok tt
dims_in_range (offset ∷ offsets) [] dims = ok tt
dims_in_range (offset ∷ offsets) (size ∷ sizes) [] = ok tt
dims_in_range (offset ∷ offsets) (size ∷ sizes) (tensor_dim ∷ dims) = add_u64 offset size >>= λ end.
    let rest = dims_in_range offsets sizes dims in
    if ltb tensor_dim end then error invalid_size else rest

unfoldable pub validate_view_in_range :
    Option TensorViewSection → TensorConfigSection → Outcome (Unit {0})
unfolding dims_in_range
validate_view_in_range none tensor_config = ok tt
validate_view_in_range (some view) tensor_config =
    if not (length view.offsets == length tensor_config.shape)
    then error wrong_length
    else if not (length view.shape == length tensor_config.shape)
    then error wrong_length
    else dims_in_range view.offsets view.shape tensor_config.shape

-- `iter().product()`, of the dimensions that are left.
unfoldable pub product_from : ℕ → Shape → Outcome ℕ
product_from acc [] = ok acc
product_from acc (d ∷ dims) = mul_u64 acc d >>= λ acc'. product_from acc' dims

-- The sum that is left to add to a total: of each offset by the product of the dimensions behind it. (The
-- slice of the dimensions behind an offset that has none is out of range.)
unfoldable pub sum_of_strides : ℕ → List ℕ → Shape → Outcome ℕ
unfolding product_from
sum_of_strides total [] dims = ok total
sum_of_strides total (offset ∷ offsets) [] = panic
sum_of_strides total (offset ∷ offsets) (d ∷ dims) = do
  stride ← product_from 1 dims
  elements ← mul_u64 offset stride
  total' ← add_u64 total elements
  sum_of_strides total' offsets dims

unfoldable pub tensor_view_offset : TensorConfigSection → Option TensorViewSection → Outcome ℕ
unfolding sum_of_strides
tensor_view_offset tensor_config none = ok 0
tensor_view_offset tensor_config (some view) = sum_of_strides 0 view.offsets tensor_config.shape

unfoldable pub tensor_view_num_elements : TensorConfigSection → Option TensorViewSection → Outcome ℕ
unfolding product_from
tensor_view_num_elements tensor_config none = product_from 1 tensor_config.shape
tensor_view_num_elements tensor_config (some view) = product_from 1 view.shape

unfoldable pub dtype_num_bytes : DataType → ℕ → Outcome ℕ
unfolding num_bits
dtype_num_bytes dtype num_elements =
    mul_u64 (num_bits dtype) num_elements >>= λ bits. ok (div_ceil bits 8)

-- The address and the number of bytes of an access, for the tensor that it accesses.
unfoldable pub memory_access_address_num_bytes :
    TensorConfigSection → Option TensorViewSection → Outcome (ℕ × ℕ)
unfolding tensor_view_offset tensor_view_num_elements dtype_num_bytes
memory_access_address_num_bytes tensor_config view = do
  offset_num_elements ← tensor_view_offset tensor_config view
  view_num_elements ← tensor_view_num_elements tensor_config view
  offset_num_bytes ← dtype_num_bytes tensor_config.dtype offset_num_elements
  address ← add_u64 tensor_config.addr offset_num_bytes
  num_bytes ← dtype_num_bytes tensor_config.dtype view_num_elements
  ok (address, num_bytes)

-- `let NodeSection::Tensor { config, .. } = .. else { return sim_error!(..) }`
abbrev pub tensor_config_of : NodeSection → Outcome TensorConfigSection
tensor_config_of (compute pe input_views output_views) = error not_connected
tensor_config_of (memory op pe view) = error not_connected
tensor_config_of (tensor config) = ok config

-- The only node on one side of a load or a store; any other number of nodes has been refused.
abbrev pub only_node : List (Option ℕ) → Outcome ℕ
only_node [] = error wrong_count
only_node (none ∷ []) = error not_connected
only_node (some idx ∷ []) = ok idx
only_node (idx ∷ another ∷ more) = error wrong_count

module _ (nodes : List Node) where
  -- The loop over one side of a compute node, beside the views of that side.
  unfoldable pub validate_side :
      List (Option ℕ) → List (Option TensorViewSection) → Outcome (Unit {0})
  unfolding validate_view_in_range
  validate_side [] views = ok tt
  validate_side (none ∷ indices) [] = panic
  validate_side (none ∷ indices) (view ∷ views) = validate_side indices views
  validate_side (some tensor_idx ∷ indices) [] = panic
  validate_side (some tensor_idx ∷ indices) (view ∷ views) = do
    tensor_node ← node_at nodes tensor_idx
    config ← tensor_config_of tensor_node.node_section
    checked ← validate_view_in_range view config
    validate_side indices views

  unfoldable pub validate_compute_node :
      Node → List (Option TensorViewSection) → List (Option TensorViewSection) → Outcome (Unit {0})
  unfolding validate_side
  validate_compute_node node input_views output_views =
      if not (length node.inputs == length input_views)
      then error wrong_count
      else if not (length node.outputs == length output_views)
      then error wrong_count
      else (validate_side node.inputs input_views >>= λ checked.
          validate_side node.outputs output_views)

  -- `validate_load_node` on the inputs, and `validate_store_node` on the outputs.
  unfoldable pub validate_memory_side :
      List (Option ℕ) → Option TensorViewSection → Outcome (Unit {0})
  unfolding validate_view_in_range
  validate_memory_side indices view = do
    tensor_idx ← only_node indices
    tensor_node ← node_at nodes tensor_idx
    config ← tensor_config_of tensor_node.node_section
    validate_view_in_range view config

  unfoldable pub validate_node : Node → NodeSection → Outcome (Unit {0})
  unfolding validate_compute_node validate_memory_side
  validate_node node (compute pe input_views output_views) =
      validate_compute_node node input_views output_views
  validate_node node (memory load pe view) = validate_memory_side node.inputs view
  validate_node node (memory store pe view) = validate_memory_side node.outputs view
  validate_node node (tensor config) = ok tt

  -- The loop over the nodes that are left.
  unfoldable pub validate : List Node → Outcome (Unit {0})
  unfolding validate_node
  validate [] = ok tt
  validate (node ∷ rest) = do checked ← validate_node node node.node_section; validate rest
