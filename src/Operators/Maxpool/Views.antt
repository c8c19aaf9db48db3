-- ===== src/Operators/Maxpool/Views.antt =====
-- The operator on tensors and views: the tensors that it makes, its cost, and its parts.
use gwr.Base.{
  ℕ, ◌+◌, ◌-◌, ◌*◌, Option, none, some, List, [], ◌∷◌, ◌++◌, map, length, get_or, set, Bool, true,
  false, not, ltb, leb, ◌||◌, if◌then◌else◌, Outcome, ok, error, ◌>>=◌, ◌⊖◌, ◌+ℤ◌, clamp,
  empty_input, missing_tensor,
}
use gwr.Tensor.{Shape, int64, Tensor, TensorView, DimPartition}
use gwr.Tensor.Partition.{partition_across_dimensions, apply_dim_partitions}
use gwr.Operators.{
  MachineOp, compare, MachineOpCounts, no_ops, TensorPartition, Operator, map_some, add_offsets,
}
use gwr.Operators.Pooling.{OperatorMaxPool, PoolParams}
use gwr.Operators.Maxpool.{
  first_spatial_dim, window_size, output_shape_and_resolved_params, infer_input_shape,
  can_partition_spatial, choose_partition_dims, validate_inputs, validate_outputs,
  validate_input_outputs, validate_indices_dtype, validate_tensor_dtypes,
}
use gwr.Operators.Maxpool.Comparisons.{maxpool_comparisons}

abbrev pub tensor_shape : Tensor → Shape
tensor_shape t = t.shape

abbrev pub view_shape : TensorView → Shape
view_shape v = v.shape

-- The output of indices, beside the first output.
abbrev pub push_indices : List (Option Tensor) → Outcome (List (Option Tensor) × Bool)
push_indices [] = error missing_tensor
push_indices (none ∷ outputs) = error missing_tensor
push_indices (some output ∷ outputs) = ok (
  (some output ∷ outputs)
      ++ some (record { id = none; dtype = int64; shape = output.shape; addr = 0 }) ∷ [],
  true,
)

unfoldable pub maybe_add_indices_output :
    Bool → List (Option Tensor) → Outcome (List (Option Tensor) × Bool)
maybe_add_indices_output add_indices outputs =
    if leb 2 (length outputs) || not add_indices then ok (outputs, false) else push_indices outputs

unfoldable pub create_outputs :
    OperatorMaxPool → Bool → List (Option Tensor) → Outcome (List (Option Tensor))
unfolding validate_inputs output_shape_and_resolved_params maybe_add_indices_output
create_outputs op add_indices inputs = do
  input ← validate_inputs inputs
  resolved ← output_shape_and_resolved_params op input.shape
  let output : Tensor = record { id = none; dtype = input.dtype; shape = resolved.0; addr = 0 }
  added ← maybe_add_indices_output add_indices (some output ∷ [])
  ok added.0

unfoldable pub create_inputs :
    OperatorMaxPool → List (Option Tensor) → Outcome (List (Option Tensor))
unfolding validate_outputs infer_input_shape
create_inputs op outputs = do
  found ← validate_outputs tensor_shape outputs
  checked ← validate_indices_dtype found.1
  input_shape ← infer_input_shape op found.0.shape
  ok (some (record { id = none; dtype = found.0.dtype; shape = input_shape; addr = 0 }) ∷ [])

unfoldable pub validate_tensors :
    OperatorMaxPool → List (Option Tensor) → List (Option Tensor) → Outcome (Unit {0})
unfolding validate_input_outputs validate_tensor_dtypes
validate_tensors op inputs outputs = do
  found ← validate_input_outputs tensor_shape op inputs outputs
  validate_tensor_dtypes found.0 found.1 found.2

unfoldable pub compute_delay_ticks :
    OperatorMaxPool
    → (ℕ → MachineOp → Outcome ℕ)
    → List (Option TensorView)
    → List (Option TensorView)
    → Outcome ℕ
unfolding maxpool_comparisons
compute_delay_ticks op cycles_for_ops inputs outputs = do
  comparisons ← maxpool_comparisons view_shape op inputs outputs
  cycles_for_ops comparisons compare

unfoldable pub compute_machine_ops :
    OperatorMaxPool → List (Option TensorView) → List (Option TensorView) → Outcome MachineOpCounts
unfolding maxpool_comparisons
compute_machine_ops op inputs outputs = do
  comparisons ← maxpool_comparisons view_shape op inputs outputs
  ok (record no_ops { compares = comparisons })

-- The range of the input, of `size` elements, that the windows of a range of the output reach.
unfoldable pub input_range : PoolParams → ℕ → ℕ → DimPartition → ℕ × ℕ
input_range params axis size partition =
    let stride = get_or params.strides axis 0 in
    let pad_begin = get_or params.pads_begin axis 0 in
    let last_output = partition.offset + partition.len - 1 in
    (
      clamp (partition.offset * stride ⊖ pad_begin) size,
      clamp ((last_output * stride ⊖ pad_begin) +ℤ window_size params axis) size,
    )

-- One round of the loop of `input_partition_for_output_partition`, over the shape and the offsets.
unfoldable pub narrow_input : PoolParams → DimPartition → Shape × List ℕ → Outcome (Shape × List ℕ)
unfolding input_range
narrow_input params partition (shape, offsets) =
    let dim = partition.dim in
    let size = get_or shape dim 0 in
    let range = input_range params (dim - first_spatial_dim) size partition in
    if leb size 1
    then ok (shape, offsets)
    else if ltb dim first_spatial_dim
    then ok (set shape dim partition.len, set offsets dim (get_or offsets dim 0 + partition.offset))
    else if leb range.1 range.0
    then error empty_input
    else ok (set shape dim (range.1 - range.0), set offsets dim (get_or offsets dim 0 + range.0))

unfoldable pub narrow_inputs :
    PoolParams → List DimPartition → Shape × List ℕ → Outcome (Shape × List ℕ)
unfolding narrow_input
narrow_inputs params [] s = ok s
narrow_inputs params (partition ∷ partitions) s = do
  narrowed ← narrow_input params partition s
  narrow_inputs params partitions narrowed

unfoldable pub input_partition_for_output_partition :
    TensorView → List DimPartition → PoolParams → Outcome TensorView
unfolding narrow_inputs
input_partition_for_output_partition input_view partitions params = do
  narrowed ← narrow_inputs params partitions (input_view.shape, input_view.offsets)
  ok (record { tensor = input_view.tensor; shape = narrowed.0; offsets = narrowed.1 })

-- One round of the loop of `partition_views`.
unfoldable pub part_of :
    TensorView
    → TensorView
    → List (Option TensorView)
    → PoolParams
    → List DimPartition
    → Outcome TensorPartition
unfolding apply_dim_partitions add_offsets input_partition_for_output_partition
part_of input_view output_view output_views params spec = do
  let (output_shape, partition_offsets) = apply_dim_partitions output_view.shape spec
  let output_offsets = add_offsets output_view.offsets partition_offsets
  part ← input_partition_for_output_partition input_view spec params
  let narrowed : TensorView → TensorView =
      λ view. record { tensor = view.tensor; shape = output_shape; offsets = output_offsets }
  ok (record { inputs = some part ∷ []; outputs = map (map_some narrowed) output_views })

unfoldable pub collect_parts :
    (List DimPartition → Outcome TensorPartition)
    → List (List DimPartition)
    → Outcome (List TensorPartition)
collect_parts part [] = ok []
collect_parts part (spec ∷ specs) = do
  first ← part spec
  rest ← collect_parts part specs
  ok (first ∷ rest)

unfoldable pub partition_views :
    OperatorMaxPool
    → List (Option TensorView)
    → List (Option TensorView)
    → ℕ
    → Outcome (List TensorPartition)
unfolding validate_input_outputs output_shape_and_resolved_params can_partition_spatial
    choose_partition_dims partition_across_dimensions part_of collect_parts
partition_views op input_views output_views num_partitions = do
  found ← validate_input_outputs view_shape op input_views output_views
  resolved ← output_shape_and_resolved_params op found.0.shape
  let allow_spatial = can_partition_spatial op resolved.1
  let partition_dims = choose_partition_dims 0 allow_spatial found.1.shape
  specs ← partition_across_dimensions found.1.shape partition_dims num_partitions
  collect_parts (part_of found.0 found.1 output_views resolved.1) specs

abbrev pub operator : OperatorMaxPool → Operator
operator op = record {
  validate_tensors = validate_tensors op;
  compute_delay_ticks = compute_delay_ticks op;
  compute_machine_ops = compute_machine_ops op;
  partition_views = partition_views op;
}
