-- ===== src/Operators/Maxpool.antt =====
-- gwr-models/src/processing_element/operators/maxpool.rs: the largest element of a window that moves over
-- the dimensions of the input behind the batch and the channel. `add_indices` stands for the choice, by a
-- floating-point number and the random generator, whether to add the output of indices, and `scaled_dim`
-- for a dimension that is scaled by a floating-point number. (The checks give every list of the parameters
-- an entry for every axis.)
pub mod Comparisons
pub mod Views
pub mod Shapes
pub mod RoundTrip
pub mod Reach
pub mod Parts
pub mod Scaled
pub mod Elements
pub mod Split
use gwr.Base.{
  ℕ, zero, suc, ◌+◌, ◌-◌, ◌*◌, ◌/◌, ◌%◌, Option, none, some, List, [], ◌∷◌, ◌++◌, map, length,
  get_or, set, take, drop, any, Bool, true, false, ◌==◌, ◌&&◌, ◌||◌, not, ltb, leb, if◌then◌else◌,
  Outcome, ok, error, ◌>>=◌, ℤ, pos, negsuc, ◌⊖◌, ◌+ℤ◌, clamp, wrong_count, incompatible_shapes,
  invalid_parameter, invalid_output, wrong_dtype, empty_input,
}
use gwr.Tensor.{
  Shape, num_dims, product, get_dim, same_dims, DataType, int64, Tensor, TensorView, DimPartition,
}
use gwr.Tensor.Partition.{partition_across_dimensions}
use gwr.Operators.{
  MachineOp, compare, MachineOpCounts, no_ops, TensorPartition, Operator, map_some, present, rank,
  output_part,
}
use gwr.Operators.Pooling.{
  AutoPad, OperatorMaxPool, new, resolved_auto_pad, resolved_ceil_mode, is_not_set, PoolParams,
  fail_if, normalize_params, effective_kernel, split_padding, resolve_axis, infer_axis,
}

-- `FIRST_SPATIAL_DIM`
abbrev pub first_spatial_dim : ℕ
first_spatial_dim = 2

abbrev pub window_size : PoolParams → ℕ → ℕ
window_size params axis =
    effective_kernel (get_or params.kernel_shape axis 0) (get_or params.dilations axis 0)

-- The loops over the axes, from `axis` on.
unfoldable pub resolve_axes : OperatorMaxPool → PoolParams → ℕ → Shape → Outcome (List (ℕ × ℕ × ℕ))
unfolding resolve_axis
resolve_axes op params axis [] = ok []
resolve_axes op params axis (input_dim ∷ dims) = do
  some_input ← fail_if (input_dim == 0)
  resolved ←
      resolve_axis (resolved_auto_pad op) (resolved_ceil_mode op) input_dim
        (window_size params axis) (get_or params.strides axis 0) (get_or params.pads_begin axis 0)
        (get_or params.pads_end axis 0)
  rest ← resolve_axes op params (axis + 1) dims
  ok (resolved ∷ rest)

unfoldable pub infer_axes : OperatorMaxPool → PoolParams → ℕ → Shape → Outcome Shape
unfolding infer_axis
infer_axes op params axis [] = ok []
infer_axes op params axis (output_dim ∷ dims) = do
  some_output ← fail_if (output_dim == 0)
  rest ← infer_axes op params (axis + 1) dims
  ok (
      infer_axis (resolved_auto_pad op) output_dim (window_size params axis)
        (get_or params.strides axis 0) (get_or params.pads_begin axis 0)
        (get_or params.pads_end axis 0)
      ∷ rest)

abbrev pub output_dims_of : List (ℕ × ℕ × ℕ) → List ℕ
output_dims_of axes = map (λ (r : ℕ × ℕ × ℕ). r.0) axes

unfoldable pub output_shape_and_resolved_params :
    OperatorMaxPool → Shape → Outcome (Shape × PoolParams)
unfolding normalize_params resolve_axes
output_shape_and_resolved_params op input = do
  enough ← fail_if (ltb (num_dims input) 3)
  params ← normalize_params op (num_dims input - first_spatial_dim)
  axes ← resolve_axes op params 0 (drop first_spatial_dim input)
  ok (
    take first_spatial_dim input ++ output_dims_of axes,
    record params {
      pads_begin = map (λ (r : ℕ × ℕ × ℕ). r.1) axes;
      pads_end = map (λ (r : ℕ × ℕ × ℕ). r.2) axes;
    },
  )

unfoldable pub infer_input_shape : OperatorMaxPool → Shape → Outcome Shape
unfolding normalize_params infer_axes
infer_input_shape op output = do
  enough ← fail_if (ltb (num_dims output) 3)
  params ← normalize_params op (num_dims output - first_spatial_dim)
  spatial ← infer_axes op params 0 (drop first_spatial_dim output)
  ok (take first_spatial_dim output ++ spatial)

abbrev pub all_equal_zero : List ℕ → Bool
all_equal_zero [] = true
all_equal_zero (x ∷ xs) = x == 0 && all_equal_zero xs

unfoldable pub can_partition_spatial : OperatorMaxPool → PoolParams → Bool
can_partition_spatial op params =
    is_not_set (resolved_auto_pad op)
    && all_equal_zero params.pads_begin
    && all_equal_zero params.pads_end

pub data ExpansionDirection : Type 0 where
  forward backward : ExpansionDirection

abbrev pub padded : ℕ × ℕ → ℕ × ℕ × ℕ
padded (pad_begin, pad_end) = (1, pad_begin, pad_end)

-- The kernel and the padding that take a dimension of the input, or of the output, to its target.
unfoldable pub maxpool_axis_params : (ℕ → ℕ) → ExpansionDirection → ℕ → ℕ × ℕ × ℕ
maxpool_axis_params scaled_dim forward dim_size =
    let target_dim_size = scaled_dim dim_size in
    if leb target_dim_size dim_size
    then (dim_size - target_dim_size + 1, 0, 0)
    else padded (split_padding (target_dim_size - dim_size))
maxpool_axis_params scaled_dim backward dim_size =
    let target_dim_size = scaled_dim dim_size in
    if leb dim_size target_dim_size
    then (target_dim_size - dim_size + 1, 0, 0)
    else padded (split_padding (dim_size - target_dim_size))

unfoldable pub create_maxpool_op : (ℕ → ℕ) → Shape → ExpansionDirection → Outcome OperatorMaxPool
unfolding maxpool_axis_params new
create_maxpool_op scaled_dim dims direction = do
  enough ← fail_if (ltb (num_dims dims) (first_spatial_dim + 1))
  let axes = map (maxpool_axis_params scaled_dim direction) (drop first_spatial_dim dims)
  let operator = new (map (λ (r : ℕ × ℕ × ℕ). r.0) axes)
  let pads = map (λ (r : ℕ × ℕ × ℕ). r.1) axes ++ map (λ (r : ℕ × ℕ × ℕ). r.2) axes
  ok (if any (λ pad. ltb 0 pad) pads then record operator { pads = some pads } else operator)

unfoldable pub choose_partition_dims : ℕ → Bool → Shape → List ℕ
choose_partition_dims dim allow_spatial [] = []
choose_partition_dims dim allow_spatial (size ∷ dims) =
    let rest = choose_partition_dims (dim + 1) allow_spatial dims in
    if ltb 1 size && (allow_spatial || ltb dim first_spatial_dim) then dim ∷ rest else rest

unfoldable pub validate_inputs {ℓ} : {A : Type ℓ} → List (Option A) → Outcome A
validate_inputs [] = error wrong_count
validate_inputs (input ∷ []) = present input
validate_inputs (input ∷ another ∷ more) = error wrong_count

module _ {ℓ} {A : Type ℓ} (shape_of : A → Shape) where
  abbrev pub checked_indices : A → Option A → Outcome (A × Option A)
  checked_indices output none = ok (output, none)
  checked_indices output (some indices) =
      if same_dims (shape_of indices) (shape_of output)
      then ok (output, some indices)
      else error invalid_output

  unfoldable pub validate_outputs : List (Option A) → Outcome (A × Option A)
  unfolding same_dims
  validate_outputs [] = error wrong_count
  validate_outputs (output ∷ []) = do y ← present output; ok (y, none)
  validate_outputs (output ∷ indices ∷ []) = do y ← present output; checked_indices y indices
  validate_outputs (output ∷ indices ∷ another ∷ more) = error wrong_count

  unfoldable pub validate_input_outputs :
      OperatorMaxPool → List (Option A) → List (Option A) → Outcome (A × A × Option A)
  unfolding validate_inputs validate_outputs output_shape_and_resolved_params same_dims
  validate_input_outputs op inputs outputs = do
    input ← validate_inputs inputs
    found ← validate_outputs outputs
    expected ← output_shape_and_resolved_params op (shape_of input)
    if same_dims expected.0 (shape_of found.0)
        then ok (input, found.0, found.1)
        else error invalid_output

abbrev pub same_dtype : DataType → DataType → Bool
same_dtype a b = rank a == rank b

-- The type of the indices is that of ONNX.
abbrev pub validate_indices_dtype : Option Tensor → Outcome (Unit {0})
validate_indices_dtype none = ok tt
validate_indices_dtype (some indices) =
    if same_dtype indices.dtype int64 then ok tt else error wrong_dtype

unfoldable pub validate_tensor_dtypes : Tensor → Tensor → Option Tensor → Outcome (Unit {0})
validate_tensor_dtypes input output indices =
    if same_dtype input.dtype output.dtype
    then validate_indices_dtype indices
    else error wrong_dtype
