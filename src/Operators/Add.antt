-- ===== src/Operators/Add.antt =====
-- gwr-models/src/processing_element/operators/add.rs: the element-wise sum of two tensors, of which one
-- is broadcast to the shape of the other. The answers of the random generator are a function of the
-- number of the draw; whether a draw of probability 0 or 1 can go one way only is left open.
pub mod Broadcast
pub mod Parts
use gwr.Base.{
  ℕ, zero, suc, ◌+◌, ◌-◌, max, Option, none, some, List, [], ◌∷◌, map, Bool, true, false, ◌==◌,
  ◌&&◌, ltb, if◌then◌else◌, Outcome, ok, error, panic, ◌>>=◌, wrong_count, missing_tensor,
  incompatible_shapes, invalid_output,
}
use gwr.Tensor.{
  Shape, num_dims, num_elements, get_dim, same_dims, Tensor, TensorView, DimPartition,
  from_output_partitions_on_view,
}
use gwr.Tensor.Partition.{partition_across_dimensions}
use gwr.Operators.{
  MachineOp, add, MachineOpCounts, no_ops, TensorPartition, Operator, map_some, broadcast_dim,
  output_of, present, validate_outputs, each_dim, choose_partition_dims, output_part,
}

unfoldable pub broadcast_shapes : Shape → Shape → Outcome Shape
unfolding get_dim each_dim
broadcast_shapes a b = each_dim (λ i. broadcast_dim (get_dim a rank i) (get_dim b rank i)) 0 rank
  where
    rank : ℕ
    rank = max (num_dims a) (num_dims b)

-- The first loop of `choose_input_shape`, from draw `n` on, with the number of the next draw.
unfoldable pub shrink_dims : (ℕ → Bool) → ℕ → Shape → Shape × ℕ
shrink_dims draws n [] = ([], n)
shrink_dims draws n (d ∷ dims) =
    if ltb 1 d
    then (
      (if draws n then 1 else d) ∷ (shrink_dims draws (n + 1) dims).0,
      (shrink_dims draws (n + 1) dims).1,
    )
    else (d ∷ (shrink_dims draws n dims).0, (shrink_dims draws n dims).1)

-- Its second loop.
unfoldable pub drop_outer : (ℕ → Bool) → ℕ → Shape → Shape
drop_outer draws n [] = []
drop_outer draws n (d ∷ []) = d ∷ []
drop_outer draws n (d ∷ e ∷ dims) =
    let dropped = drop_outer draws (n + 1) (e ∷ dims) in
    if d == 1 && draws n then dropped else d ∷ e ∷ dims

unfoldable pub choose_input_shape : (ℕ → Bool) → ℕ → Shape → Shape
unfolding shrink_dims drop_outer
choose_input_shape draws n dims =
    drop_outer draws (shrink_dims draws n dims).1 (shrink_dims draws n dims).0

unfoldable pub validate_inputs {ℓ} : {A : Type ℓ} → List (Option A) → Outcome (A × A)
validate_inputs (a ∷ b ∷ []) = do input_a ← present a; input_b ← present b; ok (input_a, input_b)
validate_inputs [] = error wrong_count
validate_inputs (a ∷ []) = error wrong_count
validate_inputs (a ∷ b ∷ c ∷ more) = error wrong_count

module _ {ℓ} {A : Type ℓ} (shape_of : A → Shape) where
  unfoldable pub validate_input_outputs : List (Option A) → List (Option A) → Outcome (A × A × A)
  unfolding validate_inputs validate_outputs broadcast_shapes same_dims
  validate_input_outputs inputs outputs = do
    operands ← validate_inputs inputs
    output ← validate_outputs outputs
    expected ← broadcast_shapes (shape_of operands.0) (shape_of operands.1)
    if same_dims expected (shape_of output)
        then ok (operands.0, operands.1, output)
        else error invalid_output

  unfoldable pub num_add_flops : List (Option A) → List (Option A) → Outcome ℕ
  unfolding validate_input_outputs
  num_add_flops inputs outputs = do
    operands ← validate_input_outputs inputs outputs
    ok (num_elements (shape_of operands.2))

unfoldable pub create_outputs : List (Option Tensor) → Outcome (List (Option Tensor))
unfolding validate_inputs broadcast_shapes
create_outputs inputs = do
  operands ← validate_inputs inputs
  output_shape ← broadcast_shapes operands.0.shape operands.1.shape
  ok (some (output_of operands.0 operands.1 output_shape) ∷ [])

-- Draw 0 chooses the input that may shrink.
unfoldable pub create_inputs : (ℕ → Bool) → List (Option Tensor) → Outcome (List (Option Tensor))
unfolding validate_outputs choose_input_shape
create_inputs draws outputs = do
  output ← validate_outputs outputs
  let chosen = choose_input_shape draws 1 output.shape
  let first = if draws 0 then chosen else output.shape
  let second = if draws 0 then output.shape else chosen
  ok (
      some (record { id = none; dtype = output.dtype; shape = first; addr = 0 })
      ∷ some (record { id = none; dtype = output.dtype; shape = second; addr = 0 })
      ∷ [])

unfoldable pub validate_tensors : List (Option Tensor) → List (Option Tensor) → Outcome (Unit {0})
unfolding validate_input_outputs
validate_tensors inputs outputs = do
  operands ← validate_input_outputs (λ (t : Tensor). t.shape) inputs outputs
  ok tt

unfoldable pub compute_delay_ticks :
    (ℕ → MachineOp → Outcome ℕ) → List (Option TensorView) → List (Option TensorView) → Outcome ℕ
unfolding num_add_flops
compute_delay_ticks cycles_for_ops inputs outputs = do
  num_adds ← num_add_flops (λ (v : TensorView). v.shape) inputs outputs
  cycles_for_ops num_adds add

unfoldable pub compute_machine_ops :
    List (Option TensorView) → List (Option TensorView) → Outcome MachineOpCounts
unfolding num_add_flops
compute_machine_ops inputs outputs = do
  num_adds ← num_add_flops (λ (v : TensorView). v.shape) inputs outputs
  ok (record no_ops { adds = num_adds })

-- One round of the loop of `partition_views`.
unfoldable pub part_of : List (Option TensorView) → TensorView → List DimPartition → TensorPartition
unfolding output_part from_output_partitions_on_view
part_of input_views output_view spec = record {
  inputs =
      map (map_some (λ view. from_output_partitions_on_view view (num_dims output_view.shape) spec))
        input_views;
  outputs = some (output_part output_view spec) ∷ [];
}

unfoldable pub partition_views :
    List (Option TensorView) → List (Option TensorView) → ℕ → Outcome (List TensorPartition)
unfolding validate_input_outputs choose_partition_dims partition_across_dimensions part_of
partition_views input_views output_views num_partitions = do
  operands ← validate_input_outputs (λ (v : TensorView). v.shape) input_views output_views
  let output_view = operands.2
  specs ←
      partition_across_dimensions output_view.shape (choose_partition_dims output_view.shape)
        num_partitions
  ok (map (part_of input_views output_view) specs)

abbrev pub operator : Operator
operator = record {
  validate_tensors = validate_tensors;
  compute_delay_ticks = compute_delay_ticks;
  compute_machine_ops = compute_machine_ops;
  partition_views = partition_views;
}
