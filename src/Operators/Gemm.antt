-- ===== src/Operators/Gemm.antt =====
-- gwr-models/src/processing_element/operators/gemm.rs: the product of matrices of M x K and K x N, with
-- an optional third input that is added. `pick` stands for the choice of K by floating-point numbers
-- and the random generator, and `add_c` for the choice whether to add a third input.
pub mod Inputs
pub mod Parts
pub mod Checks
pub mod Shapes
use gwr.Base.{
  ℕ, zero, suc, ◌+◌, ◌-◌, ◌*◌, max, Option, none, some, List, [], ◌∷◌, ◌++◌, map, length, get_elem?,
  get_or, set, take, drop, filter, any, Bool, true, false, ◌==◌, ◌&&◌, ◌||◌, not, ltb, leb,
  if◌then◌else◌, Outcome, ok, error, panic, ◌>>=◌, wrong_count, missing_tensor, incompatible_shapes,
  invalid_output,
}
use gwr.Tensor.{
  Shape, num_dims, num_elements, product, get_dim, Tensor, TensorView, DimPartition,
  from_output_partitions_on_view,
}
use gwr.Tensor.Partition.{partition_across_dimensions}
use gwr.Operators.{
  MachineOp, add, mul, MachineOpCounts, no_ops, TensorPartition, Operator, map_some, broadcast_dim,
  output_of, present, validate_outputs, each_dim, choose_partition_dims, output_part,
}

-- Dimension `i`, counted from the innermost, where the innermost is 1.
unfoldable pub get_inner_dim : Shape → ℕ → Outcome ℕ
get_inner_dim dims i =
    if leb i (num_dims dims) then ok (max (get_or dims (num_dims dims - i) 1) 1) else panic

-- The M of input A and of the output is dimension 2, K is 1 of A and 2 of B, N is 1 of B and the output.
unfoldable pub gemm_rhs_shape : Shape → Outcome Shape
unfolding get_inner_dim
gemm_rhs_shape a = if ltb (num_dims a) 2 then error incompatible_shapes else do
  k ← get_inner_dim a 1
  m ← get_inner_dim a 2
  ok (set (set a (num_dims a - 2) k) (num_dims a - 1) m)

unfoldable pub choose_gemm_k : (ℕ → ℕ) → Shape → Outcome ℕ
unfolding get_inner_dim
choose_gemm_k pick output = do
  m ← get_inner_dim output 2
  n ← get_inner_dim output 1
  ok (pick (max m n))

abbrev pub result_dim : ℕ → ℕ → ℕ → ℕ → Outcome ℕ
result_dim rank i a_dim b_dim =
    if i == rank - 2
    then ok a_dim
    else if i == rank - 1
    then ok b_dim
    else broadcast_dim a_dim b_dim

unfoldable pub broadcast_shapes : Shape → Shape → Outcome Shape
unfolding get_dim each_dim
broadcast_shapes a b =
    if ltb rank_result 2
    then error incompatible_shapes
    else each_dim
        (λ i. result_dim rank_result i (get_dim a rank_result i) (get_dim b rank_result i)) 0
        rank_result
  where
    rank_result : ℕ
    rank_result = max (num_dims a) (num_dims b)

-- `inputs[i].as_ref().ok_or(..)?`
unfoldable pub input_at {ℓ} : {A : Type ℓ} → List (Option A) → ℕ → Outcome A
input_at [] i = panic
input_at (input ∷ inputs) zero = present input
input_at (input ∷ inputs) (suc i) = input_at inputs i

-- The check of input C against the shape of the output.
unfoldable pub validate_input_c : Shape → Shape → Outcome (Unit {0})
unfolding get_inner_dim
validate_input_c output_shape c = do
  out_m ← get_inner_dim output_shape 2
  out_n ← get_inner_dim output_shape 1
  c_m ← get_inner_dim c 2
  c_n ← get_inner_dim c 1
  if not (c_m == 1) && not (c_m == out_m) || not (c_n == 1) && not (c_n == out_n)
      then error incompatible_shapes
      else ok tt

-- The loop over the outer dimensions, from dimension `i` on.
unfoldable pub validate_outer : (ℕ → ℕ) → (ℕ → ℕ) → (ℕ → ℕ) → ℕ → ℕ → Outcome (Unit {0})
validate_outer a_dim b_dim out_dim i zero = ok tt
validate_outer a_dim b_dim out_dim i (suc rounds) =
    let dim_in = if a_dim i == 1 then b_dim i else a_dim i in
    let rest = validate_outer a_dim b_dim out_dim (i + 1) rounds in
    if not (dim_in == 1) && not (out_dim i == dim_in) then error invalid_output else rest

unfoldable pub validate_output : Shape → Shape → Shape → Outcome (Unit {0})
unfolding get_dim get_inner_dim validate_outer
validate_output a b output = do
  let rank_inputs : ℕ = max (num_dims a) (num_dims b)
  same_rank ← (if rank_inputs == num_dims output then ok (tt {0}) else error invalid_output)
  outer ←
      validate_outer (get_dim a rank_inputs) (get_dim b rank_inputs)
        (get_dim output (num_dims output)) 0 (rank_inputs - 2)
  input_m ← get_inner_dim a 2
  input_n ← get_inner_dim b 1
  output_m ← get_inner_dim output 2
  output_n ← get_inner_dim output 1
  if input_m == output_m && input_n == output_n then ok tt else error invalid_output

module _ {ℓ} {A : Type ℓ} (shape_of : A → Shape) where
  abbrev pub validate_third : Shape → List (Option A) → Outcome (Unit {0})
  validate_third output_shape [] = ok tt
  validate_third output_shape (some c ∷ []) = validate_input_c output_shape (shape_of c)
  validate_third output_shape (none ∷ []) = error wrong_count
  validate_third output_shape (c ∷ d ∷ more) = error wrong_count

  unfoldable pub validate_inputs : List (Option A) → Outcome (A × A)
  unfolding input_at broadcast_shapes get_inner_dim validate_input_c
  validate_inputs inputs = do
    input_a ← input_at inputs 0
    input_b ← input_at inputs 1
    output_shape ← broadcast_shapes (shape_of input_a) (shape_of input_b)
    k_a ← get_inner_dim (shape_of input_a) 1
    k_b ← get_inner_dim (shape_of input_b) 2
    checked ←
        (if k_a == k_b
          then validate_third output_shape (drop 2 inputs)
          else error incompatible_shapes)
    ok (input_a, input_b)

  unfoldable pub validate_input_outputs : List (Option A) → List (Option A) → Outcome (A × A × A)
  unfolding validate_inputs validate_outputs validate_output
  validate_input_outputs inputs outputs = do
    operands ← validate_inputs inputs
    output ← validate_outputs outputs
    checked ← validate_output (shape_of operands.0) (shape_of operands.1) (shape_of output)
    ok (operands.0, operands.1, output)

  -- The multiplications and the additions. (The check has made every K at least 1.)
  unfoldable pub gemm_op_counts : List (Option A) → List (Option A) → Outcome (ℕ × ℕ)
  unfolding validate_input_outputs get_inner_dim
  gemm_op_counts inputs outputs = do
    operands ← validate_input_outputs inputs outputs
    m ← get_inner_dim (shape_of operands.0) 2
    k ← get_inner_dim (shape_of operands.0) 1
    n ← get_inner_dim (shape_of operands.1) 1
    let output_dims = shape_of operands.2
    let num_matmuls = product (take (num_dims output_dims - 2) output_dims)
    let num_c_adds = (if length inputs == 3 then num_elements output_dims else 0)
    ok (m * n * k * num_matmuls, m * n * (k - 1) * num_matmuls + num_c_adds)

abbrev pub tensor_shape : Tensor → Shape
tensor_shape t = t.shape

abbrev pub view_shape : TensorView → Shape
view_shape v = v.shape

unfoldable pub output_tensor_from_inputs : List (Option Tensor) → Outcome Tensor
unfolding validate_inputs broadcast_shapes
output_tensor_from_inputs inputs = do
  operands ← validate_inputs tensor_shape inputs
  output_shape ← broadcast_shapes operands.0.shape operands.1.shape
  ok (output_of operands.0 operands.1 output_shape)

unfoldable pub maybe_add_input_c :
    Bool → List (Option Tensor) → Outcome (List (Option Tensor) × Bool)
unfolding output_tensor_from_inputs
maybe_add_input_c add_c inputs =
    if leb 3 (length inputs) || not add_c
    then ok (inputs, false)
    else do c ← output_tensor_from_inputs inputs; ok (inputs ++ some c ∷ [], true)

unfoldable pub create_outputs : List (Option Tensor) → Outcome (List (Option Tensor))
unfolding output_tensor_from_inputs
create_outputs inputs = do output ← output_tensor_from_inputs inputs; ok (some output ∷ [])

unfoldable pub create_inputs :
    (ℕ → ℕ) → Bool → List (Option Tensor) → Outcome (List (Option Tensor))
unfolding validate_outputs choose_gemm_k maybe_add_input_c
create_inputs pick add_c outputs = do
  output ← validate_outputs outputs
  k ← choose_gemm_k pick output.shape
  let rank = num_dims output.shape
  let input_a : Tensor = record {
    id = none;
    dtype = output.dtype;
    shape = set output.shape (rank - 1) k;
    addr = 0;
  }
  let input_b : Tensor = record {
    id = none;
    dtype = output.dtype;
    shape = set output.shape (rank - 2) k;
    addr = 0;
  }
  added ← maybe_add_input_c add_c (some input_a ∷ some input_b ∷ [])
  ok added.0

unfoldable pub validate_tensors : List (Option Tensor) → List (Option Tensor) → Outcome (Unit {0})
unfolding validate_input_outputs
validate_tensors inputs outputs = do
  operands ← validate_input_outputs tensor_shape inputs outputs
  ok tt

unfoldable pub compute_delay_ticks :
    (ℕ → MachineOp → Outcome ℕ) → List (Option TensorView) → List (Option TensorView) → Outcome ℕ
unfolding gemm_op_counts
compute_delay_ticks cycles_for_ops inputs outputs = do
  counts ← gemm_op_counts view_shape inputs outputs
  mul_cycles ← cycles_for_ops counts.0 mul
  add_cycles ← cycles_for_ops counts.1 add
  ok (mul_cycles + add_cycles)

unfoldable pub compute_machine_ops :
    List (Option TensorView) → List (Option TensorView) → Outcome MachineOpCounts
unfolding gemm_op_counts
compute_machine_ops inputs outputs = do
  counts ← gemm_op_counts view_shape inputs outputs
  ok (record no_ops { adds = counts.1; muls = counts.0 })

-- One round of the loop of `partition_views`, with the third input, if there is one.
unfoldable pub part_of :
    TensorView → TensorView → Option TensorView → TensorView → List DimPartition → TensorPartition
unfolding output_part from_output_partitions_on_view
part_of input_a input_b input_c output_view spec =
    let rank = num_dims output_view.shape in
    let m_dim = rank - 2 in
    let n_dim = rank - 1 in
    let a_spec = filter (λ (p : DimPartition). not (p.dim == n_dim)) spec in
    let b_spec = filter (λ (p : DimPartition). not (p.dim == m_dim)) spec in
    let split_m = any (λ (p : DimPartition). p.dim == m_dim) spec in
    let split_n = any (λ (p : DimPartition). p.dim == n_dim) spec in
    let split_outer =
      any (λ (p : DimPartition). not (p.dim == m_dim) && not (p.dim == n_dim)) spec in
    let a_part =
      if split_outer || split_m
      then from_output_partitions_on_view input_a rank a_spec
      else input_a in
    let b_part =
      if split_outer || split_n
      then from_output_partitions_on_view input_b rank b_spec
      else input_b in
    record {
      inputs = some a_part ∷ some b_part ∷ third input_c rank;
      outputs = some (output_part output_view spec) ∷ [];
    }
  where
    third : Option TensorView → ℕ → List (Option TensorView)
    third none rank = []
    third (some view) rank = some (from_output_partitions_on_view view rank spec) ∷ []

unfoldable pub partition_views :
    List (Option TensorView) → List (Option TensorView) → ℕ → Outcome (List TensorPartition)
unfolding validate_input_outputs choose_partition_dims partition_across_dimensions part_of
partition_views input_views output_views num_partitions = do
  operands ← validate_input_outputs view_shape input_views output_views
  let output_view = operands.2
  let input_c = get_or input_views 2 none
  specs ←
      partition_across_dimensions output_view.shape (choose_partition_dims output_view.shape)
        num_partitions
  ok (map (part_of operands.0 operands.1 input_c output_view) specs)

abbrev pub operator : Operator
operator = record {
  validate_tensors = validate_tensors;
  compute_delay_ticks = compute_delay_ticks;
  compute_machine_ops = compute_machine_ops;
  partition_views = partition_views;
}
