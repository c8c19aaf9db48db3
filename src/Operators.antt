-- ===== src/Operators.antt =====
-- gwr-models/src/processing_element/operators/mod.rs (trait `Operator`) and mod.rs beside it (machine
-- operations): what the operators of a processing element share. An operand is an `Option`, and an
-- operator works on tensors and on views alike: `shape_of` gives the shape of either.
pub mod EachDim
pub mod OutputParts
pub mod Add
pub mod Gemm
pub mod Pooling
pub mod Maxpool
use gwr.Base.{
  ℕ, zero, suc, ◌+◌, ◌-◌, Option, none, some, List, [], ◌∷◌, map, length, Bool, true, false, ltb,
  if◌then◌else◌, Outcome, ok, error, panic, ◌>>=◌, ◌==◌, wrong_count, missing_tensor,
  incompatible_shapes,
}
use gwr.Tensor.{
  Shape, num_dims, DataType, fp32, bf16, fp16, fp8, fp4, int64, int32, int16, int8, int4, Tensor,
  TensorView, new_full, DimPartition,
}
use gwr.Tensor.Partition.{apply_dim_partitions}

pub data MachineOp : Type 0 where
  add compare mul : MachineOp

pub record MachineOpCounts : Type 0 where
  pub adds : ℕ
  pub compares : ℕ
  pub muls : ℕ

abbrev pub no_ops : MachineOpCounts
no_ops = record { adds = 0; compares = 0; muls = 0 }

unfoldable pub total : MachineOpCounts → ℕ
total c = c.adds + c.compares + c.muls

unfoldable pub add_assign : MachineOpCounts → MachineOpCounts → MachineOpCounts
add_assign c other = record {
  adds = c.adds + other.adds;
  compares = c.compares + other.compares;
  muls = c.muls + other.muls;
}

pub record TensorPartition : Type 0 where
  pub inputs : List (Option TensorView)
  pub outputs : List (Option TensorView)

-- The trait `Operator`, whose throughput is given as `cycles_for_ops`.
pub record Operator : Type 0 where
  pub validate_tensors : List (Option Tensor) → List (Option Tensor) → Outcome (Unit {0})
  pub compute_delay_ticks :
      (ℕ → MachineOp → Outcome ℕ) → List (Option TensorView) → List (Option TensorView) → Outcome ℕ
  pub compute_machine_ops :
      List (Option TensorView) → List (Option TensorView) → Outcome MachineOpCounts
  pub partition_views :
      List (Option TensorView) → List (Option TensorView) → ℕ → Outcome (List TensorPartition)

unfoldable pub compute_flops :
    Operator → List (Option TensorView) → List (Option TensorView) → Outcome ℕ
unfolding total
compute_flops operator inputs outputs = do
  ops ← operator.compute_machine_ops inputs outputs
  ok (total ops)

abbrev pub map_some {ℓ κ} : {A : Type ℓ} {B : Type κ} → (A → B) → Option A → Option B
map_some f none = none
map_some f (some a) = some (f a)

unfoldable pub partition_tensors :
    Operator → List (Option Tensor) → List (Option Tensor) → ℕ → Outcome (List TensorPartition)
unfolding new_full
partition_tensors operator input_tensors output_tensors num_partitions =
    operator.partition_views (map (map_some new_full) input_tensors)
      (map (map_some new_full) output_tensors) num_partitions

-- The order that `DataType` derives.
abbrev pub rank : DataType → ℕ
rank fp32 = 0
rank bf16 = 1
rank fp16 = 2
rank fp8 = 3
rank fp4 = 4
rank int64 = 5
rank int32 = 6
rank int16 = 7
rank int8 = 8
rank int4 = 9

abbrev pub later_dtype : DataType → DataType → DataType
later_dtype a b = if ltb (rank b) (rank a) then a else b

-- The output that both operators make for two inputs.
abbrev pub output_of : Tensor → Tensor → Shape → Tensor
output_of a b output_shape = record {
  id = none;
  dtype = later_dtype a.dtype b.dtype;
  shape = output_shape;
  addr = 0;
}

-- `as_ref().ok_or(..)`
abbrev pub present {ℓ} : {A : Type ℓ} → Option A → Outcome A
present none = error missing_tensor
present (some a) = ok a

unfoldable pub validate_outputs {ℓ} : {A : Type ℓ} → List (Option A) → Outcome A
validate_outputs [] = error wrong_count
validate_outputs (output ∷ []) = present output
validate_outputs (output ∷ another ∷ more) = error wrong_count

-- The entry that two entries broadcast to.
abbrev pub broadcast_dim : ℕ → ℕ → Outcome ℕ
broadcast_dim a b =
    if a == b
    then ok a
    else if a == 1
    then ok b
    else if b == 1
    then ok a
    else error incompatible_shapes

-- `for (i, result_i) in result.iter_mut().enumerate()`, from `i` on.
unfoldable pub each_dim : (ℕ → Outcome ℕ) → ℕ → ℕ → Outcome Shape
each_dim f i zero = ok []
each_dim f i (suc rounds) = do d ← f i; dims ← each_dim f (i + 1) rounds; ok (d ∷ dims)

-- The dimensions with more than one entry, from dimension `i` on.
unfoldable pub large_dims : ℕ → Shape → List ℕ
large_dims i [] = []
large_dims i (d ∷ dims) = if ltb 1 d then i ∷ large_dims (i + 1) dims else large_dims (i + 1) dims

abbrev pub or_last : Shape → List ℕ → List ℕ
or_last dims [] = (num_dims dims - 1) ∷ []
or_last dims (c ∷ candidates) = c ∷ candidates

unfoldable pub choose_partition_dims : Shape → List ℕ
unfolding large_dims
choose_partition_dims dims = or_last dims (large_dims 0 dims)

-- `zip(..).map(|(base, offset)| base + offset)`
unfoldable pub add_offsets : List ℕ → List ℕ → List ℕ
add_offsets [] offsets = []
add_offsets (b ∷ base) [] = []
add_offsets (b ∷ base) (o ∷ offsets) = (b + o) ∷ add_offsets base offsets

-- The part of an output view that a specification names.
unfoldable pub output_part : TensorView → List DimPartition → TensorView
unfolding apply_dim_partitions add_offsets
output_part view spec = record {
  tensor = view.tensor;
  shape = (apply_dim_partitions view.shape spec).0;
  offsets = add_offsets view.offsets (apply_dim_partitions view.shape spec).1;
}
