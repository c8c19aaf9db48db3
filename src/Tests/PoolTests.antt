-- ===== src/Tests/PoolTests.antt =====
-- Pooling at concrete tensors.
use gwr.Base.{
  ℕ, zero, suc, ◌+◌, ◌*◌, ◌/◌, ◌≤◌, ◌<◌, ◌≡◌, ◌↔◌, ◌⊎◌, refl, none, some, List, [], ◌∷◌, All, true,
  false, ok, error, ◌>>=◌, arith, empty_output,
}
use gwr.Tensor.{Tensor, TensorView, Shape, DimPartition, fp16}
use gwr.Operators.{TensorPartition, add_offsets}
use gwr.Operators.Pooling.{OperatorMaxPool, PoolParams, explicit_output_dim, normalize_params}
use gwr.Operators.Pooling.Windows
use gwr.Operators.Maxpool.{
  forward, backward, maxpool_axis_params, validate_outputs, validate_input_outputs,
  create_maxpool_op, output_shape_and_resolved_params,
}
use gwr.Operators.Maxpool.Comparisons.{maxpool_comparisons}
use gwr.Operators.Maxpool.Views.{
  tensor_shape, view_shape, create_inputs, validate_tensors, partition_views, input_range,
}
use gwr.Operators.Maxpool.RoundTrip
use gwr.Operators.Maxpool.Parts
use gwr.Operators.Maxpool.Split
use gwr.Operators.Maxpool.Scaled
use gwr.Operators.Maxpool.Scaled.{output_with, inferred_with}
use gwr.Operators.Maxpool.Elements.{ViewsSame, num_parts_with}
use gwr.Operators.Maxpool.Reach.{AllNarrow}

explicit_output_dim_floor_example :
    ((7 + 1 + 1 < 3) × (explicit_output_dim 7 3 2 1 1 false ≡ error empty_output))
    ⊎ ((3 ≤ 7 + 1 + 1)
        × (n : ℕ) × (explicit_output_dim 7 3 2 1 1 false ≡ ok n)
        × ((k : ℕ) → (k < n) ↔ (k * 2 + 3 ≤ 7 + 1 + 1)))
explicit_output_dim_floor_example =
    Windows.explicit_output_dim_floor 7 3 2 1 1 (omega arith) (omega arith)

explicit_output_dim_ceil_example :
    (n : ℕ) × (explicit_output_dim 6 3 2 1 1 true ≡ ok n)
    × ((k : ℕ) → (k < n) ↔ ((k * 2 < 6 + 1) × (k * 2 + 3 < 6 + 1 + 1 + 2)))
explicit_output_dim_ceil_example =
    Windows.explicit_output_dim_ceil 6 3 2 1 1 (omega arith) (omega arith) (omega arith)
      (omega arith)

-- Windows of 2 by 3, every 2 by 1.
abbrev op : OperatorMaxPool
op = record {
  auto_pad = none;
  ceil_mode = none;
  dilations = none;
  kernel_shape = 2 ∷ 3 ∷ [];
  pads = none;
  storage_order = none;
  strides = some (2 ∷ 1 ∷ []);
}

abbrev params : PoolParams
params = record {
  kernel_shape = 2 ∷ 3 ∷ [];
  strides = 2 ∷ 1 ∷ [];
  dilations = 1 ∷ 1 ∷ [];
  pads_begin = 0 ∷ 0 ∷ [];
  pads_end = 0 ∷ 0 ∷ [];
}

abbrev image : Shape → Tensor
image dims = record { id = none; dtype = fp16; shape = dims; addr = 0 }

abbrev full : Shape → TensorView
full dims = record { tensor = image dims; shape = dims; offsets = 0 ∷ 0 ∷ 0 ∷ 0 ∷ [] }

abbrev large : Shape
large = 1 ∷ 2 ∷ 4 ∷ 5 ∷ []

abbrev small : Shape
small = 1 ∷ 2 ∷ 2 ∷ 3 ∷ []

normal : normalize_params op 2 ≡ ok params
unfolding normalize_params
normal = refl

-- 5 comparisons of each of the 12 windows.
comparisons :
    maxpool_comparisons tensor_shape op (some (image large) ∷ []) (some (image small) ∷ []) ≡ ok 60
unfolding maxpool_comparisons
comparisons = refl

-- The dimensions of the input are halved.
halved :
    (create_maxpool_op (λ n. n / 2) large forward >>= λ pool.
    output_shape_and_resolved_params pool large >>= λ resolved. ok resolved.0)
    ≡ ok (1 ∷ 2 ∷ 2 ∷ 2 ∷ [])
unfolding create_maxpool_op output_shape_and_resolved_params
halved = refl

infer_input_shape-validate_tensors_example :
    validate_tensors op (some (image large) ∷ []) (some (image small) ∷ []) ≡ ok tt
infer_input_shape-validate_tensors_example =
    RoundTrip.infer_input_shape-validate_tensors op (some (image small) ∷ [])
      (some (image large) ∷ []) (image small) none params found normal
      ((omega arith, omega arith), ((omega arith, omega arith), tt)) made
  where
    found : validate_outputs tensor_shape (some (image small) ∷ []) ≡ ok (image small, none)
    found = unfold validate_outputs in refl

    made : create_inputs op (some (image small) ∷ []) ≡ ok (some (image large) ∷ [])
    made = unfold create_inputs in refl

abbrev lower_half : DimPartition
lower_half = record { dim = 2; offset = 1; len = 1 }

input_range_covers_example :
    ((input_range params 0 4 lower_half).0 ≤ 3) × (3 < (input_range params 0 4 lower_half).1)
input_range_covers_example =
    Parts.input_range_covers params 0 4 lower_half 1 1 3 (omega arith) (omega arith) (omega arith)
      refl (omega arith)

partition_views_each_once_example :
    (parts : List TensorPartition) × (partition_views op
        (some (full large) ∷ [])
        (some (full small) ∷ [])
        4
      ≡ ok parts)
    × All (ViewsSame 0 (full small)) parts
    × (num_parts_with 0 (add_offsets (0 ∷ 0 ∷ 0 ∷ 0 ∷ []) (0 ∷ 1 ∷ 1 ∷ 2 ∷ [])) parts ≡ 1)
partition_views_each_once_example =
    Split.partition_views_each_once op (some (full large) ∷ []) (some (full small) ∷ [])
      (full large) (full small) none params 4 checked normal narrow refl (0 ∷ 1 ∷ 1 ∷ 2 ∷ [])
      (omega arith, (omega arith, (omega arith, (omega arith, tt)))) 0 (full small) refl
  where
    checked :
        validate_input_outputs view_shape op (some (full large) ∷ []) (some (full small) ∷ [])
        ≡ ok (full large, full small, none)
    checked = unfold validate_input_outputs in refl

    narrow : AllNarrow op params
    narrow zero = (omega arith, omega arith)
    narrow (suc zero) = (omega arith, omega arith)
    narrow (suc (suc axis)) = (omega arith, omega arith)

maxpool_axis_params_lem_example :
    (output_with 5 (maxpool_axis_params (λ dim. dim / 2) forward 5) ≡ ok 2)
    × (inferred_with 5 (maxpool_axis_params (λ dim. dim / 2) backward 5) ≡ 2)
maxpool_axis_params_lem_example =
    Scaled.maxpool_axis_params_lem (λ dim. dim / 2) 5 (omega arith) (omega arith)
