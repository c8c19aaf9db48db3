-- ===== src/Tests/OperatorTests.antt =====
-- Operators at concrete tensors.
use gwr.Base.{
  ℕ, ◌+◌, ◌≡◌, refl, Option, none, some, List, [], ◌∷◌, Bool, true, ok, panic, ◌>>=◌, arith, ◌==◌,
}
use gwr.Tensor.{Tensor, TensorView, Shape, fp16}
use gwr.Operators.{TensorPartition, add_offsets}
use gwr.Operators.OutputParts.{num_outputs_with}
use gwr.Operators.Add
use gwr.Operators.Add.Broadcast
use gwr.Operators.Add.Parts
use gwr.Operators.Gemm
use gwr.Operators.Gemm.Inputs
use gwr.Operators.Gemm.Shapes

abbrev tensor : Shape → Tensor
tensor dims = record { id = none; dtype = fp16; shape = dims; addr = 0 }

abbrev view : Shape → List ℕ → TensorView
view dims offsets = record { tensor = tensor dims; shape = dims; offsets = offsets }

abbrev alternate : ℕ → Bool
alternate n = n == 0

create_inputs-validate_example :
    (Add.create_inputs alternate (some (tensor (2 ∷ 3 ∷ [])) ∷ []) >>= λ inputs.
    Add.validate_tensors inputs (some (tensor (2 ∷ 3 ∷ [])) ∷ []))
    ≡ ok tt
create_inputs-validate_example = Broadcast.create_inputs-validate alternate (tensor (2 ∷ 3 ∷ []))

broadcast_row : Add.broadcast_shapes (3 ∷ []) (2 ∷ 1 ∷ []) ≡ ok (2 ∷ 3 ∷ [])
unfolding Add.broadcast_shapes
broadcast_row = refl

-- A row of 3 is added to 4 rows, in 2 parts.
abbrev row : TensorView
row = view (3 ∷ []) (0 ∷ [])

abbrev rows : TensorView
rows = view (4 ∷ 3 ∷ []) (0 ∷ 0 ∷ [])

partition_views_once_example :
    (parts : List TensorPartition) × (Add.partition_views
        (some row ∷ some rows ∷ [])
        (some rows ∷ [])
        2
      ≡ ok parts)
    × (num_outputs_with (add_offsets (0 ∷ 0 ∷ []) (2 ∷ 1 ∷ [])) parts ≡ 1)
partition_views_once_example =
    Parts.partition_views_once (some row ∷ some rows ∷ []) (some rows ∷ []) row rows rows 2 checked
      refl (omega arith) (2 ∷ 1 ∷ []) (omega arith)
  where
    checked :
        Add.validate_input_outputs
          (λ (v : TensorView). v.shape)
          (some row ∷ some rows ∷ [])
          (some rows ∷ [])
        ≡ ok (row, rows, rows)
    checked = unfold Add.validate_input_outputs in refl

abbrev scalar : TensorView
scalar = view [] []

create_inputs-validate_tensors_example :
    (Gemm.create_inputs (λ n. n + 1) true (some (tensor (5 ∷ 2 ∷ 3 ∷ [])) ∷ []) >>= λ inputs.
    Gemm.validate_tensors inputs (some (tensor (5 ∷ 2 ∷ 3 ∷ [])) ∷ []))
    ≡ ok tt
create_inputs-validate_tensors_example =
    Inputs.create_inputs-validate_tensors (λ n. n + 1) (tensor (5 ∷ 2 ∷ 3 ∷ [])) (omega arith) true

-- Matrices of 2 by 4 and of 4 by 3.
abbrev matrices : List (Option Tensor)
matrices = some (tensor (2 ∷ 4 ∷ [])) ∷ some (tensor (4 ∷ 3 ∷ [])) ∷ []

create_outputs-validate_tensors_example :
    Gemm.validate_tensors matrices (some (tensor (2 ∷ 3 ∷ [])) ∷ []) ≡ ok tt
create_outputs-validate_tensors_example =
    Shapes.create_outputs-validate_tensors matrices (some (tensor (2 ∷ 3 ∷ [])) ∷ [])
      (tensor (2 ∷ 4 ∷ [])) at_a made (omega arith)
  where
    at_a : Gemm.input_at matrices 0 ≡ ok (tensor (2 ∷ 4 ∷ []))
    at_a = unfold Gemm.input_at in refl

    made : Gemm.create_outputs matrices ≡ ok (some (tensor (2 ∷ 3 ∷ [])) ∷ [])
    made = unfold Gemm.create_outputs in refl

-- A vector of 4 and a matrix of 4 by 3.
abbrev vector : List (Option Tensor)
vector = some (tensor (4 ∷ [])) ∷ some (tensor (4 ∷ 3 ∷ [])) ∷ []

create_outputs-vector_example :
    Gemm.validate_tensors vector (some (tensor (1 ∷ 3 ∷ [])) ∷ []) ≡ panic
create_outputs-vector_example =
    Shapes.create_outputs-vector vector (some (tensor (1 ∷ 3 ∷ [])) ∷ []) (tensor (4 ∷ [])) at_a
      made (omega arith)
  where
    at_a : Gemm.input_at vector 0 ≡ ok (tensor (4 ∷ []))
    at_a = unfold Gemm.input_at in refl

    made : Gemm.create_outputs vector ≡ ok (some (tensor (1 ∷ 3 ∷ [])) ∷ [])
    made = unfold Gemm.create_outputs in refl
