-- ===== src/Operators/Maxpool/Comparisons.antt =====
-- The comparisons of MaxPool: one less than the elements of the input in a window.
use gwr.Base.{
  ℕ, zero, suc, ◌+◌, ◌-◌, ◌*◌, ◌/◌, ◌%◌, Option, List, [], ◌∷◌, get_or, drop, Bool, false, ltb,
  if◌then◌else◌, Outcome, ok, ◌>>=◌, ℤ, pos, negsuc, ◌⊖◌, ◌+ℤ◌,
}
use gwr.Tensor.{Shape, num_dims, product, get_dim}
use gwr.Operators.Pooling.{OperatorMaxPool, PoolParams}
use gwr.Operators.Maxpool.{
  first_spatial_dim, validate_input_outputs, output_shape_and_resolved_params,
}

-- `input_idx >= 0 && input_idx < input_dim`
abbrev pub is_valid_index : ℤ → ℕ → Bool
is_valid_index (pos input_idx) input_dim = ltb input_idx input_dim
is_valid_index (negsuc n) input_dim = false

-- The entries of `0..kernel` that fall on the input.
unfoldable pub num_valid : ℤ → ℕ → ℕ → ℕ → ℕ
num_valid window_start dilation input_dim zero = 0
num_valid window_start dilation input_dim (suc kernel_idx) =
    num_valid window_start dilation input_dim kernel_idx
    + (if is_valid_index (window_start +ℤ kernel_idx * dilation) input_dim then 1 else 0)

unfoldable pub window_valid_element_count : PoolParams → ℕ → List ℕ → Shape → ℕ
unfolding num_valid
window_valid_element_count params axis [] dims = 1
window_valid_element_count params axis (output_idx ∷ coordinate) dims =
    num_valid (output_idx * get_or params.strides axis 0 ⊖ get_or params.pads_begin axis 0)
      (get_or params.dilations axis 0) (get_or dims axis 0) (get_or params.kernel_shape axis 0)
    * window_valid_element_count params (axis + 1) coordinate dims

-- The coordinate, and what is left of the index once the loop has passed these dimensions.
unfoldable pub unravel_from : ℕ → Shape → List ℕ × ℕ
unravel_from linear_idx [] = ([], linear_idx)
unravel_from linear_idx (dim ∷ dims) =
    let (coordinate, left) = unravel_from linear_idx dims in (left % dim ∷ coordinate, left / dim)

unfoldable pub unravel_index : ℕ → Shape → List ℕ
unfolding unravel_from
unravel_index linear_idx dims = (unravel_from linear_idx dims).0

-- `(0..n).map(f).sum()`
unfoldable pub sum_below : (ℕ → ℕ) → ℕ → ℕ
sum_below f zero = 0
sum_below f (suc n) = sum_below f n + f n

module _ {ℓ} {A : Type ℓ} (shape_of : A → Shape) where
  unfoldable pub maxpool_comparisons :
      OperatorMaxPool → List (Option A) → List (Option A) → Outcome ℕ
  unfolding validate_input_outputs output_shape_and_resolved_params sum_below unravel_index get_dim
      window_valid_element_count
  maxpool_comparisons op inputs outputs = do
    checked ← validate_input_outputs shape_of op inputs outputs
    resolved ← output_shape_and_resolved_params op (shape_of checked.0)
    let input_spatial_dims = drop first_spatial_dim (shape_of checked.0)
    let output_dims = shape_of checked.1
    let output_spatial_dims = drop first_spatial_dim output_dims
    let comparisons_at : ℕ → ℕ = λ linear_idx.
        window_valid_element_count resolved.1 0 (unravel_index linear_idx output_spatial_dims)
          input_spatial_dims
        - 1
    ok (
        get_dim output_dims (num_dims output_dims) 0
        * get_dim output_dims (num_dims output_dims) 1
        * sum_below comparisons_at (product output_spatial_dims))
