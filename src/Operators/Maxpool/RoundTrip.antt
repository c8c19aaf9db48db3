-- ===== src/Operators/Maxpool/RoundTrip.antt =====
-- The tensors that the operator makes pass its own check.
use gwr.Base.{◌-◌, ◌≡◌, refl, sym, Option, List, drop, ok, ok_injective, returned, ==-yes}
use gwr.Tensor.{num_dims, Tensor}
use gwr.Operators.{rank}
use gwr.Operators.EachDim.{same_dims_refl}
use gwr.Operators.Pooling.{OperatorMaxPool, PoolParams, normalize_params}
use gwr.Operators.Maxpool.{
  first_spatial_dim, infer_input_shape, validate_outputs, validate_indices_dtype,
  validate_input_outputs, validate_tensor_dtypes,
}
use gwr.Operators.Maxpool.Views.{tensor_shape, create_inputs, validate_tensors}
use gwr.Operators.Maxpool.Shapes.{FitsFrom, output_shape-infer_input_shape}

-- Outputs that are well formed, whose parameters pass the check, and whose padding fits on every axis:
-- when inputs are made for them, the operator accepts those inputs with those outputs.
pub infer_input_shape-validate_tensors :
    (op : OperatorMaxPool) (outputs inputs : List (Option Tensor)) (output : Tensor)
    (indices : Option Tensor) (params : PoolParams)
    → validate_outputs tensor_shape outputs ≡ ok (output, indices)
    → normalize_params op (num_dims output.shape - first_spatial_dim) ≡ ok params
    → FitsFrom op params 0 (drop first_spatial_dim output.shape)
    → create_inputs op outputs ≡ ok inputs
    → validate_tensors op inputs outputs ≡ ok tt
unfolding create_inputs validate_tensors validate_input_outputs validate_tensor_dtypes
infer_input_shape-validate_tensors op outputs inputs output indices params valid normal fits e =
    let (checked, int64s, e1) = returned (validate_indices_dtype indices) _ (rw valid at e) in
    let (input, inferred, made) = returned (infer_input_shape op output.shape) _ e1 in
    let (resolved, found) =
      output_shape-infer_input_shape op output.shape input params normal fits inferred in
    rw
      (
        sym (ok_injective made),
        valid,
        found,
        same_dims_refl output.shape,
        ==-yes (rank output.dtype) (rank output.dtype) refl,
      )
      int64s
