-- ===== src/Operators/Pooling.antt =====
-- gwr-models/src/processing_element/operators/maxpool.rs: the parameters of a pooling operator, and the
-- arithmetic of a window along one axis. (A divisor is a stride, which the checks have made positive.)
pub mod Windows
pub mod Infer
pub mod Reach
pub mod Params
use gwr.Base.{
  ℕ, zero, suc, ◌+◌, ◌-◌, ◌*◌, ◌/◌, max, Option, none, some, List, [], ◌∷◌, length, get_or,
  replicate, take, drop, any, Bool, true, false, ◌==◌, ◌&&◌, not, ltb, leb, if◌then◌else◌, Outcome,
  ok, error, ◌>>=◌, ℤ, pos, negsuc, neg, ◌⊖◌, ◌+ℤ◌, div_trunc, div_euclid, invalid_parameter,
  empty_output,
}
use gwr.Tensor.{div_ceil}

pub data AutoPad : Type 0 where
  not_set same_upper same_lower valid : AutoPad

pub record OperatorMaxPool : Type 0 where
  pub auto_pad : Option AutoPad
  pub ceil_mode : Option Bool
  pub dilations : Option (List ℕ)
  pub kernel_shape : List ℕ
  pub pads : Option (List ℕ)
  pub storage_order : Option ℕ
  pub strides : Option (List ℕ)

unfoldable pub new : List ℕ → OperatorMaxPool
new kernel_shape = record {
  auto_pad = none;
  ceil_mode = none;
  dilations = none;
  kernel_shape = kernel_shape;
  pads = none;
  storage_order = none;
  strides = none;
}

-- `unwrap_or`
abbrev pub unwrap_or {ℓ} : {A : Type ℓ} → Option A → A → A
unwrap_or none default = default
unwrap_or (some a) default = a

abbrev pub resolved_auto_pad : OperatorMaxPool → AutoPad
resolved_auto_pad op = unwrap_or op.auto_pad not_set

abbrev pub resolved_ceil_mode : OperatorMaxPool → Bool
resolved_ceil_mode op = unwrap_or op.ceil_mode false

abbrev pub is_not_set : AutoPad → Bool
is_not_set not_set = true
is_not_set same_upper = false
is_not_set same_lower = false
is_not_set valid = false

pub record PoolParams : Type 0 where
  pub kernel_shape : List ℕ
  pub strides : List ℕ
  pub dilations : List ℕ
  pub pads_begin : List ℕ
  pub pads_end : List ℕ

abbrev pub is_empty : List ℕ → Bool
is_empty [] = true
is_empty (x ∷ xs) = false

-- `contains(&0)`
abbrev pub contains_zero : List ℕ → Bool
contains_zero xs = any (λ x. x == 0) xs

unfoldable pub normalize_axis_values : List ℕ → ℕ → ℕ → Outcome (List ℕ)
normalize_axis_values values spatial_rank default =
    if is_empty values
    then ok (replicate spatial_rank default)
    else if length values == spatial_rank
    then ok values
    else error invalid_parameter

-- `if test { return sim_error!(..) }`
abbrev pub fail_if : Bool → Outcome (Unit {0})
fail_if true = error invalid_parameter
fail_if false = ok tt

abbrev pub normalize_pads : List ℕ → ℕ → Outcome (List ℕ)
normalize_pads pads spatial_rank =
    if is_empty pads
    then ok (replicate (spatial_rank * 2) 0)
    else if length pads == spatial_rank * 2
    then ok pads
    else error invalid_parameter

unfoldable pub normalize_params : OperatorMaxPool → ℕ → Outcome PoolParams
unfolding normalize_axis_values
normalize_params op spatial_rank = do
  some_axis ← fail_if (spatial_rank == 0)
  kernel_rank ← fail_if (not (length op.kernel_shape == spatial_rank))
  kernels ← fail_if (contains_zero op.kernel_shape)
  order ← fail_if (ltb 1 (unwrap_or op.storage_order 0))
  no_pads ←
      fail_if (not (is_not_set (resolved_auto_pad op)) && not (is_empty (unwrap_or op.pads [])))
  strides ← normalize_axis_values (unwrap_or op.strides []) spatial_rank 1
  dilations ← normalize_axis_values (unwrap_or op.dilations []) spatial_rank 1
  pads ← normalize_pads (unwrap_or op.pads []) spatial_rank
  steps ← fail_if (contains_zero strides)
  gaps ← fail_if (contains_zero dilations)
  ok (record {
    kernel_shape = op.kernel_shape;
    strides = strides;
    dilations = dilations;
    pads_begin = take spatial_rank pads;
    pads_end = drop spatial_rank pads;
  })

abbrev pub effective_kernel : ℕ → ℕ → ℕ
effective_kernel kernel dilation = dilation * (kernel - 1) + 1

abbrev pub split_padding : ℕ → ℕ × ℕ
split_padding total_padding = (total_padding / 2, total_padding - total_padding / 2)

abbrev pub ceil_div_i128 : ℤ → ℕ → ℤ
ceil_div_i128 (pos numerator) denominator = pos ((numerator + denominator - 1) / denominator)
ceil_div_i128 (negsuc n) denominator = div_trunc (negsuc n) denominator

-- The last window is dropped when it starts behind the input and the padding before it.
abbrev pub drop_last : Bool → ℤ → ℕ → ℕ → ℤ
drop_last ceil_mode (negsuc n) stride extent = negsuc n
drop_last ceil_mode (pos zero) stride extent = pos zero
drop_last ceil_mode (pos (suc last)) stride extent =
    if ceil_mode && leb extent (last * stride) then pos last else pos (suc last)

-- `if output_dim <= 0 { return sim_error!(..) }`
abbrev pub positive : ℤ → Outcome ℕ
positive (negsuc n) = error empty_output
positive (pos zero) = error empty_output
positive (pos (suc n)) = ok (suc n)

unfoldable pub explicit_output_dim : ℕ → ℕ → ℕ → ℕ → ℕ → Bool → Outcome ℕ
explicit_output_dim input_dim effective_kernel stride pad_begin pad_end ceil_mode =
    let numerator = (input_dim + pad_begin + pad_end) ⊖ effective_kernel in
    let output_dim =
      if ceil_mode then ceil_div_i128 numerator stride +ℤ 1 else div_euclid numerator stride +ℤ 1 in
    positive (drop_last ceil_mode output_dim stride (input_dim + pad_begin))

unfoldable pub valid_output_dim : ℕ → ℕ → ℕ → Bool → Outcome ℕ
valid_output_dim input_dim effective_kernel stride ceil_mode = positive (
    if ceil_mode
    then ceil_div_i128 ((input_dim ⊖ effective_kernel) +ℤ 1) stride
    else div_euclid (input_dim ⊖ effective_kernel) stride +ℤ 1)

-- The padding on both sides of an axis, of which the first component is the smaller.
abbrev pub same_padding : ℕ → ℕ → ℕ → ℕ → ℕ × ℕ
same_padding input_dim effective_kernel stride output_dim =
    split_padding ((output_dim - 1) * stride + effective_kernel - input_dim)

-- The output dimension and the padding of an axis, whose own padding is `pad_begin` and `pad_end`.
unfoldable pub resolve_axis : AutoPad → Bool → ℕ → ℕ → ℕ → ℕ → ℕ → Outcome (ℕ × ℕ × ℕ)
unfolding explicit_output_dim valid_output_dim
resolve_axis not_set ceil_mode input_dim ek stride pad_begin pad_end = do
  output_dim ← explicit_output_dim input_dim ek stride pad_begin pad_end ceil_mode
  ok (output_dim, pad_begin, pad_end)
resolve_axis valid ceil_mode input_dim ek stride pad_begin pad_end = do
  output_dim ← valid_output_dim input_dim ek stride ceil_mode
  ok (output_dim, 0, 0)
resolve_axis same_upper ceil_mode input_dim ek stride pad_begin pad_end =
    let output_dim = div_ceil input_dim stride in
    let (smaller_side, larger_side) = same_padding input_dim ek stride output_dim in
    ok (output_dim, smaller_side, larger_side)
resolve_axis same_lower ceil_mode input_dim ek stride pad_begin pad_end =
    let output_dim = div_ceil input_dim stride in
    let (smaller_side, larger_side) = same_padding input_dim ek stride output_dim in
    ok (output_dim, larger_side, smaller_side)

-- The input dimension of an axis that is inferred from its output dimension.
unfoldable pub infer_axis : AutoPad → ℕ → ℕ → ℕ → ℕ → ℕ → ℕ
infer_axis not_set output_dim ek stride pad_begin pad_end =
    max ((output_dim - 1) * stride + ek - (pad_begin + pad_end)) 1
infer_axis valid output_dim ek stride pad_begin pad_end =
    max ((output_dim - 1) * stride + ek - (pad_begin + pad_end)) 1
infer_axis same_upper output_dim ek stride pad_begin pad_end = (output_dim - 1) * stride + 1
infer_axis same_lower output_dim ek stride pad_begin pad_end = (output_dim - 1) * stride + 1
