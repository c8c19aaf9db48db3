-- ===== src/Operators/Maxpool/Shapes.antt =====
-- The input that the operator infers from an output has that output.
use gwr.Base.{
  ℕ, suc, ◌+◌, ◌-◌, ◌<◌, ◌≡◌, refl, sym, ap, List, [], ◌∷◌, map, length, get_or, drop, false, ◌==◌,
  ltb, arith, ok, error-ne-ok, ok_injective, returned, ◌>>=◌, ==-no,
}
use gwr.Tensor.{Shape, num_dims}
use gwr.Operators.Pooling.{
  AutoPad, OperatorMaxPool, resolved_auto_pad, resolved_ceil_mode, PoolParams, normalize_params,
  infer_axis, resolve_axis,
}
use gwr.Operators.Pooling.Params.{fail_if-passed, ==-pos, IsPositive, normalize_params-IsNormalized}
use gwr.Operators.Pooling.Infer.{Fits, resolve_axis-infer_axis}
use gwr.Operators.Maxpool.{
  first_spatial_dim, window_size, resolve_axes, infer_axes, output_dims_of,
  output_shape_and_resolved_params, infer_input_shape,
}

-- The padding fits, on every axis from `axis` on.
abbrev pub FitsFrom : OperatorMaxPool → PoolParams → ℕ → Shape → Type 0
FitsFrom op params axis [] = Unit
FitsFrom op params axis (output_dim ∷ dims) =
    Fits (resolved_auto_pad op) output_dim (window_size params axis) (get_or params.strides axis 0)
      (get_or params.pads_begin axis 0) (get_or params.pads_end axis 0)
    × FitsFrom op params (axis + 1) dims

infer_axis_pos :
    (auto_pad : AutoPad) (output_dim ek stride pad_begin pad_end : ℕ)
    → 0 < infer_axis auto_pad output_dim ek stride pad_begin pad_end
unfolding infer_axis
infer_axis_pos AutoPad.not_set output_dim ek stride pad_begin pad_end = omega arith
infer_axis_pos AutoPad.valid output_dim ek stride pad_begin pad_end = omega arith
infer_axis_pos AutoPad.same_upper output_dim ek stride pad_begin pad_end = omega arith
infer_axis_pos AutoPad.same_lower output_dim ek stride pad_begin pad_end = omega arith

-- The input dimension that is inferred for an axis.
abbrev inferred_dim : OperatorMaxPool → PoolParams → ℕ → ℕ → ℕ
unfolding infer_axis
inferred_dim op params axis output_dim =
    infer_axis (resolved_auto_pad op) output_dim (window_size params axis)
      (get_or params.strides axis 0) (get_or params.pads_begin axis 0)
      (get_or params.pads_end axis 0)

resolve_axes-cons :
    (op : OperatorMaxPool) (params : PoolParams) (axis input_dim : ℕ) (dims : Shape)
    (first : ℕ × ℕ × ℕ) (resolved : List (ℕ × ℕ × ℕ))
    → 0 < input_dim
    → resolve_axis
        (resolved_auto_pad op)
        (resolved_ceil_mode op)
        input_dim
        (window_size params axis)
        (get_or params.strides axis 0)
        (get_or params.pads_begin axis 0)
        (get_or params.pads_end axis 0)
      ≡ ok first
    → resolve_axes op params (axis + 1) dims ≡ ok resolved
    → resolve_axes op params axis (input_dim ∷ dims) ≡ ok (first ∷ resolved)
unfolding resolve_axes
resolve_axes-cons op params axis input_dim dims first resolved h here found =
    rw (==-no input_dim 0 (λ e. absurd (omega arith)), here, found) refl

resolve_axes-infer_axes :
    (op : OperatorMaxPool) (params : PoolParams) (axes axis : ℕ) (dims spatial : Shape)
    → axis + length dims ≡ axes
    → IsPositive axes params.strides
    → FitsFrom op params axis dims
    → infer_axes op params axis dims ≡ ok spatial
    → (resolved : List (ℕ × ℕ × ℕ)) × (resolve_axes op params axis spatial ≡ ok resolved)
      × (output_dims_of resolved ≡ dims)
      × (length spatial ≡ length dims)
unfolding resolve_axes infer_axes
resolve_axes-infer_axes op params axes axis [] spatial count strides fits e =
    rw (sym (ok_injective e)) ([], refl, refl, refl)
resolve_axes-infer_axes op params axes axis (output_dim ∷ dims) spatial count strides fits e =
    let (some_output, e1) =
      fail_if-passed (output_dim == 0)
        (λ u. infer_axes op params (axis + 1) dims >>= λ rest.
          ok (inferred_dim op params axis output_dim ∷ rest))
        e in
    let (rest, inferred, made) = returned (infer_axes op params (axis + 1) dims) _ e1 in
    extend rest (==-pos output_dim some_output) (ok_injective made) (
      resolve_axes-infer_axes op params axes (axis + 1) dims rest (omega arith) strides fits.1
        inferred)
  where
    extend :
        (rest : Shape)
        → 0 < output_dim
        → inferred_dim op params axis output_dim ∷ rest ≡ spatial
        → (resolved : List (ℕ × ℕ × ℕ)) × (resolve_axes op params (axis + 1) rest ≡ ok resolved)
          × (output_dims_of resolved ≡ dims)
          × (length rest ≡ length dims)
        → (resolved : List (ℕ × ℕ × ℕ)) × (resolve_axes op params axis spatial ≡ ok resolved)
          × (output_dims_of resolved ≡ output_dim ∷ dims)
          × (length spatial ≡ suc (length dims))
    extend rest pos made (resolved, found, same, same_length) =
        let (pads, here) =
          resolve_axis-infer_axis (resolved_auto_pad op) (resolved_ceil_mode op) output_dim
            (window_size params axis) (get_or params.strides axis 0)
            (get_or params.pads_begin axis 0) (get_or params.pads_end axis 0) pos (omega arith)
            (strides axis (omega arith)) fits.0 in
        rw (sym made) (
          (output_dim, pads.0, pads.1) ∷ resolved,
          resolve_axes-cons op params axis (inferred_dim op params axis output_dim) rest _ resolved
              (infer_axis_pos (resolved_auto_pad op) output_dim (window_size params axis)
                (get_or params.strides axis 0) (get_or params.pads_begin axis 0)
                (get_or params.pads_end axis 0))
              here found,
          ap (◌∷◌ output_dim) same,
          ap suc same_length,
        )

pub two_less : (n : ℕ) → suc (suc n) - 2 ≡ n
two_less n = omega arith

abbrev pub with_pads : PoolParams → List (ℕ × ℕ × ℕ) → PoolParams
with_pads params axes = record params {
  pads_begin = map (λ (r : ℕ × ℕ × ℕ). r.1) axes;
  pads_end = map (λ (r : ℕ × ℕ × ℕ). r.2) axes;
}

pub output_shape-resolve_axes :
    (op : OperatorMaxPool) (b c : ℕ) (dims : Shape) (params : PoolParams)
    (resolved : List (ℕ × ℕ × ℕ))
    → ltb (suc (suc (length dims))) 3 ≡ false
    → normalize_params op (suc (suc (length dims)) - 2) ≡ ok params
    → resolve_axes op params 0 dims ≡ ok resolved
    → output_shape_and_resolved_params op (b ∷ c ∷ dims)
      ≡ ok (b ∷ c ∷ output_dims_of resolved, with_pads params resolved)
unfolding output_shape_and_resolved_params
output_shape-resolve_axes op b c dims params resolved enough normal found =
    rw (enough, normal, found) refl

pub output_shape-infer_input_shape :
    (op : OperatorMaxPool) (output input : Shape) (params : PoolParams)
    → normalize_params op (num_dims output - first_spatial_dim) ≡ ok params
    → FitsFrom op params 0 (drop first_spatial_dim output)
    → infer_input_shape op output ≡ ok input
    → (resolved : PoolParams) × (output_shape_and_resolved_params op input ≡ ok (output, resolved))
unfolding infer_input_shape output_shape_and_resolved_params
output_shape-infer_input_shape op [] input params normal fits e = absurd (error-ne-ok e)
output_shape-infer_input_shape op (b ∷ []) input params normal fits e = absurd (error-ne-ok e)
output_shape-infer_input_shape op (b ∷ c ∷ dims) input params normal fits e =
    let (enough, e1) =
      fail_if-passed (ltb (num_dims (b ∷ c ∷ dims)) 3)
        (λ u. normalize_params op (num_dims (b ∷ c ∷ dims) - 2) >>= λ params.
          infer_axes op params 0 dims >>= λ spatial. ok (b ∷ c ∷ spatial))
        e in
    let (spatial, inferred, made) = returned (infer_axes op params 0 dims) _ (rw normal at e1) in
    finish spatial enough (ok_injective made) (
      resolve_axes-infer_axes op params (length dims) 0 dims spatial (omega arith) strides fits
        inferred)
  where
    strides : IsPositive (length dims) params.strides
    strides =
        rw (two_less (length dims)) at
          (normalize_params-IsNormalized op (suc (suc (length dims)) - 2) params normal).2

    finish :
        (spatial : Shape)
        → ltb (suc (suc (length dims))) 3 ≡ false
        → b ∷ c ∷ spatial ≡ input
        → (resolved : List (ℕ × ℕ × ℕ)) × (resolve_axes op params 0 spatial ≡ ok resolved)
          × (output_dims_of resolved ≡ dims)
          × (length spatial ≡ length dims)
        → (resolved : PoolParams) × (output_shape_and_resolved_params op input
            ≡ ok (b ∷ c ∷ dims, resolved))
    finish spatial enough made (resolved, found, same, same_length) =
        rw (sym made, sym same)
          (
            with_pads params resolved,
            output_shape-resolve_axes op b c spatial params resolved (rw same_length enough)
                (rw same_length normal) found,
          )
