-- ===== src/Operators/Maxpool/Reach.antt =====
-- The shape of an output that has been checked: every window reaches the input.
use gwr.Base.{
  ℕ, zero, suc, ◌+◌, ◌-◌, ◌≤◌, ◌<◌, ◌≡◌, refl, sym, ap, ◌∙◌, List, [], ◌∷◌, map, length, get_or,
  ◌==◌, ltb, arith, ok, ok_injective, error-ne-ok, returned, ◌>>=◌,
}
use gwr.Tensor.{Shape, num_dims}
use gwr.Operators.Pooling.{
  OperatorMaxPool, PoolParams, resolved_auto_pad, resolved_ceil_mode, normalize_params,
  resolve_axis,
}
use gwr.Operators.Pooling.Params.{fail_if-passed, ==-pos, IsPositive, normalize_params-IsNormalized}
use gwr.Operators.Pooling.Reach.{IsNarrow, Reaches, resolve_axis-Reaches}
use gwr.Operators.Maxpool.{
  window_size, resolve_axes, output_dims_of, output_shape_and_resolved_params,
}
use gwr.Operators.Maxpool.Shapes.{with_pads, two_less}

-- Every window of every axis reaches the input.
abbrev pub AllReach : PoolParams → Shape → Shape → Type 0
AllReach params input output =
    (dim : ℕ)
    → 2 ≤ dim
    → dim < length output
    → Reaches (get_or input dim 0) (window_size params (dim - 2))
        (get_or params.strides (dim - 2) 0)
        (get_or output dim 0, get_or params.pads_begin (dim - 2) 0, 0)

-- The padding that the parameters give is narrow on every axis.
abbrev pub AllNarrow : OperatorMaxPool → PoolParams → Type 0
AllNarrow op params =
    (axis : ℕ)
    → IsNarrow (resolved_auto_pad op) (window_size params axis) (get_or params.pads_begin axis 0)
        (get_or params.pads_end axis 0)

abbrev ReachesFrom : PoolParams → ℕ → Shape → List (ℕ × ℕ × ℕ) → Type 0
ReachesFrom params axis dims resolved =
    (length resolved ≡ length dims)
    × ((j : ℕ)
        → j < length dims
        → Reaches (get_or dims j 0) (window_size params (axis + j))
            (get_or params.strides (axis + j) 0)
            (
              get_or (output_dims_of resolved) j 0,
              get_or (map (λ (r : ℕ × ℕ × ℕ). r.1) resolved) j 0,
              0,
            ))

resolve_axes-ReachesFrom :
    (op : OperatorMaxPool) (params : PoolParams) (axes axis : ℕ) (dims : Shape)
    (resolved : List (ℕ × ℕ × ℕ))
    → axis + length dims ≡ axes
    → IsPositive axes params.strides
    → AllNarrow op params
    → resolve_axes op params axis dims ≡ ok resolved
    → ReachesFrom params axis dims resolved
unfolding resolve_axes
resolve_axes-ReachesFrom op params axes axis [] resolved count strides narrow e =
    rw (sym (ok_injective e)) (refl, λ j lt. absurd (omega arith))
resolve_axes-ReachesFrom op params axes axis (input_dim ∷ dims) resolved count strides narrow e =
    let axis_of =
      resolve_axis (resolved_auto_pad op) (resolved_ceil_mode op) input_dim
        (window_size params axis) (get_or params.strides axis 0) (get_or params.pads_begin axis 0)
        (get_or params.pads_end axis 0) in
    let (some_input, e1) =
      fail_if-passed (input_dim == 0)
        (λ u.
          axis_of >>= λ first. resolve_axes op params (axis + 1) dims >>= λ rest. ok (first ∷ rest))
        e in
    let (first, found, e2) = returned axis_of _ e1 in
    let (rest, others, made) = returned (resolve_axes op params (axis + 1) dims) _ e2 in
    let (same_length, reach) =
      resolve_axes-ReachesFrom op params axes (axis + 1) dims rest (omega arith) strides narrow
        others in
    rw (sym (ok_injective made)) (
      ap suc same_length,
      each first rest
          (resolve_axis-Reaches (resolved_auto_pad op) (resolved_ceil_mode op) input_dim
            (window_size params axis) (get_or params.strides axis 0)
            (get_or params.pads_begin axis 0) (get_or params.pads_end axis 0) first
            (==-pos input_dim some_input) (omega arith) (strides axis (omega arith)) (narrow axis)
            found)
          reach,
    )
  where
    each :
        (first : ℕ × ℕ × ℕ) (rest : List (ℕ × ℕ × ℕ))
        → Reaches input_dim (window_size params axis) (get_or params.strides axis 0) first
        → ((j : ℕ)
            → j < length dims
            → Reaches
                (get_or dims j 0)
                (window_size params (axis + 1 + j))
                (get_or params.strides (axis + 1 + j) 0)
                (
                  get_or (output_dims_of rest) j 0,
                  get_or (map (λ (r : ℕ × ℕ × ℕ). r.1) rest) j 0,
                  0,
                ))
        → (j : ℕ) → j < suc (length dims)
        → Reaches
            (get_or (input_dim ∷ dims) j 0)
            (window_size params (axis + j))
            (get_or params.strides (axis + j) 0)
            (
              get_or (output_dims_of (first ∷ rest)) j 0,
              get_or (map (λ (r : ℕ × ℕ × ℕ). r.1) (first ∷ rest)) j 0,
              0,
            )
    each first rest here there zero lt = rw (plus_zero axis) here
      where
        plus_zero : (n : ℕ) → n + 0 ≡ n
        plus_zero n = omega arith
    each first rest here there (suc j) lt = rw (sym (shifted axis j)) (there j (omega arith))
      where
        shifted : (n j : ℕ) → n + 1 + j ≡ n + suc j
        shifted n j = omega arith

-- An output shape that has been computed, from parameters whose padding is narrow.
pub output_shape-AllReach :
    (op : OperatorMaxPool) (input output : Shape) (params resolved : PoolParams)
    → normalize_params op (num_dims input - 2) ≡ ok params
    → AllNarrow op params
    → output_shape_and_resolved_params op input ≡ ok (output, resolved)
    → AllReach resolved input output × (length output ≡ length input)
unfolding output_shape_and_resolved_params
output_shape-AllReach op [] output params resolved normal narrow e = absurd (error-ne-ok e)
output_shape-AllReach op (b ∷ []) output params resolved normal narrow e = absurd (error-ne-ok e)
output_shape-AllReach op (b ∷ c ∷ dims) output params resolved normal narrow e =
    let (enough, e1) =
      fail_if-passed (ltb (num_dims (b ∷ c ∷ dims)) 3)
        (λ u. normalize_params op (num_dims (b ∷ c ∷ dims) - 2) >>= λ params.
          resolve_axes op params 0 dims >>= λ axes.
          ok (b ∷ c ∷ output_dims_of axes, with_pads params axes))
        e in
    let (axes, found, made) = returned (resolve_axes op params 0 dims) _ (rw normal at e1) in
    finish axes (ok_injective made) (
      resolve_axes-ReachesFrom op params (length dims) 0 dims axes (omega arith) strides narrow
        found)
  where
    strides : IsPositive (length dims) params.strides
    strides =
        rw (two_less (length dims)) at
          (normalize_params-IsNormalized op (suc (suc (length dims)) - 2) params normal).2

    length-output_dims_of : (axes : List (ℕ × ℕ × ℕ)) → length (output_dims_of axes) ≡ length axes
    length-output_dims_of [] = refl
    length-output_dims_of (r ∷ axes) = ap suc (length-output_dims_of axes)

    finish :
        (axes : List (ℕ × ℕ × ℕ))
        → ◌≡◌ {A = Shape × PoolParams}
            (b ∷ c ∷ output_dims_of axes, with_pads params axes)
            (output, resolved)
        → ReachesFrom params 0 dims axes
        → AllReach resolved (b ∷ c ∷ dims) output × (length output ≡ suc (suc (length dims)))
    finish axes made (same_length, reach) =
        let counted : length (b ∷ c ∷ output_dims_of axes) ≡ suc (suc (length dims)) =
          ap (λ n. suc (suc n)) (length-output_dims_of axes ∙ same_length) in
        rw (sym (ap (λ m. m.0) made), sym (ap (λ m. m.1) made)) (each counted, counted)
      where
        each :
            length (b ∷ c ∷ output_dims_of axes) ≡ suc (suc (length dims))
            → AllReach (with_pads params axes) (b ∷ c ∷ dims) (b ∷ c ∷ output_dims_of axes)
        each counted zero low lt = absurd (omega arith)
        each counted (suc zero) low lt = absurd (omega arith)
        each counted (suc (suc d)) low lt =
            rw (two_less d) (rw (zero_add d) at (reach d (omega (arith, counted))))
          where
            zero_add : (n : ℕ) → 0 + n ≡ n
            zero_add n = omega arith
