-- ===== src/Operators/Maxpool/Split.antt =====
-- How MaxPool is split: by the elements of its outputs, and by spatial dimensions only without padding.
use gwr.Base.{
  ℕ, ◌+◌, ◌-◌, ◌≡◌, refl, sym, ap, ap₂, ◌∙◌, Option, some, get_elem?, List, [], ◌∷◌, map, length,
  Bool, true, false, if◌then◌else◌, All, arith, Outcome, ok, error, panic, error-ne-ok,
  ok_injective, returned, ◌>>=◌, invalid_output,
}
use gwr.Tensor.{Shape, num_dims, same_dims, TensorView, DimPartition}
use gwr.Tensor.Partition.{partition_across_dimensions, apply_dim_partitions}
use gwr.Tensor.Tiling.Cover.{
  Returns, contains, InShape, num_parts, partition_across_dimensions_once,
}
use gwr.Tensor.Ascending.{Ascending-All, AscendingSpec, partition_across_dimensions-Ascending}
use gwr.Tensor.Within.{InDim, partition_across_dimensions_within}
use gwr.Operators.{TensorPartition, map_some, add_offsets, output_part}
use gwr.Operators.OutputParts.{in_view, element, in_view-output_part}
use gwr.Operators.Pooling.{OperatorMaxPool, PoolParams, normalize_params}
use gwr.Operators.Maxpool.{
  output_shape_and_resolved_params, can_partition_spatial, choose_partition_dims, validate_inputs,
  validate_outputs, validate_input_outputs,
}
use gwr.Operators.Maxpool.Views.{
  view_shape, input_partition_for_output_partition, part_of, collect_parts, partition_views,
}
use gwr.Operators.Maxpool.Reach.{AllReach, AllNarrow, output_shape-AllReach}
use gwr.Operators.Maxpool.Elements.{
  choose_partition_dims-Ascending, InShape-All, same_dims-true, has_element, num_parts_with,
  ViewsSame, get_elem?-map_some,
}
use gwr.Operators.Maxpool.Parts.{narrow_inputs_returns}

module _ (input_view output_view : TensorView) (views : List (Option TensorView))
    (params : PoolParams) (reach : AllReach params input_view.shape output_view.shape)
    (index : List ℕ) (same_rank : length output_view.offsets ≡ length output_view.shape)
    (h : InShape index output_view.shape) (k : ℕ) (view : TensorView)
    (given : get_elem? views k ≡ some (some view)) where
  part_of_returns :
      (spec : List DimPartition)
      → AscendingSpec 0 (length output_view.shape) spec
      → All (InDim output_view.shape) spec
      → (part : TensorPartition) × (part_of input_view output_view views params spec ≡ ok part)
        × ViewsSame k view part
        × (has_element (element output_view index same_rank h) (get_elem? part.outputs k)
            ≡ contains index spec)
  unfolding part_of input_partition_for_output_partition in_view output_part
  part_of_returns spec ascending within =
      let (narrowed, found) =
        narrow_inputs_returns params input_view.shape output_view.shape reach 0 spec
          input_view.shape input_view.offsets ascending within (λ dim le. refl) in
      (
        record {
          inputs =
              some (record { tensor = input_view.tensor; shape = narrowed.0; offsets = narrowed.1 })
              ∷ [];
          outputs = map (map_some narrowed_view) views;
        },
        rw found refl,
        (narrowed_view view, get_elem?-map_some narrowed_view views k view given, refl),
        ap (has_element (element output_view index same_rank h))
              (get_elem?-map_some narrowed_view views k view given)
            ∙ in_view-output_part output_view index same_rank h spec ascending,
      )
    where
      narrowed_view : TensorView → TensorView
      narrowed_view view = record {
        tensor = view.tensor;
        shape = (apply_dim_partitions output_view.shape spec).0;
        offsets = add_offsets output_view.offsets (apply_dim_partitions output_view.shape spec).1;
      }

  collect_parts_returns :
      (specs : List (List DimPartition))
      → All (AscendingSpec 0 (length output_view.shape)) specs
      → All (All (InDim output_view.shape)) specs
      → (parts : List TensorPartition) × (collect_parts
            (part_of input_view output_view views params)
            specs
          ≡ ok parts)
        × All (ViewsSame k view) parts
        × (num_parts_with k (element output_view index same_rank h) parts ≡ num_parts index specs)
  unfolding collect_parts num_parts_with num_parts
  collect_parts_returns [] ascending within = ([], refl, tt, refl)
  collect_parts_returns (spec ∷ specs) (a, as') (w, ws) =
      let (part, found, same, has) = part_of_returns spec a w in
      let (parts, rest, sames, counts) = collect_parts_returns specs as' ws in
      (
        part ∷ parts,
        rw (found, rest) refl,
        (same, sames),
        ap₂ (λ (b : Bool) n. (if b then 1 else 0) + n) has counts,
      )

abbrev answer :
    Bool
    → TensorView
    → TensorView × Option TensorView
    → Outcome (TensorView × TensorView × Option TensorView)
answer same input' found = if same then ok (input', found.0, found.1) else error invalid_output

-- What the check of the views says of the shapes.
output_shape_of_checked :
    (op : OperatorMaxPool) (inputs outputs : List (Option TensorView)) (input output : TensorView)
    (indices : Option TensorView)
    → validate_input_outputs view_shape op inputs outputs ≡ ok (input, output, indices)
    → (resolved : PoolParams) × (output_shape_and_resolved_params op input.shape
        ≡ ok (output.shape, resolved))
unfolding validate_input_outputs
output_shape_of_checked op inputs outputs input output indices checked =
    let (input', given, e1) = returned (validate_inputs inputs) _ checked in
    let (found, given', e2) = returned (validate_outputs view_shape outputs) _ e1 in
    let (expected, computed, e3) =
      returned (output_shape_and_resolved_params op input'.shape) _ e2 in
    finish input' found expected computed e3
  where
    finish :
        (input' : TensorView) (found : TensorView × Option TensorView)
        (expected : Shape × PoolParams)
        → output_shape_and_resolved_params op input'.shape ≡ ok expected
        → answer (same_dims expected.0 (found.0).shape) input' found ≡ ok (input, output, indices)
        → (resolved : PoolParams) × (output_shape_and_resolved_params op input.shape
            ≡ ok (output.shape, resolved))
    finish input' found expected computed e = by_test (same_dims expected.0 (found.0).shape) refl e
      where
        by_test :
            (same : Bool)
            → same_dims expected.0 (found.0).shape ≡ same
            → answer same input' found ≡ ok (input, output, indices)
            → (resolved : PoolParams) × (output_shape_and_resolved_params op input.shape
                ≡ ok (output.shape, resolved))
        by_test false same e = absurd (error-ne-ok e)
        by_test true same e =
            let views = ok_injective e in
            (
              expected.1,
              ap (λ v. output_shape_and_resolved_params op v.shape) (sym (ap (λ m. m.0) views))
                  ∙ computed
                  ∙ ap (λ dims. ok (dims, expected.1))
                      (same_dims-true expected.0 (found.0).shape same ∙ ap (λ m. m.1.shape) views),
            )

-- Views that pass the check, for parameters whose padding is narrow on every axis (less than the window
-- at either end), and an output that is given, the pooled one or that of the indices: the operator is
-- split, each part has a view of that output's tensor in that output's place, and every element of the
-- output view (the first one: its offsets and its shape hold for both) lies in the view of exactly one
-- part.
pub partition_views_each_once :
    (op : OperatorMaxPool) (inputs outputs : List (Option TensorView)) (input output : TensorView)
    (indices : Option TensorView) (params : PoolParams) (num_partitions : ℕ)
    → validate_input_outputs view_shape op inputs outputs ≡ ok (input, output, indices)
    → normalize_params op (num_dims input.shape - 2) ≡ ok params
    → AllNarrow op params
    → (same_rank : length output.offsets ≡ length output.shape)
    → (index : List ℕ) (h : InShape index output.shape) → (k : ℕ) (view : TensorView)
    → get_elem? outputs k ≡ some (some view)
    → (parts : List TensorPartition) × (partition_views op inputs outputs num_partitions ≡ ok parts)
      × All (ViewsSame k view) parts
      × (num_parts_with k (add_offsets output.offsets index) parts ≡ 1)
unfolding partition_views
partition_views_each_once op inputs outputs input output indices params num_partitions checked
      normal narrow same_rank index h k view given =
    let (resolved, shaped) =
      output_shape_of_checked op inputs outputs input output indices checked in
    let candidates = choose_partition_dims 0 (can_partition_spatial op resolved) output.shape in
    let ascending =
      rw (zero_add (length output.shape)) at
        (choose_partition_dims-Ascending 0 (can_partition_spatial op resolved) output.shape) in
    let exist = (Ascending-All 0 (length output.shape) candidates ascending).1 in
    let (reach, same_length) =
      output_shape-AllReach op input.shape output.shape params resolved normal narrow shaped in
    rw (checked, shaped)
      (go resolved reach (partition_across_dimensions output.shape candidates num_partitions)
        (partition_across_dimensions-Ascending output.shape candidates num_partitions ascending)
        (partition_across_dimensions_within output.shape candidates num_partitions exist
          (InShape-All index output.shape h))
        (partition_across_dimensions_once output.shape candidates num_partitions index exist h))
  where
    zero_add : (n : ℕ) → 0 + n ≡ n
    zero_add n = omega arith

    go :
        (resolved : PoolParams)
        → AllReach resolved input.shape output.shape
        → (o : Outcome (List (List DimPartition)))
        → Returns (All (AscendingSpec 0 (length output.shape))) o
        → Returns (All (All (InDim output.shape))) o
        → (specs : List (List DimPartition)) × (o ≡ ok specs) × (num_parts index specs ≡ 1)
        → (parts : List TensorPartition) × ((o
              >>= collect_parts (part_of input output outputs resolved))
            ≡ ok parts)
          × All (ViewsSame k view) parts
          × (num_parts_with k (add_offsets output.offsets index) parts ≡ 1)
    go resolved reach (ok specs) a w (found, e, once) =
        let (parts, made, same, count) =
          collect_parts_returns input output outputs resolved reach index same_rank h k view given
            specs a w in
        (parts, made, same, count ∙ ap (num_parts index) (ok_injective e) ∙ once)
    go resolved reach (error x) a w found = absurd a
    go resolved reach panic a w found = absurd a
