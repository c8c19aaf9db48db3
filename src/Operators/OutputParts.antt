-- ===== src/Operators/OutputParts.antt =====
-- The output views of the parts of an operation, for every operator that splits its output.
use gwr.Base.{
  ℕ, suc, ◌+◌, ◌<◌, ◌≡◌, refl, sym, ap, ◌∙◌, Option, none, some, List, [], ◌∷◌, map, length, Bool,
  true, false, ltb, if◌then◌else◌, All, arith, set, replicate, length-set, length-replicate,
  Outcome, ok, error, panic, ◌>>=◌,
}
use gwr.Tensor.{Shape, DimPartition, TensorView}
use gwr.Tensor.Partition.{apply_from, apply_dim_partitions, partition_across_dimensions}
use gwr.Tensor.Tiling.Cover.{
  Returns, contains, InShape, num_parts, partition_across_dimensions_once,
}
use gwr.Tensor.Ascending.{
  Ascending, Ascending-All, AscendingSpec, partition_across_dimensions-Ascending,
}
use gwr.Tensor.Region.{region, length-InShape, region-apply_dim_partitions}
use gwr.Operators.{
  TensorPartition, large_dims, or_last, choose_partition_dims, add_offsets, output_part,
}

-- Whether a view has an element of its tensor.
unfoldable pub in_view : List ℕ → TensorView → Bool
unfolding region
in_view index v = region index v.shape v.offsets

-- The number of output views among the parts that have an element.
unfoldable pub num_with : List ℕ → List (Option TensorView) → ℕ
unfolding in_view
num_with index [] = 0
num_with index (none ∷ views) = num_with index views
num_with index (some v ∷ views) = (if in_view index v then 1 else 0) + num_with index views

unfoldable pub num_outputs_with : List ℕ → List TensorPartition → ℕ
unfolding num_with
num_outputs_with index [] = 0
num_outputs_with index (part ∷ parts) = num_with index part.outputs + num_outputs_with index parts

region-add_offsets :
    (base index : List ℕ) (dims : Shape) (offsets : List ℕ)
    → length base ≡ length index
    → length base ≡ length offsets
    → region (add_offsets base index) dims (add_offsets base offsets) ≡ region index dims offsets
unfolding region add_offsets
region-add_offsets [] [] dims [] e f = refl
region-add_offsets [] [] dims (o ∷ offsets) e f = absurd (omega arith)
region-add_offsets [] (i ∷ index) dims offsets e f = absurd (omega arith)
region-add_offsets (b ∷ base) [] dims offsets e f = absurd (omega arith)
region-add_offsets (b ∷ base) (i ∷ index) dims [] e f = absurd (omega arith)
region-add_offsets (b ∷ base) (i ∷ index) [] (o ∷ offsets) e f = refl
region-add_offsets (b ∷ base) (i ∷ index) (d ∷ dims) (o ∷ offsets) e f =
    ground (arith, region-add_offsets base index dims offsets (omega arith) (omega arith))

large_dims-Ascending : (i : ℕ) (dims : Shape) → Ascending i (i + length dims) (large_dims i dims)
unfolding large_dims
large_dims-Ascending i [] = omega arith
large_dims-Ascending i (d ∷ dims) =
    by_size (ltb 1 d) (large_dims (i + 1) dims) (large_dims-Ascending (i + 1) dims)
  where
    weaken :
        (candidates : List ℕ)
        → Ascending (i + 1) (i + 1 + length dims) candidates
        → Ascending i (i + suc (length dims)) candidates
    weaken [] a = omega arith
    weaken (c ∷ candidates) (a, as') = (omega arith, rw (sym (next i (length dims))) as')
      where
        next : (i n : ℕ) → i + 1 + n ≡ i + suc n
        next i n = omega arith

    by_size :
        (large : Bool) (candidates : List ℕ)
        → Ascending (i + 1) (i + 1 + length dims) candidates
        → Ascending i (i + suc (length dims)) (if large then i ∷ candidates else candidates)
    by_size true candidates a = (omega arith, rw (sym (next i (length dims))) a)
      where
        next : (i n : ℕ) → i + 1 + n ≡ i + suc n
        next i n = omega arith
    by_size false candidates a = weaken candidates a

-- The candidates are dimensions in ascending order, for a shape that has one.
pub choose_partition_dims-Ascending :
    (dims : Shape) → 0 < length dims → Ascending 0 (length dims) (choose_partition_dims dims)
unfolding choose_partition_dims
choose_partition_dims-Ascending dims pos =
    or_last-Ascending (large_dims 0 dims)
      (rw (zero_add (length dims)) at (large_dims-Ascending 0 dims))
  where
    zero_add : (n : ℕ) → 0 + n ≡ n
    zero_add n = omega arith

    or_last-Ascending :
        (candidates : List ℕ)
        → Ascending 0 (length dims) candidates
        → Ascending 0 (length dims) (or_last dims candidates)
    or_last-Ascending [] a = omega arith
    or_last-Ascending (c ∷ candidates) a = a

length-apply_from :
    (ps : List DimPartition) (dims : Shape) (offsets : List ℕ)
    → length (apply_from ps (dims, offsets)).1 ≡ length offsets
unfolding apply_from
length-apply_from [] dims offsets = refl
length-apply_from (p ∷ ps) dims offsets =
    length-apply_from ps (set dims p.dim p.len) (set offsets p.dim p.offset)
    ∙ length-set offsets p.dim p.offset

module _ (view : TensorView) (index : List ℕ) (same_rank : length view.offsets ≡ length view.shape)
    (h : InShape index view.shape) where
  -- The element of the tensor that has this index in the view.
  abbrev pub element : List ℕ
  element = add_offsets view.offsets index

  pub in_view-output_part :
      (spec : List DimPartition)
      → AscendingSpec 0 (length view.shape) spec
      → in_view element (output_part view spec) ≡ contains index spec
  unfolding in_view output_part apply_dim_partitions
  in_view-output_part spec a =
      region-add_offsets view.offsets index _ _
        (same_rank ∙ sym (length-InShape index view.shape h))
        (same_rank
          ∙ sym (length-replicate (length view.shape) 0)
          ∙ sym (length-apply_from spec view.shape (replicate (length view.shape) 0)))
      ∙ unfold apply_dim_partitions in region-apply_dim_partitions index view.shape spec h a

  num_outputs_with-map :
      (part_of : List DimPartition → TensorPartition)
      → ((spec : List DimPartition) → (part_of spec).outputs ≡ some (output_part view spec) ∷ [])
      → (specs : List (List DimPartition)) → All (AscendingSpec 0 (length view.shape)) specs
      → num_outputs_with element (map part_of specs) ≡ num_parts index specs
  unfolding num_outputs_with num_parts
  num_outputs_with-map part_of outs [] a = refl
  num_outputs_with-map part_of outs (spec ∷ specs) (a, as') =
      rw (outs spec, in_view-output_part spec a, num_outputs_with-map part_of outs specs as')
        (omega arith)

  -- Every element of the view lies in the output view of exactly one part.
  pub num_outputs_with-partition :
      (part_of : List DimPartition → TensorPartition)
      → ((spec : List DimPartition) → (part_of spec).outputs ≡ some (output_part view spec) ∷ [])
      → (requested : ℕ) → 0 < length view.shape
      → (parts : List TensorPartition) × ((partition_across_dimensions view.shape
              (choose_partition_dims view.shape)
              requested
            >>= λ specs. ok (map part_of specs))
          ≡ ok parts)
        × (num_outputs_with element parts ≡ 1)
  num_outputs_with-partition part_of outs requested pos =
      let candidates = choose_partition_dims view.shape in
      let ascending = choose_partition_dims-Ascending view.shape pos in
      go (partition_across_dimensions view.shape candidates requested)
        (partition_across_dimensions-Ascending view.shape candidates requested ascending)
        (partition_across_dimensions_once view.shape candidates requested index
          (Ascending-All 0 (length view.shape) candidates ascending).1 h)
    where
      go :
          (o : Outcome (List (List DimPartition)))
          → Returns (All (AscendingSpec 0 (length view.shape))) o
          → (specs : List (List DimPartition)) × (o ≡ ok specs) × (num_parts index specs ≡ 1)
          → (parts : List TensorPartition) × ((o >>= λ specs. ok (map part_of specs)) ≡ ok parts)
            × (num_outputs_with element parts ≡ 1)
      go (ok specs) a (found, e, once) = (
        map part_of specs,
        refl,
        num_outputs_with-map part_of outs specs a ∙ ap (num_parts index) (inner e) ∙ once,
      )
        where
          inner :
              {x y : List (List DimPartition)}
              → ◌≡◌ {A = Outcome (List (List DimPartition))} (ok x) (ok y)
              → x ≡ y
          inner p = cc
      go (error x) a found = absurd a
      go panic a found = absurd a
