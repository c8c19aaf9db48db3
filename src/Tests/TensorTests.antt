-- ===== src/Tests/TensorTests.antt =====
-- Shapes and parts at concrete data.
use gwr.Base.{◌≡◌, refl, none, [], ◌∷◌, ok, max, length, arith}
use gwr.Tensor.{Tensor, TensorView, fp16, element_offset}
use gwr.Tensor.Partition.{partition_across_dimensions}
use gwr.Tensor.Tiling.Cover.{Returns}
use gwr.Tensor.Tiling.Count.{InBounds, length-partition_across_dimensions}

-- Five parts are requested of a shape of 3 by 2; six are made.
length-partition_across_dimensions_example :
    Returns
      (λ specs. InBounds (max 5 1) (length specs))
      (partition_across_dimensions (3 ∷ 2 ∷ []) (0 ∷ 1 ∷ []) 5)
length-partition_across_dimensions_example =
    length-partition_across_dimensions (3 ∷ 2 ∷ []) (0 ∷ 1 ∷ []) 5 (omega arith)

six_parts :
    Returns (λ specs. length specs ≡ 6) (partition_across_dimensions (3 ∷ 2 ∷ []) (0 ∷ 1 ∷ []) 5)
unfolding partition_across_dimensions
six_parts = refl

abbrev tensor : Tensor
tensor = record { id = none; dtype = fp16; shape = 3 ∷ 4 ∷ []; addr = 64 }

abbrev view : TensorView
view = record { tensor = tensor; shape = 1 ∷ 2 ∷ []; offsets = 2 ∷ 1 ∷ [] }

ninth : element_offset view ≡ ok 9
unfolding element_offset
ninth = refl
