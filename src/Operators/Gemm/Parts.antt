-- ===== src/Operators/Gemm/Parts.antt =====
-- How a product of matrices is split: by the elements of its output.
use gwr.Base.{ℕ, ◌<◌, ◌≡◌, refl, Option, none, List, length, get_or, ok}
use gwr.Tensor.{TensorView}
use gwr.Tensor.Tiling.Cover.{InShape}
use gwr.Operators.{TensorPartition, add_offsets}
use gwr.Operators.OutputParts.{num_outputs_with, num_outputs_with-partition}
use gwr.Operators.Gemm.{view_shape, validate_input_outputs, partition_views, part_of}

-- A product whose views pass the check, with an output view of at least one dimension, is split, and
-- every element of the output view lies in the output view of exactly one part.
pub partition_views-num_outputs_with :
    (inputs outputs : List (Option TensorView)) (input_a input_b output : TensorView)
    (num_partitions : ℕ)
    → validate_input_outputs view_shape inputs outputs ≡ ok (input_a, input_b, output)
    → length output.offsets ≡ length output.shape
    → 0 < length output.shape
    → (index : List ℕ) → InShape index output.shape
    → (parts : List TensorPartition) × (partition_views inputs outputs num_partitions ≡ ok parts)
      × (num_outputs_with (add_offsets output.offsets index) parts ≡ 1)
unfolding partition_views part_of
partition_views-num_outputs_with inputs outputs input_a input_b output num_partitions checked
      same_rank pos index h =
    rw checked (
      num_outputs_with-partition output index same_rank h
        (part_of input_a input_b (get_or inputs 2 none) output) (λ spec. refl) num_partitions pos)
