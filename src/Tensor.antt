-- ===== src/Tensor.antt =====
-- gwr-models/src/processing_element/operators/mod.rs and dtype.rs: shapes, tensors and views. A shape
-- and the offsets of a view are lists of numbers, outermost dimension first; sizes are not bounded.
pub mod Partition
pub mod Ascending
pub mod Region
pub mod Within
pub mod Offsets
pub mod Tiling
use gwr.Base.{
  ℕ, zero, suc, ◌+◌, ◌-◌, ◌*◌, ◌/◌, Option, none, some, List, [], ◌∷◌, length, get_or, set,
  replicate, Bool, true, false, ◌==◌, ltb, leb, ◌&&◌, if◌then◌else◌, Outcome, ok, error, reverse,
  invalid_size, wrong_length,
}

pub data DataType : Type 0 where
  fp32 bf16 fp16 fp8 fp4 int64 int32 int16 int8 int4 : DataType

unfoldable pub num_bits : DataType → ℕ
num_bits fp32 = 32
num_bits fp16 = 16
num_bits bf16 = 16
num_bits fp8 = 8
num_bits fp4 = 4
num_bits int64 = 64
num_bits int32 = 32
num_bits int16 = 16
num_bits int8 = 8
num_bits int4 = 4

abbrev pub Shape : Type 0
Shape = List ℕ

-- `iter().product()`
abbrev pub product : List ℕ → ℕ
product [] = 1
product (d ∷ dims) = d * product dims

abbrev pub num_dims : Shape → ℕ
num_dims dims = length dims

abbrev pub num_elements : Shape → ℕ
num_elements dims = product dims

-- (`i` is below `total_dims` wherever it is called.)
unfoldable pub get_dim : Shape → ℕ → ℕ → ℕ
get_dim dims total_dims i =
    if leb (total_dims - i) (num_dims dims)
    then get_or dims (num_dims dims - (total_dims - i)) 1
    else 1

-- `div_ceil`
abbrev pub div_ceil : ℕ → ℕ → ℕ
div_ceil a b = (a + (b - 1)) / b

pub record Tensor : Type 0 where
  pub id : Option ℕ
  pub dtype : DataType
  pub shape : Shape
  pub addr : ℕ

unfoldable pub new : Shape → DataType → ℕ → Tensor
new dims dtype addr = record { id = none; dtype = dtype; shape = dims; addr = addr }

unfoldable pub num_bytes : Tensor → ℕ
num_bytes t = div_ceil (num_elements t.shape * num_bits t.dtype) 8

pub record TensorView : Type 0 where
  pub tensor : Tensor
  pub shape : Shape
  pub offsets : List ℕ

unfoldable pub new_full : Tensor → TensorView
new_full tensor = record {
  tensor = tensor;
  shape = tensor.shape;
  offsets = replicate (num_dims tensor.shape) 0;
}

-- `==` of shapes.
unfoldable pub same_dims : Shape → Shape → Bool
same_dims [] [] = true
same_dims [] (e ∷ es) = false
same_dims (d ∷ ds) [] = false
same_dims (d ∷ ds) (e ∷ es) = d == e && same_dims ds es

unfoldable pub all_zero : List ℕ → Bool
all_zero [] = true
all_zero (o ∷ os) = o == 0 && all_zero os

unfoldable pub is_full_view : TensorView → Bool
unfolding same_dims all_zero
is_full_view v = same_dims v.shape v.tensor.shape && all_zero v.offsets

unfoldable pub view_num_bytes : TensorView → ℕ
view_num_bytes v = div_ceil (num_bits v.tensor.dtype * num_elements v.shape) 8

pub record DimPartition : Type 0 where
  pub dim : ℕ
  pub offset : ℕ
  pub len : ℕ

-- One round of the loop of `from_output_partitions_on_view`, over the shape and the offsets.
unfoldable pub narrow : ℕ → ℕ → DimPartition → Shape × List ℕ → Shape × List ℕ
narrow rank_pad view_rank p (shape, offsets) =
    if ltb p.dim rank_pad
    then (shape, offsets)
    else if ltb (p.dim - rank_pad) view_rank && ltb 1 (get_or shape (p.dim - rank_pad) 0)
    then (
      set shape (p.dim - rank_pad) p.len,
      set offsets (p.dim - rank_pad) (get_or offsets (p.dim - rank_pad) 0 + p.offset),
    )
    else (shape, offsets)

unfoldable pub narrow_all : ℕ → ℕ → List DimPartition → Shape × List ℕ → Shape × List ℕ
unfolding narrow
narrow_all rank_pad view_rank [] s = s
narrow_all rank_pad view_rank (p ∷ ps) s =
    narrow_all rank_pad view_rank ps (narrow rank_pad view_rank p s)

unfoldable pub from_output_partitions_on_view : TensorView → ℕ → List DimPartition → TensorView
unfolding narrow_all
from_output_partitions_on_view base_view output_rank partitions = record {
  tensor = base_view.tensor;
  shape = narrowed.0;
  offsets = narrowed.1;
}
  where
    narrowed : Shape × List ℕ
    narrowed =
        narrow_all (output_rank - num_dims base_view.shape) (num_dims base_view.shape) partitions
          (base_view.shape, base_view.offsets)

unfoldable pub from_output_partitions : Tensor → ℕ → List DimPartition → TensorView
unfolding new_full from_output_partitions_on_view
from_output_partitions tensor output_rank partitions =
    from_output_partitions_on_view (new_full tensor) output_rank partitions

unfoldable pub from_output_partition : Tensor → ℕ → ℕ → ℕ → ℕ → TensorView
unfolding from_output_partitions
from_output_partition tensor output_rank dim offset len =
    from_output_partitions tensor output_rank
      (record { dim = dim; offset = offset; len = len } ∷ [])

-- The loop of `element_offset`, from the innermost dimension outwards.
unfoldable pub offset_loop : List ℕ → List ℕ → ℕ → ℕ → Outcome ℕ
offset_loop (dim ∷ dims) (offset ∷ offsets) stride total =
    let rest = offset_loop dims offsets (stride * dim) (total + offset * stride) in
    if leb dim offset then error invalid_size else rest
offset_loop (dim ∷ dims) [] stride total = ok total
offset_loop [] offsets stride total = ok total

unfoldable pub element_offset : TensorView → Outcome ℕ
unfolding offset_loop
element_offset v =
    if length v.tensor.shape == length v.offsets
    then offset_loop (reverse v.tensor.shape) (reverse v.offsets) 1 0
    else error wrong_length
