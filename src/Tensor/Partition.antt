-- ===== src/Tensor/Partition.antt =====
-- gwr-models/src/processing_element/operators/mod.rs: how a shape is split into parts.
use gwr.Base.{
  ℕ, zero, suc, ◌+◌, ◌*◌, ◌/◌, ◌%◌, min, max, List, [], ◌∷◌, ◌++◌, length, get_or, set, replicate,
  ◌==◌, ltb, leb, if◌then◌else◌, Outcome, ok, panic, ◌>>=◌,
}
use gwr.Tensor.{Shape, DimPartition, div_ceil}

-- `requested.clamp(1, total.max(1))`
abbrev pub num_ranges : ℕ → ℕ → ℕ
num_ranges total requested = min (max requested 1) (max total 1)

-- The length of range `i`: the first `remainder` ranges have one entry more.
abbrev pub range_len : ℕ → ℕ → ℕ → ℕ
range_len base_range_size remainder i = base_range_size + (if ltb i remainder then 1 else 0)

-- The loop from range `i` on, with the number of rounds that are left.
unfoldable pub ranges_from : ℕ → ℕ → ℕ → ℕ → ℕ → List (ℕ × ℕ)
ranges_from base_range_size remainder zero i start = []
ranges_from base_range_size remainder (suc rounds) i start =
    let len = range_len base_range_size remainder i in
    let rest = ranges_from base_range_size remainder rounds (i + 1) (start + len) in
    if len == 0 then rest else (start, len) ∷ rest

-- The ranges, or one if there is none.
abbrev pub or_one : ℕ → List (ℕ × ℕ) → List (ℕ × ℕ)
or_one total [] = (0, max total 1) ∷ []
or_one total (r ∷ ranges) = r ∷ ranges

unfoldable pub partition_into_ranges : ℕ → ℕ → List (ℕ × ℕ)
unfolding ranges_from
partition_into_ranges total requested = or_one total (
    ranges_from (total / num_ranges total requested) (total % num_ranges total requested)
      (num_ranges total requested) 0 0)

-- The number of parts of a dimension, when there are `achieved` parts already.
abbrev pub num_splits : ℕ → ℕ → ℕ → ℕ
num_splits extent requested achieved = min extent (max (div_ceil requested achieved) 1)

-- The loop that chooses the dimensions that are split, and their ranges. A candidate that is not a
-- dimension panics when the loop reads it.
unfoldable pub split_dims : Shape → ℕ → ℕ → List ℕ → Outcome (List (ℕ × List (ℕ × ℕ)))
unfolding partition_into_ranges
split_dims dims requested achieved [] = ok []
split_dims dims requested achieved (dim ∷ candidates) =
    let skip = split_dims dims requested achieved candidates in
    let extent = get_or dims dim 0 in
    let splits = num_splits extent requested achieved in
    let rest = split_dims dims requested (achieved * splits) candidates in
    let here : ℕ × List (ℕ × ℕ) = (dim, partition_into_ranges extent splits) in
    if leb (length dims) dim
    then panic
    else if leb extent 1
    then skip
    else if leb splits 1
    then skip
    else if leb requested (achieved * splits)
    then ok (here ∷ [])
    else rest >>= λ more. ok (here ∷ more)

-- The whole shape as one part, from dimension `i` on.
unfoldable pub preserve_shape : ℕ → Shape → List DimPartition
preserve_shape i [] = []
preserve_shape i (d ∷ dims) = record { dim = i; offset = 0; len = d } ∷ preserve_shape (i + 1) dims

-- One part of the ranges of a dimension, beside each part so far.
unfoldable pub extend_base : ℕ → List (ℕ × ℕ) → List DimPartition → List (List DimPartition)
extend_base dim [] base = []
extend_base dim ((offset, len) ∷ ranges) base =
    (base ++ record { dim = dim; offset = offset; len = len } ∷ []) ∷ extend_base dim ranges base

unfoldable pub extend_all : ℕ → List (ℕ × ℕ) → List (List DimPartition) → List (List DimPartition)
unfolding extend_base
extend_all dim ranges [] = []
extend_all dim ranges (base ∷ bases) = extend_base dim ranges base ++ extend_all dim ranges bases

unfoldable pub combine :
    List (ℕ × List (ℕ × ℕ)) → List (List DimPartition) → List (List DimPartition)
unfolding extend_all
combine [] partitions = partitions
combine ((dim, ranges) ∷ splits) partitions = combine splits (extend_all dim ranges partitions)

abbrev pub or_preserve : Shape → List (ℕ × List (ℕ × ℕ)) → List (List DimPartition)
or_preserve dims [] = preserve_shape 0 dims ∷ []
or_preserve dims (s ∷ splits) = combine (s ∷ splits) ([] ∷ [])

unfoldable pub partition_across_dimensions : Shape → List ℕ → ℕ → Outcome (List (List DimPartition))
unfolding split_dims preserve_shape combine
partition_across_dimensions dims candidate_dims requested =
    split_dims dims (max requested 1) 1 candidate_dims >>= λ splits. ok (or_preserve dims splits)

-- The shape and the offsets of a part.
unfoldable pub apply_from : List DimPartition → Shape × List ℕ → Shape × List ℕ
apply_from [] s = s
apply_from (p ∷ ps) (shape, offsets) =
    apply_from ps (set shape p.dim p.len, set offsets p.dim p.offset)

unfoldable pub apply_dim_partitions : Shape → List DimPartition → Shape × List ℕ
unfolding apply_from
apply_dim_partitions dims partitions = apply_from partitions (dims, replicate (length dims) 0)
