-- ===== src/Tensor/Within.antt =====
-- The parts of `partition_across_dimensions` are ranges within the dimensions of the shape.
use gwr.Base.{
  ℕ, suc, ◌+◌, ◌*◌, max, ◌≤◌, ◌<◌, ◌≡◌, refl, ap, ◌∙◌, List, [], ◌∷◌, length, get_or, Bool, true,
  false, leb, leb-no, leb-false, if◌then◌else◌, All, All-append, arith, Outcome, ok, error, panic,
  ◌>>=◌,
}
use gwr.Tensor.{Shape, DimPartition}
use gwr.Tensor.Partition.{
  partition_into_ranges, num_splits, split_dims, preserve_shape, extend_base, extend_all, combine,
  or_preserve, partition_across_dimensions,
}
use gwr.Tensor.Tiling.{Tiles, partition_into_ranges-Tiles}
use gwr.Tensor.Tiling.Cover.{Returns}

-- Ranges that are not empty and end within a dimension.
abbrev pub IsWithin : ℕ → List (ℕ × ℕ) → Type 0
IsWithin extent = All (λ (r : ℕ × ℕ). (0 < r.1) × (r.0 + r.1 ≤ extent))

Tiles-last : (lo hi : ℕ) (ranges : List (ℕ × ℕ)) → Tiles lo hi ranges → lo ≤ hi
Tiles-last lo hi [] t = omega arith
Tiles-last lo hi ((start, len) ∷ ranges) t = omega (arith, Tiles-last (lo + len) hi ranges t.2)

Tiles-IsWithin : (lo hi : ℕ) (ranges : List (ℕ × ℕ)) → Tiles lo hi ranges → IsWithin hi ranges
Tiles-IsWithin lo hi [] t = tt
Tiles-IsWithin lo hi ((start, len) ∷ ranges) t = (
  (t.1, omega (arith, Tiles-last (lo + len) hi ranges t.2)),
  Tiles-IsWithin (lo + len) hi ranges t.2,
)

module _ (dims : Shape) where
  abbrev pub InDim : DimPartition → Type 0
  InDim p = (0 < p.len) × (p.offset + p.len ≤ get_or dims p.dim 0)

  abbrev SplitsWithin : List (ℕ × List (ℕ × ℕ)) → Type 0
  SplitsWithin = All (λ (s : ℕ × List (ℕ × ℕ)). IsWithin (get_or dims s.0 0) s.1)

  split_dims_within :
      (requested achieved : ℕ) (candidates : List ℕ)
      → All (λ dim. dim < length dims) candidates
      → Returns SplitsWithin (split_dims dims requested achieved candidates)
  unfolding split_dims
  split_dims_within requested achieved [] h = tt
  split_dims_within requested achieved (dim ∷ candidates) (h, hs) =
      rw (leb-no (length dims) dim h) (
        by_test (leb extent 1) refl (leb splits 1) (leb requested (achieved * splits)) _ _
          (split_dims_within requested achieved candidates hs)
          (split_dims_within requested (achieved * splits) candidates hs))
    where
      extent : ℕ
      extent = get_or dims dim 0

      splits : ℕ
      splits = num_splits extent requested achieved

      within : leb extent 1 ≡ false → IsWithin extent (partition_into_ranges extent splits)
      within e =
          Tiles-IsWithin 0 extent (partition_into_ranges extent splits)
            (partition_into_ranges-Tiles extent splits (omega (arith, leb-false _ _ e))).0

      by_test :
          (thin : Bool)
          → leb extent 1 ≡ thin
          → (single enough : Bool) (skip rest : Outcome (List (ℕ × List (ℕ × ℕ))))
          → Returns SplitsWithin skip
          → Returns SplitsWithin rest
          → Returns SplitsWithin (
              if thin
              then skip
              else if single
              then skip
              else if enough
              then ok ((dim, partition_into_ranges extent splits) ∷ [])
              else rest >>= λ more. ok ((dim, partition_into_ranges extent splits) ∷ more))
      by_test true e single enough skip rest a b = a
      by_test false e true enough skip rest a b = a
      by_test false e false true skip rest a b = (within e, tt)
      by_test false e false false skip (ok more) a b = (within e, b)
      by_test false e false false skip (error x) a b = absurd b
      by_test false e false false skip panic a b = absurd b

  extend_base_within :
      (dim : ℕ) (ranges : List (ℕ × ℕ)) (base : List DimPartition)
      → IsWithin (get_or dims dim 0) ranges
      → All InDim base
      → All (All InDim) (extend_base dim ranges base)
  unfolding extend_base
  extend_base_within dim [] base r h = tt
  extend_base_within dim ((offset, len) ∷ ranges) base (r, rs) h = (
    All-append InDim base (record { dim = dim; offset = offset; len = len } ∷ []) h (r, tt),
    extend_base_within dim ranges base rs h,
  )

  extend_all_within :
      (dim : ℕ) (ranges : List (ℕ × ℕ)) (bases : List (List DimPartition))
      → IsWithin (get_or dims dim 0) ranges
      → All (All InDim) bases
      → All (All InDim) (extend_all dim ranges bases)
  unfolding extend_all
  extend_all_within dim ranges [] r h = tt
  extend_all_within dim ranges (base ∷ bases) r (h, hs) =
      All-append (All InDim) (extend_base dim ranges base) (extend_all dim ranges bases)
        (extend_base_within dim ranges base r h) (extend_all_within dim ranges bases r hs)

  combine_within :
      (splits : List (ℕ × List (ℕ × ℕ))) (bases : List (List DimPartition))
      → SplitsWithin splits
      → All (All InDim) bases
      → All (All InDim) (combine splits bases)
  unfolding combine
  combine_within [] bases s h = h
  combine_within ((dim, ranges) ∷ splits) bases (s, ss) h =
      combine_within splits (extend_all dim ranges bases) ss
        (extend_all_within dim ranges bases s h)

  preserve_shape_within :
      (i : ℕ) (rest : Shape)
      → ((j : ℕ) → get_or dims (i + j) 0 ≡ get_or rest j 0)
      → All (λ d. 0 < d) rest
      → All InDim (preserve_shape i rest)
  unfolding preserve_shape
  preserve_shape_within i [] same pos = tt
  preserve_shape_within i (d ∷ rest) same (p, ps) = (
    (p, omega (arith, same 0, ap (λ k. get_or dims k 0) (plus_zero i))),
    preserve_shape_within (i + 1) rest (λ j. ap (λ k. get_or dims k 0) (shifted i j) ∙ same (suc j))
        ps,
  )
    where
      plus_zero : (i : ℕ) → i + 0 ≡ i
      plus_zero i = omega arith

      shifted : (i j : ℕ) → i + 1 + j ≡ i + suc j
      shifted i j = omega arith

  -- A shape without an empty dimension, and candidates that are dimensions: every part is a range in
  -- each dimension that it names, which is not empty and ends within the dimension.
  pub partition_across_dimensions_within :
      (candidate_dims : List ℕ) (requested : ℕ)
      → All (λ dim. dim < length dims) candidate_dims
      → All (λ d. 0 < d) dims
      → Returns (All (All InDim)) (partition_across_dimensions dims candidate_dims requested)
  unfolding partition_across_dimensions
  partition_across_dimensions_within candidate_dims requested exist pos =
      go (split_dims dims (max requested 1) 1 candidate_dims)
        (split_dims_within (max requested 1) 1 candidate_dims exist)
    where
      go :
          (o : Outcome (List (ℕ × List (ℕ × ℕ))))
          → Returns SplitsWithin o
          → Returns (All (All InDim)) (o >>= λ splits. ok (or_preserve dims splits))
      go (ok []) a =
          (preserve_shape_within 0 dims (λ j. ap (λ k. get_or dims k 0) (zero_add j)) pos, tt)
        where
          zero_add : (n : ℕ) → 0 + n ≡ n
          zero_add n = omega arith
      go (ok (s ∷ splits)) a = combine_within (s ∷ splits) ([] ∷ []) a (tt, tt)
      go (error x) a = absurd a
      go panic a = absurd a
