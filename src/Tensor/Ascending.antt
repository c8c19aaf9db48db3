-- ===== src/Tensor/Ascending.antt =====
-- The dimensions that `partition_across_dimensions` splits come in order, so that a part's shape and
-- offsets say what its specification does.
use gwr.Base.{
  ℕ, suc, ◌+◌, max, ◌≤◌, ◌<◌, ◌≡◌, sym, List, [], ◌∷◌, ◌++◌, length, get_or, Bool, true, false, leb,
  if◌then◌else◌, All, All-append, arith, leb-no, ◌*◌, Outcome, ok, error, panic, ◌>>=◌,
}
use gwr.Tensor.{Shape, DimPartition}
use gwr.Tensor.Partition.{
  partition_into_ranges, num_splits, split_dims, preserve_shape, extend_base, extend_all, combine,
  or_preserve, partition_across_dimensions,
}
use gwr.Tensor.Tiling.Cover.{Returns}

-- Numbers, splits and specifications in ascending order of their dimensions, from `lo` to below `hi`.
abbrev pub Ascending : ℕ → ℕ → List ℕ → Type 0
Ascending lo hi [] = lo ≤ hi
Ascending lo hi (dim ∷ dims) = (lo ≤ dim) × Ascending (dim + 1) hi dims

abbrev AscendingSplits : ℕ → ℕ → List (ℕ × List (ℕ × ℕ)) → Type 0
AscendingSplits lo hi [] = lo ≤ hi
AscendingSplits lo hi (s ∷ splits) = (lo ≤ s.0) × AscendingSplits (s.0 + 1) hi splits

abbrev pub AscendingSpec : ℕ → ℕ → List DimPartition → Type 0
AscendingSpec lo hi [] = lo ≤ hi
AscendingSpec lo hi (p ∷ ps) = (lo ≤ p.dim) × AscendingSpec (p.dim + 1) hi ps

pub Ascending-All :
    (lo hi : ℕ) (dims : List ℕ) → Ascending lo hi dims → (lo ≤ hi) × All (λ dim. dim < hi) dims
Ascending-All lo hi [] h = (h, tt)
Ascending-All lo hi (dim ∷ dims) (h, hs) = (
  omega (arith, (Ascending-All (dim + 1) hi dims hs).0),
  (omega (arith, (Ascending-All (dim + 1) hi dims hs).0), (Ascending-All (dim + 1) hi dims hs).1),
)

pub AscendingSpec-le : (lo hi : ℕ) (ps : List DimPartition) → AscendingSpec lo hi ps → lo ≤ hi
AscendingSpec-le lo hi [] h = h
AscendingSpec-le lo hi (p ∷ ps) h = omega (arith, AscendingSpec-le (p.dim + 1) hi ps h.1)

AscendingSplits-weaken :
    (lo lo' hi : ℕ) (splits : List (ℕ × List (ℕ × ℕ)))
    → lo ≤ lo'
    → AscendingSplits lo' hi splits
    → AscendingSplits lo hi splits
AscendingSplits-weaken lo lo' hi [] le h = omega arith
AscendingSplits-weaken lo lo' hi (s ∷ splits) le h = (omega arith, h.1)

split_dims-Ascending :
    (dims : Shape) (requested achieved lo hi : ℕ) (candidates : List ℕ)
    → hi ≤ length dims
    → Ascending lo hi candidates
    → Returns (AscendingSplits lo hi) (split_dims dims requested achieved candidates)
unfolding split_dims
split_dims-Ascending dims requested achieved lo hi [] le h = h
split_dims-Ascending dims requested achieved lo hi (dim ∷ candidates) le (h, hs) =
    rw (leb-no (length dims) dim (omega (arith, (Ascending-All (dim + 1) hi candidates hs).0))) (
      by_test (leb extent 1) (leb splits 1) (leb requested (achieved * splits)) _ _
        (split_dims-Ascending dims requested achieved (dim + 1) hi candidates le hs)
        (split_dims-Ascending dims requested (achieved * splits) (dim + 1) hi candidates le hs))
  where
    extent : ℕ
    extent = get_or dims dim 0

    splits : ℕ
    splits = num_splits extent requested achieved

    weaken :
        (o : Outcome (List (ℕ × List (ℕ × ℕ))))
        → Returns (AscendingSplits (dim + 1) hi) o
        → Returns (AscendingSplits lo hi) o
    weaken (ok more) a = AscendingSplits-weaken lo (dim + 1) hi more (omega arith) a
    weaken (error x) a = absurd a
    weaken panic a = absurd a

    by_test :
        (thin single enough : Bool) (skip rest : Outcome (List (ℕ × List (ℕ × ℕ))))
        → Returns (AscendingSplits (dim + 1) hi) skip
        → Returns (AscendingSplits (dim + 1) hi) rest
        → Returns (AscendingSplits lo hi) (
            if thin
            then skip
            else if single
            then skip
            else if enough
            then ok ((dim, partition_into_ranges extent splits) ∷ [])
            else rest >>= λ more. ok ((dim, partition_into_ranges extent splits) ∷ more))
    by_test true single enough skip rest a b = weaken skip a
    by_test false true enough skip rest a b = weaken skip a
    by_test false false true skip rest a b = (h, (Ascending-All (dim + 1) hi candidates hs).0)
    by_test false false false skip (ok more) a b = (h, b)
    by_test false false false skip (error x) a b = absurd b
    by_test false false false skip panic a b = absurd b

AscendingSpec-snoc :
    (lo hi : ℕ) (ps : List DimPartition) (p : DimPartition)
    → AscendingSpec lo hi ps
    → hi ≤ p.dim
    → AscendingSpec lo (p.dim + 1) (ps ++ p ∷ [])
AscendingSpec-snoc lo hi [] p h le = (omega arith, omega arith)
AscendingSpec-snoc lo hi (q ∷ ps) p h le = (h.0, AscendingSpec-snoc (q.dim + 1) hi ps p h.1 le)

AscendingSpec-weaken :
    (lo hi hi' : ℕ) (ps : List DimPartition)
    → hi ≤ hi'
    → AscendingSpec lo hi ps
    → AscendingSpec lo hi' ps
AscendingSpec-weaken lo hi hi' [] le h = omega arith
AscendingSpec-weaken lo hi hi' (p ∷ ps) le h =
    (h.0, AscendingSpec-weaken (p.dim + 1) hi hi' ps le h.1)

extend_base-Ascending :
    (lo dim : ℕ) (ranges : List (ℕ × ℕ)) (base : List DimPartition)
    → AscendingSpec 0 lo base
    → lo ≤ dim
    → All (AscendingSpec 0 (dim + 1)) (extend_base dim ranges base)
unfolding extend_base
extend_base-Ascending lo dim [] base h le = tt
extend_base-Ascending lo dim ((offset, len) ∷ ranges) base h le = (
  AscendingSpec-snoc 0 lo base (record { dim = dim; offset = offset; len = len }) h le,
  extend_base-Ascending lo dim ranges base h le,
)

extend_all-Ascending :
    (lo dim : ℕ) (ranges : List (ℕ × ℕ)) (bases : List (List DimPartition))
    → All (AscendingSpec 0 lo) bases
    → lo ≤ dim
    → All (AscendingSpec 0 (dim + 1)) (extend_all dim ranges bases)
unfolding extend_all
extend_all-Ascending lo dim ranges [] h le = tt
extend_all-Ascending lo dim ranges (base ∷ bases) h le =
    All-append (AscendingSpec 0 (dim + 1)) (extend_base dim ranges base)
      (extend_all dim ranges bases) (extend_base-Ascending lo dim ranges base h.0 le)
      (extend_all-Ascending lo dim ranges bases h.1 le)

combine-Ascending :
    (lo hi : ℕ) (splits : List (ℕ × List (ℕ × ℕ))) (bases : List (List DimPartition))
    → AscendingSplits lo hi splits
    → All (AscendingSpec 0 lo) bases
    → All (AscendingSpec 0 hi) (combine splits bases)
unfolding combine
combine-Ascending lo hi [] bases s h = widen bases h
  where
    widen :
        (bs : List (List DimPartition)) → All (AscendingSpec 0 lo) bs → All (AscendingSpec 0 hi) bs
    widen [] h = tt
    widen (b ∷ bs) (h, hs) = (AscendingSpec-weaken 0 lo hi b s h, widen bs hs)
combine-Ascending lo hi ((dim, ranges) ∷ splits) bases s h =
    combine-Ascending (dim + 1) hi splits (extend_all dim ranges bases) s.1
      (extend_all-Ascending lo dim ranges bases h s.0)

preserve_shape-Ascending :
    (i : ℕ) (dims : Shape) → AscendingSpec i (i + length dims) (preserve_shape i dims)
unfolding preserve_shape
preserve_shape-Ascending i [] = omega arith
preserve_shape-Ascending i (d ∷ dims) =
    (omega arith, rw (sym (next i (length dims))) (preserve_shape-Ascending (i + 1) dims))
  where
    next : (i n : ℕ) → i + 1 + n ≡ i + suc n
    next i n = omega arith

-- The specifications of all parts are in ascending order.
pub partition_across_dimensions-Ascending :
    (dims : Shape) (candidate_dims : List ℕ) (requested : ℕ)
    → Ascending 0 (length dims) candidate_dims
    → Returns
        (All (AscendingSpec 0 (length dims)))
        (partition_across_dimensions dims candidate_dims requested)
unfolding partition_across_dimensions
partition_across_dimensions-Ascending dims candidate_dims requested h =
    go (split_dims dims (max requested 1) 1 candidate_dims)
      (split_dims-Ascending dims (max requested 1) 1 0 (length dims) candidate_dims (omega arith) h)
  where
    go :
        (o : Outcome (List (ℕ × List (ℕ × ℕ))))
        → Returns (AscendingSplits 0 (length dims)) o
        → Returns
            (All (AscendingSpec 0 (length dims)))
            (o >>= λ splits. ok (or_preserve dims splits))
    go (ok []) a = (rw (zero_add (length dims)) at (preserve_shape-Ascending 0 dims), tt)
      where
        zero_add : (n : ℕ) → 0 + n ≡ n
        zero_add n = omega arith
    go (ok (s ∷ splits)) a =
        combine-Ascending 0 (length dims) (s ∷ splits) ([] ∷ []) a (omega arith, tt)
    go (error x) a = absurd a
    go panic a = absurd a
