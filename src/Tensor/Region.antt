-- ===== src/Tensor/Region.antt =====
-- The elements of a view, and that the view of a part has those that the part's specification names.
use gwr.Base.{
  ℕ, zero, suc, ◌+◌, ◌≤◌, ◌<◌, ◌≡◌, refl, ap, ◌∙◌, List, [], ◌∷◌, length, get_or, set, replicate,
  Bool, true, false, ◌&&◌, arith, length-set, get_or-set_ne, length-replicate, get_or-replicate,
}
use gwr.Tensor.{Shape, DimPartition}
use gwr.Tensor.Partition.{apply_from, apply_dim_partitions}
use gwr.Tensor.Tiling.Cover.{in_range, contains, InShape, InShape-get_or}
use gwr.Tensor.Ascending.{AscendingSpec}

-- Whether an element lies in the region with these offsets and this shape.
unfoldable pub region : List ℕ → Shape → List ℕ → Bool
region [] [] [] = true
region [] [] (o ∷ offsets) = false
region [] (d ∷ dims) offsets = false
region (i ∷ index) [] offsets = false
region (i ∷ index) (d ∷ dims) [] = false
region (i ∷ index) (d ∷ dims) (o ∷ offsets) = in_range i o d && region index dims offsets

InShape-region :
    (index : List ℕ) (dims : Shape)
    → InShape index dims
    → region index dims (replicate (length dims) 0) ≡ true
unfolding region
InShape-region [] [] h = refl
InShape-region [] (d ∷ dims) h = absurd h
InShape-region (i ∷ index) [] h = absurd h
InShape-region (i ∷ index) (d ∷ dims) (h, hs) = ground (arith, InShape-region index dims hs)

pub length-InShape :
    (index : List ℕ) (dims : Shape) → InShape index dims → length index ≡ length dims
length-InShape [] [] h = refl
length-InShape [] (d ∷ dims) h = absurd h
length-InShape (i ∷ index) [] h = absurd h
length-InShape (i ∷ index) (d ∷ dims) h = ap suc (length-InShape index dims h.1)

-- One dimension of a region is narrowed.
region-set :
    (index : List ℕ) (dims : Shape) (offsets : List ℕ) (k offset len : ℕ)
    → length index ≡ length dims
    → length offsets ≡ length dims
    → k < length dims
    → in_range (get_or index k 0) (get_or offsets k 0) (get_or dims k 0) ≡ true
    → region index (set dims k len) (set offsets k offset)
      ≡ (in_range (get_or index k 0) offset len && region index dims offsets)
unfolding region
region-set index [] offsets k offset len e f lt full = absurd (omega arith)
region-set [] (d ∷ dims) offsets k offset len e f lt full = absurd (omega arith)
region-set (i ∷ index) (d ∷ dims) [] k offset len e f lt full = absurd (omega arith)
region-set (i ∷ index) (d ∷ dims) (o ∷ offsets) zero offset len e f lt full = ground arith
region-set (i ∷ index) (d ∷ dims) (o ∷ offsets) (suc k) offset len e f lt full = ground (
  arith,
  region-set index dims offsets k offset len (omega arith) (omega arith) (omega arith) full,
)

-- From dimension `lo` on, the region is not narrowed yet for the element.
abbrev Untouched : ℕ → List ℕ → Shape → List ℕ → Type 0
Untouched lo index dims offsets =
    (k : ℕ)
    → lo ≤ k
    → k < length dims
    → in_range (get_or index k 0) (get_or offsets k 0) (get_or dims k 0) ≡ true

AscendingSpec-lt : (lo hi : ℕ) (ps : List DimPartition) → AscendingSpec lo hi ps → lo ≤ hi
AscendingSpec-lt lo hi [] h = h
AscendingSpec-lt lo hi (p ∷ ps) h = omega (arith, AscendingSpec-lt (p.dim + 1) hi ps h.1)

region-apply_from :
    (index : List ℕ) (lo n : ℕ) (ps : List DimPartition) (dims : Shape) (offsets : List ℕ)
    → length index ≡ n
    → length dims ≡ n
    → length offsets ≡ n
    → AscendingSpec lo n ps
    → Untouched lo index dims offsets
    → region index (apply_from ps (dims, offsets)).0 (apply_from ps (dims, offsets)).1
      ≡ (region index dims offsets && contains index ps)
unfolding apply_from contains
region-apply_from index lo n [] dims offsets ei ed eo a full = and_true (region index dims offsets)
  where
    and_true : (b : Bool) → b ≡ (b && true)
    and_true b = ground arith
region-apply_from index lo n (p ∷ ps) dims offsets ei ed eo (a, as') full =
    region-apply_from index (p.dim + 1) n ps (set dims p.dim p.len) (set offsets p.dim p.offset) ei
      (length-set dims p.dim p.len ∙ ed) (length-set offsets p.dim p.offset ∙ eo) as'
      (λ k h lt.
        rw
          (
            get_or-set_ne dims p.dim k p.len 0 (omega arith),
            get_or-set_ne offsets p.dim k p.offset 0 (omega arith),
          )
          (full k (omega arith) (omega (arith, length-set dims p.dim p.len))))
    ∙ ap (λ b. b && contains index ps)
        (region-set index dims offsets p.dim p.offset p.len (omega arith) (omega arith) inside
          (full p.dim a inside))
    ∙ regroup (in_range (get_or index p.dim 0) p.offset p.len) (region index dims offsets)
        (contains index ps)
  where
    inside : p.dim < length dims
    inside = omega (arith, AscendingSpec-lt (p.dim + 1) n ps as')

    regroup : (b c d : Bool) → ((b && c) && d) ≡ (c && (b && d))
    regroup b c d = ground arith

-- The view of a part has the elements that its specification names.
pub region-apply_dim_partitions :
    (index : List ℕ) (dims : Shape) (spec : List DimPartition)
    → InShape index dims
    → AscendingSpec 0 (length dims) spec
    → region index (apply_dim_partitions dims spec).0 (apply_dim_partitions dims spec).1
      ≡ contains index spec
unfolding apply_dim_partitions
region-apply_dim_partitions index dims spec h a =
    region-apply_from index 0 (length dims) spec dims (replicate (length dims) 0)
      (length-InShape index dims h) refl (length-replicate (length dims) 0) a
      (λ k _ lt.
        rw (get_or-replicate {A = ℕ} (length dims) k 0)
          (whole (get_or index k 0) (get_or dims k 0) (InShape-get_or index dims k h lt)))
    ∙ ap (λ b. b && contains index spec) (InShape-region index dims h)
  where
    whole : (i d : ℕ) → i < d → in_range i 0 d ≡ true
    whole i d h = ground arith
