-- ===== src/Tensor/Tiling.antt =====
-- The parts of a shape cover it, each of its elements once.
pub mod Cover
pub mod Count
use gwr.Base.{
  ℕ, zero, suc, ◌+◌, ◌-◌, ◌*◌, ◌/◌, ◌%◌, min, max, ◌≤◌, ◌<◌, ◌≡◌, ◌≢◌, refl, sym, ap, ◌∙◌, inl, inr,
  List, [], ◌∷◌, ◌++◌, length, get_or, replicate, Bool, true, false, ◌==◌, ◌&&◌, ltb, leb,
  if◌then◌else◌, All, Bool-cases, arith, length-append,
}
use native.Mathlib.Nat.{div-add-mod', mod-lt, suc-mul, zero-mul, mul_comm, le-div_iff_mul-le}
use gwr.Tensor.{Shape, DimPartition, div_ceil}
use gwr.Tensor.Partition.{
  num_ranges, range_len, ranges_from, or_one, partition_into_ranges, num_splits, split_dims,
  preserve_shape, extend_base, extend_all, combine, or_preserve, partition_across_dimensions,
}

-- Ranges that follow one another, none empty, from `lo` up to `hi`.
abbrev pub Tiles : ℕ → ℕ → List (ℕ × ℕ) → Type 0
Tiles lo hi [] = lo ≡ hi
Tiles lo hi ((start, len) ∷ ranges) = (start ≡ lo) × (0 < len) × Tiles (lo + len) hi ranges

-- The lengths of the ranges differ by one at most.
abbrev pub IsEven : ℕ → List (ℕ × ℕ) → Type 0
IsEven base = All (λ r. (base ≤ r.1) × (r.1 ≤ base + 1))

range_len_bounds :
    (base rem i : ℕ) → (base ≤ range_len base rem i) × (range_len base rem i ≤ base + 1)
range_len_bounds base rem i = ground arith

range_len_sum :
    (base rem rounds i start total : ℕ)
    → start + suc rounds * base + (rem - i) ≡ total
    → start + range_len base rem i + rounds * base + (rem - (i + 1)) ≡ total
range_len_sum base rem rounds i start total sum = ground (arith, suc-mul rounds base)

ranges_from-Tiles :
    (base rem rounds i start total : ℕ)
    → 0 < base
    → start + rounds * base + (rem - i) ≡ total
    → rem ≤ i + rounds
    → Tiles start total (ranges_from base rem rounds i start)
      × IsEven base (ranges_from base rem rounds i start)
      × (length (ranges_from base rem rounds i start) ≡ rounds)
unfolding ranges_from
ranges_from-Tiles base rem zero i start total pos sum enough =
    (omega (arith, zero-mul base), tt, refl)
ranges_from-Tiles base rem (suc rounds) i start total pos sum enough =
    let bounds = range_len_bounds base rem i in
    let (tiles, even, count) =
      ranges_from-Tiles base rem rounds (i + 1) (start + range_len base rem i) total pos
        (range_len_sum base rem rounds i start total sum) (omega arith) in
    rw (not_zero (range_len base rem i) (omega (arith, bounds)))
      ((refl, omega (arith, bounds), tiles), (bounds, even), ap suc count)
  where
    not_zero : (n : ℕ) → 0 < n → (n == 0) ≡ false
    not_zero n h = ground arith

-- A dimension is split into ranges that follow one another from its start to its end, none of them
-- empty and their lengths differing by one at most; there are as many as requested, but at least one
-- and no more than the dimension has entries.
pub partition_into_ranges-Tiles :
    (total requested : ℕ)
    → 0 < total
    → Tiles 0 total (partition_into_ranges total requested)
      × IsEven (total / num_ranges total requested) (partition_into_ranges total requested)
      × (length (partition_into_ranges total requested) ≡ max 1 (min requested total))
unfolding partition_into_ranges
partition_into_ranges-Tiles total requested pos = go (ranges_from base rem n 0 0) (
    ranges_from-Tiles base rem n 0 0 total base_pos
      (omega (arith, div-add-mod' total n, mul_comm base n))
      (omega (arith, mod-lt total {m = n} (omega arith))))
  where
    n : ℕ
    n = num_ranges total requested

    base : ℕ
    base = total / n

    rem : ℕ
    rem = total % n

    base_pos : 0 < base
    base_pos = (le-div_iff_mul-le {k = n} {x = 1} {y = total} (omega arith)).1 (omega arith)

    go :
        (rs : List (ℕ × ℕ))
        → Tiles 0 total rs × IsEven base rs × (length rs ≡ n)
        → Tiles 0 total (or_one total rs)
          × IsEven base (or_one total rs)
          × (length (or_one total rs) ≡ max 1 (min requested total))
    go [] (t, e, c) = absurd (omega arith)
    go (r ∷ rs) (t, e, c) = (t, e, omega arith)
