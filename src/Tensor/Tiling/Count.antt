-- ===== src/Tensor/Tiling/Count.antt =====
-- How many parts `partition_across_dimensions` makes.
use gwr.Base.{
  ℕ, zero, suc, ◌+◌, ◌-◌, ◌*◌, max, ◌≤◌, ◌<◌, ◌≡◌, refl, sym, ap, ◌∙◌, List, [], ◌∷◌, length,
  get_or, false, leb, leb-no, All, Bool-cases, inl, inr, arith, length-append, Outcome, ok, error,
  panic, ◌>>=◌,
}
use native.Mathlib.Nat.{mul_assoc, mul_comm, mul-one, one-mul, add-mul, mul-le-mul_left, mul-div-le}
use gwr.Tensor.{Shape, DimPartition, div_ceil}
use gwr.Tensor.Partition.{
  partition_into_ranges, num_splits, split_dims, extend_base, extend_all, combine, or_preserve,
  partition_across_dimensions,
}
use gwr.Tensor.Tiling.Cover.{Returns}
use gwr.Tensor.Tiling.{partition_into_ranges-Tiles}

-- The parts that the ranges of the split dimensions make.
unfoldable pub num_combined : List (ℕ × List (ℕ × ℕ)) → ℕ
num_combined [] = 1
num_combined ((dim, ranges) ∷ splits) = length ranges * num_combined splits

length-extend_base :
    (dim : ℕ) (ranges : List (ℕ × ℕ)) (base : List DimPartition)
    → length (extend_base dim ranges base) ≡ length ranges
unfolding extend_base
length-extend_base dim [] base = refl
length-extend_base dim ((offset, len) ∷ ranges) base = ap suc (length-extend_base dim ranges base)

length-extend_all :
    (dim : ℕ) (ranges : List (ℕ × ℕ)) (bases : List (List DimPartition))
    → length (extend_all dim ranges bases) ≡ length bases * length ranges
unfolding extend_all
length-extend_all dim ranges [] = omega (arith, mul_comm 0 (length ranges))
length-extend_all dim ranges (base ∷ bases) = omega (
  arith,
  length-append (extend_base dim ranges base) (extend_all dim ranges bases),
  length-extend_base dim ranges base,
  length-extend_all dim ranges bases,
  add-mul (length bases) 1 (length ranges),
  one-mul (length ranges),
)

length-combine :
    (splits : List (ℕ × List (ℕ × ℕ))) (bases : List (List DimPartition))
    → length (combine splits bases) ≡ length bases * num_combined splits
unfolding combine num_combined
length-combine [] bases = sym (mul-one (length bases))
length-combine ((dim, ranges) ∷ splits) bases =
    length-combine splits (extend_all dim ranges bases)
    ∙ ap (λ n. n * num_combined splits) (length-extend_all dim ranges bases)
    ∙ mul_assoc (length bases) (length ranges) (num_combined splits)

-- One more dimension makes fewer than `achieved` parts too many.
num_splits_bound :
    (extent requested achieved : ℕ)
    → 0 < achieved
    → achieved ≤ requested
    → achieved * num_splits extent requested achieved < requested + achieved
num_splits_bound extent requested achieved pos le = omega (
  arith,
  mul-le-mul_left {m = num_splits extent requested achieved}
      {n = max (div_ceil requested achieved) 1} achieved (omega arith),
  ceil,
)
  where
    or_more :
        (n : ℕ) → achieved * n < requested + achieved → achieved * max n 1 < requested + achieved
    or_more zero h = omega (arith, mul-one achieved)
    or_more (suc n) h = rw (at_least n) h
      where
        at_least : (n : ℕ) → max (suc n) 1 ≡ suc n
        at_least n = omega arith

    ceil : achieved * max (div_ceil requested achieved) 1 < requested + achieved
    ceil =
        or_more (div_ceil requested achieved)
          (omega (arith, mul-div-le (requested + (achieved - 1)) achieved))

-- From one to fewer than twice as many as requested.
abbrev pub InBounds : ℕ → ℕ → Type 0
InBounds requested n = (0 < n) × (n < requested + requested)

abbrev FewSplits : ℕ → ℕ → List (ℕ × List (ℕ × ℕ)) → Type 0
FewSplits requested achieved splits = InBounds requested (achieved * num_combined splits)

length-partition_into_ranges :
    (extent splits : ℕ)
    → 1 < splits
    → splits ≤ extent
    → length (partition_into_ranges extent splits) ≡ splits
length-partition_into_ranges extent splits h k =
    (partition_into_ranges-Tiles extent splits (omega arith)).2 ∙ omega arith

split_dims-FewSplits :
    (dims : Shape) (requested achieved : ℕ) (candidates : List ℕ)
    → All (λ dim. dim < length dims) candidates
    → 0 < achieved
    → achieved ≤ requested
    → Returns (FewSplits requested achieved) (split_dims dims requested achieved candidates)
unfolding split_dims num_combined
split_dims-FewSplits dims requested achieved [] e pos le =
    (omega (arith, mul-one achieved), omega (arith, mul-one achieved))
split_dims-FewSplits dims requested achieved (dim ∷ candidates) (e, es) pos le =
    rw (leb-no (length dims) dim e) (elim (Bool-cases (leb extent 1)) [
      | inl thin ↦ rw thin (split_dims-FewSplits dims requested achieved candidates es pos le)
      | inr thick ↦ rw thick (elim (Bool-cases (leb splits 1)) [
        | inl single ↦ rw single (split_dims-FewSplits dims requested achieved candidates es pos le)
        | inr several ↦ rw several (elim (Bool-cases (leb requested (achieved * splits))) [
          | inl enough ↦ rw (enough, parts several, mul-one splits) (positive several, bound)
          | inr more ↦ rw more (
              extended several (split_dims dims requested (achieved * splits) candidates) (
                split_dims-FewSplits dims requested (achieved * splits) candidates es
                  (positive several) (ground arith)))
        ])
      ])
    ])
  where
    extent : ℕ
    extent = get_or dims dim 0

    splits : ℕ
    splits = num_splits extent requested achieved

    parts : leb splits 1 ≡ false → length (partition_into_ranges extent splits) ≡ splits
    parts several = length-partition_into_ranges extent splits (above splits several) (omega arith)
      where
        above : (n : ℕ) → leb n 1 ≡ false → 1 < n
        above n h = ground arith

    positive : leb splits 1 ≡ false → 0 < achieved * splits
    positive several = product_pos achieved splits pos (above splits several)
      where
        above : (n : ℕ) → leb n 1 ≡ false → 0 < n
        above n h = ground arith

        product_pos : (a b : ℕ) → 0 < a → 0 < b → 0 < a * b
        product_pos a b h k = grind arith

    bound : achieved * splits < requested + requested
    bound = omega (arith, num_splits_bound extent requested achieved pos le)

    extended :
        leb splits 1 ≡ false
        → (o : Outcome (List (ℕ × List (ℕ × ℕ))))
        → Returns (FewSplits requested (achieved * splits)) o
        → Returns
            (FewSplits requested achieved)
            (o >>= λ more. ok ((dim, partition_into_ranges extent splits) ∷ more))
    extended several (ok more) (h, k) =
        rw (parts several, ← mul_assoc achieved splits (num_combined more)) (h, k)
    extended several (error x) r = absurd r
    extended several panic r = absurd r

-- A split into candidate dimensions that exist returns at least one part, and fewer than twice as many
-- as were requested (or than one, where none were).
pub length-partition_across_dimensions :
    (dims : Shape) (candidate_dims : List ℕ) (requested : ℕ)
    → All (λ dim. dim < length dims) candidate_dims
    → Returns
        (λ specs. InBounds (max requested 1) (length specs))
        (partition_across_dimensions dims candidate_dims requested)
unfolding partition_across_dimensions
length-partition_across_dimensions dims candidate_dims requested exist =
    go (split_dims dims (max requested 1) 1 candidate_dims) (
      split_dims-FewSplits dims (max requested 1) 1 candidate_dims exist (omega arith)
        (omega arith))
  where
    go :
        (o : Outcome (List (ℕ × List (ℕ × ℕ))))
        → Returns (FewSplits (max requested 1) 1) o
        → Returns
            (λ specs. InBounds (max requested 1) (length specs))
            (o >>= λ splits. ok (or_preserve dims splits))
    go (ok []) r = omega arith
    go (ok (s ∷ splits)) r = rw (length-combine (s ∷ splits) ([] ∷ [])) r
    go (error x) r = absurd r
    go panic r = absurd r
