-- ===== src/Tensor/Tiling/Cover.antt =====
-- Every element of a shape lies in exactly one of the parts of `partition_across_dimensions`.
use gwr.Base.{
  ℕ, zero, suc, ◌+◌, ◌*◌, max, ◌≤◌, ◌<◌, ◌≡◌, refl, ◌∙◌, List, [], ◌∷◌, ◌++◌, length, get_or, Bool,
  true, false, ◌&&◌, ltb, leb, if◌then◌else◌, All, arith, length-append, leb-yes, ltb-yes, leb-no,
  Outcome, ok, error, panic, ◌>>=◌,
}
use mathlib.Core.List.{append_assoc}
use gwr.Tensor.{Shape, DimPartition}
use gwr.Tensor.Partition.{
  partition_into_ranges, num_splits, split_dims, preserve_shape, extend_base, extend_all, combine,
  or_preserve, partition_across_dimensions,
}
use gwr.Tensor.Tiling.{Tiles, partition_into_ranges-Tiles}

-- An element of a shape, by its index in each dimension.
abbrev pub InShape : List ℕ → Shape → Type 0
InShape [] [] = Unit {0}
InShape [] (d ∷ dims) = ⊥
InShape (i ∷ index) [] = ⊥
InShape (i ∷ index) (d ∷ dims) = (i < d) × InShape index dims

-- The parts of a specification bound some of the indices of an element.
abbrev pub in_range : ℕ → ℕ → ℕ → Bool
in_range i offset len = leb offset i && ltb i (offset + len)

unfoldable pub contains : List ℕ → List DimPartition → Bool
contains index [] = true
contains index (p ∷ ps) = in_range (get_or index p.dim 0) p.offset p.len && contains index ps

-- How many of the specifications an element meets.
unfoldable pub num_parts : List ℕ → List (List DimPartition) → ℕ
num_parts index [] = 0
num_parts index (spec ∷ specs) = (if contains index spec then 1 else 0) + num_parts index specs

unfoldable pub num_ranges_at : ℕ → List (ℕ × ℕ) → ℕ
num_ranges_at i [] = 0
num_ranges_at i ((offset, len) ∷ ranges) =
    (if in_range i offset len then 1 else 0) + num_ranges_at i ranges

Tiles-below :
    (lo hi i : ℕ) (ranges : List (ℕ × ℕ)) → Tiles lo hi ranges → i < lo → num_ranges_at i ranges ≡ 0
unfolding num_ranges_at
Tiles-below lo hi i [] t h = refl
Tiles-below lo hi i ((offset, len) ∷ ranges) t h =
    ground (arith, Tiles-below (lo + len) hi i ranges)

Tiles-once :
    (lo hi i : ℕ) (ranges : List (ℕ × ℕ))
    → Tiles lo hi ranges
    → lo ≤ i
    → i < hi
    → num_ranges_at i ranges ≡ 1
unfolding num_ranges_at
Tiles-once lo hi i [] t h k = absurd (omega arith)
Tiles-once lo hi i ((offset, len) ∷ ranges) t h k =
    ground (arith, Tiles-once (lo + len) hi i ranges, Tiles-below (lo + len) hi i ranges)

-- A loop returns, and what it returns has the property.
abbrev pub Returns {ℓ} : {A : Type ℓ} → (A → Type 0) → Outcome A → Type 0
Returns P (ok a) = P a
Returns P (error e) = ⊥
Returns P panic = ⊥

module _ (index : List ℕ) where
  contains-append :
      (ps qs : List DimPartition)
      → contains index (ps ++ qs) ≡ (contains index ps && contains index qs)
  unfolding contains
  contains-append [] qs = refl
  contains-append (p ∷ ps) qs = ground (arith, contains-append ps qs)

  num_parts-append :
      (xs ys : List (List DimPartition))
      → num_parts index (xs ++ ys) ≡ num_parts index xs + num_parts index ys
  unfolding num_parts
  num_parts-append [] ys = omega arith
  num_parts-append (x ∷ xs) ys = omega (arith, num_parts-append xs ys)

  num_parts-extend_base :
      (dim : ℕ) (ranges : List (ℕ × ℕ)) (base : List DimPartition)
      → num_parts index (extend_base dim ranges base)
        ≡ (if contains index base then num_ranges_at (get_or index dim 0) ranges else 0)
  unfolding num_parts extend_base num_ranges_at contains
  num_parts-extend_base dim [] base = ground arith
  num_parts-extend_base dim ((offset, len) ∷ ranges) base = ground (
    arith,
    contains-append base (record { dim = dim; offset = offset; len = len } ∷ []),
    num_parts-extend_base dim ranges base,
  )

  num_parts-extend_all :
      (dim : ℕ) (ranges : List (ℕ × ℕ)) (bases : List (List DimPartition))
      → num_ranges_at (get_or index dim 0) ranges ≡ 1
      → num_parts index (extend_all dim ranges bases) ≡ num_parts index bases
  unfolding num_parts extend_all
  num_parts-extend_all dim ranges [] once = refl
  num_parts-extend_all dim ranges (base ∷ bases) once = ground (
    arith,
    num_parts-append (extend_base dim ranges base) (extend_all dim ranges bases),
    num_parts-extend_base dim ranges base,
    num_parts-extend_all dim ranges bases,
  )

  -- Each of the dimensions that are split has one range for the element.
  abbrev pub Once : List (ℕ × List (ℕ × ℕ)) → Type 0
  Once = All (λ s. num_ranges_at (get_or index s.0 0) s.1 ≡ 1)

  num_parts-combine :
      (splits : List (ℕ × List (ℕ × ℕ))) (bases : List (List DimPartition))
      → Once splits
      → num_parts index (combine splits bases) ≡ num_parts index bases
  unfolding combine
  num_parts-combine [] bases once = refl
  num_parts-combine ((dim, ranges) ∷ splits) bases once =
      num_parts-combine splits (extend_all dim ranges bases) once.1
      ∙ num_parts-extend_all dim ranges bases once.0

  split_dims-Once :
      (dims : Shape) (requested achieved : ℕ) (candidates : List ℕ)
      → All (λ dim. dim < length dims) candidates
      → All (λ dim. get_or index dim 0 < get_or dims dim 0) candidates
      → Returns Once (split_dims dims requested achieved candidates)
  unfolding split_dims
  split_dims-Once dims requested achieved [] e h = tt
  split_dims-Once dims requested achieved (dim ∷ candidates) (e, es) (h, hs) =
      rw (leb-no (length dims) dim e) (
        by_test (leb extent 1) (leb splits 1) (leb requested (achieved * splits)) _ _
          (split_dims-Once dims requested achieved candidates es hs)
          (split_dims-Once dims requested (achieved * splits) candidates es hs))
    where
      extent : ℕ
      extent = get_or dims dim 0

      splits : ℕ
      splits = num_splits extent requested achieved

      here : num_ranges_at (get_or index dim 0) (partition_into_ranges extent splits) ≡ 1
      here =
          Tiles-once 0 extent (get_or index dim 0) (partition_into_ranges extent splits)
            (partition_into_ranges-Tiles extent splits (omega arith)).0 (omega arith) h

      by_test :
          (thin single enough : Bool) (skip rest : Outcome (List (ℕ × List (ℕ × ℕ))))
          → Returns Once skip
          → Returns Once rest
          → Returns Once (
              if thin
              then skip
              else if single
              then skip
              else if enough
              then ok ((dim, partition_into_ranges extent splits) ∷ [])
              else rest >>= λ more. ok ((dim, partition_into_ranges extent splits) ∷ more))
      by_test true single enough skip rest a b = a
      by_test false true enough skip rest a b = a
      by_test false false true skip rest a b = (here, tt)
      by_test false false false skip (ok more) a b = (here, b)
      by_test false false false skip (error x) a b = absurd b
      by_test false false false skip panic a b = absurd b

-- The whole shape, as one part, has each of its elements.
contains-preserve_shape :
    (seen index : List ℕ) (dims : Shape)
    → InShape index dims
    → contains (seen ++ index) (preserve_shape (length seen) dims) ≡ true
unfolding contains preserve_shape
contains-preserve_shape seen [] [] h = refl
contains-preserve_shape seen [] (d ∷ dims) h = absurd h
contains-preserve_shape seen (i ∷ index) [] h = absurd h
contains-preserve_shape seen (i ∷ index) (d ∷ dims) (h, hs) =
    let here : get_or (seen ++ i ∷ index) (length seen) 0 ≡ i = get_or-after seen (i ∷ index) in
    let next : contains (seen ++ i ∷ [] ++ index) (preserve_shape (length (seen ++ i ∷ [])) dims)
        ≡ true =
      contains-preserve_shape (seen ++ i ∷ []) index dims hs in
    let longer : length (seen ++ i ∷ []) ≡ length seen + 1 =
      omega (arith, length-append seen (i ∷ [])) in
    rw (here, leb-yes 0 i (omega arith), ltb-yes i (0 + d) (omega arith))
      (rw (append_assoc seen (i ∷ []) index, longer) at next)
  where
    get_or-after : (xs : List ℕ) (ys : List ℕ) → get_or (xs ++ ys) (length xs) 0 ≡ get_or ys 0 0
    get_or-after [] ys = refl
    get_or-after (x ∷ xs) ys = get_or-after xs ys

-- A candidate dimension exists.
pub InShape-get_or :
    (index : List ℕ) (dims : Shape) (dim : ℕ)
    → InShape index dims
    → dim < length dims
    → get_or index dim 0 < get_or dims dim 0
InShape-get_or [] [] dim h k = absurd (omega arith)
InShape-get_or [] (d ∷ dims) dim h k = absurd h
InShape-get_or (i ∷ index) [] dim h k = absurd h
InShape-get_or (i ∷ index) (d ∷ dims) zero h k = h.0
InShape-get_or (i ∷ index) (d ∷ dims) (suc dim) h k =
    InShape-get_or index dims dim h.1 (omega arith)

-- A split into candidate dimensions that exist returns, and every element of the shape lies in exactly
-- one of the parts, however many parts are requested.
pub partition_across_dimensions_once :
    (dims : Shape) (candidate_dims : List ℕ) (requested : ℕ) (index : List ℕ)
    → All (λ dim. dim < length dims) candidate_dims
    → InShape index dims
    → (specs : List (List DimPartition)) × (partition_across_dimensions dims candidate_dims
          requested
        ≡ ok specs)
      × (num_parts index specs ≡ 1)
unfolding partition_across_dimensions num_parts contains
partition_across_dimensions_once dims candidate_dims requested index exist h =
    go (split_dims dims (max requested 1) 1 candidate_dims) (
      split_dims-Once index dims (max requested 1) 1 candidate_dims exist
        (each candidate_dims exist))
  where
    each :
        (cs : List ℕ)
        → All (λ dim. dim < length dims) cs
        → All (λ dim. get_or index dim 0 < get_or dims dim 0) cs
    each [] e = tt
    each (c ∷ cs) (e, es) = (InShape-get_or index dims c h e, each cs es)

    once :
        (splits : List (ℕ × List (ℕ × ℕ)))
        → Once index splits
        → num_parts index (or_preserve dims splits) ≡ 1
    once [] o = rw (contains-preserve_shape [] index dims h)
    once (s ∷ splits) o = num_parts-combine index (s ∷ splits) ([] ∷ []) o

    go :
        (o : Outcome (List (ℕ × List (ℕ × ℕ))))
        → Returns (Once index) o
        → (specs : List (List DimPartition)) × ((o >>= λ splits. ok (or_preserve dims splits))
            ≡ ok specs)
          × (num_parts index specs ≡ 1)
    go (ok splits) r = (or_preserve dims splits, refl, once splits r)
    go (error x) r = absurd r
    go panic r = absurd r
