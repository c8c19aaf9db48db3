-- ===== src/Operators/Maxpool/Elements.antt =====
-- The dimensions that MaxPool splits, and the elements of the outputs of a part.
use gwr.Base.{
  ℕ, zero, suc, ap, get_elem?, ◌+◌, ◌<◌, ◌≡◌, refl, sym, ap₂, Option, none, some, List, [], ◌∷◌,
  map, length, Bool, true, false, ◌==◌, ◌&&◌, ◌||◌, ltb, if◌then◌else◌, All, arith, true_ne_false,
  ==-true,
}
use gwr.Tensor.{Shape, same_dims, TensorView}
use gwr.Tensor.Tiling.Cover.{InShape}
use gwr.Tensor.Ascending.{Ascending}
use gwr.Operators.{TensorPartition, map_some}
use gwr.Operators.OutputParts.{in_view}
use gwr.Operators.Maxpool.{choose_partition_dims}

pub choose_partition_dims-Ascending :
    (dim : ℕ) (allow : Bool) (dims : Shape)
    → Ascending dim (dim + length dims) (choose_partition_dims dim allow dims)
unfolding choose_partition_dims
choose_partition_dims-Ascending dim allow [] = omega arith
choose_partition_dims-Ascending dim allow (size ∷ dims) =
    by_test (ltb 1 size && (allow || ltb dim 2)) (choose_partition_dims (dim + 1) allow dims)
      (rw (next dim (length dims)) at (choose_partition_dims-Ascending (dim + 1) allow dims))
  where
    next : (i n : ℕ) → i + 1 + n ≡ i + suc n
    next i n = omega arith

    by_test :
        (chosen : Bool) (rest : List ℕ)
        → Ascending (dim + 1) (dim + suc (length dims)) rest
        → Ascending dim (dim + suc (length dims)) (if chosen then dim ∷ rest else rest)
    by_test true rest a = (omega arith, a)
    by_test false [] a = omega arith
    by_test false (c ∷ rest) a = (omega (arith, a.0), a.1)

pub InShape-All : (index : List ℕ) (dims : Shape) → InShape index dims → All (λ d. 0 < d) dims
InShape-All [] [] h = tt
InShape-All [] (d ∷ dims) h = absurd h
InShape-All (i ∷ index) [] h = absurd h
InShape-All (i ∷ index) (d ∷ dims) h = (omega (arith, h.0), InShape-All index dims h.1)

pub same_dims-true : (a b : Shape) → same_dims a b ≡ true → a ≡ b
unfolding same_dims
same_dims-true [] [] e = refl
same_dims-true [] (y ∷ b) e = absurd (true_ne_false (sym e))
same_dims-true (x ∷ a) [] e = absurd (true_ne_false (sym e))
same_dims-true (x ∷ a) (y ∷ b) e = by_test (x == y) refl e (same_dims-true a b)
  where
    by_test :
        (same : Bool)
        → (x == y) ≡ same
        → (same && same_dims a b) ≡ true
        → (same_dims a b ≡ true → a ≡ b)
        → x ∷ a ≡ y ∷ b
    by_test true f e rest = ap₂ ◌∷◌ (==-true x y f) (rest e)
    by_test false f e rest = absurd (true_ne_false (sym e))

-- Whether an output of a part, which may not be given, has an element of its tensor.
abbrev pub has_element : List ℕ → Option (Option TensorView) → Bool
has_element index none = false
has_element index (some none) = false
has_element index (some (some v)) = in_view index v

-- The number of parts whose output number `k` has an element.
unfoldable pub num_parts_with : ℕ → List ℕ → List TensorPartition → ℕ
unfolding in_view
num_parts_with k index [] = 0
num_parts_with k index (part ∷ parts) =
    (if has_element index (get_elem? part.outputs k) then 1 else 0) + num_parts_with k index parts

-- Output number `k` of a part is given, and is a view of the tensor of this view.
abbrev pub ViewsSame : ℕ → TensorView → TensorPartition → Type 0
ViewsSame k view part =
    (v : TensorView) × (get_elem? part.outputs k ≡ some (some v)) × (v.tensor ≡ view.tensor)

pub get_elem?-map_some {ℓ} :
    {A : Type ℓ} (f : A → A) (xs : List (Option A)) (k : ℕ) (x : A)
    → get_elem? xs k ≡ some (some x)
    → get_elem? (map (map_some f) xs) k ≡ some (some (f x))
get_elem?-map_some f [] k x e = cc
get_elem?-map_some f (y ∷ ys) zero x e =
    ap (λ o. elim o [ some z ↦ some (map_some f z) | none ↦ none ]) e
get_elem?-map_some f (y ∷ ys) (suc k) x e = get_elem?-map_some f ys k x e
