-- ===== src/Tensor/Offsets.antt =====
-- The offset of a view's first element in its tensor, in row-major order.
use gwr.Base.{
  ℕ, suc, ◌+◌, ◌*◌, ◌/◌, ◌%◌, ◌<◌, ◌≡◌, refl, sym, ap, ap₂, ◌∙◌, inl, inr, ◌⊎◌, List, [], ◌∷◌,
  length, leb, leb-no, ==-yes, Bool-cases, arith, Outcome, ok, error, invalid_size,
}
use native.Mathlib.Nat.{
  mul_assoc, mul_comm, mul-add, mul-le-mul_left, add-mul-mod_self_left, add-mul-div_left,
  div-eq_of_lt, mod-eq_of_lt, mul-one, one-mul,
}
use mathlib.Core.Path.{subst}
use mathlib.Core.List.{reverse, reverse_aux, reverse-reverse}
use gwr.Tensor.{product, num_elements, TensorView, offset_loop, element_offset}

-- Indices that are in range, dimension by dimension, the innermost first.
abbrev pub InRange : List ℕ → List ℕ → Type 0
InRange [] [] = Unit {0}
InRange [] (o ∷ offsets) = ⊥
InRange (d ∷ dims) [] = ⊥
InRange (d ∷ dims) (o ∷ offsets) = (o < d) × InRange dims offsets

-- The mixed-radix number of the indices, the innermost first.
abbrev pub radix : List ℕ → List ℕ → ℕ
radix [] offsets = 0
radix (d ∷ dims) [] = 0
radix (d ∷ dims) (o ∷ offsets) = o + d * radix dims offsets

offset_loop-InRange :
    (dims offsets : List ℕ) (stride total : ℕ)
    → InRange dims offsets
    → offset_loop dims offsets stride total ≡ ok (total + stride * radix dims offsets)
unfolding offset_loop
offset_loop-InRange [] [] stride total h = ap ok (omega (arith, mul_comm stride 0))
offset_loop-InRange [] (o ∷ offsets) stride total h = absurd h
offset_loop-InRange (d ∷ dims) [] stride total h = absurd h
offset_loop-InRange (d ∷ dims) (o ∷ offsets) stride total (h, hs) = rw (leb-no d o h) (
    offset_loop-InRange dims offsets (stride * d) (total + o * stride) hs
    ∙ ap ok (
        omega (
          arith,
          mul-add stride o (d * radix dims offsets),
          mul_comm stride o,
          mul_assoc stride d (radix dims offsets),
        )))

-- Indices that are as many as the dimensions, and are not all in range.
offset_loop_error :
    (dims offsets : List ℕ) (stride total : ℕ)
    → length dims ≡ length offsets
    → InRange dims offsets ⊎ (offset_loop dims offsets stride total ≡ error invalid_size)
unfolding offset_loop
offset_loop_error [] [] stride total e = inl tt
offset_loop_error [] (o ∷ offsets) stride total e = absurd (omega arith)
offset_loop_error (d ∷ dims) [] stride total e = absurd (omega arith)
offset_loop_error (d ∷ dims) (o ∷ offsets) stride total e = elim (Bool-cases (leb d o)) [
  | inl out ↦ inr (rw out)
  | inr inside ↦
      elim (offset_loop_error dims offsets (stride * d) (total + o * stride) (omega arith)) [
        | inl h ↦ inl (ground arith, h)
        | inr h ↦ inr (rw inside h)
      ]
]

radix-lt-product :
    (dims offsets : List ℕ) → InRange dims offsets → radix dims offsets < product dims
radix-lt-product [] [] h = omega arith
radix-lt-product [] (o ∷ offsets) h = absurd h
radix-lt-product (d ∷ dims) [] h = absurd h
radix-lt-product (d ∷ dims) (o ∷ offsets) (h, hs) = omega (
  arith,
  mul-le-mul_left {m = radix dims offsets + 1} {n = product dims} d
      (omega (arith, radix-lt-product dims offsets hs)),
  mul-add d (radix dims offsets) 1,
  mul-one d,
)

digits : (d o q o' q' : ℕ) → o < d → o' < d → o + d * q ≡ o' + d * q' → (o ≡ o') × (q ≡ q')
digits d o q o' q' h h' e = (
  sym (remainder o q h) ∙ ap (λ n. n % d) e ∙ remainder o' q' h',
  sym (quotient o q h) ∙ ap (λ n. n / d) e ∙ quotient o' q' h',
)
  where
    remainder : (o q : ℕ) → o < d → (o + d * q) % d ≡ o
    remainder o q h = add-mul-mod_self_left o d q ∙ mod-eq_of_lt h

    quotient : (o q : ℕ) → o < d → (o + d * q) / d ≡ q
    quotient o q h =
        omega (arith, add-mul-div_left o q {y = d} (omega arith), div-eq_of_lt {n = o} {m = d} h)

radix_injective :
    (dims offsets offsets' : List ℕ)
    → InRange dims offsets
    → InRange dims offsets'
    → radix dims offsets ≡ radix dims offsets'
    → offsets ≡ offsets'
radix_injective [] [] [] h h' e = refl
radix_injective [] [] (o ∷ offsets') h h' e = absurd h'
radix_injective [] (o ∷ offsets) offsets' h h' e = absurd h
radix_injective (d ∷ dims) [] offsets' h h' e = absurd h
radix_injective (d ∷ dims) (o ∷ offsets) [] h h' e = absurd h'
radix_injective (d ∷ dims) (o ∷ offsets) (o' ∷ offsets') h h' e =
    let (first, rest) = digits d o (radix dims offsets) o' (radix dims offsets') h.0 h'.0 e in
    ap₂ ◌∷◌ first (radix_injective dims offsets offsets' h.1 h'.1 rest)

InRange-reverse_aux :
    (dims offsets inner_dims inner : List ℕ)
    → InRange dims offsets
    → InRange inner_dims inner
    → InRange (reverse_aux dims inner_dims) (reverse_aux offsets inner)
InRange-reverse_aux [] [] inner_dims inner h k = k
InRange-reverse_aux [] (o ∷ offsets) inner_dims inner h k = absurd h
InRange-reverse_aux (d ∷ dims) [] inner_dims inner h k = absurd h
InRange-reverse_aux (d ∷ dims) (o ∷ offsets) inner_dims inner h k =
    InRange-reverse_aux dims offsets (d ∷ inner_dims) (o ∷ inner) h.1 (h.0, k)

product-reverse_aux :
    (dims inner : List ℕ) → product (reverse_aux dims inner) ≡ product dims * product inner
product-reverse_aux [] inner = omega (arith, one-mul (product inner))
product-reverse_aux (d ∷ dims) inner =
    product-reverse_aux dims (d ∷ inner)
    ∙ sym (mul_assoc (product dims) d (product inner))
    ∙ ap (λ n. n * product inner) (mul_comm (product dims) d)

length-InRange : (dims offsets : List ℕ) → InRange dims offsets → length dims ≡ length offsets
length-InRange [] [] h = refl
length-InRange [] (o ∷ offsets) h = absurd h
length-InRange (d ∷ dims) [] h = absurd h
length-InRange (d ∷ dims) (o ∷ offsets) h = ap suc (length-InRange dims offsets h.1)

module _ (v : TensorView) where
  -- The number of the first element of a view, in row-major order.
  abbrev pub row_major : ℕ
  row_major = radix (reverse v.tensor.shape) (reverse v.offsets)

  -- The offset of a view whose offsets are in range is that of its first element in row-major order,
  -- and less than the number of elements of the tensor.
  pub element_offset-lt-num_elements :
      InRange v.tensor.shape v.offsets
      → (element_offset v ≡ ok row_major) × (row_major < num_elements v.tensor.shape)
  unfolding element_offset
  element_offset-lt-num_elements h =
      let reversed : InRange (reverse v.tensor.shape) (reverse v.offsets) =
        InRange-reverse_aux v.tensor.shape v.offsets [] [] h tt in
      (
        rw
            (==-yes (length v.tensor.shape) (length v.offsets)
              (length-InRange v.tensor.shape v.offsets h))
            (offset_loop-InRange (reverse v.tensor.shape) (reverse v.offsets) 1 0 reversed
              ∙ ap ok (omega (arith, one-mul row_major))),
        omega (
          arith,
          radix-lt-product (reverse v.tensor.shape) (reverse v.offsets) reversed,
          product-reverse_aux v.tensor.shape [],
          mul-one (product v.tensor.shape),
        ),
      )

-- Two views of one tensor whose offsets are in range and that have the same element offset have the
-- same offsets.
pub element_offset_injective :
    (v w : TensorView)
    → v.tensor ≡ w.tensor
    → InRange v.tensor.shape v.offsets
    → InRange w.tensor.shape w.offsets
    → element_offset v ≡ element_offset w
    → v.offsets ≡ w.offsets
element_offset_injective v w same h k e =
    let dims = v.tensor.shape in
    let k' : InRange dims w.offsets = subst (λ t. InRange t.shape w.offsets) (sym same) k in
    let number : row_major v ≡ row_major w =
      number_of
        (sym (element_offset-lt-num_elements v h).0 ∙ e ∙ (element_offset-lt-num_elements w k).0) in
    let reversed : reverse v.offsets ≡ reverse w.offsets =
      radix_injective (reverse dims) (reverse v.offsets) (reverse w.offsets)
        (InRange-reverse_aux dims v.offsets [] [] h tt)
        (InRange-reverse_aux dims w.offsets [] [] k' tt)
        (number ∙ ap (λ t. radix (reverse t.shape) (reverse w.offsets)) (sym same)) in
    sym (reverse-reverse v.offsets) ∙ ap reverse reversed ∙ reverse-reverse w.offsets
  where
    number_of : {a b : ℕ} → ◌≡◌ {A = Outcome ℕ} (ok a) (ok b) → a ≡ b
    number_of e = cc
