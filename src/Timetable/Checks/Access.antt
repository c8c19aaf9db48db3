-- ===== src/Timetable/Checks/Access.antt =====
-- The memory that an access of a checked view reaches.
use gwr.Base.{
  ℕ, Option, u64_mod, add_u64, mul_u64, inl, inr, sym, Bool-cases, ok_injective, panic-ne-ok,
  returned, ◌∙◌, ◌+◌, ◌*◌, ◌≤◌, ◌<◌, ◌≡◌, refl, ap, some, List, [], ◌∷◌, length, All, Bool, true,
  false, ◌==◌, ==-true, ltb-false, ltb-no, not, ltb, if◌then◌else◌, arith, ok, error, error-ne-ok,
  invalid_size, wrong_length,
}
use native.Mathlib.Nat.{add-mul, mul-add, mul_assoc, mul-le-mul_left, mul-le-mul_right}
use gwr.Tensor.{Shape, product, fp4, num_bits}
use gwr.Timetable.{TensorViewSection, TensorConfigSection}
use gwr.Timetable.Checks.{
  memory_access_address_num_bytes, dtype_num_bytes, dims_in_range, validate_view_in_range,
  sum_of_strides, product_from, tensor_view_offset, tensor_view_num_elements,
}

-- One dimension: `offset` whole rows, and `size` rows that each start at `inner`.
row_bound :
    (offset size dim inner elements row : ℕ)
    → 0 < size
    → offset + size ≤ dim
    → inner + elements ≤ row
    → offset * row + inner + size * elements ≤ dim * row
row_bound offset size dim inner elements row some_row within fits = omega (
  arith,
  mul-le-mul_right {m = offset + size} {n = dim} row within,
  add-mul offset size row,
  mul-le-mul_left {m = inner + elements} {n = row} size fits,
  rest size some_row,
)
  where
    rest : (size : ℕ) → 0 < size → inner + size * elements ≤ size * (inner + elements)
    rest size h =
        omega (arith, mul-add size inner elements, mul-le-mul_right {m = 1} {n = size} inner h)

add_u64-fits : (a b : ℕ) → a + b < u64_mod → add_u64 a b ≡ ok (a + b)
add_u64-fits a b h = ground arith

mul_u64-fits : (a b : ℕ) → a * b < u64_mod → mul_u64 a b ≡ ok (a * b)
mul_u64-fits a b h = ground arith

add_u64-ok : (a b c : ℕ) → add_u64 a b ≡ ok c → c ≡ a + b
add_u64-ok a b c e = elim (Bool-cases (ltb (a + b) u64_mod)) [
  | inl fits ↦ sym (ok_injective (rw fits at e))
  | inr over ↦ absurd (panic-ne-ok (rw over at e))
]

-- The offset that a view stands for, and whether its range lies within the dimensions.
abbrev strides : List ℕ → Shape → ℕ
strides [] dims = 0
strides (offset ∷ offsets) [] = 0
strides (offset ∷ offsets) (d ∷ dims) = offset * product dims + strides offsets dims

abbrev Within : List ℕ → List ℕ → Shape → Type 0
Within [] [] [] = Unit
Within (offset ∷ offsets) (size ∷ sizes) (d ∷ dims) =
    (0 < size) × (offset + size ≤ d) × Within offsets sizes dims
Within _ _ _ = ⊥

dims_in_range-Within :
    (offsets sizes : List ℕ) (dims : Shape)
    → length offsets ≡ length dims
    → length sizes ≡ length dims
    → All (λ size. 0 < size) sizes
    → dims_in_range offsets sizes dims ≡ ok tt
    → Within offsets sizes dims
unfolding dims_in_range
dims_in_range-Within [] [] [] same same' pos e = tt
dims_in_range-Within [] [] (d ∷ dims) same same' pos e = absurd (omega arith)
dims_in_range-Within [] (size ∷ sizes) [] same same' pos e = absurd (omega arith)
dims_in_range-Within [] (size ∷ sizes) (d ∷ dims) same same' pos e = absurd (omega arith)
dims_in_range-Within (offset ∷ offsets) [] [] same same' pos e = absurd (omega arith)
dims_in_range-Within (offset ∷ offsets) [] (d ∷ dims) same same' pos e = absurd (omega arith)
dims_in_range-Within (offset ∷ offsets) (size ∷ sizes) [] same same' pos e = absurd (omega arith)
dims_in_range-Within (offset ∷ offsets) (size ∷ sizes) (d ∷ dims) same same' pos e =
    let (end, e1, e2) = returned (add_u64 offset size) _ e in
    by_test end (ltb d end) refl (add_u64-ok offset size end e1) e2
      (λ rest. dims_in_range-Within offsets sizes dims (omega arith) (omega arith) pos.1 rest)
  where
    by_test :
        (end : ℕ) (out : Bool)
        → ltb d end ≡ out
        → end ≡ offset + size
        → (if out then error invalid_size else dims_in_range offsets sizes dims) ≡ ok tt
        → (dims_in_range offsets sizes dims ≡ ok tt → Within offsets sizes dims)
        → (0 < size) × (offset + size ≤ d) × Within offsets sizes dims
    by_test end true f g e inner = absurd (error-ne-ok e)
    by_test end false f g e inner = (pos.0, omega (arith, ltb-false _ _ f), inner e)

strides_bound :
    (offsets sizes : List ℕ) (dims : Shape)
    → Within offsets sizes dims
    → strides offsets dims + product sizes ≤ product dims
strides_bound [] [] [] w = omega arith
strides_bound [] [] (d ∷ dims) w = absurd w
strides_bound [] (size ∷ sizes) dims w = absurd w
strides_bound (offset ∷ offsets) [] dims w = absurd w
strides_bound (offset ∷ offsets) (size ∷ sizes) [] w = absurd w
strides_bound (offset ∷ offsets) (size ∷ sizes) (d ∷ dims) w =
    row_bound offset size d (strides offsets dims) (product sizes) (product dims) w.0 w.1
      (strides_bound offsets sizes dims w.2)

product-pos : (dims : Shape) → All (λ d. 0 < d) dims → 0 < product dims
product-pos [] pos = omega arith
product-pos (d ∷ dims) pos =
    omega (arith, mul-le-mul_left {m = 1} {n = product dims} d (product-pos dims pos.1), pos.0)

Within-pos :
    (offsets sizes : List ℕ) (dims : Shape) → Within offsets sizes dims → All (λ d. 0 < d) dims
Within-pos [] [] [] w = tt
Within-pos [] [] (d ∷ dims) w = absurd w
Within-pos [] (size ∷ sizes) dims w = absurd w
Within-pos (offset ∷ offsets) [] dims w = absurd w
Within-pos (offset ∷ offsets) (size ∷ sizes) [] w = absurd w
Within-pos (offset ∷ offsets) (size ∷ sizes) (d ∷ dims) w =
    (omega (arith, w.0, w.1), Within-pos offsets sizes dims w.2)

-- The product of dimensions that are not zero is computed where it fits.
product_from-fits :
    (acc : ℕ) (dims : Shape)
    → All (λ d. 0 < d) dims
    → acc * product dims < u64_mod
    → product_from acc dims ≡ ok (acc * product dims)
unfolding product_from
product_from-fits acc [] pos fits = ap ok (omega arith)
product_from-fits acc (d ∷ dims) pos fits =
    rw (mul_u64-fits acc d first)
      (product_from-fits (acc * d) dims pos.1 (omega (arith, assoc)) ∙ ap ok assoc)
  where
    assoc : acc * d * product dims ≡ acc * (d * product dims)
    assoc = mul_assoc acc d (product dims)

    first : acc * d < u64_mod
    first = omega (
      arith,
      mul-le-mul_left {m = 1} {n = product dims} (acc * d) (product-pos dims pos.1),
      assoc,
      fits,
    )

-- The offset of a range within dimensions whose product fits is computed.
sum_of_strides-fits :
    (total : ℕ) (offsets sizes : List ℕ) (dims : Shape)
    → Within offsets sizes dims
    → product dims < u64_mod
    → total + strides offsets dims < u64_mod
    → sum_of_strides total offsets dims ≡ ok (total + strides offsets dims)
unfolding sum_of_strides
sum_of_strides-fits total [] [] [] w fits sum = ap ok (omega arith)
sum_of_strides-fits total [] [] (d ∷ dims) w fits sum = absurd w
sum_of_strides-fits total [] (size ∷ sizes) dims w fits sum = absurd w
sum_of_strides-fits total (offset ∷ offsets) [] dims w fits sum = absurd w
sum_of_strides-fits total (offset ∷ offsets) (size ∷ sizes) [] w fits sum = absurd w
sum_of_strides-fits total (offset ∷ offsets) (size ∷ sizes) (d ∷ dims) w fits sum =
    rw
      (
        stride,
        mul_u64-fits offset (product dims) (omega arith),
        add_u64-fits total (offset * product dims) (omega arith),
      )
      (sum_of_strides-fits (total + offset * product dims) offsets sizes dims w.2 inner
          (omega arith)
        ∙ ap ok (omega arith))
  where
    inner : product dims < u64_mod
    inner =
        omega
          (arith, mul-le-mul_right {m = 1} {n = d} (product dims) (omega (arith, w.0, w.1)), fits)

    stride : product_from 1 dims ≡ ok (product dims)
    stride =
        product_from-fits 1 dims (Within-pos offsets sizes dims w.2) (omega (arith, inner))
        ∙ ap ok (omega arith)

-- A view that has been checked, none of whose dimensions is empty, of a tensor whose number of elements
-- is one of 64 bits: the offset of the view and its number of elements are computed without an overflow,
-- and the elements that an access counts from the offset on end within the tensor.
pub tensor_view_offset_bound :
    (config : TensorConfigSection) (view : TensorViewSection)
    → product config.shape < u64_mod
    → validate_view_in_range (some view) config ≡ ok tt
    → All (λ size. 0 < size) view.shape
    → (offset num_elements : ℕ) × (tensor_view_offset config (some view) ≡ ok offset)
      × (tensor_view_num_elements config (some view) ≡ ok num_elements)
      × (offset + num_elements ≤ product config.shape)
unfolding validate_view_in_range tensor_view_offset tensor_view_num_elements
tensor_view_offset_bound config view fits e pos =
    let within =
      by_tests (length view.offsets == length config.shape) refl
        (length view.shape == length config.shape) refl e in
    let bound = strides_bound view.offsets view.shape config.shape within in
    (
      strides view.offsets config.shape,
      product view.shape,
      sum_of_strides-fits 0 view.offsets view.shape config.shape within fits (omega arith)
          ∙ ap ok (omega arith),
      product_from-fits 1 view.shape pos (omega arith) ∙ ap ok (omega arith),
      bound,
    )
  where
    by_tests :
        (same : Bool)
        → (length view.offsets == length config.shape) ≡ same
        → (same' : Bool) → (length view.shape == length config.shape) ≡ same'
        → (if not same
            then error wrong_length
            else if not same'
            then error wrong_length
            else dims_in_range view.offsets view.shape config.shape)
          ≡ ok tt
        → Within view.offsets view.shape config.shape
    by_tests false f same' g e = absurd (error-ne-ok e)
    by_tests true f false g e = absurd (error-ne-ok e)
    by_tests true f true g e =
        dims_in_range-Within view.offsets view.shape config.shape (==-true _ _ f) (==-true _ _ g)
          pos e

abbrev pub row_of_4_bits : ℕ → ℕ → TensorConfigSection
row_of_4_bits addr n = record { addr = addr; dtype = fp4; shape = (2 * n + 2) ∷ [] }

abbrev pub last_element : ℕ → TensorViewSection
last_element n = record { offsets = (2 * n + 1) ∷ []; shape = 1 ∷ [] }

memory_access-returns :
    (config : TensorConfigSection) (view : Option TensorViewSection)
    (offset num_elements offset_bytes num_bytes : ℕ)
    → tensor_view_offset config view ≡ ok offset
    → tensor_view_num_elements config view ≡ ok num_elements
    → dtype_num_bytes config.dtype offset ≡ ok offset_bytes
    → config.addr + offset_bytes < u64_mod
    → dtype_num_bytes config.dtype num_elements ≡ ok num_bytes
    → memory_access_address_num_bytes config view ≡ ok (config.addr + offset_bytes, num_bytes)
unfolding memory_access_address_num_bytes
memory_access-returns config view offset num_elements offset_bytes num_bytes e1 e2 e3 fits e4 =
    rw (e1, e2, e3, add_u64-fits config.addr offset_bytes fits, e4) refl

-- Of a row of an even number of elements of four bits, whose bits and whose end are numbers of 64 bits,
-- the view of the last element passes the check, and its access is the byte behind the bytes of the row.
pub memory_access_behind :
    (addr n : ℕ)
    → 8 * (n + 1) < u64_mod
    → addr + (n + 1) < u64_mod
    → (validate_view_in_range (some (last_element n)) (row_of_4_bits addr n) ≡ ok tt)
      × (num_bytes : ℕ) × (dtype_num_bytes fp4 (product (row_of_4_bits addr n).shape)
          ≡ ok num_bytes)
      × (memory_access_address_num_bytes (row_of_4_bits addr n) (some (last_element n))
          ≡ ok (addr + num_bytes, 1))
unfolding validate_view_in_range dims_in_range tensor_view_offset tensor_view_num_elements
    sum_of_strides product_from dtype_num_bytes num_bits
memory_access_behind addr n bits end = (
  rw (add_u64-fits (2 * n + 1) 1 (omega arith), ltb-no (2 * n + 2) (2 * n + 1 + 1) (omega arith))
      refl,
  n + 1,
  rw (mul_u64-fits 4 ((2 * n + 2) * 1) (omega arith)) (ap ok (omega arith)),
  memory_access-returns (row_of_4_bits addr n) (some (last_element n)) (2 * n + 1) 1 (n + 1) 1
      (rw (mul_u64-fits (2 * n + 1) 1 (omega arith), add_u64-fits 0 ((2 * n + 1) * 1) (omega arith))
        (ap ok (omega arith)))
      refl (rw (mul_u64-fits 4 (2 * n + 1) (omega arith)) (ap ok (omega arith))) end refl,
)
