-- ===== src/Operators/Maxpool/Parts.antt =====
-- The input of a part reaches every window of the part's output.
use gwr.Base.{
  [], ◌∷◌, length, get_or-set_ne, ltb-false, leb-no, set, All, ltb, ok, error, empty_input, ◌∙◌, ℕ,
  suc, ◌+◌, ◌-◌, ◌*◌, ◌≤◌, ◌<◌, ◌≡◌, refl, sym, List, get_or, Bool, true, false, leb, leb-true,
  leb-false, arith, pos, negsuc, ◌⊖◌, ◌+ℤ◌, clamp, if◌then◌else◌,
}
use native.Mathlib.Nat.{mul-le-mul_right, mul_comm}
use gwr.Tensor.{Shape, DimPartition}
use gwr.Tensor.Within.{InDim}
use gwr.Tensor.Ascending.{AscendingSpec, AscendingSpec-le}
use gwr.Operators.Pooling.Reach.{Reaches}
use gwr.Operators.Maxpool.Reach.{AllReach}
use gwr.Operators.Pooling.{PoolParams}
use gwr.Operators.Maxpool.{window_size}
use gwr.Operators.Maxpool.Views.{input_range, narrow_input, narrow_inputs}

pos_injective : {m n : ℕ} → pos m ≡ pos n → m ≡ n
pos_injective e = cc

pos_ne_negsuc : {m n : ℕ} → ¬ (negsuc m ≡ pos n)
pos_ne_negsuc e = cc

⊖-+ℤ : (a b c x : ℕ) → (a ⊖ b) +ℤ c ≡ pos x → a + c ≡ x + b
⊖-+ℤ a b c x = by_order (leb b a) refl
  where
    by_order :
        (below : Bool)
        → leb b a ≡ below
        → (if below then pos (a - b) else negsuc (b - a - 1)) +ℤ c ≡ pos x
        → a + c ≡ x + b
    by_order true e found = omega (arith, leb-true _ _ e, pos_injective found)
    by_order false e found = inner (leb (suc (b - a - 1)) c) refl found
      where
        inner :
            (below : Bool)
            → leb (suc (b - a - 1)) c ≡ below
            → (if below then pos (c - suc (b - a - 1)) else negsuc (suc (b - a - 1) - c - 1))
              ≡ pos x
            → a + c ≡ x + b
        inner true f found = omega (arith, leb-false _ _ e, leb-true _ _ f, pos_injective found)
        inner false f found = absurd (pos_ne_negsuc found)

-- A range that is clamped keeps what lies below the bound.
clamp-start : (a b bound x : ℕ) → a ≤ x + b → x < bound → clamp (a ⊖ b) bound ≤ x
clamp-start a b bound x h k = ground arith

clamp-end : (a b c bound x : ℕ) → x + b < a + c → x < bound → x < clamp ((a ⊖ b) +ℤ c) bound
clamp-end a b c bound x h k = ground arith

-- Whatever a window of the part's outputs covers of the input lies in the range of the part's input, for
-- an axis of the kernel and the dilation of the parameters.
pub input_range_covers :
    (params : PoolParams) (axis size : ℕ) (partition : DimPartition) (output_idx kernel_idx x : ℕ)
    → partition.offset ≤ output_idx
    → output_idx < partition.offset + partition.len
    → kernel_idx < get_or params.kernel_shape axis 0
    → (output_idx * get_or params.strides axis 0 ⊖ get_or params.pads_begin axis 0)
        +ℤ kernel_idx * get_or params.dilations axis 0
      ≡ pos x
    → x < size
    → ((input_range params axis size partition).0 ≤ x)
      × (x < (input_range params axis size partition).1)
unfolding input_range
input_range_covers params axis size partition output_idx kernel_idx x from to inside at below =
    let stride = get_or params.strides axis 0 in
    let dilation = get_or params.dilations axis 0 in
    let kernel = get_or params.kernel_shape axis 0 in
    let reached =
      ⊖-+ℤ (output_idx * stride) (get_or params.pads_begin axis 0) (kernel_idx * dilation) x at in
    (
      clamp-start (partition.offset * stride) (get_or params.pads_begin axis 0) size x
          (omega
            (arith, reached, mul-le-mul_right {m = partition.offset} {n = output_idx} stride from))
          below,
      clamp-end ((partition.offset + partition.len - 1) * stride) (get_or params.pads_begin axis 0)
          (window_size params axis) size x
          (omega (
            arith,
            reached,
            mul-le-mul_right {m = output_idx} {n = partition.offset + partition.len - 1} stride
                (omega arith),
            mul-le-mul_right {m = kernel_idx} {n = kernel - 1} dilation (omega arith),
            mul_comm (kernel - 1) dilation,
          ))
          below,
    )

clamp-below : (a b bound : ℕ) → a < bound + b → 0 < bound → clamp (a ⊖ b) bound < bound
clamp-below a b bound h k = ground arith

clamp-clamp :
    (a b c ek bound : ℕ)
    → a ≤ c
    → b < ek
    → 0 < bound
    → a < bound + b
    → clamp (a ⊖ b) bound < clamp ((c ⊖ b) +ℤ ek) bound
clamp-clamp a b c ek bound h n p k = ground arith

-- A part of an axis whose windows all reach the input reaches an entry of it.
input_range_nonempty :
    (params : PoolParams) (axis size output_dim : ℕ) (partition : DimPartition)
    → Reaches size
        (window_size params axis)
        (get_or params.strides axis 0)
        (output_dim, get_or params.pads_begin axis 0, 0)
    → 0 < size
    → 0 < partition.len
    → partition.offset + partition.len ≤ output_dim
    → (input_range params axis size partition).0 < (input_range params axis size partition).1
unfolding input_range
input_range_nonempty params axis size output_dim partition (starts, narrow) some_input some_output
      within =
    let stride = get_or params.strides axis 0 in
    clamp-clamp (partition.offset * stride) (get_or params.pads_begin axis 0)
      ((partition.offset + partition.len - 1) * stride) (window_size params axis) size
      (mul-le-mul_right {m = partition.offset} {n = partition.offset + partition.len - 1} stride
        (omega arith))
      narrow some_input (starts partition.offset (omega arith))

module _ (params : PoolParams) (input output : Shape) (reach : AllReach params input output) where
  narrow_input_returns :
      (p : DimPartition) (shape : Shape) (offsets : List ℕ)
      → p.dim < length output
      → InDim output p
      → get_or shape p.dim 0 ≡ get_or input p.dim 0
      → (narrowed : Shape × List ℕ) × (narrow_input params p (shape, offsets) ≡ ok narrowed)
        × ((dim : ℕ) → p.dim < dim → get_or narrowed.0 dim 0 ≡ get_or shape dim 0)
  unfolding narrow_input
  narrow_input_returns p shape offsets exist within same =
      by_test (leb size 1) refl (ltb p.dim 2) refl (input_range params (p.dim - 2) size p).0
        (input_range params (p.dim - 2) size p).1
        (λ large spatial.
          input_range_nonempty params (p.dim - 2) size (get_or output p.dim 0) p
            (rw (sym same) at (reach p.dim (ltb-false _ _ spatial) exist))
            (omega (arith, leb-false _ _ large)) within.0 within.1)
    where
      size : ℕ
      size = get_or shape p.dim 0

      set_before :
          (len dim : ℕ) → p.dim < dim → get_or (set shape p.dim len) dim 0 ≡ get_or shape dim 0
      set_before len dim lt = get_or-set_ne shape p.dim dim len 0 (λ e. absurd (omega arith))

      by_test :
          (thin : Bool)
          → leb size 1 ≡ thin
          → (outer : Bool) → ltb p.dim 2 ≡ outer
          → (start end : ℕ) → (leb size 1 ≡ false → ltb p.dim 2 ≡ false → start < end)
          → (narrowed : Shape × List ℕ) × ((if thin
                then ok (shape, offsets)
                else if outer
                then ok
                    (set shape p.dim p.len, set offsets p.dim (get_or offsets p.dim 0 + p.offset))
                else if leb end start
                then error empty_input
                else ok (
                  set shape p.dim (end - start),
                  set offsets p.dim (get_or offsets p.dim 0 + start),
                ))
              ≡ ok narrowed)
            × ((dim : ℕ) → p.dim < dim → get_or narrowed.0 dim 0 ≡ get_or shape dim 0)
      by_test true e outer f start end lt = (_, refl, λ dim h. refl)
      by_test false e true f start end lt = (_, refl, set_before p.len)
      by_test false e false f start end lt = (
        (set shape p.dim (end - start), set offsets p.dim (get_or offsets p.dim 0 + start)),
        rw (leb-no end start (lt e f)) refl,
        set_before (end - start),
      )

  pub narrow_inputs_returns :
      (lo : ℕ) (spec : List DimPartition) (shape : Shape) (offsets : List ℕ)
      → AscendingSpec lo (length output) spec
      → All (InDim output) spec
      → ((dim : ℕ) → lo ≤ dim → get_or shape dim 0 ≡ get_or input dim 0)
      → (narrowed : Shape × List ℕ) × (narrow_inputs params spec (shape, offsets) ≡ ok narrowed)
  unfolding narrow_inputs
  narrow_inputs_returns lo [] shape offsets ascending within same = ((shape, offsets), refl)
  narrow_inputs_returns lo (p ∷ spec) shape offsets ascending within same =
      let (narrowed, found, after) =
        narrow_input_returns p shape offsets
          (omega (arith, AscendingSpec-le (p.dim + 1) (length output) spec ascending.1)) within.0
          (same p.dim ascending.0) in
      let (result, rest) =
        narrow_inputs_returns (p.dim + 1) spec narrowed.0 narrowed.1 ascending.1 within.1
          (λ dim le. after dim (omega arith) ∙ same dim (omega (arith, ascending.0))) in
      (result, rw found rest)
