-- ===== src/Operators/Pooling/Infer.antt =====
-- The input dimension that is inferred from an output dimension has that output dimension.
use gwr.Base.{
  ℕ, zero, suc, ◌+◌, ◌-◌, ◌*◌, ◌/◌, max, ◌<◌, ◌≡◌, refl, ◌∙◌, ap, Bool, true, false, leb-no, arith,
  ok, pos,
}
use native.Mathlib.Nat.{div-eq_of_lt-le, suc-mul}
use gwr.Tensor.{div_ceil}
use gwr.Operators.Pooling.{
  AutoPad, not_set, valid, same_upper, same_lower, explicit_output_dim, valid_output_dim,
  resolve_axis, infer_axis, positive, same_padding,
}
use gwr.Operators.Pooling.Windows.{explicit_output_dim-corrected, num_windows, corrected, ⊖-pos}

-- The padding of an axis leaves an input, and the padding at its end is smaller than a window.
abbrev pub Fits : AutoPad → ℕ → ℕ → ℕ → ℕ → ℕ → Type 0
Fits not_set output_dim ek stride pad_begin pad_end =
    (pad_begin + pad_end < (output_dim - 1) * stride + ek) × (pad_end < ek)
Fits valid output_dim ek stride pad_begin pad_end = (pad_begin ≡ 0) × (pad_end ≡ 0)
Fits same_upper output_dim ek stride pad_begin pad_end = Unit
Fits same_lower output_dim ek stride pad_begin pad_end = Unit

div_exact : (j r stride : ℕ) → r < stride → (j * stride + r) / stride ≡ j
div_exact j r stride h =
    div-eq_of_lt-le {k = j} stride {m = j * stride + r} (omega arith)
      (omega (arith, suc-mul j stride, ap (λ n. n * stride) (one_more j)))
  where
    one_more : (j : ℕ) → j + 1 ≡ suc j
    one_more j = omega arith

pred : (j : ℕ) → suc j - 1 ≡ j
pred j = omega arith

num_windows_exact :
    (ceil_mode : Bool) (j ek stride : ℕ)
    → 0 < stride
    → num_windows ceil_mode (j * stride + ek) ek stride ≡ suc j
num_windows_exact false j ek stride h =
    rw (taken (j * stride) ek) (omega (arith, div_exact j 0 stride h))
  where
    taken : (a b : ℕ) → a + b - b ≡ a + 0
    taken a b = omega arith
num_windows_exact true j ek stride h =
    rw (taken (j * stride) ek stride h)
      (omega (arith, div_exact j (stride - 1) stride (omega arith)))
  where
    taken : (a b s : ℕ) → 0 < s → a + b - b + s - 1 ≡ a + (s - 1)
    taken a b s h = omega arith

corrected_same :
    (ceil_mode : Bool) (n stride extent : ℕ)
    → (n - 1) * stride < extent
    → corrected ceil_mode n stride extent ≡ n
corrected_same false n stride extent h = refl
corrected_same true n stride extent h = rw (leb-no extent ((n - 1) * stride) h) refl

-- The output dimension of `explicit_output_dim`, when the padded input is as long as its windows.
explicit_output_dim_exact :
    (input_dim ek stride pad_begin pad_end j : ℕ) (ceil_mode : Bool)
    → 0 < stride
    → 0 < input_dim
    → pad_end < ek
    → input_dim + pad_begin + pad_end ≡ j * stride + ek
    → explicit_output_dim input_dim ek stride pad_begin pad_end ceil_mode ≡ ok (suc j)
explicit_output_dim_exact input_dim ek stride pad_begin pad_end j ceil_mode h i fits total =
    explicit_output_dim-corrected input_dim ek stride pad_begin pad_end ceil_mode h i (omega arith)
    ∙ ap ok (
        ap (λ n. corrected ceil_mode n stride (input_dim + pad_begin))
          (ap (λ t. num_windows ceil_mode t ek stride) total
            ∙ num_windows_exact ceil_mode j ek stride h)
        ∙ corrected_same ceil_mode (suc j) stride (input_dim + pad_begin)
            (rw (pred j) (omega arith)))

steps : (j stride : ℕ) → 0 < stride → (j * stride + stride) / stride ≡ suc j
steps j stride h = ap (λ n. n / stride) (together) ∙ div_exact (suc j) 0 stride h
  where
    together : j * stride + stride ≡ suc j * stride + 0
    together = omega (arith, suc-mul j stride)

valid_output_dim_exact :
    (ek stride j : ℕ) (ceil_mode : Bool)
    → 0 < stride
    → valid_output_dim (j * stride + ek) ek stride ceil_mode ≡ ok (suc j)
unfolding valid_output_dim
valid_output_dim_exact ek stride j false h =
    rw (⊖-pos (j * stride + ek) ek (omega arith), num_windows_exact false j ek stride h) refl
valid_output_dim_exact ek stride j true h = rw (⊖-pos (j * stride + ek) ek (omega arith)) (
    ap (λ n. positive (pos n))
      (ap (λ n. n / stride) (shifted (j * stride) ek stride h) ∙ steps j stride h))
  where
    shifted : (a b s : ℕ) → 0 < s → a + b - b + 1 + s - 1 ≡ a + s
    shifted a b s h = omega arith

div_ceil_exact : (j stride : ℕ) → 0 < stride → div_ceil (j * stride + 1) stride ≡ suc j
div_ceil_exact j stride h = ap (λ n. n / stride) (shifted (j * stride) stride h) ∙ steps j stride h
  where
    shifted : (a s : ℕ) → 0 < s → a + 1 + (s - 1) ≡ a + s
    shifted a s h = omega arith

-- An axis whose padding fits, for every mode: the output dimension of the input dimension that is
-- inferred from an output dimension is that output dimension.
pub resolve_axis-infer_axis :
    (auto_pad : AutoPad) (ceil_mode : Bool) (output_dim ek stride pad_begin pad_end : ℕ)
    → 0 < output_dim
    → 0 < ek
    → 0 < stride
    → Fits auto_pad output_dim ek stride pad_begin pad_end
    → (pads : ℕ × ℕ) × (resolve_axis auto_pad ceil_mode
          (infer_axis auto_pad output_dim ek stride pad_begin pad_end)
          ek
          stride
          pad_begin
          pad_end
        ≡ ok (output_dim, pads.0, pads.1))
unfolding resolve_axis infer_axis
resolve_axis-infer_axis auto_pad ceil_mode zero ek stride pad_begin pad_end o k h fits =
    absurd (omega arith)
resolve_axis-infer_axis not_set ceil_mode (suc j) ek stride pad_begin pad_end o k h fits = (
  (pad_begin, pad_end),
  rw
      (explicit_output_dim_exact (max ((suc j - 1) * stride + ek - (pad_begin + pad_end)) 1) ek
        stride pad_begin pad_end j ceil_mode h (omega arith) fits.1 (omega (arith, fits.0, first)))
      refl,
)
  where
    first : (suc j - 1) * stride ≡ j * stride
    first = ap (λ n. n * stride) (pred j)
resolve_axis-infer_axis valid ceil_mode (suc j) ek stride pad_begin pad_end o k h fits =
    ((0, 0), rw (whole, valid_output_dim_exact ek stride j ceil_mode h) refl)
  where
    whole : max ((suc j - 1) * stride + ek - (pad_begin + pad_end)) 1 ≡ j * stride + ek
    whole = rw (pred j) (omega arith)
resolve_axis-infer_axis same_upper ceil_mode (suc j) ek stride pad_begin pad_end o k h fits = (
  same_padding (j * stride + 1) ek stride (suc j),
  rw (pred j, div_ceil_exact j stride h, pred j) refl,
)
resolve_axis-infer_axis same_lower ceil_mode (suc j) ek stride pad_begin pad_end o k h fits =
    ((larger.1, larger.0), rw (pred j, div_ceil_exact j stride h, pred j) refl)
  where
    larger : ℕ × ℕ
    larger = same_padding (j * stride + 1) ek stride (suc j)
