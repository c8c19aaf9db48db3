-- ===== src/Operators/Pooling/Reach.antt =====
-- Every window of an axis reaches the input.
use gwr.Base.{
  ℕ, zero, suc, ◌+◌, ◌-◌, ◌*◌, ◌/◌, ◌<◌, ◌≡◌, refl, sym, ap, ◌∙◌, Bool, true, false, leb, leb-no,
  leb-true, leb-false, if◌then◌else◌, arith, ok, error-ne-ok, ok_injective, pos, neg, ◌⊖◌, ◌+ℤ◌,
  returned,
}
use native.Mathlib.Nat.{le-div_iff_mul-le, div-eq_of_lt, suc-mul, zero-mul, div-le_self}
use gwr.Tensor.{div_ceil}
use gwr.Operators.Pooling.{
  AutoPad, not_set, valid, same_upper, same_lower, explicit_output_dim, valid_output_dim, positive,
  drop_last, resolve_axis, same_padding, ceil_div_i128,
}
use gwr.Operators.Pooling.Windows.{
  explicit_output_dim_by_size, explicit_output_dim_ceil, num_windows_floor,
}

-- The padding of each side of an axis is smaller than a window.
abbrev pub IsNarrow : AutoPad → ℕ → ℕ → ℕ → Type 0
IsNarrow not_set ek pad_begin pad_end = (pad_begin < ek) × (pad_end < ek)
IsNarrow valid ek pad_begin pad_end = Unit
IsNarrow same_upper ek pad_begin pad_end = Unit
IsNarrow same_lower ek pad_begin pad_end = Unit

-- Every window starts before the end of the input, and the first ends behind its start.
abbrev pub Reaches : ℕ → ℕ → ℕ → ℕ × ℕ × ℕ → Type 0
Reaches input_dim ek stride (output_dim, pad_begin, pad_end) =
    ((k : ℕ) → k < output_dim → k * stride < input_dim + pad_begin) × (pad_begin < ek)

positive-neg : (n : ℕ) {o : ℕ} → ¬ (positive (neg n) ≡ ok o)
positive-neg zero e = error-ne-ok e
positive-neg (suc n) e = error-ne-ok e

-- A window that is larger than the padded input is the only one, if there is one.
explicit_output_dim_single :
    (input_dim ek stride pad_begin pad_end o : ℕ)
    → input_dim + pad_begin + pad_end < ek
    → explicit_output_dim input_dim ek stride pad_begin pad_end true ≡ ok o
    → o ≡ 1
unfolding explicit_output_dim
explicit_output_dim_single input_dim ek stride pad_begin pad_end o lt e =
    at (suc (ek - (input_dim + pad_begin + pad_end) - 1) / stride)
      (rw (leb-no ek (input_dim + pad_begin + pad_end) lt) at e)
  where
    drop_one : (late : Bool) → positive (if late then pos 0 else pos 1) ≡ ok o → o ≡ 1
    drop_one true e = absurd (error-ne-ok e)
    drop_one false e = sym (ok_injective e)

    at :
        (q : ℕ)
        → positive (drop_last true (neg q +ℤ 1) stride (input_dim + pad_begin)) ≡ ok o
        → o ≡ 1
    at zero e = drop_one (leb (input_dim + pad_begin) (0 * stride)) e
    at (suc zero) e = absurd (error-ne-ok e)
    at (suc (suc q)) e = absurd (error-ne-ok (rw (leb-no (suc (suc q)) 1 (omega arith)) at e))

explicit_output_dim_start :
    (input_dim ek stride pad_begin pad_end o : ℕ) (ceil_mode : Bool)
    → 0 < stride
    → 0 < input_dim
    → pad_end < ek
    → explicit_output_dim input_dim ek stride pad_begin pad_end ceil_mode ≡ ok o
    → (k : ℕ) → k < o
    → k * stride < input_dim + pad_begin
explicit_output_dim_start input_dim ek stride pad_begin pad_end o ceil_mode h i fits e k lt =
    by_size (leb ek (input_dim + pad_begin + pad_end)) refl ceil_mode e
  where
    by_size :
        (enough : Bool)
        → leb ek (input_dim + pad_begin + pad_end) ≡ enough
        → (ceil_mode : Bool)
        → explicit_output_dim input_dim ek stride pad_begin pad_end ceil_mode ≡ ok o
        → k * stride < input_dim + pad_begin
    by_size true le false e =
        let (n, found, counts) =
          (explicit_output_dim_by_size input_dim ek stride pad_begin pad_end h i).1
            (leb-true _ _ le) in
        omega (arith, (counts k).0 (omega (arith, ok_injective (sym found ∙ e))))
    by_size true le true e =
        let (n, found, counts) =
          explicit_output_dim_ceil input_dim ek stride pad_begin pad_end h i (leb-true _ _ le)
            (omega arith) in
        ((counts k).0 (omega (arith, ok_injective (sym found ∙ e)))).0
    by_size false le false e = absurd (
        error-ne-ok (
          sym (
            (explicit_output_dim_by_size input_dim ek stride pad_begin pad_end h i).0
              (leb-false _ _ le))
          ∙ e))
    by_size false le true e = omega (
      arith,
      ap (λ j. j * stride)
          (only (
            explicit_output_dim_single input_dim ek stride pad_begin pad_end o (leb-false _ _ le)
              e)),
      zero-mul stride,
    )
      where
        only : o ≡ 1 → k ≡ 0
        only e = omega arith

-- The windows that a rounded-up quotient counts.
quotient_start : (n stride k : ℕ) → 0 < stride → k < (n + stride - 1) / stride → k * stride < n
quotient_start n stride k h lt = omega (
  arith,
  (le-div_iff_mul-le {k = stride} {x = suc k} {y = n + stride - 1} h).0 (omega arith),
  suc-mul k stride,
)

valid_output_dim_start :
    (input_dim ek stride o : ℕ) (ceil_mode : Bool)
    → 0 < stride
    → 0 < ek
    → valid_output_dim input_dim ek stride ceil_mode ≡ ok o
    → (k : ℕ) → k < o
    → k * stride < input_dim
unfolding valid_output_dim
valid_output_dim_start input_dim ek stride o ceil_mode h w e k lt =
    by_size (leb ek input_dim) refl ceil_mode e
  where
    of_pos : (n : ℕ) → positive (pos n) ≡ ok o → o ≡ n
    of_pos zero e = absurd (error-ne-ok e)
    of_pos (suc n) e = sym (ok_injective e)

    none : (m : ℕ) → ¬ (positive (ceil_div_i128 (1 ⊖ suc m) stride) ≡ ok o)
    none zero e =
        error-ne-ok (rw (div-eq_of_lt {n = 0 + stride - 1} {m = stride} (omega arith)) at e)
    none (suc m) e =
        positive-neg (suc (suc (suc m) - 1 - 1) / stride)
          (rw (leb-no (suc (suc m)) 1 (omega arith)) at e)

    by_size :
        (enough : Bool)
        → leb ek input_dim ≡ enough
        → (ceil_mode : Bool) → valid_output_dim input_dim ek stride ceil_mode ≡ ok o
        → k * stride < input_dim
    by_size true le false e =
        let n = of_pos ((input_dim - ek) / stride + 1) (rw (le) at e) in
        omega (
          arith,
          (num_windows_floor input_dim ek stride k h (leb-true _ _ le)).0 (omega (arith, n)),
        )
    by_size true le true e =
        let n = of_pos ((input_dim - ek + 1 + stride - 1) / stride) (rw (le) at e) in
        omega (
          arith,
          leb-true _ _ le,
          quotient_start (input_dim - ek + 1) stride k h (omega (arith, n)),
        )
    by_size false le false e = absurd (negative ((ek - input_dim - 1) / stride) (rw (le) at e))
      where
        negative : (q : ℕ) → ¬ (positive (1 ⊖ suc q) ≡ ok o)
        negative zero e = error-ne-ok e
        negative (suc q) e = error-ne-ok (rw (leb-no (suc (suc q)) 1 (omega arith)) at e)
    by_size false le true e = absurd (none (ek - input_dim - 1) (rw (le) at e))

same_start :
    (input_dim stride k : ℕ) → 0 < stride → k < div_ceil input_dim stride → k * stride < input_dim
same_start input_dim stride k h lt =
    quotient_start input_dim stride k h (omega (arith, lt, ap (λ n. n / stride) together))
  where
    together : input_dim + (stride - 1) ≡ input_dim + stride - 1
    together = omega arith

-- The padding of `same_upper` and `same_lower`.
same_padding_below :
    (input_dim ek stride : ℕ)
    → 0 < stride
    → 0 < input_dim
    → 0 < ek
    → (o : ℕ) → o ≡ div_ceil input_dim stride
    → ((same_padding input_dim ek stride o).0 < ek) × ((same_padding input_dim ek stride o).1 < ek)
same_padding_below input_dim ek stride h i w o e = halves _ (total_below o e)
  where
    halves : (total : ℕ) → total < ek → (total / 2 < ek) × (total - total / 2 < ek)
    halves total lt = (omega (arith, div-le_self total 2), omega arith)

    total_below : (o : ℕ) → o ≡ div_ceil input_dim stride → (o - 1) * stride + ek - input_dim < ek
    total_below zero e = omega (arith, zero-mul stride)
    total_below (suc j) e =
        omega
          (arith, same_start input_dim stride j h (omega (arith, e)), ap (λ n. n * stride) (less j))
      where
        less : (j : ℕ) → suc j - 1 ≡ j
        less j = omega arith

-- Every window of an axis whose padding is narrow reaches the input.
pub resolve_axis-Reaches :
    (auto_pad : AutoPad) (ceil_mode : Bool) (input_dim ek stride pad_begin pad_end : ℕ)
    (resolved : ℕ × ℕ × ℕ)
    → 0 < input_dim
    → 0 < ek
    → 0 < stride
    → IsNarrow auto_pad ek pad_begin pad_end
    → resolve_axis auto_pad ceil_mode input_dim ek stride pad_begin pad_end ≡ ok resolved
    → Reaches input_dim ek stride resolved
unfolding resolve_axis
resolve_axis-Reaches not_set ceil_mode input_dim ek stride pad_begin pad_end resolved i w h narrow
      e =
    let (o, found, made) =
      returned (explicit_output_dim input_dim ek stride pad_begin pad_end ceil_mode) _ e in
    rw (sym (ok_injective made)) (
      explicit_output_dim_start input_dim ek stride pad_begin pad_end o ceil_mode h i narrow.1
          found,
      narrow.0,
    )
resolve_axis-Reaches valid ceil_mode input_dim ek stride pad_begin pad_end resolved i w h narrow e =
    let (o, found, made) = returned (valid_output_dim input_dim ek stride ceil_mode) _ e in
    rw (sym (ok_injective made)) (
      (λ k lt.
          omega (arith, valid_output_dim_start input_dim ek stride o ceil_mode h w found k lt)),
      w,
    )
resolve_axis-Reaches same_upper ceil_mode input_dim ek stride pad_begin pad_end resolved i w h
      narrow e =
    rw (sym (ok_injective e)) (
      (λ k lt. omega (arith, same_start input_dim stride k h lt)),
      (same_padding_below input_dim ek stride h i w _ refl).0,
    )
resolve_axis-Reaches same_lower ceil_mode input_dim ek stride pad_begin pad_end resolved i w h
      narrow e =
    rw (sym (ok_injective e)) (
      (λ k lt. omega (arith, same_start input_dim stride k h lt)),
      (same_padding_below input_dim ek stride h i w _ refl).1,
    )
