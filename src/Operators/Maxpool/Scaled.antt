-- ===== src/Operators/Maxpool/Scaled.antt =====
-- The windows that are made for a scaled dimension.
use gwr.Base.{
  ℕ, ◌+◌, ◌-◌, ◌/◌, ◌<◌, ◌≡◌, refl, ap, ◌∙◌, Bool, true, false, leb, leb-true, leb-false,
  if◌then◌else◌, arith, Outcome, ok,
}
use gwr.Operators.Pooling.{
  not_set, effective_kernel, split_padding, explicit_output_dim, infer_axis,
}
use gwr.Operators.Pooling.Windows.{explicit_output_dim-corrected}
use gwr.Operators.Maxpool.{forward, backward, padded, maxpool_axis_params}

-- The output, and the input that is inferred, of an axis with these parameters and the defaults.
abbrev pub output_with : ℕ → ℕ × ℕ × ℕ → Outcome ℕ
unfolding explicit_output_dim
output_with dim (kernel, pad_begin, pad_end) =
    explicit_output_dim dim (effective_kernel kernel 1) 1 pad_begin pad_end false

abbrev pub inferred_with : ℕ → ℕ × ℕ × ℕ → ℕ
unfolding infer_axis
inferred_with dim (kernel, pad_begin, pad_end) =
    infer_axis not_set dim (effective_kernel kernel 1) 1 pad_begin pad_end

output_with_exact :
    (dim kernel pad_begin pad_end target : ℕ)
    → 0 < dim
    → 0 < kernel
    → dim + pad_begin + pad_end ≡ target + kernel - 1
    → 0 < target
    → output_with dim (kernel, pad_begin, pad_end) ≡ ok target
unfolding output_with
output_with_exact dim kernel pad_begin pad_end target d k total t =
    explicit_output_dim-corrected dim (effective_kernel kernel 1) 1 pad_begin pad_end false
      (omega arith) d (omega arith)
    ∙ ap ok (counted (dim + pad_begin + pad_end) total)
  where
    counted : (n : ℕ) → n ≡ target + kernel - 1 → (n - effective_kernel kernel 1) / 1 + 1 ≡ target
    counted n e = omega arith

-- For a dimension and a target that are not zero: the window and the padding that are made for the
-- dimension of an input give an output of the target, and those that are made for the dimension of an
-- output have an input of the target inferred.
pub maxpool_axis_params_lem :
    (scaled_dim : ℕ → ℕ) (dim : ℕ)
    → 0 < dim
    → 0 < scaled_dim dim
    → (output_with dim (maxpool_axis_params scaled_dim forward dim) ≡ ok (scaled_dim dim))
      × (inferred_with dim (maxpool_axis_params scaled_dim backward dim) ≡ scaled_dim dim)
unfolding maxpool_axis_params output_with inferred_with infer_axis
maxpool_axis_params_lem scaled_dim dim d t =
    (to_output (leb (scaled_dim dim) dim) refl, to_input (leb dim (scaled_dim dim)) refl)
  where
    target : ℕ
    target = scaled_dim dim

    to_output :
        (smaller : Bool)
        → leb target dim ≡ smaller
        → output_with dim
            (if smaller then (dim - target + 1, 0, 0) else padded (split_padding (target - dim)))
          ≡ ok target
    to_output true e =
        output_with_exact dim (dim - target + 1) 0 0 target d (omega arith)
          (omega (arith, leb-true target dim e)) t
    to_output false e =
        output_with_exact dim 1 ((target - dim) / 2) (target - dim - (target - dim) / 2) target d
          (omega arith) (omega (arith, leb-false target dim e)) t

    to_input :
        (larger : Bool)
        → leb dim target ≡ larger
        → inferred_with dim
            (if larger then (target - dim + 1, 0, 0) else padded (split_padding (dim - target)))
          ≡ target
    to_input true e = omega (arith, leb-true dim target e)
    to_input false e = omega (arith, leb-false dim target e)
