-- ===== src/Operators/Pooling/Windows.antt =====
-- How many windows an axis has.
use gwr.Base.{
  ℕ, zero, suc, ◌+◌, ◌-◌, ◌*◌, ◌/◌, ◌≤◌, ◌<◌, ◌≡◌, ◌↔◌, ◌⊎◌, refl, ap, Bool, true, false, leb,
  leb-yes, leb-no, leb-true, leb-false, ◌&&◌, if◌then◌else◌, arith, ok, error, empty_output,
  Bool-cases, inl, inr, pos, ◌⊖◌, ◌+ℤ◌, div_euclid,
}
use native.Mathlib.Nat.{le-div_iff_mul-le, mul-le-mul_right, suc-mul, zero-mul}
use native.Mathlib.Decide.{ℕ_discrete}
use gwr.Operators.Pooling.{explicit_output_dim, ceil_div_i128, positive, drop_last}

pub ⊖-pos : (a b : ℕ) → b ≤ a → a ⊖ b ≡ pos (a - b)
⊖-pos a b h = rw (leb-yes b a h) refl

pub positive-pos : (m : ℕ) → 0 < m → positive (pos m) ≡ ok m
positive-pos zero h = absurd (omega arith)
positive-pos (suc m) h = refl

-- The dimension after the correction of the last window.
abbrev pub corrected : Bool → ℕ → ℕ → ℕ → ℕ
corrected ceil_mode n stride extent =
    if ceil_mode && leb extent ((n - 1) * stride) then n - 1 else n

drop_last-pos :
    (ceil_mode : Bool) (n stride extent : ℕ)
    → 0 < n
    → drop_last ceil_mode (pos n) stride extent ≡ pos (corrected ceil_mode n stride extent)
drop_last-pos ceil_mode zero stride extent h = absurd (omega arith)
drop_last-pos ceil_mode (suc n) stride extent h =
    rw (pred n) (inside (ceil_mode && leb extent (n * stride)) n (suc n))
  where
    pred : (n : ℕ) → suc n - 1 ≡ n
    pred n = omega arith

    inside : (late : Bool) (m n : ℕ) → (if late then pos m else pos n) ≡ pos (if late then m else n)
    inside true m n = refl
    inside false m n = refl

corrected_pos :
    (ceil_mode : Bool) (n stride extent : ℕ)
    → 0 < n
    → 0 < extent
    → 0 < corrected ceil_mode n stride extent
corrected_pos false n stride extent h e = h
corrected_pos true zero stride extent h e = absurd (omega arith)
corrected_pos true (suc zero) stride extent h e =
    rw (leb-no extent (0 * stride) (omega (arith, zero-mul stride))) (omega arith)
corrected_pos true (suc (suc n)) stride extent h e = ground arith

-- The dimension before the correction.
abbrev pub num_windows : Bool → ℕ → ℕ → ℕ → ℕ
num_windows false total ek stride = (total - ek) / stride + 1
num_windows true total ek stride = (total - ek + stride - 1) / stride + 1

pub explicit_output_dim-corrected :
    (input_dim ek stride pad_begin pad_end : ℕ) (ceil_mode : Bool)
    → 0 < stride
    → 0 < input_dim
    → ek ≤ input_dim + pad_begin + pad_end
    → explicit_output_dim input_dim ek stride pad_begin pad_end ceil_mode
      ≡ ok (
          corrected ceil_mode
            (num_windows ceil_mode (input_dim + pad_begin + pad_end) ek stride)
            stride
            (input_dim + pad_begin))
unfolding explicit_output_dim
explicit_output_dim-corrected input_dim ek stride pad_begin pad_end ceil_mode h i le =
    rw (⊖-pos (input_dim + pad_begin + pad_end) ek le) (by_mode ceil_mode)
  where
    at :
        (ceil_mode : Bool) (n : ℕ)
        → 0 < n
        → positive (drop_last ceil_mode (pos n) stride (input_dim + pad_begin))
          ≡ ok (corrected ceil_mode n stride (input_dim + pad_begin))
    at ceil_mode n p =
        rw (drop_last-pos ceil_mode n stride (input_dim + pad_begin) p) (
          positive-pos _ (corrected_pos ceil_mode n stride (input_dim + pad_begin) p (omega arith)))

    by_mode :
        (ceil_mode : Bool)
        → positive (
            drop_last ceil_mode
              (if ceil_mode
                then ceil_div_i128 (pos (input_dim + pad_begin + pad_end - ek)) stride +ℤ 1
                else div_euclid (pos (input_dim + pad_begin + pad_end - ek)) stride +ℤ 1)
              stride
              (input_dim + pad_begin))
          ≡ ok (
              corrected ceil_mode
                (num_windows ceil_mode (input_dim + pad_begin + pad_end) ek stride)
                stride
                (input_dim + pad_begin))
    by_mode true = at true _ (omega arith)
    by_mode false = at false _ (omega arith)

-- The windows, by where they start: `total` is the padded input.
pub num_windows_floor :
    (total ek stride k : ℕ)
    → 0 < stride
    → ek ≤ total
    → (k < num_windows false total ek stride) ↔ (k * stride + ek ≤ total)
num_windows_floor total ek stride k h le =
    let (to, from) = le-div_iff_mul-le {k = stride} {x = k} {y = total - ek} h in
    ((λ l. omega (arith, to (omega arith))), λ l. omega (arith, from (omega arith)))

num_windows_ceil :
    (total ek stride k : ℕ)
    → 0 < stride
    → ek ≤ total
    → (k < num_windows true total ek stride) ↔ (k * stride + ek < total + stride)
num_windows_ceil total ek stride k h le =
    let (to, from) = le-div_iff_mul-le {k = stride} {x = k} {y = total - ek + stride - 1} h in
    ((λ l. omega (arith, to (omega arith))), λ l. omega (arith, from (omega arith)))

pub explicit_output_dim_by_size :
    (input_dim ek stride pad_begin pad_end : ℕ)
    → 0 < stride
    → 0 < input_dim
    → (input_dim + pad_begin + pad_end < ek
        → explicit_output_dim input_dim ek stride pad_begin pad_end false ≡ error empty_output)
      × (ek ≤ input_dim + pad_begin + pad_end
          → (n : ℕ) × (explicit_output_dim input_dim ek stride pad_begin pad_end false ≡ ok n)
            × ((k : ℕ) → (k < n) ↔ (k * stride + ek ≤ input_dim + pad_begin + pad_end)))
explicit_output_dim_by_size input_dim ek stride pad_begin pad_end h i = (
  unfold explicit_output_dim in
      (λ lt.
        rw (leb-no ek (input_dim + pad_begin + pad_end) lt)
          (negative ((ek - (input_dim + pad_begin + pad_end) - 1) / stride))),
  λ le. (
    _,
    explicit_output_dim-corrected input_dim ek stride pad_begin pad_end false h i le,
    λ k. num_windows_floor (input_dim + pad_begin + pad_end) ek stride k h le,
  ),
)
  where
    negative :
        (q : ℕ)
        → positive (drop_last false (1 ⊖ suc q) stride (input_dim + pad_begin)) ≡ error empty_output
    negative zero = refl
    negative (suc q) = rw (leb-no (suc (suc q)) 1 (omega arith)) refl

-- For an axis without `ceil_mode`: either the window is larger than the padded input, which is an error,
-- or it is not, and the output dimension counts the windows that lie within the padded input.
pub explicit_output_dim_floor :
    (input_dim ek stride pad_begin pad_end : ℕ)
    → 0 < stride
    → 0 < input_dim
    → ((input_dim + pad_begin + pad_end < ek)
        × (explicit_output_dim input_dim ek stride pad_begin pad_end false ≡ error empty_output))
      ⊎ ((ek ≤ input_dim + pad_begin + pad_end)
          × (n : ℕ) × (explicit_output_dim input_dim ek stride pad_begin pad_end false ≡ ok n)
          × ((k : ℕ) → (k < n) ↔ (k * stride + ek ≤ input_dim + pad_begin + pad_end)))
explicit_output_dim_floor input_dim ek stride pad_begin pad_end h i =
    elim (Bool-cases (leb ek (input_dim + pad_begin + pad_end))) [
      | inl large ↦
          let (n, found, counts) = by_size.1 (leb-true _ _ large) in
          inr (leb-true _ _ large, n, found, counts)
      | inr small ↦ inl (leb-false _ _ small, by_size.0 (leb-false _ _ small))
    ]
  where
    by_size :
        (input_dim + pad_begin + pad_end < ek
          → explicit_output_dim input_dim ek stride pad_begin pad_end false ≡ error empty_output)
        × (ek ≤ input_dim + pad_begin + pad_end
            → (n : ℕ) × (explicit_output_dim input_dim ek stride pad_begin pad_end false ≡ ok n)
              × ((k : ℕ) → (k < n) ↔ (k * stride + ek ≤ input_dim + pad_begin + pad_end)))
    by_size = explicit_output_dim_by_size input_dim ek stride pad_begin pad_end h i

-- For an axis with `ceil_mode`, whose window is no larger than the padded input and whose padding at the
-- end is no larger than a window: the output dimension counts the windows that start within the input
-- or the padding before it, and of which the window before does not reach the end of the padded input.
pub explicit_output_dim_ceil :
    (input_dim ek stride pad_begin pad_end : ℕ)
    → 0 < stride
    → 0 < input_dim
    → ek ≤ input_dim + pad_begin + pad_end
    → pad_end ≤ ek
    → (n : ℕ) × (explicit_output_dim input_dim ek stride pad_begin pad_end true ≡ ok n)
      × ((k : ℕ)
          → (k < n) ↔ (
              (k * stride < input_dim + pad_begin)
              × (k * stride + ek < input_dim + pad_begin + pad_end + stride)))
explicit_output_dim_ceil input_dim ek stride pad_begin pad_end h i le fits = (
  _,
  explicit_output_dim-corrected input_dim ek stride pad_begin pad_end true h i le,
  λ k. counted k (num_windows true total ek stride) (λ j. num_windows_ceil total ek stride j h le),
)
  where
    total : ℕ
    total = input_dim + pad_begin + pad_end

    counted :
        (k n : ℕ)
        → ((j : ℕ) → (j < n) ↔ (j * stride + ek < total + stride))
        → (k < corrected true n stride (input_dim + pad_begin))
          ↔ ((k * stride < input_dim + pad_begin) × (k * stride + ek < total + stride))
    counted zero zero count = absurd (omega (arith, (count 0).1, zero-mul stride))
    counted (suc k) zero count = absurd (omega (arith, (count 0).1, zero-mul stride))
    counted k (suc last) count =
        rw (pred last) (by_last (leb (input_dim + pad_begin) (last * stride)) refl)
      where
        pred : (n : ℕ) → suc n - 1 ≡ n
        pred n = omega arith

        by_last :
            (late : Bool)
            → leb (input_dim + pad_begin) (last * stride) ≡ late
            → (k < (if late then last else suc last))
              ↔ ((k * stride < input_dim + pad_begin) × (k * stride + ek < total + stride))
        by_last true e = (
          (λ l. omega (
            arith,
            (count last).0 (omega arith),
            mul-le-mul_right {m = suc k} {n = last} stride (omega arith),
            suc-mul k stride,
          )),
          λ l. elim (ℕ_discrete k last) [
            | yes same ↦ absurd (omega (arith, leb-true _ _ e, ap (λ j. j * stride) same))
            | no other ↦ omega (arith, (count k).1 l.1)
          ],
        )
        by_last false e = (
          (λ l. (
            omega
                (arith, leb-false _ _ e, mul-le-mul_right {m = k} {n = last} stride (omega arith)),
            (count k).0 l,
          )),
          λ l. (count k).1 l.1,
        )
