-- ===== src/Operators/Pooling/Params.antt =====
-- What the check of the parameters answers.
use gwr.Base.{
  ℕ, zero, suc, ◌*◌, ◌<◌, ◌≡◌, refl, sym, List, [], ◌∷◌, length, get_or, replicate, take, drop,
  Bool, true, false, ◌==◌, ◌&&◌, not, ltb, if◌then◌else◌, arith, ==-true, true_ne_false, Outcome,
  ok, error, error-ne-ok, ok_injective, returned, ◌>>=◌, invalid_parameter, length-replicate,
  get_or-replicate,
}
use gwr.Operators.Pooling.{
  OperatorMaxPool, PoolParams, unwrap_or, resolved_auto_pad, is_not_set, is_empty, contains_zero,
  normalize_axis_values, fail_if, normalize_pads, normalize_params,
}

pub fail_if-passed {ℓ} :
    {A : Type ℓ} (test : Bool) (next : Unit {0} → Outcome A) {a : A}
    → (fail_if test >>= next) ≡ ok a
    → (test ≡ false) × (next tt ≡ ok a)
fail_if-passed true next e = absurd (error-ne-ok e)
fail_if-passed false next e = (refl, e)

pub ==-pos : (a : ℕ) → (a == 0) ≡ false → 0 < a
==-pos a h = ground arith

==-not : (a b : ℕ) → not (a == b) ≡ false → a ≡ b
==-not a b h = ground arith

-- No entry is 0, for one entry of each axis.
abbrev pub IsPositive : ℕ → List ℕ → Type 0
IsPositive axes values = (axis : ℕ) → axis < axes → 0 < get_or values axis 0

contains_zero-IsPositive :
    (values : List ℕ) → contains_zero values ≡ false → IsPositive (length values) values
contains_zero-IsPositive [] e axis h = absurd (omega arith)
contains_zero-IsPositive (x ∷ xs) e zero h = ground arith
contains_zero-IsPositive (x ∷ xs) e (suc axis) h =
    contains_zero-IsPositive xs (others (x == 0) e) axis (omega arith)
  where
    others :
        (first : Bool)
        → (if first then true else contains_zero xs) ≡ false
        → contains_zero xs ≡ false
    others true e = absurd (true_ne_false e)
    others false e = e

-- Each list has as many entries as there are axes, or is filled with a default.
length-filled :
    (values : List ℕ) (axes default : ℕ) {normalized : List ℕ}
    → (if is_empty values
        then ok (replicate axes default)
        else if length values == axes
        then ok values
        else error invalid_parameter)
      ≡ ok normalized
    → length normalized ≡ axes
length-filled [] axes default e = rw (sym (ok_injective e)) (length-replicate axes default)
length-filled (v ∷ values) axes default {normalized = normalized} e =
    by_length (length (v ∷ values) == axes) refl e
  where
    by_length :
        (same : Bool)
        → (length (v ∷ values) == axes) ≡ same
        → (if same then ok (v ∷ values) else error invalid_parameter) ≡ ok normalized
        → length normalized ≡ axes
    by_length true test e = rw (sym (ok_injective e)) (==-true _ _ test)
    by_length false test e = absurd (error-ne-ok e)

all_passed :
    (t1 t2 t3 t4 t5 : Bool) (t6 t7 : List ℕ → Bool) (first second third : Outcome (List ℕ))
    (make : List ℕ → List ℕ → List ℕ → PoolParams) {params : PoolParams}
    → (fail_if t1 >>= λ a. fail_if t2 >>= λ b. fail_if t3 >>= λ c. fail_if t4 >>= λ d.
        fail_if t5 >>= λ e. first >>= λ x. second >>= λ y.
        third >>= λ z. fail_if (t6 x) >>= λ f. fail_if (t7 y) >>= λ g. ok (make x y z))
      ≡ ok params
    → (t1 ≡ false)
      × (t2 ≡ false)
      × (t3 ≡ false)
      × (t5 ≡ false)
      × (xyz : List ℕ × List ℕ × List ℕ) × (first ≡ ok xyz.0)
      × (second ≡ ok xyz.1)
      × (third ≡ ok xyz.2)
      × (t6 xyz.0 ≡ false)
      × (t7 xyz.1 ≡ false)
      × (make xyz.0 xyz.1 xyz.2 ≡ params)
all_passed true t2 t3 t4 t5 t6 t7 first second third make e = absurd (error-ne-ok e)
all_passed false true t3 t4 t5 t6 t7 first second third make e = absurd (error-ne-ok e)
all_passed false false true t4 t5 t6 t7 first second third make e = absurd (error-ne-ok e)
all_passed false false false true t5 t6 t7 first second third make e = absurd (error-ne-ok e)
all_passed false false false false true t6 t7 first second third make e = absurd (error-ne-ok e)
all_passed false false false false false t6 t7 first second third make e =
    let (x, firsts, e1) = returned first _ e in
    let (y, seconds, e2) = returned second _ e1 in
    let (z, thirds, e3) = returned third _ e2 in
    let (f, e4) = fail_if-passed (t6 x) _ e3 in
    let (g, e5) = fail_if-passed (t7 y) _ e4 in
    (refl, refl, refl, refl, (x, y, z), firsts, seconds, thirds, f, g, ok_injective e5)

abbrev zeros : ℕ → List ℕ
zeros n = replicate n 0

get_or-zeros :
    (n k axis : ℕ) → (get_or (take k (zeros n)) axis 0 ≡ 0) × (get_or (drop k (zeros n)) axis 0 ≡ 0)
get_or-zeros zero zero axis = (refl, refl)
get_or-zeros zero (suc k) axis = (refl, refl)
get_or-zeros (suc n) zero axis = (refl, get_or-replicate (suc n) axis 0)
get_or-zeros (suc n) (suc k) zero = (refl, (get_or-zeros n k 0).1)
get_or-zeros (suc n) (suc k) (suc axis) =
    ((get_or-zeros n k axis).0, (get_or-zeros n k (suc axis)).1)

-- There is no padding where pads are not allowed.
no_padding :
    (axes : ℕ) (explicit : Bool) (pads : List ℕ) {normalized : List ℕ}
    → explicit ≡ false
    → (not explicit && not (is_empty pads)) ≡ false
    → normalize_pads pads axes ≡ ok normalized
    → (axis : ℕ)
    → (get_or (take axes normalized) axis 0 ≡ 0) × (get_or (drop axes normalized) axis 0 ≡ 0)
no_padding axes true pads e none_given filled axis = absurd (true_ne_false e)
no_padding axes false [] e none_given filled axis =
    rw (sym (ok_injective filled)) (get_or-zeros (axes * 2) axes axis)
no_padding axes false (p ∷ pads) e none_given filled axis = absurd (true_ne_false none_given)

-- Parameters that have passed the check, for this number of axes.
abbrev pub IsNormalized : OperatorMaxPool → ℕ → PoolParams → Type 0
IsNormalized op axes params =
    (0 < axes)
    × IsPositive axes params.kernel_shape
    × IsPositive axes params.strides
    × IsPositive axes params.dilations
    × (is_not_set (resolved_auto_pad op) ≡ false
        → (axis : ℕ) → (get_or params.pads_begin axis 0 ≡ 0) × (get_or params.pads_end axis 0 ≡ 0))

pub normalize_params-IsNormalized :
    (op : OperatorMaxPool) (axes : ℕ) (params : PoolParams)
    → normalize_params op axes ≡ ok params
    → IsNormalized op axes params
unfolding normalize_params normalize_axis_values
normalize_params-IsNormalized op axes params e =
    let (t1, t2, t3, t5, xyz, firsts, seconds, thirds, t6, t7, made) =
      all_passed (axes == 0) (not (length op.kernel_shape == axes)) (contains_zero op.kernel_shape)
        (ltb 1 (unwrap_or op.storage_order 0))
        (not (is_not_set (resolved_auto_pad op)) && not (is_empty (unwrap_or op.pads [])))
        contains_zero contains_zero (normalize_axis_values (unwrap_or op.strides []) axes 1)
        (normalize_axis_values (unwrap_or op.dilations []) axes 1)
        (normalize_pads (unwrap_or op.pads []) axes)
        (λ x y z. record {
          kernel_shape = op.kernel_shape;
          strides = x;
          dilations = y;
          pads_begin = take axes z;
          pads_end = drop axes z;
        })
        e in
    rw (sym made) (
      ==-pos axes t1,
      λ axis h. contains_zero-IsPositive op.kernel_shape t3 axis (omega (arith, ==-not _ _ t2)),
      λ axis h.
          contains_zero-IsPositive xyz.0 t6 axis
            (omega (arith, length-filled (unwrap_or op.strides []) axes 1 firsts)),
      λ axis h.
          contains_zero-IsPositive xyz.1 t7 axis
            (omega (arith, length-filled (unwrap_or op.dilations []) axes 1 seconds)),
      λ automatic axis.
          no_padding axes (is_not_set (resolved_auto_pad op)) (unwrap_or op.pads []) automatic t5
            thirds axis,
    )
