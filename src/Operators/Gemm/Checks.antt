-- ===== src/Operators/Gemm/Checks.antt =====
-- What the checks of the shapes answer.
use gwr.Base.{
  ℕ, zero, suc, ◌+◌, ◌-◌, max, ◌≤◌, ◌<◌, ◌≡◌, ◌⊎◌, inl, inr, refl, sym, ◌∙◌, length, get_or, false,
  ◌==◌, ◌&&◌, not, ltb, if◌then◌else◌, Bool-cases, arith, ok, error, panic, error-ne-ok,
  incompatible_shapes, leb-yes, leb-no, ==-yes, invalid_output,
}
use gwr.Tensor.{Shape, num_dims, get_dim}
use gwr.Operators.{each_dim}
use gwr.Operators.EachDim.{each_dim-entries, get_dim-full, get_dim-inner}
use gwr.Operators.Gemm.{
  get_inner_dim, result_dim, broadcast_shapes, validate_outer, validate_output,
}

abbrev pub inner : Shape → ℕ → ℕ
inner dims i = max (get_or dims (num_dims dims - i) 1) 1

pub get_inner_dim-ok :
    (dims : Shape) (i : ℕ) → i ≤ length dims → get_inner_dim dims i ≡ ok (inner dims i)
unfolding get_inner_dim
get_inner_dim-ok dims i h = rw (leb-yes i (length dims) h) refl

validate_outer-ok :
    (a_dim b_dim out_dim : ℕ → ℕ) (i rounds : ℕ)
    → ((j : ℕ)
        → j < i + rounds
        → ((if a_dim j == 1 then b_dim j else a_dim j) ≡ 1)
          ⊎ (out_dim j ≡ (if a_dim j == 1 then b_dim j else a_dim j)))
    → validate_outer a_dim b_dim out_dim i rounds ≡ ok tt
unfolding validate_outer
validate_outer-ok a_dim b_dim out_dim i zero h = refl
validate_outer-ok a_dim b_dim out_dim i (suc rounds) h =
    rw (passes _ (out_dim i) (h i (omega arith)))
      (validate_outer-ok a_dim b_dim out_dim (i + 1) rounds (λ j k. h j (omega arith)))
  where
    passes : (d o : ℕ) → (d ≡ 1) ⊎ (o ≡ d) → (not (d == 1) && not (o == d)) ≡ false
    passes d o (inl e) = ground arith
    passes d o (inr e) = ground arith

-- The entries of the output of a product of these shapes.
abbrev pub IsResult : Shape → Shape → Shape → Type 0
IsResult a b output =
    (length output ≡ max (length a) (length b))
    × ((j : ℕ)
        → j < length output
        → result_dim (length output) j (get_dim a (length output) j) (get_dim b (length output) j)
          ≡ ok (get_or output j 1))

pub broadcast_shapes-IsResult :
    (a b output : Shape)
    → broadcast_shapes a b ≡ ok output
    → (2 ≤ length output) × IsResult a b output
unfolding broadcast_shapes
broadcast_shapes-IsResult a b output = at_rank (max (num_dims a) (num_dims b)) refl
  where
    at_rank :
        (rank : ℕ)
        → rank ≡ max (length a) (length b)
        → (if ltb rank 2
            then error incompatible_shapes
            else each_dim (λ i. result_dim rank i (get_dim a rank i) (get_dim b rank i)) 0 rank)
          ≡ ok output
        → (2 ≤ length output) × IsResult a b output
    at_rank rank e h = elim (Bool-cases (ltb rank 2)) [
      | inl low ↦ absurd (error-ne-ok (rw low at h))
      | inr high ↦
          let (same, entries) = each_dim-entries _ rank output (rw high at h) in
          (ground arith, (same ∙ e, rw same entries))
    ]

result_dim-outer :
    (n j a b o : ℕ)
    → j < n - 2
    → result_dim n j a b ≡ ok o
    → ((if a == 1 then b else a) ≡ 1) ⊎ (o ≡ (if a == 1 then b else a))
result_dim-outer n j a b o h e = elim (Bool-cases (a == 1)) [
  | inl unit ↦ rw unit (inr (ground arith))
  | inr large ↦ rw large (inr (ground arith))
]

result_dim-m : (n a b o : ℕ) → result_dim n (n - 2) a b ≡ ok o → a ≡ o
result_dim-m n a b o e = ground arith

result_dim-n : (n a b o : ℕ) → 2 ≤ n → result_dim n (n - 1) a b ≡ ok o → b ≡ o
result_dim-n n a b o h e = ground arith

validate_outer-IsResult :
    (a b output : Shape)
    → IsResult a b output
    → validate_outer
        (get_dim a (length output))
        (get_dim b (length output))
        (get_dim output (length output))
        0
        (length output - 2)
      ≡ ok tt
validate_outer-IsResult a b output (same_rank, entries) =
    validate_outer-ok (get_dim a n) (get_dim b n) (get_dim output n) 0 (n - 2) λ j h.
      rw (get_dim-full output j (omega arith)) (
        result_dim-outer n j (get_dim a n j) (get_dim b n j) (get_or output j 1) (omega arith)
          (entries j (omega arith)))
  where
    n : ℕ
    n = length output

-- An output of the right shape passes the check against inputs of matrices.
pub validate_output-ok :
    (a b output : Shape)
    → 2 ≤ length a
    → 2 ≤ length b
    → 2 ≤ length output
    → IsResult a b output
    → validate_output a b output ≡ ok tt
unfolding validate_output
validate_output-ok a b output rank_a rank_b big (same_rank, entries) =
    rw
      (
        sym same_rank,
        ==-yes n n refl,
        validate_outer-IsResult a b output (same_rank, entries),
        get_inner_dim-ok a 2 rank_a,
        get_inner_dim-ok b 1 (omega arith),
        get_inner_dim-ok output 2 big,
        get_inner_dim-ok output 1 (omega arith),
      )
      (by_dims _ _ _ _ m_dim n_dim)
  where
    n : ℕ
    n = length output

    m_dim : get_or a (length a - 2) 1 ≡ get_or output (n - 2) 1
    m_dim =
        sym (get_dim-inner a n 2 rank_a big)
        ∙ result_dim-m n _ (get_dim b n (n - 2)) _ (entries (n - 2) (omega arith))

    n_dim : get_or b (length b - 1) 1 ≡ get_or output (n - 1) 1
    n_dim =
        sym (get_dim-inner b n 1 (omega arith) (omega arith))
        ∙ result_dim-n n (get_dim a n (n - 1)) _ _ big (entries (n - 1) (omega arith))

    by_dims :
        (x y z w : ℕ)
        → x ≡ y
        → z ≡ w
        → (if max x 1 == max y 1 && max z 1 == max w 1 then ok (tt {0}) else error invalid_output)
          ≡ ok tt
    by_dims x y z w e f = ground arith

-- Against an input A of one dimension, the check of the output panics.
pub validate_output-vector :
    (a b output : Shape) → length a < 2 → IsResult a b output → validate_output a b output ≡ panic
unfolding validate_output get_inner_dim
validate_output-vector a b output low (same_rank, entries) =
    rw
      (
        sym same_rank,
        ==-yes (length output) (length output) refl,
        validate_outer-IsResult a b output (same_rank, entries),
        leb-no 2 (length a) low,
      )
      refl
