-- ===== src/Operators/Gemm/Inputs.antt =====
-- The inputs that the operator makes for an output pass its check against it.
use gwr.Base.{
  ℕ, ◌-◌, max, ◌≤◌, ◌<◌, ◌≡◌, refl, sym, ap₂, ◌∙◌, none, some, [], ◌∷◌, length, get_or, set, Bool,
  true, false, ◌==◌, ◌&&◌, ◌||◌, not, ltb, if◌then◌else◌, Bool-cases, inl, inr, arith, ok, error,
  ◌>>=◌, ltb-no, ==-yes, length-set, get_or-set_self, get_or-set_ne, incompatible_shapes,
}
use gwr.Tensor.{Shape, num_dims, get_dim, Tensor, DataType}
use gwr.Operators.{each_dim, output_of, validate_outputs, broadcast_dim}
use gwr.Operators.EachDim.{each_dim-ok, get_dim-full}
use gwr.Operators.Gemm.{
  get_inner_dim, choose_gemm_k, result_dim, broadcast_shapes, validate_input_c, validate_output,
  validate_inputs, input_at, tensor_shape, output_tensor_from_inputs, maybe_add_input_c,
  create_inputs, validate_tensors,
}
use gwr.Operators.Gemm.Checks.{
  inner, get_inner_dim-ok, broadcast_shapes-IsResult, validate_output-ok,
}
use gwr.Operators.Gemm.Shapes.{validate_tensors-output}

module _ (s : Shape) (k : ℕ) (big : 2 ≤ length s) where
  -- The shapes of inputs A and B.
  shape_a : Shape
  shape_a = set s (length s - 1) k

  shape_b : Shape
  shape_b = set s (length s - 2) k

  entry :
      (j : ℕ)
      → j < length s
      → result_dim (length s) j (get_or shape_a j 1) (get_or shape_b j 1) ≡ ok (get_or s j 1)
  unfolding shape_a shape_b
  entry j h = elim (Bool-cases (j == length s - 2)) [
    | inl m ↦ rw (m, get_or-set_ne s (length s - 1) j k 1 (ground arith)) refl
    | inr not_m ↦
        rw (not_m, get_or-set_ne s (length s - 2) j k 1 (ground arith))
          (elim (Bool-cases (j == length s - 1)) [
            | inl last ↦ rw last refl
            | inr outer ↦
                rw (outer, get_or-set_ne s (length s - 1) j k 1 (ground arith))
                  (same (get_or s j 1))
          ])
  ]
    where
      same : (d : ℕ) → broadcast_dim d d ≡ ok d
      same d = ground arith

  length-a : length shape_a ≡ length s
  unfolding shape_a
  length-a = length-set s (length s - 1) k

  length-b : length shape_b ≡ length s
  unfolding shape_b
  length-b = length-set s (length s - 2) k

  shapes_broadcast : broadcast_shapes shape_a shape_b ≡ ok s
  unfolding broadcast_shapes
  shapes_broadcast =
      at_rank (max (num_dims shape_a) (num_dims shape_b)) (omega (arith, length-a, length-b))
    where
      full :
          (dims : Shape)
          → length dims ≡ length s
          → (j : ℕ) → j < length s
          → get_dim dims (length s) j ≡ get_or dims j 1
      full dims e j h = rw (sym e) (get_dim-full dims j (omega arith))

      at_rank :
          (rank : ℕ)
          → rank ≡ length s
          → (if ltb rank 2
              then error incompatible_shapes
              else each_dim
                  (λ i. result_dim rank i (get_dim shape_a rank i) (get_dim shape_b rank i))
                  0
                  rank)
            ≡ ok s
      at_rank rank e =
          rw (e, ltb-no (length s) 2 big)
            (each_dim-ok
              (λ i.
                result_dim (length s) i (get_dim shape_a (length s) i)
                  (get_dim shape_b (length s) i))
              s
              λ j h.
                ap₂ (result_dim (length s) j) (full shape_a length-a j h)
                  (full shape_b length-b j h)
                ∙ entry j h)

  inner_a : get_inner_dim shape_a 1 ≡ ok (max k 1)
  unfolding shape_a
  inner_a =
      get_inner_dim-ok shape_a 1 (omega (arith, length-a))
      ∙ rw (length-a, get_or-set_self s (length s - 1) k 1 (omega arith)) refl

  inner_b : get_inner_dim shape_b 2 ≡ ok (max k 1)
  unfolding shape_b
  inner_b =
      get_inner_dim-ok shape_b 2 (omega (arith, length-b))
      ∙ rw (length-b, get_or-set_self s (length s - 2) k 1 (omega arith)) refl

  third_ok : validate_input_c s s ≡ ok tt
  unfolding validate_input_c
  third_ok =
      rw (get_inner_dim-ok s 2 big, get_inner_dim-ok s 1 (omega arith))
        (agrees (inner s 2) (inner s 1))
    where
      absent :
          (b c : Bool)
          → (if not b && not true || not c && not true
              then error incompatible_shapes
              else ok (tt {0}))
            ≡ ok tt
      absent true true = refl
      absent true false = refl
      absent false true = refl
      absent false false = refl

      agrees :
          (m n : ℕ)
          → (if not (m == 1) && not (m == m) || not (n == 1) && not (n == n)
              then error incompatible_shapes
              else ok (tt {0}))
            ≡ ok tt
      agrees m n = rw (==-yes m m refl, ==-yes n n refl) (absent (m == 1) (n == 1))

  module _ (dtype : DataType) where
    input_a : Tensor
    input_a = record { id = none; dtype = dtype; shape = shape_a; addr = 0 }

    input_b : Tensor
    input_b = record { id = none; dtype = dtype; shape = shape_b; addr = 0 }

    pair_ok :
        validate_inputs tensor_shape (some input_a ∷ some input_b ∷ []) ≡ ok (input_a, input_b)
    unfolding validate_inputs input_at input_a input_b
    pair_ok = rw (shapes_broadcast, inner_a, inner_b, ==-yes (max k 1) (max k 1) refl) refl

    triple_ok :
        (c : Tensor)
        → c.shape ≡ s
        → validate_inputs tensor_shape (some input_a ∷ some input_b ∷ some c ∷ [])
          ≡ ok (input_a, input_b)
    unfolding validate_inputs input_at input_a input_b
    triple_ok c e =
        rw (shapes_broadcast, inner_a, inner_b, ==-yes (max k 1) (max k 1) refl, e, third_ok) refl

    output_checked : validate_output shape_a shape_b s ≡ ok tt
    output_checked =
        let (rank, result) = broadcast_shapes-IsResult shape_a shape_b s shapes_broadcast in
        validate_output-ok shape_a shape_b s (omega (arith, length-a)) (omega (arith, length-b))
          rank result

    third_made :
        output_tensor_from_inputs (some input_a ∷ some input_b ∷ [])
        ≡ ok (output_of input_a input_b s)
    unfolding output_tensor_from_inputs input_a input_b
    third_made = rw (pair_ok, shapes_broadcast) refl

module _ (pick : ℕ → ℕ) (output : Tensor) (big : 2 ≤ length output.shape) where
  k_of : ℕ
  k_of = pick (max (inner output.shape 2) (inner output.shape 1))

  made_a : Tensor
  unfolding input_a
  made_a = input_a output.shape k_of big output.dtype

  made_b : Tensor
  unfolding input_b
  made_b = input_b output.shape k_of big output.dtype

  create_inputs-two :
      create_inputs pick false (some output ∷ []) ≡ ok (some made_a ∷ some made_b ∷ [])
  unfolding create_inputs choose_gemm_k maybe_add_input_c validate_outputs made_a made_b shape_a
      shape_b k_of
  create_inputs-two =
      rw (get_inner_dim-ok output.shape 2 big, get_inner_dim-ok output.shape 1 (omega arith)) refl

  create_inputs-three :
      create_inputs pick true (some output ∷ [])
      ≡ ok (some made_a ∷ some made_b ∷ some (output_of made_a made_b output.shape) ∷ [])
  unfolding create_inputs choose_gemm_k maybe_add_input_c validate_outputs made_a made_b shape_a
      shape_b k_of
  create_inputs-three =
      rw (get_inner_dim-ok output.shape 2 big, get_inner_dim-ok output.shape 1 (omega arith), third)
        refl
    where
      third :
          output_tensor_from_inputs (some made_a ∷ some made_b ∷ [])
          ≡ ok (output_of made_a made_b output.shape)
      third = third_made output.shape k_of big output.dtype

  -- The inputs that are made for an output of two dimensions or more, whatever K is picked and whether
  -- or not a third input is added, pass the check against it.
  pub create_inputs-validate_tensors :
      (add_c : Bool)
      → (create_inputs pick add_c (some output ∷ []) >>= λ inputs.
          validate_tensors inputs (some output ∷ []))
        ≡ ok tt
  unfolding made_a made_b
  create_inputs-validate_tensors false = rw create_inputs-two (
      validate_tensors-output _ made_a made_b output (pair_ok output.shape k_of big output.dtype)
      ∙ unfold input_a input_b in output_checked output.shape k_of big output.dtype)
  create_inputs-validate_tensors true = rw create_inputs-three (
      validate_tensors-output _ made_a made_b output
        (triple_ok output.shape k_of big output.dtype (output_of made_a made_b output.shape) refl)
      ∙ unfold input_a input_b in output_checked output.shape k_of big output.dtype)
