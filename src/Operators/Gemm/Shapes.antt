-- ===== src/Operators/Gemm/Shapes.antt =====
-- The shapes that the operator derives are those that its check accepts.
use gwr.Base.{
  ℕ, ◌≤◌, ◌<◌, ◌≡◌, refl, sym, ap, ◌∙◌, Option, some, List, [], ◌∷◌, length, ◌==◌, if◌then◌else◌,
  arith, Outcome, ok, error, panic, ◌>>=◌, returned, ok_injective, incompatible_shapes, drop,
}
use mathlib.Core.Path.{subst}
use gwr.Tensor.{Shape, Tensor}
use gwr.Operators.{output_of, validate_outputs}
use gwr.Operators.Gemm.{
  get_inner_dim, broadcast_shapes, validate_output, validate_inputs, validate_third, input_at,
  validate_input_outputs, tensor_shape, output_tensor_from_inputs, create_outputs, validate_tensors,
}
use gwr.Operators.Gemm.Checks.{
  broadcast_shapes-IsResult, validate_output-ok, validate_output-vector,
}

get_inner_dim-le : (dims : Shape) (i : ℕ) {k : ℕ} → get_inner_dim dims i ≡ ok k → i ≤ length dims
unfolding get_inner_dim
get_inner_dim-le dims i h = ground arith

-- A successful check has taken input A, and has found input B to be of matrices.
validate_inputs-inv :
    (inputs : List (Option Tensor)) (a b : Tensor)
    → validate_inputs tensor_shape inputs ≡ ok (a, b)
    → (input_at inputs 0 ≡ ok a) × (2 ≤ length b.shape)
unfolding validate_inputs
validate_inputs-inv inputs a b h =
    let (a', at_a, h₁) = returned (input_at inputs 0) _ h in
    let (b', _, h₂) = returned (input_at inputs 1) _ h₁ in
    let (s, _, h₃) = returned (broadcast_shapes a'.shape b'.shape) _ h₂ in
    let (k_a, _, h₄) = returned (get_inner_dim a'.shape 1) _ h₃ in
    let (k_b, inner_b, h₅) = returned (get_inner_dim b'.shape 2) _ h₄ in
    let (_, _, made) =
      returned
        (if k_a == k_b
          then validate_third tensor_shape s (drop 2 inputs)
          else error incompatible_shapes)
        _ h₅ in
    let same : (a', b') ≡ (a, b) = ok_injective made in
    (
      at_a ∙ ap (λ (p : Tensor × Tensor). ok p.0) same,
      subst (λ (p : Tensor × Tensor). 2 ≤ length p.1.shape) same
          (get_inner_dim-le b'.shape 2 inner_b),
    )

create_outputs-inv :
    (inputs outputs : List (Option Tensor))
    → create_outputs inputs ≡ ok outputs
    → (a : Tensor) × (b : Tensor) × (s : Shape) × (validate_inputs tensor_shape inputs ≡ ok (a, b))
      × (broadcast_shapes a.shape b.shape ≡ ok s)
      × (outputs ≡ some (output_of a b s) ∷ [])
unfolding create_outputs output_tensor_from_inputs
create_outputs-inv inputs outputs h =
    let (output, made, e) = returned (output_tensor_from_inputs inputs) _ h in
    let ((a, b), checked, more) = returned (validate_inputs tensor_shape inputs) _ made in
    let (s, shaped, f) = returned (broadcast_shapes a.shape b.shape) _ more in
    (a, b, s, checked, shaped, sym (ok_injective e) ∙ ap (λ o. some o ∷ []) (sym (ok_injective f)))

pub validate_tensors-output :
    (inputs : List (Option Tensor)) (a b output : Tensor)
    → validate_inputs tensor_shape inputs ≡ ok (a, b)
    → validate_tensors inputs (some output ∷ []) ≡ validate_output a.shape b.shape output.shape
unfolding validate_tensors validate_input_outputs validate_outputs
validate_tensors-output inputs a b output h =
    rw h (bind_ok (validate_output a.shape b.shape output.shape))
  where
    bind_ok :
        (o : Outcome (Unit {0}))
        → ((o >>= λ (checked : Unit {0}). ok (a, b, output))
            >>= λ (operands : Tensor × Tensor × Tensor). ok (tt {0}))
          ≡ o
    bind_ok (ok tt) = refl
    bind_ok (error e) = refl
    bind_ok panic = refl

module _ (inputs outputs : List (Option Tensor)) (input_a : Tensor)
    (at_a : input_at inputs 0 ≡ ok input_a) (made : create_outputs inputs ≡ ok outputs) where
  -- The outputs that are made for inputs, of which input A has two dimensions or more, pass the check
  -- against them.
  pub create_outputs-validate_tensors :
      2 ≤ length input_a.shape → validate_tensors inputs outputs ≡ ok tt
  create_outputs-validate_tensors rank_a =
      let (a, b, s, checked, shaped, e) = create_outputs-inv inputs outputs made in
      let (at_a', rank_b) = validate_inputs-inv inputs a b checked in
      let (big, result) = broadcast_shapes-IsResult a.shape b.shape s shaped in
      let same : input_a ≡ a = ok_injective (sym at_a ∙ at_a') in
      rw e (
        validate_tensors-output inputs a b (output_of a b s) checked
        ∙ validate_output-ok a.shape b.shape s
            (subst (λ (t : Tensor). 2 ≤ length t.shape) same rank_a) rank_b big result)

  -- The check of the outputs that are made for inputs panics, where input A has one dimension.
  pub create_outputs-vector : length input_a.shape < 2 → validate_tensors inputs outputs ≡ panic
  create_outputs-vector low =
      let (a, b, s, checked, shaped, e) = create_outputs-inv inputs outputs made in
      let (at_a', rank_b) = validate_inputs-inv inputs a b checked in
      let (big, result) = broadcast_shapes-IsResult a.shape b.shape s shaped in
      let same : input_a ≡ a = ok_injective (sym at_a ∙ at_a') in
      rw e (
        validate_tensors-output inputs a b (output_of a b s) checked
        ∙ validate_output-vector a.shape b.shape s
            (subst (λ (t : Tensor). length t.shape < 2) same low) result)
