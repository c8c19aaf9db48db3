-- ===== src/Operators/Add/Broadcast.antt =====
-- The shapes that the operator derives are those that its check accepts.
use gwr.Base.{
  ℕ, zero, suc, ◌+◌, max, ◌≤◌, ◌<◌, ◌≡◌, ◌⊎◌, inl, inr, refl, sym, ap, ◌∙◌, Option, none, some,
  List, [], ◌∷◌, length, get_or, Bool, true, false, ◌==◌, ◌&&◌, ltb, if◌then◌else◌, Bool-cases,
  arith, Outcome, ok, error, panic, ◌>>=◌,
}
use mathlib.Core.Path.{fun_ext, subst}
use gwr.Tensor.{Shape, num_dims, get_dim, Tensor}
use gwr.Operators.{broadcast_dim, output_of, each_dim, validate_outputs}
use gwr.Operators.EachDim.{each_dim-ok, get_dim-full, get_dim-cons_one, same_dims_refl}
use gwr.Operators.Add.{
  broadcast_shapes, shrink_dims, drop_outer, choose_input_shape, validate_inputs,
  validate_input_outputs, create_outputs, create_inputs, validate_tensors,
}

broadcast_dim_comm : (a b : ℕ) → broadcast_dim a b ≡ broadcast_dim b a
broadcast_dim_comm a b = ground arith

-- The order of the inputs does not matter, to the result as to the error.
pub broadcast_shapes_comm : (a b : Shape) → broadcast_shapes a b ≡ broadcast_shapes b a
unfolding broadcast_shapes
broadcast_shapes_comm a b = rw (max_comm (num_dims a) (num_dims b)) (
    ap (λ f. each_dim f 0 (max (num_dims b) (num_dims a)))
      (fun_ext (λ i.
        broadcast_dim_comm (get_dim a (max (num_dims b) (num_dims a)) i)
          (get_dim b (max (num_dims b) (num_dims a)) i))))
  where
    max_comm : (m n : ℕ) → max m n ≡ max n m
    max_comm m n = omega arith

-- `small` is of no higher rank than `dims`, and its entries are those of `dims` or 1.
pub record Broadcasts (small dims : Shape) : Type 0 where
  pub rank_le : length small ≤ length dims
  pub entry :
      (i : ℕ)
      → i < length dims
      → (get_dim small (length dims) i ≡ get_or dims i 1) ⊎ (get_dim small (length dims) i ≡ 1)

pub broadcast_shapes-Broadcasts :
    (small dims : Shape) → Broadcasts small dims → broadcast_shapes small dims ≡ ok dims
unfolding broadcast_shapes
broadcast_shapes-Broadcasts small dims b =
    rw (greater (length small) (length dims) b.rank_le)
      (each_dim-ok _ dims (λ i h. rw (get_dim-full dims i h) (by_entry _ _ (b.entry i h))))
  where
    greater : (m n : ℕ) → m ≤ n → max m n ≡ n
    greater m n h = omega arith

    by_entry : (s d : ℕ) → (s ≡ d) ⊎ (s ≡ 1) → broadcast_dim s d ≡ ok d
    by_entry s d (inl e) = ground arith
    by_entry s d (inr e) = ground arith

-- Entry by entry, a shape or 1.
abbrev Shrunk : Shape → Shape → Type 0
Shrunk [] [] = Unit {0}
Shrunk [] (d ∷ dims) = ⊥
Shrunk (c ∷ cs) [] = ⊥
Shrunk (c ∷ cs) (d ∷ dims) = ((c ≡ d) ⊎ (c ≡ 1)) × Shrunk cs dims

shrink_dims-Shrunk :
    (draws : ℕ → Bool) (n : ℕ) (dims : Shape) → Shrunk (shrink_dims draws n dims).0 dims
unfolding shrink_dims
shrink_dims-Shrunk draws n [] = tt
shrink_dims-Shrunk draws n (d ∷ dims) = elim (Bool-cases (ltb 1 d)) [
  | inl large ↦ rw large (by_draw (draws n), shrink_dims-Shrunk draws (n + 1) dims)
  | inr unit ↦ rw unit (inl refl, shrink_dims-Shrunk draws n dims)
]
  where
    by_draw : (b : Bool) → ((if b then 1 else d) ≡ d) ⊎ ((if b then 1 else d) ≡ 1)
    by_draw true = inr refl
    by_draw false = inl refl

Shrunk-entry :
    (cs dims : Shape) (i : ℕ)
    → Shrunk cs dims
    → (get_or cs i 1 ≡ get_or dims i 1) ⊎ (get_or cs i 1 ≡ 1)
Shrunk-entry [] [] i h = inl refl
Shrunk-entry [] (d ∷ dims) i h = absurd h
Shrunk-entry (c ∷ cs) [] i h = absurd h
Shrunk-entry (c ∷ cs) (d ∷ dims) zero h = h.0
Shrunk-entry (c ∷ cs) (d ∷ dims) (suc i) h = Shrunk-entry cs dims i h.1

length-Shrunk : (cs dims : Shape) → Shrunk cs dims → length cs ≡ length dims
length-Shrunk [] [] h = refl
length-Shrunk [] (d ∷ dims) h = absurd h
length-Shrunk (c ∷ cs) [] h = absurd h
length-Shrunk (c ∷ cs) (d ∷ dims) h = ap suc (length-Shrunk cs dims h.1)

drop_outer-keeps :
    (draws : ℕ → Bool) (n : ℕ) (dims : Shape)
    → (length (drop_outer draws n dims) ≤ length dims)
      × ((rank i : ℕ)
          → length dims ≤ rank
          → i < rank
          → get_dim (drop_outer draws n dims) rank i ≡ get_dim dims rank i)
unfolding drop_outer
drop_outer-keeps draws n [] = (omega arith, λ rank i h k. refl)
drop_outer-keeps draws n (d ∷ []) = (omega arith, λ rank i h k. refl)
drop_outer-keeps draws n (d ∷ e ∷ dims) = elim (Bool-cases (d == 1 && draws n)) [
  | inl dropped ↦ rw dropped (
    omega (arith, (drop_outer-keeps draws (n + 1) (e ∷ dims)).0),
    λ rank i h k.
        (drop_outer-keeps draws (n + 1) (e ∷ dims)).1 rank i (omega arith) k
        ∙ sym (get_dim-cons_one (e ∷ dims) rank i (omega arith) k)
        ∙ ap (λ c. get_dim (c ∷ e ∷ dims) rank i) (sym (one d (draws n) dropped)),
  )
  | inr kept ↦ rw kept (omega arith, λ rank i h k. refl)
]
  where
    one : (d : ℕ) (b : Bool) → (d == 1 && b) ≡ true → d ≡ 1
    one d b h = ground arith

-- Whatever is drawn, the chosen shape broadcasts to the output's.
choose_input_shape-Broadcasts :
    (draws : ℕ → Bool) (n : ℕ) (dims : Shape) → Broadcasts (choose_input_shape draws n dims) dims
unfolding choose_input_shape
choose_input_shape-Broadcasts draws n dims = record {
  rank_le = omega (arith, same_length, kept.0);
  entry = λ i h.
      rw (kept.1 (length dims) i (omega (arith, same_length)) h, full i h)
        (Shrunk-entry shrunk dims i chosen);
}
  where
    shrunk : Shape
    shrunk = (shrink_dims draws n dims).0

    chosen : Shrunk shrunk dims
    chosen = shrink_dims-Shrunk draws n dims

    same_length : length shrunk ≡ length dims
    same_length = length-Shrunk shrunk dims chosen

    kept :
        (length (drop_outer draws (shrink_dims draws n dims).1 shrunk) ≤ length shrunk)
        × ((rank i : ℕ)
            → length shrunk ≤ rank
            → i < rank
            → get_dim (drop_outer draws (shrink_dims draws n dims).1 shrunk) rank i
              ≡ get_dim shrunk rank i)
    kept = drop_outer-keeps draws (shrink_dims draws n dims).1 shrunk

    full : (i : ℕ) → i < length dims → get_dim shrunk (length dims) i ≡ get_or shrunk i 1
    full i h = rw (sym same_length) (get_dim-full shrunk i (omega (arith, same_length)))

-- Two shapes that agree with a third on what they broadcast to pass the check.
validate_tensors-ok :
    (a b output : Tensor)
    → broadcast_shapes a.shape b.shape ≡ ok output.shape
    → validate_tensors (some a ∷ some b ∷ []) (some output ∷ []) ≡ ok tt
unfolding validate_tensors validate_input_outputs validate_inputs validate_outputs
validate_tensors-ok a b output h = rw (h, same_dims_refl output.shape) refl

-- The inputs that are made for an output, whatever is drawn, pass the check against it.
pub create_inputs-validate :
    (draws : ℕ → Bool) (output : Tensor)
    → (create_inputs draws (some output ∷ []) >>= λ inputs.
        validate_tensors inputs (some output ∷ []))
      ≡ ok tt
unfolding create_inputs validate_outputs
create_inputs-validate draws output = elim (Bool-cases (draws 0)) [
  | inl first ↦ rw first (validate_tensors-ok _ _ output chosen)
  | inr second ↦
      rw second (validate_tensors-ok _ _ output (broadcast_shapes_comm output.shape _ ∙ chosen))
]
  where
    chosen :
        broadcast_shapes (choose_input_shape draws 1 output.shape) output.shape ≡ ok output.shape
    chosen =
        broadcast_shapes-Broadcasts _ output.shape
          (choose_input_shape-Broadcasts draws 1 output.shape)

module _ (a b : Tensor) where
  create_outputs-ok :
      (output_shape : Shape)
      → broadcast_shapes a.shape b.shape ≡ ok output_shape
      → create_outputs (some a ∷ some b ∷ []) ≡ ok (some (output_of a b output_shape) ∷ [])
  unfolding create_outputs validate_inputs
  create_outputs-ok output_shape h = rw h refl

  create_outputs-two :
      (o : Outcome Shape) (outputs : List (Option Tensor))
      → broadcast_shapes a.shape b.shape ≡ o
      → create_outputs (some a ∷ some b ∷ []) ≡ ok outputs
      → validate_tensors (some a ∷ some b ∷ []) outputs ≡ ok tt
  unfolding create_outputs validate_inputs
  create_outputs-two (ok output_shape) outputs e h =
      subst (λ outs. validate_tensors (some a ∷ some b ∷ []) outs ≡ ok tt)
        (inner (sym (create_outputs-ok output_shape e) ∙ h)) (validate_tensors-ok a b _ e)
    where
      inner :
          {x y : List (Option Tensor)}
          → ◌≡◌ {A = Outcome (List (Option Tensor))} (ok x) (ok y)
          → x ≡ y
      inner p = cc
  create_outputs-two (error x) outputs e h = ground arith
  create_outputs-two panic outputs e h = ground arith

-- The outputs that are made for inputs pass the check against them.
pub create_outputs-validate :
    (inputs outputs : List (Option Tensor))
    → create_outputs inputs ≡ ok outputs
    → validate_tensors inputs outputs ≡ ok tt
unfolding create_outputs validate_inputs
create_outputs-validate (some a ∷ some b ∷ []) outputs h =
    create_outputs-two a b (broadcast_shapes a.shape b.shape) outputs refl h
create_outputs-validate [] outputs h = cc
create_outputs-validate (a ∷ []) outputs h = cc
create_outputs-validate (none ∷ b ∷ []) outputs h = cc
create_outputs-validate (some a ∷ none ∷ []) outputs h = cc
create_outputs-validate (a ∷ b ∷ c ∷ more) outputs h = cc
