-- ===== src/Operators/EachDim.antt =====
-- What the loops over the dimensions of a result compute, dimension by dimension.
use gwr.Base.{
  ℕ, zero, suc, ◌+◌, ◌-◌, ◌≤◌, ◌<◌, ◌≡◌, refl, sym, ap, ◌∙◌, [], ◌∷◌, length, get_or, true, false,
  leb, if◌then◌else◌, leb-yes, Bool-cases, inl, inr, arith, Outcome, ok, ==-yes,
}
use gwr.Base.{returned, ok_injective}
use gwr.Tensor.{Shape, get_dim, same_dims}
use gwr.Operators.{each_dim}

each_dim-from :
    (f : ℕ → Outcome ℕ) (i : ℕ) (dims : Shape)
    → ((j : ℕ) → j < length dims → f (i + j) ≡ ok (get_or dims j 1))
    → each_dim f i (length dims) ≡ ok dims
unfolding each_dim
each_dim-from f i [] h = refl
each_dim-from f i (d ∷ dims) h =
    rw (here, each_dim-from f (i + 1) dims (λ j k. rw (shifted j) (h (suc j) (omega arith)))) refl
  where
    here : f i ≡ ok d
    here = rw (sym (at_start i)) (h 0 (omega arith))
      where
        at_start : (i : ℕ) → i + 0 ≡ i
        at_start i = omega arith

    shifted : (j : ℕ) → i + 1 + j ≡ i + suc j
    shifted j = omega arith

-- A loop that computes the entries of a shape returns the shape.
pub each_dim-ok :
    (f : ℕ → Outcome ℕ) (dims : Shape)
    → ((j : ℕ) → j < length dims → f j ≡ ok (get_or dims j 1))
    → each_dim f 0 (length dims) ≡ ok dims
each_dim-ok f dims h = each_dim-from f 0 dims (λ j k. rw (zero_add j) (h j k))
  where
    zero_add : (j : ℕ) → 0 + j ≡ j
    zero_add j = omega arith

each_dim-back :
    (f : ℕ → Outcome ℕ) (i rounds : ℕ) (dims : Shape)
    → each_dim f i rounds ≡ ok dims
    → (length dims ≡ rounds) × ((j : ℕ) → j < rounds → f (i + j) ≡ ok (get_or dims j 1))
unfolding each_dim
each_dim-back f i zero dims h = (ap length (sym (ok_injective h)), λ j k. absurd (omega arith))
each_dim-back f i (suc rounds) dims h =
    let (d, here, rest) = returned (f i) _ h in
    let (ds, more, made) = returned (each_dim f (i + 1) rounds) _ rest in
    let (same_length, entries) = each_dim-back f (i + 1) rounds ds more in
    let built : d ∷ ds ≡ dims = ok_injective made in
    (
      ap length (sym built) ∙ ap suc same_length,
      λ j k. entry d ds here entries j k ∙ ap (λ e. ok (get_or e j 1)) built,
    )
  where
    at_start : (i : ℕ) → i + 0 ≡ i
    at_start i = omega arith

    shifted : (j : ℕ) → i + 1 + j ≡ i + suc j
    shifted j = omega arith

    entry :
        (d : ℕ) (ds : Shape)
        → f i ≡ ok d
        → ((j : ℕ) → j < rounds → f (i + 1 + j) ≡ ok (get_or ds j 1))
        → (j : ℕ) → j < suc rounds
        → f (i + j) ≡ ok (get_or (d ∷ ds) j 1)
    entry d ds here entries zero k = ap f (at_start i) ∙ here
    entry d ds here entries (suc j) k = ap f (sym (shifted j)) ∙ entries j (omega arith)

-- A loop that returns has computed the entries of the result.
pub each_dim-entries :
    (f : ℕ → Outcome ℕ) (rounds : ℕ) (dims : Shape)
    → each_dim f 0 rounds ≡ ok dims
    → (length dims ≡ rounds) × ((j : ℕ) → j < rounds → f j ≡ ok (get_or dims j 1))
each_dim-entries f rounds dims h =
    let (same_length, entries) = each_dim-back f 0 rounds dims h in
    (same_length, λ j k. ap f (sym (zero_add j)) ∙ entries j k)
  where
    zero_add : (j : ℕ) → 0 + j ≡ j
    zero_add j = omega arith

-- Of a shape of full rank, `get_dim` reads the entry.
pub get_dim-full :
    (dims : Shape) (i : ℕ) → i < length dims → get_dim dims (length dims) i ≡ get_or dims i 1
unfolding get_dim
get_dim-full dims i h =
    rw (leb-yes (length dims - i) (length dims) (omega arith), back (length dims) i h) refl
  where
    back : (n i : ℕ) → i < n → n - (n - i) ≡ i
    back n i h = omega arith

-- A dimension that the shape has, counted from the innermost.
pub get_dim-inner :
    (dims : Shape) (n i : ℕ)
    → i ≤ length dims
    → i ≤ n
    → get_dim dims n (n - i) ≡ get_or dims (length dims - i) 1
unfolding get_dim
get_dim-inner dims n i h k = rw (back n i k, leb-yes i (length dims) h) refl
  where
    back : (n i : ℕ) → i ≤ n → n - (n - i) ≡ i
    back n i h = omega arith

-- An outermost dimension of one entry may be left out.
pub get_dim-cons_one :
    (dims : Shape) (rank i : ℕ)
    → length dims < rank
    → i < rank
    → get_dim (1 ∷ dims) rank i ≡ get_dim dims rank i
unfolding get_dim
get_dim-cons_one dims rank i h k = by_place (rank - i) (omega arith)
  where
    by_place :
        (m : ℕ)
        → 0 < m
        → (if leb m (suc (length dims)) then get_or (1 ∷ dims) (suc (length dims) - m) 1 else 1)
          ≡ (if leb m (length dims) then get_or dims (length dims - m) 1 else 1)
    by_place m p = elim (Bool-cases (leb m (length dims))) [
      | inl inside ↦
          rw (inside, leb-yes m (suc (length dims)) (ground arith), one_less (length dims) m inside)
            refl
      | inr outside ↦ rw outside (elim (Bool-cases (leb m (suc (length dims)))) [
        | inl new ↦ rw (new, no_less (length dims) m outside) refl
        | inr padding ↦ rw padding refl
      ])
    ]
      where
        one_less : (n m : ℕ) → leb m n ≡ true → suc n - m ≡ suc (n - m)
        one_less n m h = ground arith

        no_less : (n m : ℕ) → leb m n ≡ false → suc n - m ≡ 0
        no_less n m h = ground arith

pub same_dims_refl : (dims : Shape) → same_dims dims dims ≡ true
unfolding same_dims
same_dims_refl [] = refl
same_dims_refl (d ∷ dims) = rw (==-yes d d refl) (same_dims_refl dims)
