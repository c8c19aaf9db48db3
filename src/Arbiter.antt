-- ===== src/Arbiter.antt =====
-- gwr-components/src/arbiter: the trait `Arbitrate`, as an interface with the law that the arbiter
-- relies on, and the decisions of a policy over a sequence of calls.
pub mod Priority
pub mod RoundRobin
pub mod Weighted
use gwr.Base.{
  ℕ, ◌<◌, ◌≡◌, Option, none, some, List, [], ◌∷◌, length, get_or, set, Bool, true, false, ◌==◌,
  ◌||◌,
}

-- `input_values[i]`
abbrev pub slot {ℓ} : {A : Type ℓ} → List (Option A) → ℕ → Option A
slot xs i = get_or xs i none

-- What a call of `arbitrate` leaves: the policy, the input values, and the grant that it returns.
pub record Decision {ℓ κ} (S : Type ℓ) (A : Type κ) : Type (ℓ ⊔ κ) where
  pub policy : S
  pub input_values : List (Option A)
  pub grant : Option (ℕ × A)

-- A call that grants nothing had nothing to grant, and changes no input. A grant is a value that
-- was waiting, and it is taken out of its input and out of no other.
pub record Grants {ℓ κ} {S : Type ℓ} {A : Type κ} (xs : List (Option A)) (d : Decision S A)
    : Type κ where
  pub waits : d.grant ≡ none → ((i : ℕ) → slot xs i ≡ none) × (d.input_values ≡ xs)
  pub serves :
      (i : ℕ) (v : A)
      → d.grant ≡ some (i, v)
      → (i < length xs) × (slot xs i ≡ some v) × (d.input_values ≡ set xs i none)

abbrev pub granted {ℓ} : {A : Type ℓ} → ℕ → Option (ℕ × A) → Bool
granted i none = false
granted i (some (j, v)) = j == i

-- Whether input `i` is served by one of the calls that see the given input values in turn.
pub served {ℓ κ} :
    {S : Type ℓ} {A : Type κ}
    → (S → List (Option A) → Decision S A)
    → S
    → List (List (Option A))
    → ℕ
    → Bool
served arbitrate p [] i = false
served arbitrate p (xs ∷ rest) i =
    granted i (arbitrate p xs).grant || served arbitrate (arbitrate p xs).policy rest i
