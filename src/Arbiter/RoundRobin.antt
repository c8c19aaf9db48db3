-- ===== src/Arbiter/RoundRobin.antt =====
-- gwr-components/src/arbiter/policy/round_robin.rs
pub mod Grant
pub mod Fair
use gwr.Base.{ℕ, ◌+◌, ◌%◌, ◌≡◌, Option, none, some, List, length, set, find_first}
use gwr.Arbiter.{slot, Decision}

pub record RoundRobin : Type 0 where
  pub candidate : ℕ

pub new : RoundRobin
new = record { candidate = 0 }

-- The input that the loop looks at in round `i`.
abbrev pub looks_at {ℓ} : {A : Type ℓ} → RoundRobin → List (Option A) → ℕ → ℕ
looks_at p input_values i = (i + p.candidate) % length input_values

unfoldable pub arbitrate {ℓ} : {A : Type ℓ} → RoundRobin → List (Option A) → Decision RoundRobin A
arbitrate p input_values =
    elim (find_first num_inputs 0 (λ i. slot input_values (looks_at p input_values i))) [
      | none ↦ record { policy = p; input_values = input_values; grant = none }
      | some (i, value) ↦ record {
        policy = record { candidate = (looks_at p input_values i + 1) % num_inputs };
        input_values = set input_values (looks_at p input_values i) none;
        grant = some (looks_at p input_values i, value);
      }
    ]
  where
    num_inputs : ℕ
    num_inputs = length input_values
