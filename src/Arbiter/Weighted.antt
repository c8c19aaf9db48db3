-- ===== src/Arbiter/Weighted.antt =====
-- gwr-components/src/arbiter/policy/weighted_round_robin.rs
pub mod Weights
use gwr.Base.{
  ℕ, zero, suc, ◌+◌, ◌%◌, Option, none, some, List, length, get_or, set, replicate, ◌==◌, ltb,
  if◌then◌else◌, Outcome, ok, error, wrong_length,
}
use mathlib.Core.Option
use gwr.Arbiter.{slot, Decision}

pub record WeightedRoundRobin : Type 0 where
  pub candidate : ℕ
  pub grants : List ℕ
  pub weights : List ℕ

unfoldable pub new : List ℕ → ℕ → Outcome WeightedRoundRobin
new weights num_inputs =
    if length weights == num_inputs
    then ok (record { candidate = 0; grants = replicate (length weights) 0; weights = weights })
    else error wrong_length

abbrev pub grants_of : WeightedRoundRobin → ℕ → ℕ
grants_of p i = get_or p.grants i 0

abbrev pub weight_of : WeightedRoundRobin → ℕ → ℕ
weight_of p i = get_or p.weights i 0

-- The candidate that is kept if no better one is found: the first that has a value.
abbrev pub or_first : Option ℕ → ℕ → Option ℕ
or_first none index = some index
or_first (some selected) index = some selected

-- The loop from round `i` on, with the given number of rounds left.
unfoldable pub select {ℓ} :
    {A : Type ℓ} → WeightedRoundRobin → List (Option A) → ℕ → ℕ → Option ℕ → Option ℕ
select p input_values zero i selected = selected
select p input_values (suc rounds) i selected = elim (slot input_values index) [
  | none ↦ select p input_values rounds (i + 1) selected
  | some value ↦
      if ltb (grants_of p index) (weight_of p index)
      then some index
      else select p input_values rounds (i + 1) (or_first selected index)
]
  where
    index : ℕ
    index = (i + p.candidate) % length input_values

-- A grant is counted; an input that has had all its grants starts afresh.
unfoldable pub count_grant : WeightedRoundRobin → ℕ → List ℕ
count_grant p index =
    set p.grants index
      ((if weight_of p index == grants_of p index then 0 else grants_of p index) + 1)

-- (The input that is selected has a value, which is taken and unwrapped.)
unfoldable pub arbitrate {ℓ} :
    {A : Type ℓ} → WeightedRoundRobin → List (Option A) → Decision WeightedRoundRobin A
unfolding select count_grant
arbitrate p input_values = elim (select p input_values (length input_values) 0 none) [
  | none ↦ record { policy = p; input_values = input_values; grant = none }
  | some index ↦ record {
    policy = record p {
      grants = count_grant p index;
      candidate = (index + 1) % length input_values;
    };
    input_values = set input_values index none;
    grant = Option.map (λ value. (index, value)) (slot input_values index);
  }
]
