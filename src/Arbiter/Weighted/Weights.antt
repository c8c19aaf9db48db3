-- ===== src/Arbiter/Weighted/Weights.antt =====
-- Every input of a positive weight is granted at most its weight before the count starts afresh. (Nothing
-- is said of the grants of an input whose weight is zero, which `new` does not refuse.)
use gwr.Base.{ℕ, ◌≤◌, ◌<◌, ◌≡◌, Option, none, some, List, length}
use mathlib.Core.Option
use gwr.Arbiter.{slot}
use gwr.Arbiter.Weighted.{WeightedRoundRobin, grants_of, weight_of}

pub record IsValid (p : WeightedRoundRobin) (n : ℕ) : Type 0 where
  pub weights_length : length p.weights ≡ n
  pub grants_length : length p.grants ≡ n
  pub within : (i : ℕ) → i < n → 0 < weight_of p i → grants_of p i ≤ weight_of p i

module _ {ℓ} {A : Type ℓ} (p : WeightedRoundRobin) (xs : List (Option A)) where
  -- A candidate has a value, and a round `i` that is passed over has none, or no grants left.
  abbrev pub Waits : Option ℕ → Type ℓ
  Waits none = Unit
  Waits (some index) = (index < length xs) × ((v : A) × (slot xs index ≡ some v))
