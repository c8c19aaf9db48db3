-- ===== src/Store.antt =====
-- gwr-components/src/store/mod.rs: the store behind a pair of ports, which holds values up to a
-- capacity in units, and one round of each of its two tasks.
pub mod Laws
use gwr.Base.{
  zero, suc, ◌||◌, ℕ, ◌+◌, ◌-◌, Option, none, some, List, [], ◌∷◌, ◌++◌, Bool, true, false, ◌==◌,
  ltb, leb, if◌then◌else◌, Outcome, ok, error, panic, ◌>>=◌, add_u64, sub_u64, zero_capacity,
  cannot_store, overflow,
}
use gwr.Event.{RepeatedState, new_repeated, notify_result}

pub record StoreState {ℓ} (T : Type ℓ) : Type ℓ where
  pub capacity : ℕ
  pub used : ℕ
  pub values : List T
  pub error_on_overflow : Bool
  pub level_change : RepeatedState ℕ

module _ {ℓ} {T : Type ℓ} where
  unfoldable pub new_state : ℕ → StoreState T
  new_state capacity = record {
    capacity = capacity;
    used = 0;
    values = [];
    error_on_overflow = false;
    level_change = new_repeated 0;
  }

  unfoldable pub new : ℕ → Outcome (StoreState T)
  unfolding new_state
  new capacity = if capacity == 0 then error zero_capacity else ok (new_state capacity)

  unfoldable pub has_capacity_for : StoreState T → ℕ → Outcome Bool
  has_capacity_for s units = sub_u64 s.capacity s.used >>= λ free. ok (leb units free)

  unfoldable pub check_units_can_fit : StoreState T → ℕ → Outcome (Unit {0})
  check_units_can_fit s units = if ltb s.capacity units then error cannot_store else ok tt

  -- `*used` is set, and the listeners of `level_change` are told.
  abbrev pub set_used : StoreState T → ℕ → StoreState T
  set_used s used = record s { used = used; level_change = (notify_result s.level_change used).0 }

-- The units of a value are counted by the function the store is made with.
module _ {ℓ} {T : Type ℓ} (object_to_capacity : T → ℕ) where
  unfoldable pub push_value : StoreState T → T → Outcome (StoreState T)
  unfolding has_capacity_for
  push_value s value = has_capacity_for s (object_to_capacity value) >>= λ fits.
      if fits
      then (add_u64 s.used (object_to_capacity value) >>= λ used.
          ok (set_used (record s { values = s.values ++ value ∷ [] }) used))
      else if s.error_on_overflow
      then error overflow
      else panic

  unfoldable pub pop_value : StoreState T → Outcome (StoreState T × T)
  pop_value s = elim s.values [
    | [] ↦ Outcome.panic
    | value ∷ values ↦ sub_u64 s.used (object_to_capacity value) >>= λ used.
        ok (set_used (record s { values = values }) used, value)
  ]

  -- A round of `run_rx` with a value that `start_get` gave: the store that has taken it, or nothing
  -- while the task waits for a change of the level.
  unfoldable pub offer : StoreState T → T → Outcome (Option (StoreState T))
  unfolding check_units_can_fit has_capacity_for push_value
  offer s value = check_units_can_fit s (object_to_capacity value) >>= λ _.
      has_capacity_for s (object_to_capacity value) >>= λ fits.
      if fits || s.error_on_overflow then (push_value s value >>= λ s'. ok (some s')) else ok none

  -- A round of `run_tx`, when the port is ready to put: the value that is put, or nothing while the
  -- task waits for a change of the level.
  unfoldable pub forward : StoreState T → Outcome (Option (StoreState T × T))
  unfolding pop_value
  forward s = elim s.values [
    | [] ↦ ok none
    | value ∷ values ↦ pop_value s >>= λ popped. ok (some popped)
  ]
