-- ===== src/Queue.antt =====
-- gwr-components/src/queue.rs: `QueueCore`, a queue with an optional capacity.
pub mod Laws
use gwr.Base.{
  zero, suc, ◌||◌, ℕ, ◌+◌, Option, none, some, List, [], ◌∷◌, ◌++◌, length, get_elem?, remove_at,
  position, Bool, true, false, ◌==◌, leb, if◌then◌else◌, Outcome, ok, error, zero_capacity,
}
use gwr.Event.{RepeatedState, new_repeated, notify}

pub record QueueCore {ℓ} (T : Type ℓ) : Type ℓ where
  pub capacity : Option ℕ
  pub values : List T
  pub queue_changed : RepeatedState (Unit {0})

abbrev pub reached : Option ℕ → ℕ → Bool
reached none n = false
reached (some capacity) n = leb capacity n

module _ {ℓ} {T : Type ℓ} where
  unfoldable pub new : Option ℕ → Outcome (QueueCore T)
  new (some zero) = error zero_capacity
  new (some (suc n)) =
      ok (record { capacity = some (suc n); values = []; queue_changed = new_repeated tt })
  new none = ok (record { capacity = none; values = []; queue_changed = new_repeated tt })

  abbrev pub len : QueueCore T → ℕ
  len q = length q.values

  unfoldable pub is_full : QueueCore T → Bool
  is_full q = reached q.capacity (len q)

  abbrev pub changed : QueueCore T → List T → QueueCore T
  changed q values = record q { values = values; queue_changed = (notify q.queue_changed).0 }

  unfoldable pub push_now : QueueCore T → T → QueueCore T
  push_now q value = changed q (q.values ++ value ∷ [])

  -- A round of `push`: nothing while the task waits for a change of the queue.
  unfoldable pub push : QueueCore T → T → Option (QueueCore T)
  unfolding is_full push_now
  push q value = if is_full q then none else some (push_now q value)

  unfoldable pub pop_front : QueueCore T → QueueCore T × Option T
  pop_front q = elim q.values [ [] ↦ (q, none) | value ∷ values ↦ (changed q values, some value) ]

  unfoldable pub remove_where : (T → Bool) → QueueCore T → QueueCore T × Option T
  remove_where predicate q = elim (position predicate q.values) [
    | none ↦ (q, none)
    | some index ↦ elim (get_elem? q.values index) [
      | none ↦ (q, none)
      | some value ↦ (changed q (remove_at q.values index), some value)
    ]
  ]
