-- ===== src/Arbiter/Priority.antt =====
-- gwr-components/src/arbiter/policy/priority_round_robin.rs, with the priorities as numbers: a larger
-- number is a higher priority, and 0 is the default. The `BTreeMap` is the list of its levels, from
-- the highest priority to the lowest, in the order in which `arbitrate` goes through them.
use gwr.Base.{
  ℕ, ◌+◌, ◌%◌, Option, none, some, List, [], ◌∷◌, ◌++◌, length, get_or, set, replicate, ◌==◌, ltb,
  if◌then◌else◌, Outcome, ok, error, panic, wrong_length, find_first,
}
use gwr.Arbiter.{slot, Decision}

pub record PriorityLevel : Type 0 where
  pub priority : ℕ
  pub current_candidate_index : ℕ
  pub candidates : List ℕ

pub record PriorityRoundRobin : Type 0 where
  pub priority_vec : List ℕ
  pub priority_map : Option (List PriorityLevel)

unfoldable pub new : ℕ → PriorityRoundRobin
new num_inputs = record { priority_vec = replicate num_inputs 0; priority_map = none }

unfoldable pub from_priorities : List ℕ → ℕ → Outcome PriorityRoundRobin
from_priorities priority_vec num_inputs =
    if length priority_vec == num_inputs
    then ok (record { priority_vec = priority_vec; priority_map = none })
    else error wrong_length

-- (An index out of range panics.)
unfoldable pub set_priority : PriorityRoundRobin → ℕ → ℕ → Outcome PriorityRoundRobin
set_priority p port_index new_priority =
    if ltb port_index (length p.priority_vec)
    then ok (record p { priority_vec = set p.priority_vec port_index new_priority })
    else panic

-- `entry(priority)`, `and_modify` and `or_insert`.
unfoldable pub add_candidate : ℕ → ℕ → List PriorityLevel → List PriorityLevel
add_candidate priority i [] =
    record { priority = priority; current_candidate_index = 0; candidates = i ∷ [] } ∷ []
add_candidate priority i (l ∷ levels) =
    let rest = add_candidate priority i levels in
    if l.priority == priority
    then record l { candidates = l.candidates ++ i ∷ [] } ∷ levels
    else if ltb l.priority priority
    then record { priority = priority; current_candidate_index = 0; candidates = i ∷ [] }
      ∷ l
      ∷ levels
    else l ∷ rest

-- The loop over the priorities of the inputs from `i` on.
unfoldable pub create_map : ℕ → List ℕ → List PriorityLevel → List PriorityLevel
unfolding add_candidate
create_map i [] levels = levels
create_map i (priority ∷ priorities) levels =
    create_map (i + 1) priorities (add_candidate priority i levels)

-- The place in a level, and the value, of the first of its inputs with a value.
unfoldable pub look {ℓ} : {A : Type ℓ} → List (Option A) → PriorityLevel → Option (ℕ × A)
look input_values l = find_first (length l.candidates) 0 λ i.
    slot input_values
      (get_or l.candidates ((i + l.current_candidate_index) % length l.candidates) 0)

-- The levels that a call leaves, and what it grants.
unfoldable pub go_through {ℓ} :
    {A : Type ℓ} → List (Option A) → List PriorityLevel → List PriorityLevel × Option (ℕ × A)
unfolding look
go_through input_values [] = ([], none)
go_through input_values (l ∷ levels) =
    let rest = go_through input_values levels in
    elim (look input_values l) [
      | none ↦ (l ∷ rest.0, rest.1)
      | some (i, value) ↦ (
        record l { current_candidate_index = (place i + 1) % length l.candidates } ∷ levels,
        some (get_or l.candidates (place i) 0, value),
      )
    ]
  where
    place : ℕ → ℕ
    place i = (i + l.current_candidate_index) % length l.candidates

-- The map is made by the first call.
unfoldable pub levels_of : PriorityRoundRobin → List PriorityLevel
unfolding create_map
levels_of p = elim p.priority_map [ none ↦ create_map 0 p.priority_vec [] | some levels ↦ levels ]

-- `take` of the value that is granted.
abbrev pub taken {ℓ} : {A : Type ℓ} → Option (ℕ × A) → List (Option A) → List (Option A)
taken none input_values = input_values
taken (some (index, value)) input_values = set input_values index none

unfoldable pub arbitrate {ℓ} :
    {A : Type ℓ} → PriorityRoundRobin → List (Option A) → Decision PriorityRoundRobin A
unfolding go_through levels_of
arbitrate {A = A} p input_values = record {
  policy = record p { priority_map = some after.0 };
  input_values = taken after.1 input_values;
  grant = after.1;
}
  where
    after : List PriorityLevel × Option (ℕ × A)
    after = go_through input_values (levels_of p)
