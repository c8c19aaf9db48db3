-- ===== src/Resource.antt =====
-- gwr-resources/src/base.rs: a counting resource. A waker is the number of its task.
pub mod Laws
use gwr.Base.{
  ℕ, ◌+◌, ◌-◌, Option, none, some, List, [], ◌∷◌, ◌++◌, Bool, true, false, ◌==◌, if◌then◌else◌,
  Outcome, ok, error, invalid_release,
}

pub record ResourceState : Type 0 where
  pub capacity : ℕ
  pub count : ℕ
  pub queue : List ℕ

unfoldable pub new : ℕ → ResourceState
new capacity = record { capacity = capacity; count = 0; queue = [] }

-- `ResourceRequest::poll`: whether the request is granted.
unfoldable pub poll_request : ResourceState → ℕ → ResourceState × Bool
poll_request s waker =
    if s.count == s.capacity
    then (record s { queue = s.queue ++ waker ∷ [] }, false)
    else (record s { count = s.count + 1 }, true)

-- `VecDeque::pop_front`
abbrev pub pop_front {ℓ} : {A : Type ℓ} → List A → Option A × List A
pop_front [] = (none, [])
pop_front (x ∷ xs) = (some x, xs)

-- `release`: the waker that is woken, if a request waits.
unfoldable pub release : ResourceState → Outcome (ResourceState × Option ℕ)
release s =
    if s.count == 0
    then error invalid_release
    else ok (record s { count = s.count - 1; queue = (pop_front s.queue).1 }, (pop_front s.queue).0)

-- The calls of the tasks that share the resource, in the order in which they run.
pub data Call : Type 0 where
  requests : ℕ → Call
  releases : Call

unfoldable pub run : ResourceState → List Call → Outcome ResourceState
run s [] = ok s
run s (requests waker ∷ calls) = run (poll_request s waker).0 calls
run s (releases ∷ calls) = elim (release s) [
  | ok (s', woken) ↦ run s' calls
  | error e ↦ error e
  | Outcome.panic ↦ Outcome.panic
]
