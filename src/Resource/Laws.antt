-- ===== src/Resource/Laws.antt =====
-- The resource is never over-committed, and its count is that of the requests under way.
use gwr.Base.{
  inl, inr, ℕ, ◌+◌, ◌-◌, ◌≤◌, ◌<◌, ◌≡◌, refl, List, [], ◌∷◌, ◌++◌, true, false, ◌==◌, if◌then◌else◌,
  ok, error, panic, invalid_release, arith, Bool-cases,
}
use gwr.Resource.{ResourceState, poll_request, release, pop_front, Call, requests, releases, run}

abbrev pub IsValid : ResourceState → Type 0
IsValid s = s.count ≤ s.capacity

-- A request is granted exactly while fewer than `capacity` requests are under way; one that is not
-- goes to the end of the queue. The count stays within the capacity.
pub poll_request_lem :
    (s : ResourceState) (waker : ℕ)
    → IsValid s
    → IsValid (poll_request s waker).0
      × ((poll_request s waker).1 ≡ true
          → (s.count < s.capacity) × ((poll_request s waker).0 ≡ record s { count = s.count + 1 }))
      × ((poll_request s waker).1 ≡ false
          → (s.count ≡ s.capacity)
            × ((poll_request s waker).0 ≡ record s { queue = s.queue ++ waker ∷ [] }))
unfolding poll_request
poll_request_lem s waker v = elim (Bool-cases (s.count == s.capacity)) [
  | inl full ↦ rw full (v, (λ e. cc), λ e. (ground arith, refl))
  | inr room ↦ rw room (ground arith, (λ e. (ground arith, refl)), λ e. cc)
]

-- A release fails exactly if no request is under way; otherwise it wakes the request that has
-- waited longest, and only that one leaves the queue.
pub release_lem :
    (s : ResourceState)
    → (s.count ≡ 0 → release s ≡ error invalid_release)
      × (0 < s.count
          → (release s
              ≡ ok (
                record {
                  capacity = s.capacity;
                  count = s.count - 1;
                  queue = (pop_front s.queue).1;
                },
                (pop_front s.queue).0,
              ))
            × (IsValid s → s.count - 1 < s.capacity))
unfolding release
release_lem s = ((λ e. ground arith), λ h. (ground arith, λ v. omega arith))

-- How many of the requests of a run are granted, and how many releases it makes.
unfoldable pub grants : ResourceState → List Call → ℕ
grants s [] = 0
grants s (requests waker ∷ calls) =
    (if (poll_request s waker).1 then 1 else 0) + grants (poll_request s waker).0 calls
grants s (releases ∷ calls) = elim (release s) [
  | ok (s', woken) ↦ grants s' calls
  | error e ↦ 0
  | panic ↦ 0
]

unfoldable pub num_releases : List Call → ℕ
num_releases [] = 0
num_releases (requests waker ∷ calls) = num_releases calls
num_releases (releases ∷ calls) = num_releases calls + 1

-- Whatever the tasks do, no more than `capacity` requests are under way at the end of a run that
-- does not fail, and those under way are the grants less the releases.
pub run_balance :
    (calls : List Call) (s s' : ResourceState)
    → IsValid s
    → run s calls ≡ ok s'
    → IsValid s'
      × (s'.capacity ≡ s.capacity)
      × (s.count + grants s calls ≡ s'.count + num_releases calls)
unfolding run grants num_releases
run_balance [] s s' v e = ground arith
run_balance (requests waker ∷ calls) s s' v e =
    let (v', more, full) = poll_request_lem s waker v in
    elim (Bool-cases (poll_request s waker).1) [
      | inl yes_ ↦ ground (arith, (more yes_).1, run_balance calls (poll_request s waker).0 s' v' e)
      | inr no_ ↦ ground (arith, (full no_).1, run_balance calls (poll_request s waker).0 s' v' e)
    ]
run_balance (releases ∷ calls) s s' v e = elim (Bool-cases (s.count == 0)) [
  | inl empty ↦ ground (arith, (release_lem s).0)
  | inr some_left ↦
      let after : ResourceState = record {
        capacity = s.capacity;
        count = s.count - 1;
        queue = (pop_front s.queue).1;
      } in
      let done = ((release_lem s).1 (ground arith)).0 in
      ground (arith, done, run_balance calls after s' (omega arith))
]
