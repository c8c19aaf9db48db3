-- ===== src/Tests/ClockTests.antt =====
-- A clock with tasks waiting at two times, and a resource of two units.
use gwr.Base.{ℕ, ◌+◌, ◌≡◌, refl, List, [], ◌∷◌, ◌++◌, true, false, arith, if◌then◌else◌}
use gwr.Clock.{ClockTick, TaskWaker, ClockState, tick_eq, schedule, add_waker}
use gwr.Clock.Entries.{entries}
use gwr.Clock.Laws.{waiting_at, IsValid, schedule_lem}
use gwr.Resource
use gwr.Resource.{ResourceState, Call, requests, releases, poll_request, release, pop_front}
use gwr.Resource.Laws

abbrev early : ClockTick
early = record { tick = 5; phase = 0 }

abbrev late : ClockTick
late = record { tick = 8; phase = 0 }

abbrev between : ClockTick
between = record { tick = 8; phase = 2 }

abbrev task : ℕ → TaskWaker
task n = record { id = n; waker = n; can_exit = false }

abbrev clock : ClockState
clock = record {
  now = record { tick = 1; phase = 0 };
  next_waiter_id = 3;
  waiting = (task 0 ∷ task 2 ∷ []) ∷ (task 1 ∷ []) ∷ [];
  waiting_times = late ∷ early ∷ [];
  to_resolve = [];
}

clock-IsValid : IsValid clock
unfolding entries
clock-IsValid = record { parallel = refl; falling = ((refl, tt), refl, (tt, refl, tt)) }

schedule_example : (schedule clock between 9 false).0.waiting_times ≡ between ∷ late ∷ early ∷ []
unfolding schedule add_waker
schedule_example = refl

schedule_lem_example :
    let (s', id) = schedule clock late 9 true in
    ((u : ClockTick)
      → waiting_at s' u ≡ (
          if tick_eq late u
          then waiting_at clock u ++ record { id = id; waker = 9; can_exit = true } ∷ []
          else waiting_at clock u))
    × (id ≡ 3)
    × (s'.next_waiter_id ≡ id + 1)
    × IsValid s'
schedule_lem_example = schedule_lem clock late 9 true clock-IsValid

abbrev desk : ResourceState
desk = record { capacity = 2; count = 1; queue = [] }

abbrev full_desk : ResourceState
full_desk = record { capacity = 2; count = 2; queue = 7 ∷ 8 ∷ [] }

abbrev day : List Call
day = requests 4 ∷ requests 5 ∷ releases ∷ releases ∷ []

run_balance_example :
    Laws.IsValid (record { capacity = 2; count = 0; queue = [] })
    × (desk.capacity ≡ desk.capacity)
    × (desk.count + Laws.grants desk day ≡ 0 + Laws.num_releases day)
unfolding Resource.run poll_request release
run_balance_example =
    Laws.run_balance day desk (record { capacity = 2; count = 0; queue = [] }) (omega arith) refl
