-- ===== src/Tests/FabricTests.antt =====
-- A fabric of three columns and four rows, a delay of a clock, and a policy with weights.
use gwr.Base.{ℕ, ◌≡◌, refl, none, some, List, [], ◌∷◌, arith, Option, false}
use gwr.Arbiter.Weighted
use gwr.Arbiter.Weighted.{WeightedRoundRobin}
use gwr.Arbiter.Weighted.Weights.{IsValid}
use gwr.Clock.{ClockState}
use gwr.Clock.Entries.{entries}
use gwr.Clock.Laws
use gwr.Clock.Delay.{ClockDelay}
use gwr.Fabric.{
  FabricConfig, new, port_index, fabric_port_index_to_col_row_port,
  col_row_port_to_fabric_port_index,
}
use gwr.Fabric.Indices.{fabric_port_round_trip}
use gwr.Fabric.Node.{NodeRouter, column_first, route}
use gwr.Fabric.Node.Routing.{Routed, route-Routed}

abbrev config : FabricConfig
config = new 3 4 2 none 1 1 1 1 1

fabric_port_round_trip_example :
    fabric_port_index_to_col_row_port config (col_row_port_to_fabric_port_index config 2 1 1)
    ≡ (2, 1, 1)
unfolding new
fabric_port_round_trip_example = fabric_port_round_trip config 2 1 1 (omega arith) (omega arith)

abbrev router : NodeRouter
router = record {
  index = 4;
  node_col = 1;
  node_row = 2;
  fabric_algorithm = column_first;
  config = config;
}

route-Routed_example :
    Routed router 2 1 1 (route router (col_row_port_to_fabric_port_index config 2 1 1))
unfolding new fabric_port_index_to_col_row_port col_row_port_to_fabric_port_index port_index
route-Routed_example = route-Routed router (col_row_port_to_fabric_port_index config 2 1 1)

abbrev clock : ClockState
clock = record {
  now = record { tick = 4; phase = 0 };
  next_waiter_id = 3;
  waiting = (record { id = 2; waker = 9; can_exit = false } ∷ []) ∷ [];
  waiting_times = record { tick = 7; phase = 0 } ∷ [];
  to_resolve = [];
}

abbrev delay : ClockDelay
delay = record {
  until = record { tick = 7; phase = 0 };
  can_exit = false;
  waiter_id = some 2;
  done = false;
}

clock-IsValid : Laws.IsValid clock
unfolding entries
clock-IsValid = record { parallel = refl; falling = (tt, refl, tt) }

abbrev policy : WeightedRoundRobin
policy = record { candidate = 0; grants = 2 ∷ 0 ∷ []; weights = 2 ∷ 1 ∷ [] }

abbrev inputs : List (Option ℕ)
inputs = some 10 ∷ some 20 ∷ []
