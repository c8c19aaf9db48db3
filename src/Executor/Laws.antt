-- ===== src/Executor/Laws.antt =====
-- When `run` stops.
use gwr.Base.{◌≡◌, [], true, All}
use gwr.SimTime.{SimTime}
use gwr.SimTime.Nanos.{FloatLaws}
use gwr.SimTime.Exit.{MayBeLeft}
use gwr.Executor.{Futures, ExecutorState}

module _ {F W : Type 0} (futures : Futures F W) (laws : FloatLaws futures.floats) where
  -- The simulation has finished, or no task is to be polled and every task that waits for a tick of a
  -- clock may be left waiting.
  pub data Ended (s : ExecutorState F W) : Type 0 where
    finished : s.shared.finished ≡ true → Ended s
    none_must_wait : s.new_tasks ≡ [] → All MayBeLeft s.shared.time.clocks → Ended s
