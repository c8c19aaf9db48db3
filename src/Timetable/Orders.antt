-- ===== src/Timetable/Orders.antt =====
-- A timetable that has been built: its file's edges wired, its nodes checked.
use gwr.Base.{◌≡◌, List, ok}
use gwr.Timetable.{NodeSection, Node, Edge, wire, new_nodes}
use gwr.Timetable.Wiring.{wire-IsConsistent}
use gwr.Timetable.Checks.{validate}
use gwr.Timetable.Checks.Tensors.{validate-HasTensorOutputs}
use gwr.Timetable.Scheduler.{Scheduler}
use gwr.Timetable.Scheduler.Completion.{IsValid}
use gwr.Timetable.Scheduler.Runs.{Reached}
use gwr.Timetable.Scheduler.Reach.{Reached-IsValid}

-- Of a graph whose edges have been wired and whose nodes have passed the checks, in whatever order ready
-- tasks become active and active tasks are completed: the inputs of every node that is active or
-- complete are complete; the ready tasks of a processing element are exactly its tasks that are neither
-- active nor complete and all of whose inputs are complete; and the count of a task that is neither
-- active nor complete is the number of its inputs that are not complete.
pub wire-Reached-IsValid :
    (sections : List NodeSection) (edges : List Edge) (nodes : List Node)
    → wire (new_nodes sections) edges ≡ ok nodes
    → validate nodes nodes ≡ ok tt
    → (s : Scheduler) → Reached nodes s
    → IsValid nodes s
wire-Reached-IsValid sections edges nodes wired checked s reached =
    Reached-IsValid nodes (wire-IsConsistent sections edges nodes wired)
      (validate-HasTensorOutputs nodes checked) s reached
