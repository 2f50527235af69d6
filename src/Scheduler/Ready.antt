-- ===== src/Scheduler/Ready.antt =====
-- The scheduler as 64 lists of tasks: what `scheduler_get` and `scheduler_put` of
-- src/scheduler/scheduler.c do to them.
pub mod Apart
pub mod Get
pub mod Init
pub mod Nodes
pub mod Put
use armv4_kernel.Prelude.{ℕ, ◌^◌, ◌<◌, ◌≡◌, true, List, map, ◌==◌, if◌then◌else◌, length, has}
use armv4_kernel.Queue.Rep.{IsQueue}
use armv4_kernel.Bits.{bit}
use armv4_kernel.Task.{Tasks, ready_node}
use armv4_kernel.Scheduler.{Scheduler, priority_count}

-- The tasks of each priority that wait for the processor, in the order in which they get it.
abbrev pub ReadyLists : Type 0
ReadyLists = ℕ → List ℕ

-- The scheduler holds the ready lists `R`: bit `i` of the map tells whether list `i` is empty, queue
-- `i` links the ready nodes of list `i`, and a task stands in the list of its own priority.
pub record IsReady (sch : Scheduler) (ts : Tasks) (R : ReadyLists) : Type 0 where
  pub word : sch.bitmap < 2 ^ 64
  pub bits : (i : ℕ) → i < priority_count → bit i sch.bitmap ≡ (if length (R i) == 0 then 0 else 1)
  pub queues :
      (i : ℕ) → i < priority_count → IsQueue (sch.priority_qs i) ts.nodes (map ready_node (R i))
  pub own_list : (i t : ℕ) → i < priority_count → has t (R i) ≡ true → (ts.tds t).priority ≡ i
  pub owner :
      (i t : ℕ) → i < priority_count → has t (R i) ≡ true → ts.nodes.payload (ready_node t) ≡ t
