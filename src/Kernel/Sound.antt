-- ===== src/Kernel/Sound.antt =====
-- What holds of the kernel of src/main.c between two of its steps: where each task waits.
pub mod Receive
pub mod Parked
pub mod Reply
pub mod Rounds
pub mod Running
pub mod Send
pub mod Signal
pub mod Await
pub mod Begin
pub mod Choose
pub mod Create
pub mod Interrupt
pub mod Move
pub mod Room
pub mod Still
pub mod Swi
mod Tests
pub mod Wake
use armv4_kernel.Prelude.{ℕ, ◌<◌, ◌≤◌, ◌≡◌, true, false, List, map, has}
use armv4_kernel.Queue.{Ptr, Queue}
use armv4_kernel.Queue.Rep.{IsQueue}
use armv4_kernel.Task.{TaskState, max_tasks, ready_node, send_node, await_node}
use armv4_kernel.Scheduler.{priority_count}
use armv4_kernel.Scheduler.Ready.{ReadyLists}
use armv4_kernel.EventHandler.{max_events}
use armv4_kernel.Kernel.{Kernel}
use armv4_kernel.Kernel.Ready.{Holds}

-- The queues other than the ready queues: the send queue of a task, and the queue of an event.
pub data Wait : Type 0 where
  to_send on_event : ℕ → Wait

-- The node by which a task stands in such a queue.
abbrev pub node : Wait → ℕ → Ptr
node (Wait.to_send u) t = send_node t
node (Wait.on_event e) t = await_node t

abbrev pub queue_of : Wait → Kernel → Queue
queue_of (Wait.to_send u) k = (k.tasks.tds u).send_q
queue_of (Wait.on_event e) k = k.eh.await_qs e

abbrev pub blocked : Wait → TaskState
blocked (Wait.to_send u) = TaskState.receive_blocked
blocked (Wait.on_event e) = TaskState.event_blocked

-- `n` descriptors are in use.
abbrev pub Exists : Wait → ℕ → Type 0
Exists (Wait.to_send u) n = u < n
Exists (Wait.on_event e) n = e < max_events

-- The tasks of each queue, in order, and the queue that each blocked task stands in.
pub record Places : Type 0 where
  pub ready : ReadyLists
  pub waiting : Wait → List ℕ
  pub place : ℕ → Wait

-- A descriptor that is in use.
pub record IsTask (k : Kernel) (t : ℕ) : Type 0 where
  pub tid : (k.tasks.tds t).tid ≡ t
  pub priority : (k.tasks.tds t).priority < priority_count
  pub ready_owner : k.tasks.nodes.payload (ready_node t) ≡ t
  pub send_owner : k.tasks.nodes.payload (send_node t) ≡ t
  pub await_owner : k.tasks.nodes.payload (await_node t) ≡ t

pub record IsReadyTask (k : Kernel) (t : ℕ) : Type 0 where
  pub made : t < k.next_free_td
  pub state : (k.tasks.tds t).state ≡ TaskState.ready

pub record IsWaiting (k : Kernel) (P : Places) (w : Wait) (t : ℕ) : Type 0 where
  pub made : t < k.next_free_td
  pub state : (k.tasks.tds t).state ≡ blocked w
  pub place : P.place t ≡ w

-- The queues link the lists of `P`; a task in one of them was made, has the state that goes with the
-- queue, and stands in no other; every descriptor in use is well formed.
pub record IsSound (k : Kernel) (P : Places) : Type 0 where
  pub ready : Holds k P.ready
  pub queues :
      (w : Wait)
      → Exists w k.next_free_td
      → IsQueue (queue_of w k) k.tasks.nodes (map (node w) (P.waiting w))
  pub runnable : (i t : ℕ) → i < priority_count → has t (P.ready i) ≡ true → IsReadyTask k t
  pub waits :
      (w : Wait) (t : ℕ) → Exists w k.next_free_td → has t (P.waiting w) ≡ true → IsWaiting k P w t
  pub made : (t : ℕ) → t < k.next_free_td → IsTask k t
  pub bound : k.next_free_td ≤ max_tasks

-- A task that was made and stands in no queue.
pub record IsFree (k : Kernel) (P : Places) (t : ℕ) : Type 0 where
  pub made : t < k.next_free_td
  pub not_ready : (i : ℕ) → i < priority_count → has t (P.ready i) ≡ false
  pub not_waiting : (w : Wait) → Exists w k.next_free_td → has t (P.waiting w) ≡ false
