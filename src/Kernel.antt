-- ===== src/Kernel.antt =====
-- The kernel of src/main.c: its context, and the system calls that `handle` dispatches to. Its
-- children hold the dispatch and the main loop.
-- The context and what its pointers lead to are one record. `mem` is the memory of the user tasks,
-- byte by byte; `regs` holds the device registers, by address. A handler returns its `int` beside the
-- new state, and `none` where it faults: an access through `NULL` or past an array.
-- Text that goes to the terminal (`bwprintf`) is left out.
pub mod Await
pub mod Calls
pub mod Create
pub mod Device
pub mod Dispatch
pub mod Exchange
pub mod Idle
pub mod Messages
pub mod Panic
pub mod Queued
pub mod Ready
pub mod Receive
pub mod Rendezvous
pub mod Reply
pub mod Sound
pub mod Start
pub mod Tests
pub mod Memory
use armv4_kernel.Prelude.{
  ℕ, ◌+◌, ◌%◌, Bool, not, Option, none, some, ◌==◌, ltb, leb, if◌then◌else◌, ◌>>=◌,
}
use armv4_kernel.Queue.{Queue, update, queue_put, queue_get, queue_empty}
use armv4_kernel.CString.{Bytes, memcpy}
use armv4_kernel.Task.{
  Task, Tasks, TaskState, MessageParams, max_tasks, minus, send_node, set_task, set_state,
  task_descriptor_init, task_descriptor_set_return_value,
}
use armv4_kernel.Scheduler.{Scheduler, scheduler_put, scheduler_empty}
use armv4_kernel.EventHandler.{EventHandler, max_events, event_handler_add_task}
use Memory.{Regs}
use Device.{enable_interrupt}

pub record Kernel : Type 0 where
  pub tasks : Tasks
  pub sch : Scheduler
  pub eh : EventHandler
  pub next_free_td : ℕ
  pub last_idle_time : ℕ
  pub mem : Bytes
  pub regs : Regs

-- A write to descriptor `t`.
abbrev pub write_task : ℕ → Task → Kernel → Kernel
write_task t d k = record k { tasks = set_task t d k.tasks }

abbrev pub write_state : ℕ → TaskState → Kernel → Kernel
write_state t st k = record k { tasks = set_state t st k.tasks }

abbrev pub set_return_value : ℕ → ℕ → Kernel → Kernel
set_return_value t ret k = record k { tasks = task_descriptor_set_return_value t ret k.tasks }

-- `scheduler_put(ctx->sch, td)`, whose result the kernel ignores.
unfoldable pub make_ready : ℕ → Kernel → Option Kernel
make_ready t k = do
  (_, sch, ts) ← scheduler_put k.sch t k.tasks
  some (record k { tasks = ts; sch = sch })

-- `&ctx->tds[tid]`, which faults past the array.
abbrev pub task_at : ℕ → Option ℕ
task_at tid = if ltb tid max_tasks then some tid else none

-- `priority` is an `int`: a negative one has a pattern of at least 2 ^ 31.
module _ (stack_start : ℕ) where
  unfoldable pub kernel_create : ℕ → (priority code : ℕ) → Kernel → Option (ℕ × Kernel)
  kernel_create active priority code k =
      if ltb 63 priority
      then some (minus 1, k)
      else if leb max_tasks k.next_free_td
      then some (minus 2, k)
      else do
        let new = k.next_free_td
        let k₁ = record k {
          tasks =
              task_descriptor_init stack_start new (new % 256) (priority % 256) (some active) code
                k.tasks;
        }
        k₂ ← make_ready new k₁
        k₃ ← make_ready active k₂
        some ((k₃.tasks.tds new).tid, record k₃ { next_free_td = new + 1 })

unfoldable pub kernel_exit : ℕ → Kernel → Bool × Kernel
kernel_exit active k = (scheduler_empty k.sch, write_state active TaskState.exited k)

unfoldable pub kernel_pass : ℕ → Kernel → Option Kernel
kernel_pass active k = make_ready active k

unfoldable pub kernel_mytid : ℕ → Kernel → Option (ℕ × Kernel)
kernel_mytid active k = do k' ← make_ready active k; some ((k'.tasks.tds active).tid, k')

unfoldable pub kernel_parenttid : ℕ → Kernel → Option (ℕ × Kernel)
kernel_parenttid active k = do
  k' ← make_ready active k
  some (
    elim (k'.tasks.tds active).parent [ none ↦ minus 1 | some parent ↦ (k'.tasks.tds parent).tid ],
    k',
  )

unfoldable pub kernel_await_event : (active event : ℕ) → Kernel → Option (ℕ × Kernel)
kernel_await_event active event k =
    if not (ltb event max_events) then (do k' ← make_ready active k; some (minus 1, k')) else do
      (_, eh, ts) ← event_handler_add_task k.eh event active k.tasks
      some (0, record k { tasks = ts; eh = eh; regs = enable_interrupt event k.regs })

-- What it prints is left out.
unfoldable pub kernel_panic : Kernel → Kernel
kernel_panic k = record k { sch = record { bitmap = 0; priority_qs = k.sch.priority_qs } }
