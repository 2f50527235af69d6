-- ===== src/Task.antt =====
-- The task descriptor of src/task_descriptor/task_descriptor.c, include/internal/task_descriptor.h and
-- include/internal/mem.h.
-- A `task_descriptor_t *` is an index of the kernel's array of descriptors. The three queue nodes of
-- a descriptor stand in one store of nodes, at addresses computed from the index. The words that the
-- saved stack pointer points to, `((uint32_t *)sp)[i]`, are kept in the descriptor as `frame i`.
-- An `int` is its 32-bit pattern.
use armv4_kernel.Prelude.{ℕ, ◌+◌, ◌-◌, ◌*◌, ◌%◌, ◌^◌, Option}
use armv4_kernel.Queue.{Ptr, Nodes, Queue, update, queue_node_init, queue_init}

pub data TaskState : Type 0 where
  ready active exited send_blocked receive_blocked reply_blocked event_blocked : TaskState

abbrev pub max_tasks : ℕ
max_tasks = 64

-- `-n` as an `int`
abbrev pub minus : ℕ → ℕ
minus n = 2 ^ 32 - n

-- The pointers are addresses of user memory.
pub record MessageParams : Type 0 where
  pub tid : ℕ
  pub msg : ℕ
  pub msg_len : ℕ
  pub rep : ℕ
  pub rep_len : ℕ

-- The parent is `none` for `NULL`.
pub record Task : Type 0 where
  pub tid : ℕ
  pub priority : ℕ
  pub parent : Option ℕ
  pub send_q : Queue
  pub state : TaskState
  pub sp : ℕ
  pub svc_lr : ℕ
  pub spsr : ℕ
  pub frame : ℕ → ℕ
  pub message_params : MessageParams

pub record Tasks : Type 0 where
  pub tds : ℕ → Task
  pub nodes : Nodes ℕ

abbrev pub ready_node : ℕ → Ptr
ready_node t = 3 * t + 1

abbrev pub send_node : ℕ → Ptr
send_node t = 3 * t + 2

abbrev pub await_node : ℕ → Ptr
await_node t = 3 * t + 3

-- A write to descriptor `t` alone.
abbrev pub set_task : ℕ → Task → Tasks → Tasks
set_task t d ts = record { tds = update ts.tds t d; nodes = ts.nodes }

abbrev pub set_state : ℕ → TaskState → Tasks → Tasks
set_state t st ts = set_task t (record (ts.tds t) { state = st }) ts

unfoldable pub task_descriptor_set_return_value : ℕ → ℕ → Tasks → Tasks
task_descriptor_set_return_value t ret ts =
    set_task t (record (ts.tds t) { frame = update (ts.tds t).frame 0 ret }) ts

-- `_stack_start` comes from the linker script.
module _ (stack_start : ℕ) where
  abbrev pub mem_task_stack_start : ℕ → ℕ
  mem_task_stack_start tid = (stack_start + 2 ^ 32 - 0x2000 - 0x2000 * tid) % 2 ^ 32

  -- The message parameters and the rest of the frame keep what memory held.
  unfoldable pub task_descriptor_init :
      ℕ → (tid priority : ℕ) → (parent : Option ℕ) → (code : ℕ) → Tasks → Tasks
  task_descriptor_init t tid priority parent code ts = record {
    tds = update ts.tds t (record (ts.tds t) {
      tid = tid;
      priority = priority;
      parent = parent;
      sp = (mem_task_stack_start tid + 2 ^ 32 - 14 * 4) % 2 ^ 32;
      spsr = 0x50;
      svc_lr = code;
      frame = update (update (ts.tds t).frame 0 0) 13 (mem_task_stack_start tid);
      send_q = queue_init;
      state = ready;
    });
    nodes =
        queue_node_init (await_node t) t
          (queue_node_init (send_node t) t (queue_node_init (ready_node t) t ts.nodes));
  }
