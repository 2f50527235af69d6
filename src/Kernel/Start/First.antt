-- ===== src/Kernel/Start/First.antt =====
-- What is ready after `init` of src/main.c.
use armv4_kernel.Prelude.{ℕ, ◌<◌, ◌≡◌, refl, none, some, [], arith, lt→ltb}
use armv4_kernel.Queue.{queue_node_init, update}
use armv4_kernel.Queue.Rep.{IsQueue}
use armv4_kernel.Queue.Fifo.{queue_init-IsQueue}
use armv4_kernel.Task.{TaskState, task_descriptor_init}
use armv4_kernel.Scheduler.{scheduler_init}
use armv4_kernel.Scheduler.Ready.{ReadyLists}
use armv4_kernel.Scheduler.Ready.Init.{scheduler_init-IsReady}
use armv4_kernel.Scheduler.Ready.Put.{MayPut, put_ready}
use armv4_kernel.EventHandler.{max_events, event_handler_init}
use armv4_kernel.Kernel.{Kernel}
use armv4_kernel.Kernel.Dispatch.{idle_task, is_exit_address, non_idle_time_address}
use armv4_kernel.Kernel.Memory.{write32}
use armv4_kernel.Kernel.Ready.{Holds, readied, make_ready-eq, readied-Holds, readied-MayPut}
use armv4_kernel.Kernel.Start.{
  reset_devices, set_vectors, first_tasks, setup_vectored_interrupts, init,
}

abbrev pub none_ready : ReadyLists
none_ready p = []

-- The first task is the only one of priority 1, and the idle task the only one of priority 28.
abbrev pub first_ready : ReadyLists
first_ready = put_ready (put_ready none_ready 1 0) 28 1

-- What the kernel starts with.
pub record Started (user_main idle_main : ℕ) (k' : Kernel) : Type 0 where
  pub holds : Holds k' first_ready
  pub next_free : k'.next_free_td ≡ 2
  pub no_waiters :
      (event : ℕ) → event < max_events → IsQueue (k'.eh.await_qs event) k'.tasks.nodes []
  pub first_entry : (k'.tasks.tds 0).svc_lr ≡ user_main
  pub first_parent : (k'.tasks.tds 0).parent ≡ none
  pub idle_entry : (k'.tasks.tds idle_task).svc_lr ≡ idle_main
  pub idle_parent : (k'.tasks.tds idle_task).parent ≡ some 0
  pub tids : (t : ℕ) → t < 2 → (k'.tasks.tds t).tid ≡ t
  pub states : (t : ℕ) → t < 2 → (k'.tasks.tds t).state ≡ TaskState.ready

module _ (stack_start irq_stack_start kernel_entry irq_entry user_main idle_main : ℕ)
    (k : Kernel) where
  abbrev before : Kernel
  before = record k {
    tasks = first_tasks stack_start user_main idle_main k.tasks;
    sch = scheduler_init k.sch;
    mem = set_vectors irq_stack_start kernel_entry irq_entry k.mem;
    regs = reset_devices k.regs;
  }

  before-Holds : Holds before none_ready
  before-Holds = scheduler_init-IsReady k.sch before.tasks

  first-MayPut : MayPut before.tasks none_ready 0
  unfolding first_tasks task_descriptor_init queue_node_init
  first-MayPut = record { priority = omega arith; fresh = refl; owner = refl; room = omega arith }

  idle-MayPut : MayPut before.tasks none_ready idle_task
  unfolding first_tasks task_descriptor_init queue_node_init
  idle-MayPut = record { priority = omega arith; fresh = refl; owner = refl; room = omega arith }

  abbrev first : Kernel
  first = readied 0 before

  first-Holds : Holds first (put_ready none_ready 1 0)
  unfolding first_tasks task_descriptor_init
  first-Holds = readied-Holds before 0 before-Holds first-MayPut

  idle_next-MayPut : MayPut first.tasks (put_ready none_ready 1 0) idle_task
  unfolding first_tasks task_descriptor_init
  idle_next-MayPut = readied-MayPut before 0 idle_task idle-MayPut (omega arith) (omega arith)

  abbrev started : Kernel
  started = readied idle_task first

  pub started-Holds : Holds started first_ready
  unfolding first_tasks task_descriptor_init
  started-Holds = readied-Holds first idle_task first-Holds idle_next-MayPut

  abbrev pub done : Kernel
  done = record started {
    eh = event_handler_init started.eh;
    next_free_td = 2;
    last_idle_time = 0;
    mem =
        write32 (update started.mem (is_exit_address stack_start) 0)
          (non_idle_time_address stack_start) 0;
    regs = setup_vectored_interrupts started.regs;
  }

  pub init-eq :
      init stack_start irq_stack_start kernel_entry irq_entry user_main idle_main k ≡ some done
  unfolding init
  init-eq = rw (
    make_ready-eq before 0 before-Holds first-MayPut,
    make_ready-eq first idle_task first-Holds idle_next-MayPut,
  )

  pub no_waiters-IsQueue :
      (event : ℕ) → event < max_events → IsQueue (done.eh.await_qs event) done.tasks.nodes []
  unfolding event_handler_init
  no_waiters-IsQueue event small =
      rw (lt→ltb event max_events small) (queue_init-IsQueue done.tasks.nodes)

  -- `init` does not fault, whatever its structures held. After it the first task is ready with
  -- priority 1 and the idle task with priority 28, and no other is; they start at their code, the first
  -- has no parent and the idle task has the first for its parent; the next free descriptor is the
  -- third, and no task waits for an event.
  pub init-starts :
      (k' : Kernel) × (init stack_start irq_stack_start kernel_entry irq_entry user_main idle_main k
        ≡ some k')
      × Started user_main idle_main k'
  unfolding first_tasks task_descriptor_init
  init-starts = (
    done,
    init-eq,
    record {
      holds = started-Holds;
      next_free = refl;
      no_waiters = no_waiters-IsQueue;
      first_entry = refl;
      first_parent = refl;
      idle_entry = refl;
      idle_parent = refl;
      tids = λ t small. ground arith;
      states = λ t small. ground arith;
    },
  )
