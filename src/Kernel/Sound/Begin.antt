-- ===== src/Kernel/Sound/Begin.antt =====
-- The kernel of src/main.c from `init` through any number of rounds of its loop.
use armv4_kernel.Prelude.{ℕ, ◌<◌, ◌≡◌, true, some, [], arith, has}
use armv4_kernel.Queue.{queue_node_init, queue_init}
use armv4_kernel.Queue.Rep.{IsQueue}
use armv4_kernel.Queue.Fifo.{queue_init-IsQueue}
use armv4_kernel.Task.{task_descriptor_init}
use armv4_kernel.Scheduler.{priority_count}
use armv4_kernel.Kernel.{Kernel}
use armv4_kernel.Kernel.Dispatch.{main_loop}
use armv4_kernel.Kernel.Start.{init, first_tasks}
use armv4_kernel.Kernel.Start.First.{done, init-eq, started-Holds, no_waiters-IsQueue, first_ready}
use armv4_kernel.Kernel.Sound.{Wait, queue_of, Exists, Places, IsTask, IsReadyTask, IsSound}
use armv4_kernel.Kernel.Sound.Swi.{Survives}
use armv4_kernel.Kernel.Sound.Rounds.{BehavesWell, main_loop-Survives}

-- Two tasks are ready, and nobody waits.
abbrev pub first_places : Places
first_places = record { ready = first_ready; waiting = λ w. []; place = Wait.to_send }

module _ (stack_start irq_stack_start kernel_entry irq_entry user_main idle_main : ℕ)
    (k : Kernel) where
  abbrev pub begun : Kernel
  begun = done stack_start irq_stack_start kernel_entry irq_entry user_main idle_main k

  begun_queues : (w : Wait) → Exists w 2 → IsQueue (queue_of w begun) begun.tasks.nodes []
  unfolding first_tasks task_descriptor_init
  begun_queues (Wait.to_send u) lt =
      let e : (begun.tasks.tds u).send_q ≡ queue_init = ground arith in
      rw e (queue_init-IsQueue begun.tasks.nodes)
  begun_queues (Wait.on_event e) lt =
      no_waiters-IsQueue stack_start irq_stack_start kernel_entry irq_entry user_main idle_main k e
        lt

  begun-IsTask : (t : ℕ) → t < 2 → IsTask begun t
  unfolding first_tasks task_descriptor_init queue_node_init
  begun-IsTask t lt = record {
    tid = ground arith;
    priority = ground arith;
    ready_owner = ground arith;
    send_owner = ground arith;
    await_owner = ground arith;
  }

  begun-IsReadyTask :
      (i t : ℕ) → i < priority_count → has t (first_ready i) ≡ true → IsReadyTask begun t
  unfolding first_tasks task_descriptor_init
  begun-IsReadyTask i t lt m = record { made = ground arith; state = ground arith }

  pub begun-IsSound : IsSound begun first_places
  begun-IsSound = record {
    ready = started-Holds stack_start irq_stack_start kernel_entry irq_entry user_main idle_main k;
    queues = begun_queues;
    runnable = begun-IsReadyTask;
    waits = λ w t hw m. cc;
    made = begun-IsTask;
    bound = omega arith;
  }

  -- Let every task that runs leave the kernel's structures alone up to its trap, and let each trap be
  -- one of these: a system call other than `Panic` and those that do not exist, where `Send` and
  -- `Reply` name a task that was made, and a `Reply` of the length that its receiver asked for goes to
  -- a task that waits for a reply; or an interrupt of the timer, or of a UART whose status has a bit
  -- that its branch tests. Then `init` does not fault, whatever the structures held before; and neither
  -- do any number of rounds of the main loop after it, which leave every queue whole: the ready queues,
  -- the send queues and the queues of the events link lists of tasks that were made, no task stands in
  -- two places, each has the state that goes with its queue, and every descriptor in use has its index
  -- as its id, a priority of the array, and its own three nodes.
  pub init-main_loop :
      (run : ℕ → Kernel → Kernel × ℕ × ℕ)
      → BehavesWell run
      → (fuel : ℕ)
      → (k₀ : Kernel) × (init stack_start irq_stack_start kernel_entry irq_entry user_main idle_main
            k
          ≡ some k₀)
        × Survives (main_loop stack_start run fuel k₀)
  init-main_loop run good fuel = (
    begun,
    init-eq stack_start irq_stack_start kernel_entry irq_entry user_main idle_main k,
    main_loop-Survives stack_start run good fuel begun first_places begun-IsSound,
  )
