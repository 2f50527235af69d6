-- ===== src/Kernel/Start.antt =====
-- `init` of src/main.c, the state that the kernel starts in, and `cleanup`.
-- The code addresses and the ends of the two stacks, which the linker places, are arguments. What the
-- structures held before is an argument too. The assembler that loads the interrupt stack pointer is
-- left out.
pub mod First
use Prim.Native.Nat.{bit_or}
use armv4_kernel.Prelude.{ℕ, ◌+◌, ◌*◌, ◌/◌, ◌^◌, Option, none, some, ◌>>=◌}
use armv4_kernel.Queue.{update}
use armv4_kernel.CString.{Bytes}
use armv4_kernel.Task.{Tasks, task_descriptor_init}
use armv4_kernel.Scheduler.{scheduler_init}
use armv4_kernel.EventHandler.{event_timer, event_uart1, event_uart2, event_handler_init}
use armv4_kernel.Kernel.{Kernel, make_ready}
use armv4_kernel.Kernel.Device.{uart1_base, uart2_base, timer3_base, vic2_base}
use armv4_kernel.Kernel.Dispatch.{idle_task, is_exit_address, non_idle_time_address}
use armv4_kernel.Kernel.Memory.{Regs, write32}

-- The entry `int_priority` of the vector table, and the enable bit of the interrupt source.
unfoldable pub enable_vectored_interrupt : (event int_src int_priority : ℕ) → Regs → Regs
enable_vectored_interrupt event int_src int_priority regs =
    let vector = update regs (vic2_base + 0x100 + 4 * int_priority) event in
    let control = update vector (vic2_base + 0x200 + 4 * int_priority) (bit_or int_src 0x20) in
    update control (vic2_base + 0x10) (bit_or (control (vic2_base + 0x10)) (2 ^ int_src))

unfoldable pub setup_vectored_interrupts : Regs → Regs
unfolding enable_vectored_interrupt
setup_vectored_interrupts regs =
    let timer = enable_vectored_interrupt event_timer 19 0 regs in
    let uart1 = enable_vectored_interrupt event_uart1 20 1 timer in
    enable_vectored_interrupt event_uart2 22 2 uart1

-- The UARTs' line controls, timer 4, which is the clock, and timer 3, which ticks every 10 ms.
unfoldable pub reset_devices : Regs → Regs
reset_devices regs =
    let a =
      update (update (update regs (uart1_base + 0x10) 0xbf) (uart1_base + 0xc) 0) (uart1_base + 0x8)
        0x68 in
    let b =
      update (update (update a (uart2_base + 0x10) 3) (uart2_base + 0xc) 0) (uart2_base + 0x8)
        0x60 in
    let c = update (update b 0x8081_0064 0) 0x8081_0064 0x100 in
    update (update (update c (timer3_base + 0x8) 0) timer3_base (10 * (2000 / 1000)))
      (timer3_base + 0x8) 0xc0

-- The exception vectors, and the word at the bottom of the interrupt stack.
unfoldable pub set_vectors : (irq_stack_start kernel_entry irq_entry : ℕ) → Bytes → Bytes
set_vectors irq_stack_start kernel_entry irq_entry mem =
    write32 (write32 (write32 mem 0x28 kernel_entry) 0x38 irq_entry) irq_stack_start 0

-- The descriptors of the first task and of the idle task.
unfoldable pub first_tasks : (stack_start user_main idle_main : ℕ) → Tasks → Tasks
first_tasks stack_start user_main idle_main ts =
    task_descriptor_init stack_start idle_task idle_task 28 (some 0) idle_main
      (task_descriptor_init stack_start 0 0 1 none user_main ts)

module _ (stack_start irq_stack_start kernel_entry irq_entry user_main idle_main : ℕ) where
  unfoldable pub init : Kernel → Option Kernel
  unfolding reset_devices set_vectors first_tasks setup_vectored_interrupts
  init k = do
    k₁ ← make_ready 0 (record k {
      tasks = first_tasks stack_start user_main idle_main k.tasks;
      sch = scheduler_init k.sch;
      mem = set_vectors irq_stack_start kernel_entry irq_entry k.mem;
      regs = reset_devices k.regs;
    })
    k₂ ← make_ready idle_task k₁
    some (record k₂ {
      eh = event_handler_init k₂.eh;
      next_free_td = 2;
      last_idle_time = 0;
      mem =
          write32 (update k₂.mem (is_exit_address stack_start) 0)
            (non_idle_time_address stack_start) 0;
      regs = setup_vectored_interrupts k₂.regs;
    })

-- The interrupt vector of the boot monitor comes back, and the devices are silenced.
unfoldable pub cleanup : Kernel → Kernel
cleanup k = record k {
  mem = write32 k.mem 0x38 0x8348;
  regs =
      update
        (update (update (update k.regs (vic2_base + 0x30) 0) (vic2_base + 0x200) 0)
          (vic2_base + 0x10) 0)
        (timer3_base + 0x8) 0;
}
