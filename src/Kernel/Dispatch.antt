-- ===== src/Kernel/Dispatch.antt =====
-- `handle` of src/main.c, the main loop around it, and the panic on the way out.
-- `activate` is assembler: what a task does until it traps is an argument `run`, which gives the state
-- at the trap, the word at the bottom of the interrupt stack, and the system code.
pub mod Irq
use armv4_kernel.Prelude.{
  ℕ, zero, suc, ◌+◌, ◌-◌, ◌*◌, ◌%◌, ◌/◌, ◌^◌, Bool, true, false, Option, none, some, ◌==◌,
  if◌then◌else◌, ◌>>=◌,
}
use Prim.Native.Nat.{bit_or}
use armv4_kernel.Queue.{update}
use armv4_kernel.Task.{mem_task_stack_start}
use armv4_kernel.Scheduler.{scheduler_get}
use armv4_kernel.EventHandler.{event_handler_empty}
use armv4_kernel.Kernel.{
  Kernel, set_return_value, kernel_create, kernel_exit, kernel_pass, kernel_mytid, kernel_parenttid,
  kernel_await_event, kernel_panic,
}
use armv4_kernel.Kernel.Memory.{Regs, read32, write32}
use armv4_kernel.Kernel.Messages.{kernel_send, kernel_receive, kernel_reply}
use Irq.{handle_irq}

-- `sys_code_t` of include/internal/sys_codes.h
pub data SysCode : Type 0 where
  exit pass create mytid parenttid send receive reply await_event panic quit unknown : SysCode

abbrev pub sys_code : ℕ → SysCode
sys_code req =
    if req == 0
    then SysCode.exit
    else if req == 1
    then SysCode.pass
    else if req == 2
    then SysCode.create
    else if req == 3
    then SysCode.mytid
    else if req == 4
    then SysCode.parenttid
    else if req == 5
    then SysCode.send
    else if req == 6
    then SysCode.receive
    else if req == 7
    then SysCode.reply
    else if req == 8
    then SysCode.await_event
    else if req == 9
    then SysCode.panic
    else if req == 10
    then SysCode.quit
    else SysCode.unknown

-- The end of the `switch`: the result goes to the task, and the kernel goes on.
abbrev pub finish : ℕ → Option (ℕ × Kernel) → Option (Bool × Kernel)
finish active result = do (ret, k) ← result; some (false, set_return_value active ret k)

-- `clock()` of src/cstdlib/time.c
abbrev pub clock : Regs → ℕ
clock regs = bit_or (regs 0x8081_0060) (regs 0x8081_0064 % 256 * 2 ^ 32)

abbrev pub idle_task : ℕ
idle_task = 1

module _ (stack_start : ℕ) where
  -- The system call `code`, with the arguments in the saved registers r0 to r2. `send_params_t` lies
  -- in memory at r0.
  unfoldable pub handle_swi : SysCode → ℕ → Kernel → Option (Bool × Kernel)
  handle_swi code active k =
      let arg0 = (k.tasks.tds active).frame 0 in
      let arg1 = (k.tasks.tds active).frame 1 in
      let arg2 = (k.tasks.tds active).frame 2 in
      elim code [
        | exit ↦ some (kernel_exit active k)
        | pass ↦ finish active (do k' ← kernel_pass active k; some (0, k'))
        | create ↦ finish active (kernel_create stack_start active arg0 arg1 k)
        | mytid ↦ finish active (kernel_mytid active k)
        | parenttid ↦ finish active (kernel_parenttid active k)
        | send ↦ finish active (
            kernel_send active (k.mem arg0) (read32 k.mem (arg0 + 4)) (read32 k.mem (arg0 + 8))
              (read32 k.mem (arg0 + 12)) (read32 k.mem (arg0 + 16)) k)
        | receive ↦ finish active (kernel_receive active arg0 arg1 arg2 k)
        | reply ↦ finish active (kernel_reply active (arg0 % 256) arg1 arg2 k)
        | await_event ↦ finish active (kernel_await_event active arg0 k)
        | panic ↦ finish active (some (0, kernel_panic k))
        | quit ↦ some (true, k)
        | unknown ↦ finish active (some (0, kernel_panic k))
      ]

  -- `irq` is the word at the bottom of the interrupt stack, 0 for a system call.
  unfoldable pub handle : ℕ → ℕ → ℕ → Kernel → Option (Bool × Kernel)
  handle irq req active k =
      if irq == 0 then handle_swi (sys_code req) active k else handle_irq active k

  abbrev pub is_exit_address : ℕ
  is_exit_address = (mem_task_stack_start stack_start idle_task + 2 ^ 32 - 0x100) % 2 ^ 32

  abbrev pub non_idle_time_address : ℕ
  non_idle_time_address = (mem_task_stack_start stack_start idle_task + 2 ^ 32 - 0x104) % 2 ^ 32

  unfoldable pub update_idle_task : Kernel → Kernel
  update_idle_task k =
      let mem = update k.mem is_exit_address (if event_handler_empty k.eh then 1 else 0) in
      let passed = (clock k.regs + 2 ^ 32 - k.last_idle_time) % 2 ^ 32 in
      record k {
        mem =
            write32 mem non_idle_time_address
              ((read32 mem non_idle_time_address + passed) % 2 ^ 32);
      }

  unfoldable pub end_idle_task : Kernel → Kernel
  end_idle_task k = record k { last_idle_time = clock k.regs % 2 ^ 32 }

  abbrev pub is_idle : ℕ → Kernel → Bool
  is_idle active k = (k.tasks.tds active).tid == idle_task

  module _ (run : ℕ → Kernel → Kernel × ℕ × ℕ) where
    -- One round of the loop of `main`. The flag tells that the loop ends.
    unfoldable pub round : Kernel → Option (Bool × Kernel)
    round k = do
      (next, sch, ts) ← scheduler_get k.sch k.tasks
      let k₁ = record k { tasks = ts; sch = sch }
      elim next [
        | none ↦ some (true, k₁)
        | some active ↦
            let k₂ = if is_idle active k₁ then update_idle_task k₁ else k₁ in
            let (k₃, irq, req) = run active k₂ in
            let k₄ = if is_idle active k₃ then end_idle_task k₃ else k₃ in handle irq req active k₄
      ]

    -- `while (true)` with fuel; the flag is false if the fuel ran out.
    unfoldable pub main_loop : ℕ → Kernel → Option (Bool × Kernel)
    unfolding round
    main_loop zero k = some (false, k)
    main_loop (suc fuel) k = do
      (done, k') ← round k
      elim done [ true ↦ some (true, k') | false ↦ main_loop fuel k' ]
