-- ===== src/Kernel/Sound/Swi.antt =====
-- `handle` of src/main.c keeps the kernel's queues whole.
use armv4_kernel.Prelude.{
  ℕ, if◌then◌else◌, ◌<◌, ◌≡◌, ◌≢◌, inl, inr, refl, Bool, true, false, Option, none, some, arith,
  ◌==◌, Bool-cases, ◌%◌,
}
use armv4_kernel.Task.{TaskState, minus, task_descriptor_set_return_value}
use armv4_kernel.Kernel.Dispatch.{SysCode, sys_code, handle_swi, handle, finish}
use armv4_kernel.Kernel.Sound.Send.{kernel_send-Succeeds}
use armv4_kernel.Kernel.Sound.Receive.{kernel_receive-Succeeds}
use armv4_kernel.Kernel.Sound.Reply.{kernel_reply-Succeeds}
use armv4_kernel.Kernel.Sound.Create.{kernel_create-Succeeds}
use armv4_kernel.Kernel.Sound.Await.{kernel_await_event-Succeeds}
use armv4_kernel.Kernel.Sound.Interrupt.{IsExpected, handle_irq-Sound}
use armv4_kernel.Kernel.{
  kernel_exit, kernel_pass, kernel_mytid, kernel_parenttid, Kernel, write_state,
}
use armv4_kernel.Kernel.Ready.{answered}
use armv4_kernel.Kernel.Sound.{Places, IsSound}
use armv4_kernel.Kernel.Sound.Still.{Stays-IsSound}
use armv4_kernel.Kernel.Sound.Running.{
  IsRunning, Spares, Spares-then, Succeeds, rewrite-Stays, go_on, go_on_with,
}

-- What a system call may ask for: a message goes to a task that was made, and a reply to one that waits
-- for it, or that expects another length.
abbrev pub IsAllowed : SysCode → ℕ → Kernel → Type 0
IsAllowed SysCode.send active k = k.mem ((k.tasks.tds active).frame 0) < k.next_free_td
IsAllowed SysCode.reply active k =
    let to = (k.tasks.tds active).frame 0 % 256 in
    (to < k.next_free_td)
    × ((k.tasks.tds to).message_params.rep_len ≡ (k.tasks.tds active).frame 2
        → (k.tasks.tds to).state ≡ TaskState.reply_blocked)
IsAllowed SysCode.panic active k = ⊥
IsAllowed SysCode.unknown active k = ⊥
IsAllowed _ active k = Unit

-- The kernel does not fault, and leaves whole queues.
abbrev pub Survives : Option (Bool × Kernel) → Type 0
Survives r = (ended : Bool) × (k' : Kernel) × (P : Places) × (r ≡ some (ended, k')) × IsSound k' P

-- Moreover it spares the tasks that wait for a reply, but for the running task and the task `to`.
abbrev pub Isolates : (active to : ℕ) → Kernel → Option (Bool × Kernel) → Type 0
Isolates active to k r =
    (ended : Bool) × (k' : Kernel) × (P : Places) × (r ≡ some (ended, k'))
    × IsSound k' P
    × Spares active to k k'

-- The task that a system call replies to; there is none if it is the running task.
abbrev pub replied : SysCode → (active arg0 : ℕ) → ℕ
replied SysCode.reply active arg0 = arg0 % 256
replied _ active arg0 = active

-- The task that a trap replies to; there is none if it is the running task.
abbrev pub replied_by : (irq req active : ℕ) → Kernel → ℕ
replied_by irq req active k =
    if irq == 0 then replied (sys_code req) active ((k.tasks.tds active).frame 0) else active

-- The result is handed to the caller.
finish-Isolates :
    (active to : ℕ) (k : Kernel) (r : Option (ℕ × Kernel))
    → Succeeds active to k r
    → Isolates active to k (finish active r)
unfolding task_descriptor_set_return_value
finish-Isolates active to k r (ret, k', P, e, h, spares) = (
  false,
  answered active ret k',
  P,
  rw e refl,
  Stays-IsSound h (rewrite-Stays k' P active _ k'.mem refl refl refl (inl refl)),
  Spares-then active to k k' (answered active ret k') refl (λ u na. ground arith) spares,
)

module _ (stack_start : ℕ) {k : Kernel} {P : Places} (h : IsSound k P) (active : ℕ)
    (r : IsRunning k P active) where
  pub handle_swi-Isolates :
      (code : SysCode)
      → IsAllowed code active k
      → Isolates active
          (replied code active ((k.tasks.tds active).frame 0))
          k
          (handle_swi stack_start code active k)
  unfolding handle_swi kernel_exit kernel_pass kernel_mytid kernel_parenttid
  handle_swi-Isolates SysCode.exit ok = (
    _,
    write_state active TaskState.exited k,
    P,
    refl,
    Stays-IsSound h (rewrite-Stays k P active _ k.mem refl refl refl (inr r.free)),
    λ u lt na nt st. (lt, ground arith),
  )
  handle_swi-Isolates SysCode.pass ok =
      finish-Isolates active _ k _ (go_on h active r.free active 0)
  handle_swi-Isolates SysCode.create ok =
      finish-Isolates active _ k _ (kernel_create-Succeeds stack_start h active _ _ r)
  handle_swi-Isolates SysCode.mytid ok =
      finish-Isolates active _ k _
        (go_on_with h active r.free active (λ k'. (k'.tasks.tds active).tid))
  handle_swi-Isolates SysCode.parenttid ok = finish-Isolates active _ k _ (
      go_on_with h active r.free active λ k'. elim (k'.tasks.tds active).parent [
        | none ↦ minus 1
        | some parent ↦ (k'.tasks.tds parent).tid
      ])
  handle_swi-Isolates SysCode.send ok =
      finish-Isolates active _ k _ (kernel_send-Succeeds h active _ _ _ _ _ r ok)
  handle_swi-Isolates SysCode.receive ok =
      finish-Isolates active _ k _ (kernel_receive-Succeeds h active _ _ _ r)
  handle_swi-Isolates SysCode.reply ok =
      finish-Isolates active _ k _ (kernel_reply-Succeeds h active _ _ _ r ok.0 ok.1)
  handle_swi-Isolates SysCode.await_event ok =
      finish-Isolates active _ k _ (kernel_await_event-Succeeds h active _ r)
  handle_swi-Isolates SysCode.quit ok = (true, k, P, refl, h, λ u lt na nt st. (lt, refl))
  handle_swi-Isolates SysCode.panic ok = absurd ok
  handle_swi-Isolates SysCode.unknown ok = absurd ok

  -- Let the kernel's queues be whole, and let the running task, which is in none of them, trap: by a
  -- system call other than `Panic` and those that do not exist, where `Send` and `Reply` name a task
  -- that was made, and a `Reply` of the length that its receiver asked for goes to a task that waits
  -- for a reply; or by an interrupt of the timer, or of a UART whose status has a bit that its branch
  -- tests. Then `handle` does not fault, on any of its branches, leaves the queues whole, and leaves
  -- the descriptor of every other task that waits for a reply as it was, its send queue apart, unless
  -- the call is a `Reply` to that task.
  pub handle-Isolates :
      (irq req : ℕ)
      → (irq ≡ 0 → IsAllowed (sys_code req) active k)
      → (irq ≢ 0 → IsExpected k.regs)
      → Isolates active (replied_by irq req active k) k (handle stack_start irq req active k)
  unfolding handle
  handle-Isolates irq req ok expected = elim (Bool-cases (irq == 0)) [
    | inl e ↦ rw e (handle_swi-Isolates (sys_code req) (ok (ground arith)))
    | inr e ↦
        let (k', P', run, h', spares) =
          handle_irq-Sound h active r.free (expected (ground arith)) in
        rw e (false, k', P', run, h', spares)
  ]

  pub handle-Survives :
      (irq req : ℕ)
      → (irq ≡ 0 → IsAllowed (sys_code req) active k)
      → (irq ≢ 0 → IsExpected k.regs)
      → Survives (handle stack_start irq req active k)
  handle-Survives irq req ok expected =
      let (ended, k', P', run, h', spares) = handle-Isolates irq req ok expected in
      (ended, k', P', run, h')
