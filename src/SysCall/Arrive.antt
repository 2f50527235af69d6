-- ===== src/SysCall/Arrive.antt =====
-- What a system call asks for through a stub of src/sys_call/sys_call.c is what the kernel of src/main.c
-- does for it.
use armv4_kernel.Prelude.{
  ℕ, ◌+◌, ◌/◌, ◌%◌, ◌^◌, ◌<◌, ◌≤◌, ◌≡◌, ◌∙◌, refl, Bool, true, Option, some, arith, ◌==◌, ◌>>=◌,
  ◌⊎◌, inl, inr,
}
use armv4_kernel.Queue.{update}
use armv4_kernel.CString.{Bytes}
use armv4_kernel.Kernel.{
  Kernel, write_task, kernel_create, kernel_exit, kernel_pass, kernel_mytid, kernel_parenttid,
  kernel_await_event, kernel_panic,
}
use armv4_kernel.Kernel.Messages.{kernel_send, kernel_receive, kernel_reply}
use armv4_kernel.Kernel.Memory.{read32, write32}
use armv4_kernel.Kernel.Dispatch.{handle_swi, finish}
use armv4_kernel.SysCall
use armv4_kernel.SysCall.{Trap, put_params}

-- The state in which the kernel finds the task that traps.
abbrev pub trapped : ℕ → Trap → Kernel → Kernel
trapped active t k =
    record (write_task active (record (k.tasks.tds active) { frame = t.frame }) k) { mem = t.mem }

read-update :
    (mem : Bytes) (a b v : ℕ) → (b < a) ⊎ (a + 4 ≤ b) → read32 (update mem b v) a ≡ read32 mem a
read-update mem a b v (inl lt) = ground arith
read-update mem a b v (inr le) = ground arith

read-write : (mem : Bytes) (a w : ℕ) → w < 2 ^ 32 → read32 (write32 mem a w) a ≡ w
read-write mem a w lt =
    let b0 : write32 mem a w a ≡ w % 256 = ground arith in
    let b1 : write32 mem a w (a + 1) ≡ w / 256 % 256 = ground arith in
    let b2 : write32 mem a w (a + 2) ≡ w / 65536 % 256 = ground arith in
    let b3 : write32 mem a w (a + 3) ≡ w / 16777216 % 256 = ground arith in
    omega (arith, b0, b1, b2, b3)

read-write_apart :
    (mem : Bytes) (a b w : ℕ)
    → (b + 4 ≤ a) ⊎ (a + 4 ≤ b)
    → read32 (write32 mem b w) a ≡ read32 mem a
read-write_apart mem a b w (inl le) = ground arith
read-write_apart mem a b w (inr le) = ground arith

-- The calls of include/sys_call.h, with their arguments; `params` is where the stub of `Send` puts its
-- structure.
pub data Call : Type 0 where
  create : (priority code : ℕ) → Call
  my_tid my_parent_tid pass exit quit : Call
  send : (params tid msg msg_len rep rep_len : ℕ) → Call
  receive : (tid msg msg_len : ℕ) → Call
  reply : (tid rep rep_len : ℕ) → Call
  await_event panic : ℕ → Call

abbrev pub trap_of : Call → (ℕ → ℕ) → Bytes → Trap
trap_of (Call.create priority code) frame mem = SysCall.create priority code frame mem
trap_of Call.my_tid frame mem = SysCall.my_tid frame mem
trap_of Call.my_parent_tid frame mem = SysCall.my_parent_tid frame mem
trap_of Call.pass frame mem = SysCall.pass frame mem
trap_of Call.exit frame mem = SysCall.exit frame mem
trap_of Call.quit frame mem = SysCall.quit frame mem
trap_of (Call.send params tid msg msg_len rep rep_len) frame mem =
    SysCall.send params tid msg msg_len rep rep_len frame mem
trap_of (Call.receive tid msg msg_len) frame mem = SysCall.receive tid msg msg_len frame mem
trap_of (Call.reply tid rep rep_len) frame mem = SysCall.reply tid rep rep_len frame mem
trap_of (Call.await_event event) frame mem = SysCall.await_event event frame mem
trap_of (Call.panic msg) frame mem = SysCall.panic msg frame mem

-- What the kernel does for a call, with the call's own arguments.
abbrev pub served : (stack_start active : ℕ) → Call → Kernel → Option (Bool × Kernel)
served stack_start active (Call.create priority code) k =
    finish active (kernel_create stack_start active priority code k)
served stack_start active Call.my_tid k = finish active (kernel_mytid active k)
served stack_start active Call.my_parent_tid k = finish active (kernel_parenttid active k)
served stack_start active Call.pass k = finish active (do k' ← kernel_pass active k; some (0, k'))
served stack_start active Call.exit k = some (kernel_exit active k)
served stack_start active Call.quit k = some (true, k)
served stack_start active (Call.send params tid msg msg_len rep rep_len) k =
    finish active (kernel_send active tid msg msg_len rep rep_len k)
served stack_start active (Call.receive tid msg msg_len) k =
    finish active (kernel_receive active tid msg msg_len k)
served stack_start active (Call.reply tid rep rep_len) k =
    finish active (kernel_reply active tid rep rep_len k)
served stack_start active (Call.await_event event) k =
    finish active (kernel_await_event active event k)
served stack_start active (Call.panic msg) k = finish active (some (0, kernel_panic k))

-- The arguments fit their C types.
abbrev pub Fits : Call → Type 0
Fits (Call.send params tid msg msg_len rep rep_len) =
    (msg < 2 ^ 32) × (msg_len < 2 ^ 32) × (rep < 2 ^ 32) × (rep_len < 2 ^ 32)
Fits (Call.reply tid rep rep_len) = tid < 2 ^ 8
Fits _ = Unit

module _ (params tid msg msg_len rep rep_len : ℕ) (mem : Bytes) where
  -- The memory after the first one, two and three words.
  abbrev mem1 : Bytes
  mem1 = write32 (update mem params tid) (params + 4) msg

  abbrev mem2 : Bytes
  mem2 = write32 mem1 (params + 8) msg_len

  abbrev mem3 : Bytes
  mem3 = write32 mem2 (params + 12) rep

  abbrev put : Bytes
  put = put_params params tid msg msg_len rep rep_len mem

  put-tid : put params ≡ tid
  unfolding put_params
  put-tid = ground arith

  put-rep_len : rep_len < 2 ^ 32 → read32 put (params + 16) ≡ rep_len
  unfolding put_params
  put-rep_len lt = read-write mem3 (params + 16) rep_len lt

  put-rep : rep < 2 ^ 32 → read32 put (params + 12) ≡ rep
  unfolding put_params
  put-rep lt =
      read-write_apart mem3 (params + 12) (params + 16) rep_len (inr (omega arith))
      ∙ read-write mem2 (params + 12) rep lt

  put-msg_len : msg_len < 2 ^ 32 → read32 put (params + 8) ≡ msg_len
  unfolding put_params
  put-msg_len lt =
      read-write_apart mem3 (params + 8) (params + 16) rep_len (inr (omega arith))
      ∙ read-write_apart mem2 (params + 8) (params + 12) rep (inr (omega arith))
      ∙ read-write mem1 (params + 8) msg_len lt

  put-msg : msg < 2 ^ 32 → read32 put (params + 4) ≡ msg
  unfolding put_params
  put-msg lt =
      read-write_apart mem3 (params + 4) (params + 16) rep_len (inr (omega arith))
      ∙ read-write_apart mem2 (params + 4) (params + 12) rep (inr (omega arith))
      ∙ read-write_apart mem1 (params + 4) (params + 8) msg_len (inr (omega arith))
      ∙ read-write (update mem params tid) (params + 4) msg lt

module _ (stack_start active : ℕ) (k : Kernel) (frame : ℕ → ℕ) where
  -- A call that a task makes through its stub reaches the kernel with the arguments that were passed:
  -- what `handle` does on the trap is what the kernel's function for the call does with them, and then
  -- hands its result over. That holds of all eleven calls, whatever else the registers and the memory
  -- hold, if the task number of a `Reply` fits a byte, and the addresses and lengths of a `Send` fit 32
  -- bits.
  pub handle_swi-trap :
      (c : Call)
      → Fits c
      → handle_swi stack_start
          (trap_of c frame k.mem).code
          active
          (trapped active (trap_of c frame k.mem) k)
        ≡ served stack_start active c (trapped active (trap_of c frame k.mem) k)
  unfolding handle_swi SysCall.create SysCall.my_tid SysCall.my_parent_tid SysCall.pass SysCall.exit
      SysCall.quit SysCall.send SysCall.receive SysCall.reply SysCall.await_event SysCall.panic
  handle_swi-trap (Call.create priority code) ok =
      let self : (active == active) ≡ true = ground arith in rw self refl
  handle_swi-trap Call.my_tid ok = refl
  handle_swi-trap Call.my_parent_tid ok = refl
  handle_swi-trap Call.pass ok = refl
  handle_swi-trap Call.exit ok = refl
  handle_swi-trap Call.quit ok = refl
  handle_swi-trap (Call.send params tid msg msg_len rep rep_len) ok =
      let self : (active == active) ≡ true = ground arith in
      rw
        (
          self,
          put-tid params tid msg msg_len rep rep_len k.mem,
          put-msg params tid msg msg_len rep rep_len k.mem ok.0,
          put-msg_len params tid msg msg_len rep rep_len k.mem ok.1,
          put-rep params tid msg msg_len rep rep_len k.mem ok.2,
          put-rep_len params tid msg msg_len rep rep_len k.mem ok.3,
        )
        refl
  handle_swi-trap (Call.receive tid msg msg_len) ok =
      let self : (active == active) ≡ true = ground arith in rw self refl
  handle_swi-trap (Call.reply tid rep rep_len) ok =
      let self : (active == active) ≡ true = ground arith in
      let byte : tid % 256 ≡ tid = omega arith in rw (self, byte) refl
  handle_swi-trap (Call.await_event event) ok =
      let self : (active == active) ≡ true = ground arith in rw self refl
  handle_swi-trap (Call.panic msg) ok = refl
