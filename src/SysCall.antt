-- ===== src/SysCall.antt =====
-- The system call stubs of src/sys_call/sys_call.c, as far as the kernel sees them: what the saved
-- registers and the task's memory hold when the `swi` instruction traps, and the code in it.
-- By the calling convention the first three arguments are in r0 to r2, and a stub's result is what r0
-- holds when it goes on. What else the caller's registers and memory hold is an argument.
pub mod Arrive
mod Tests
use armv4_kernel.Prelude.{ℕ, ◌+◌}
use armv4_kernel.Queue.{update}
use armv4_kernel.CString.{Bytes}
use armv4_kernel.Kernel.Dispatch.{SysCode}
use armv4_kernel.Kernel.Memory.{write32}

-- A task at a trap.
pub record Trap : Type 0 where
  pub code : SysCode
  pub frame : ℕ → ℕ
  pub mem : Bytes

-- The registers r0, r1 and r2.
abbrev pub arg0 : ℕ → (ℕ → ℕ) → ℕ → ℕ
arg0 a frame = update frame 0 a

abbrev pub arg1 : (a b : ℕ) → (ℕ → ℕ) → ℕ → ℕ
arg1 a b frame = update (arg0 a frame) 1 b

abbrev pub arg2 : (a b c : ℕ) → (ℕ → ℕ) → ℕ → ℕ
arg2 a b c frame = update (arg1 a b frame) 2 c

-- `swi code`
abbrev pub swi : SysCode → (ℕ → ℕ) → Bytes → Trap
swi code frame mem = record { code = code; frame = frame; mem = mem }

unfoldable pub create : (priority code : ℕ) → (ℕ → ℕ) → Bytes → Trap
create priority code frame mem = swi SysCode.create (arg1 priority code frame) mem

unfoldable pub my_tid : (ℕ → ℕ) → Bytes → Trap
my_tid frame mem = swi SysCode.mytid frame mem

unfoldable pub my_parent_tid : (ℕ → ℕ) → Bytes → Trap
my_parent_tid frame mem = swi SysCode.parenttid frame mem

unfoldable pub pass : (ℕ → ℕ) → Bytes → Trap
pass frame mem = swi SysCode.pass frame mem

unfoldable pub exit : (ℕ → ℕ) → Bytes → Trap
exit frame mem = swi SysCode.exit frame mem

-- `send_params_t` at the address `params` of the caller's stack: a byte, and four words behind it.
unfoldable pub put_params : (params tid msg msg_len rep rep_len : ℕ) → Bytes → Bytes
put_params params tid msg msg_len rep rep_len mem =
    write32
      (write32 (write32 (write32 (update mem params tid) (params + 4) msg) (params + 8) msg_len)
        (params + 12) rep)
      (params + 16) rep_len

unfoldable pub send : (params tid msg msg_len rep rep_len : ℕ) → (ℕ → ℕ) → Bytes → Trap
unfolding put_params
send params tid msg msg_len rep rep_len frame mem =
    swi SysCode.send (arg0 params frame) (put_params params tid msg msg_len rep rep_len mem)

unfoldable pub receive : (tid msg msg_len : ℕ) → (ℕ → ℕ) → Bytes → Trap
receive tid msg msg_len frame mem = swi SysCode.receive (arg2 tid msg msg_len frame) mem

unfoldable pub reply : (tid rep rep_len : ℕ) → (ℕ → ℕ) → Bytes → Trap
reply tid rep rep_len frame mem = swi SysCode.reply (arg2 tid rep rep_len frame) mem

unfoldable pub await_event : (event : ℕ) → (ℕ → ℕ) → Bytes → Trap
await_event event frame mem = swi SysCode.await_event (arg0 event frame) mem

unfoldable pub panic : (msg : ℕ) → (ℕ → ℕ) → Bytes → Trap
panic msg frame mem = swi SysCode.panic (arg0 msg frame) mem

unfoldable pub quit : (ℕ → ℕ) → Bytes → Trap
quit frame mem = swi SysCode.quit frame mem
