-- ===== src/SysCall/Tests.antt =====
-- Tests of the model of src/sys_call/sys_call.c.
use armv4_kernel.Prelude.{ℕ, ◌+◌, ◌≡◌, arith}
use armv4_kernel.Kernel.Dispatch.{handle_swi}
use armv4_kernel.Kernel.Tests.{kernel}
use armv4_kernel.SysCall.Arrive.{Call, trap_of, trapped, served, handle_swi-trap}

abbrev message : Call
message = Call.send 0x4000 3 150 4 400 8

abbrev registers : ℕ → ℕ
registers i = i + 100

handle_swi-trap_example :
    handle_swi 0x1000000
      (trap_of message registers kernel.mem).code
      2
      (trapped 2 (trap_of message registers kernel.mem) kernel)
    ≡ served 0x1000000 2 message (trapped 2 (trap_of message registers kernel.mem) kernel)
handle_swi-trap_example =
    handle_swi-trap 0x1000000 2 kernel registers message
      (omega arith, omega arith, omega arith, omega arith)
