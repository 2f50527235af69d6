-- ===== src/ClockServer/Client.antt =====
-- The functions of src/clock_server/clock_server.c that its clients call.
-- `send` is what the system call `Send` does with a message for the server: its result, and what `rep`
-- then holds. `msg` is what the uninitialised variable holds. The printed lines are left out.
use armv4_kernel.Prelude.{ℕ, Bool, true, false, not, ◌==◌, if◌then◌else◌}
use armv4_kernel.Task.{minus}
use armv4_kernel.ClockServer.{ClockServerMsg, ClockServerMsgType}

abbrev pub is_error : ClockServerMsgType → Bool
is_error ClockServerMsgType.error = true
is_error _ = false

abbrev pub delay_msg : ℕ → ClockServerMsg
delay_msg ticks = record { type = ClockServerMsgType.delay; time = ticks }

abbrev pub delay_until_msg : ℕ → ClockServerMsg
delay_until_msg ticks = record { type = ClockServerMsgType.delayuntil; time = ticks }

module _ (send : ClockServerMsg → ℕ × ClockServerMsg) where
  unfoldable pub delay : ℕ → ℕ
  delay ticks =
      let msg = delay_msg ticks in
      let (res, rep) = send msg in
      if not (res == 0) then minus 1 else if is_error msg.type then minus 2 else 0

  unfoldable pub time : ClockServerMsg → ℕ
  time msg =
      let (res, rep) = send (record msg { type = ClockServerMsgType.time }) in
      if not (res == 0) then minus 1 else rep.time

  unfoldable pub delay_until : ℕ → ℕ
  delay_until ticks =
      let msg = delay_until_msg ticks in
      let (res, rep) = send msg in
      if not (res == 0) then minus 1 else if is_error msg.type then minus 2 else 0

  -- Whether it prints that it failed.
  unfoldable pub clock_server_exit : ClockServerMsg → Bool
  clock_server_exit msg =
      let (res, rep) = send (record msg { type = ClockServerMsgType.exit }) in not (res == 0)
