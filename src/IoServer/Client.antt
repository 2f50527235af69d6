-- ===== src/IoServer/Client.antt =====
-- The functions of src/io_server/io_server.c that its clients call.
-- `send` is what the system call `Send` does with a message for the server: `none` is a negative result,
-- else the reply. A function returns the message it sends and its result; `msg` and `uart`, which no
-- function reads before it sets the fields it needs, are left as found. An `int` is its 32-bit pattern.
pub mod Short
use armv4_kernel.Prelude.{ℕ, ◌+◌, Bool, true, false, Option, none, some, ltb, if◌then◌else◌}
use armv4_kernel.Queue.{update}
use armv4_kernel.Task.{minus}
use armv4_kernel.CString.{Bytes, memcpy}
use armv4_kernel.IoServer.{IoServerMsg, IoServerMsgType, msg_max_data_len}

-- `msg` is what the uninitialised variable holds.
unfoldable pub getc_msg : IoServerMsg → IoServerMsg
getc_msg msg = record msg { type = IoServerMsgType.client_read; len = 1 }

unfoldable pub putc_msg : IoServerMsg → ℕ → IoServerMsg
putc_msg msg ch = record {
  type = IoServerMsgType.client_write;
  bytes = update msg.bytes 0 ch;
  len = 1;
}

-- `to` is the address of `msg.data`, and `mem` holds its bytes and those of `str`.
unfoldable pub putstr_msg : (to str len : ℕ) → Bytes → IoServerMsg
putstr_msg to str len mem =
    let n = if ltb len msg_max_data_len then len else msg_max_data_len in
    record {
      type = IoServerMsgType.client_write;
      bytes = λ i. memcpy to str n mem (to + i);
      len = n;
    }

unfoldable pub exit_msg : IoServerMsg → IoServerMsg
exit_msg msg = record msg { type = IoServerMsgType.exit; len = 0 }

module _ (send : IoServerMsg → Option IoServerMsg) where
  unfoldable pub getc : IoServerMsg → ℕ
  unfolding getc_msg
  getc msg = elim (send (getc_msg msg)) [ none ↦ minus 2 | some rep ↦ rep.bytes 0 ]

  unfoldable pub putc : IoServerMsg → ℕ → ℕ
  unfolding putc_msg
  putc msg ch = elim (send (putc_msg msg ch)) [ none ↦ minus 2 | some rep ↦ 0 ]

  unfoldable pub putstr : (to str len : ℕ) → Bytes → ℕ
  unfolding putstr_msg
  putstr to str len mem = elim (send (putstr_msg to str len mem)) [ none ↦ minus 2 | some rep ↦ 0 ]

  -- Whether it panics.
  unfoldable pub io_server_exit : IoServerMsg → Bool
  unfolding exit_msg
  io_server_exit msg = elim (send (exit_msg msg)) [ none ↦ true | some rep ↦ false ]
