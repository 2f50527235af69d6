-- ===== src/IoServer/Cts.antt =====
-- The handshake on COM1 of src/io_server/io_server.c: the CTS notifier, and the loop of the transmit
-- notifier with the calls that it makes.
-- What the calls return is an argument, for each round of a loop. `DelayUntil` and `Time` are calls too.
pub mod Pace
mod Tests
use Prim.Native.Nat.{bit_and}
use armv4_kernel.Prelude.{
  ℕ, zero, suc, ◌+◌, ◌*◌, ◌%◌, ◌^◌, Bool, true, false, Option, none, some, List, [], ◌∷◌, ◌++◌,
  ◌==◌, get_or, if◌then◌else◌,
}
use armv4_kernel.CString.{Bytes}
use armv4_kernel.Bwio.{com1}
use armv4_kernel.EventHandler.{event_uart1_ms}
use armv4_kernel.Kernel.Device.{uart1_base, uart_flag_offset}
use armv4_kernel.IoServer.{IoServerMsg}
use armv4_kernel.IoServer.Notifier.{is_exit}
use armv4_kernel.IoServer.Start.{Call, panic_if}

abbrev pub clock_server_name : Bytes
clock_server_name i =
    get_or (b'c' ∷ b'l' ∷ b'o' ∷ b'c' ∷ b'k' ∷ b'_' ∷ b's' ∷ b'e' ∷ b'r' ∷ b'v' ∷ b'e' ∷ b'r' ∷ [])
      i 0

abbrev pub cts_mask : ℕ
cts_mask = 0x1

-- `uart_base + UART_FLAG_OFFSET`, where `uart_base` points to words of 4 bytes.
abbrev pub cts_address : ℕ
cts_address = uart1_base + 4 * uart_flag_offset

-- One round of the CTS notifier: what `Time` returns, whether `AwaitEvent` fails, the word that it reads,
-- and whether `Send` fails.
pub record CtsRound : Type 0 where
  pub cur_time : ℕ
  pub await_failed : Bool
  pub flag : ℕ
  pub send_failed : Bool

abbrev pub is_clear : ℕ → Bool
is_clear flag = bit_and flag cts_mask == 0

unfoldable pub cts_round : ℕ → CtsRound → List Call
cts_round tx_notifier_tid r =
    Call.time
    ∷ Call.await_event event_uart1_ms
    ∷ (panic_if r.await_failed
        ++ Call.read cts_address r.flag
          ∷ (if is_clear r.flag
              then Call.delay_until ((r.cur_time + 1) % 2 ^ 32)
                ∷ Call.send_empty tx_notifier_tid
                ∷ panic_if r.send_failed
              else []))

unfoldable pub cts_loop : ℕ → List CtsRound → List Call
cts_loop tx_notifier_tid [] = []
cts_loop tx_notifier_tid (r ∷ rs) = cts_round tx_notifier_tid r ++ cts_loop tx_notifier_tid rs

-- The task that sends the first message is the transmit notifier.
unfoldable pub io_server_notifier_cts_main : ℕ → Bool → List CtsRound → List Call
io_server_notifier_cts_main tx_notifier_tid send_failed rounds =
    Call.who_is (some clock_server_name)
    ∷ Call.receive_empty
    ∷ Call.reply_empty tx_notifier_tid
    ∷ Call.send_empty tx_notifier_tid
    ∷ (panic_if send_failed ++ cts_loop tx_notifier_tid rounds)

-- One round of the transmit notifier's loop: for each byte whether `AwaitEvent` fails and, on COM1, who
-- sent the empty message; and what `Send` returns.
pub record TxRound : Type 0 where
  pub await_failed : ℕ → Bool
  pub sender : ℕ → ℕ
  pub answer : Option IoServerMsg

module _ (uart_base tx_event : ℕ) where
  -- The bytes of a reply from index `i` on, on COM1 and on COM2. The data register is at offset 0.
  unfoldable pub transmit1 : TxRound → ℕ → ℕ → Bytes → List Call
  transmit1 r zero i bytes = []
  transmit1 r (suc n) i bytes =
      Call.await_event tx_event
      ∷ Call.receive_empty
      ∷ Call.reply_empty (r.sender i)
      ∷ (panic_if (r.await_failed i)
          ++ Call.write uart_base (bytes i % 256) ∷ transmit1 r n (i + 1) bytes)

  unfoldable pub transmit2 : TxRound → ℕ → ℕ → Bytes → List Call
  transmit2 r zero i bytes = []
  transmit2 r (suc n) i bytes =
      Call.await_event tx_event
      ∷ (panic_if (r.await_failed i)
          ++ Call.write uart_base (bytes i % 256) ∷ transmit2 r n (i + 1) bytes)

  -- The loop, with `len` and `bytes` of the reply at hand, which is empty at first. After a failed
  -- `Send` the reply counts as an empty one.
  unfoldable pub tx_loop : (com_num io_server_tid len : ℕ) → Bytes → List TxRound → List Call
  unfolding transmit1 transmit2
  tx_loop com_num io_server_tid len bytes [] = []
  tx_loop com_num io_server_tid len bytes (r ∷ rs) =
      let calls = if com_num == com1 then transmit1 r len 0 bytes else transmit2 r len 0 bytes in
      let failed = tx_loop com_num io_server_tid 0 bytes rs in
      calls
      ++ Call.send_msg io_server_tid ∷ elim r.answer [
        | none ↦ Call.panic ∷ failed
        | some rep ↦
            let later = tx_loop com_num io_server_tid rep.len rep.bytes rs in
            if is_exit rep.type then [] else later
      ]
