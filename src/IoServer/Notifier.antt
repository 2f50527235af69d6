-- ===== src/IoServer/Notifier.antt =====
-- The notifiers of src/io_server/io_server.c that wait for the UART's interrupts.
-- What `AwaitEvent` and `Send` do in each round is given: the byte that came, and the server's reply, or
-- `none` for a negative result, on which the notifier panics and goes on. The start, in which the COM
-- number comes in, is in Start, and the handshake with the CTS notifier on COM1 in Cts.
use armv4_kernel.Prelude.{
  ℕ, zero, suc, ◌+◌, ◌%◌, Bool, true, false, Option, none, some, List, [], ◌∷◌, ◌++◌,
}
use armv4_kernel.Queue.{update}
use armv4_kernel.CString.{Bytes}
use armv4_kernel.IoServer.{IoServerMsg, IoServerMsgType}

abbrev pub is_exit : IoServerMsgType → Bool
is_exit IoServerMsgType.exit = true
is_exit _ = false

-- The messages that the receive notifier sends; `msg` is the one it fills in again in each round.
unfoldable pub io_server_notifier_rx_main :
    List (ℕ × Option IoServerMsg) → IoServerMsg → List IoServerMsg
io_server_notifier_rx_main [] msg = []
io_server_notifier_rx_main ((byte, res) ∷ rounds) msg =
    let sent : IoServerMsg = record msg { bytes = update msg.bytes 0 (byte % 256) } in
    let later = io_server_notifier_rx_main rounds sent in
    elim res [
      | none ↦ sent ∷ later
      | some rep ↦ elim (is_exit rep.type) [ true ↦ sent ∷ [] | false ↦ sent ∷ later ]
    ]

-- The bytes that one reply puts into the data register, from index `i` on.
unfoldable pub transmit : ℕ → ℕ → Bytes → List ℕ
transmit zero i bytes = []
transmit (suc n) i bytes = bytes i % 256 ∷ transmit n (i + 1) bytes

-- The bytes that the transmit notifier puts into the data register, given what its calls of `Send` do.
unfoldable pub io_server_notifier_tx_main : List (Option IoServerMsg) → List ℕ
unfolding transmit
io_server_notifier_tx_main [] = []
io_server_notifier_tx_main (res ∷ rounds) =
    let later = io_server_notifier_tx_main rounds in
    elim res [
      | none ↦ later
      | some rep ↦ elim (is_exit rep.type) [
        | true ↦ []
        | false ↦ transmit rep.len 0 rep.bytes ++ later
      ]
    ]
