-- ===== src/IoServer/Start.antt =====
-- How the I/O server of src/io_server/io_server.c and its notifiers start.
-- A task is the list of the system calls that it makes, in order; a call of `panic` is one of them, and
-- the task goes on. What the calls return is an argument. `WhoIs` of `NULL` is kept as it is called.
pub mod Agree
mod Tests
use armv4_kernel.Prelude.{
  ℕ, ◌%◌, Bool, true, false, Option, none, some, List, [], ◌∷◌, ◌++◌, ◌==◌, get_or, if◌then◌else◌,
}
use armv4_kernel.CString.{Bytes}
use armv4_kernel.Bwio.{com1, com2}
use armv4_kernel.EventHandler.{event_uart1_rx, event_uart1_tx, event_uart2_rx, event_uart2_tx}
use armv4_kernel.Kernel.Device.{uart1_base, uart2_base}

abbrev pub io_server_name1 : Bytes
io_server_name1 i =
    get_or (b'i' ∷ b'o' ∷ b'-' ∷ b's' ∷ b'e' ∷ b'r' ∷ b'v' ∷ b'e' ∷ b'r' ∷ b'-' ∷ b'1' ∷ []) i 0

abbrev pub io_server_name2 : Bytes
io_server_name2 i =
    get_or (b'i' ∷ b'o' ∷ b'-' ∷ b's' ∷ b'e' ∷ b'r' ∷ b'v' ∷ b'e' ∷ b'r' ∷ b'-' ∷ b'2' ∷ []) i 0

-- The functions that tasks of this file start in.
pub data Entry : Type 0 where
  io_server_main io_server_notifier_rx_main io_server_notifier_tx_main io_server_notifier_cts_main :
      Entry

-- A system call, or an access to a device register: `send_com` sends a COM number, `send_empty` a
-- message of no bytes, and `send_msg` an `io_server_msg_t`; `time` and `delay_until` ask the clock
-- server; `read` is a read of a word, with the value read.
pub data Call : Type 0 where
  create : (priority : ℕ) → Entry → Call
  send_com : (tid com_num : ℕ) → Call
  send_empty reply_empty await_event : ℕ → Call
  receive_com receive_empty panic : Call
  register_as : Bytes → Call
  who_is : Option Bytes → Call
  send_msg delay_until : ℕ → Call
  read : (address value : ℕ) → Call
  time : Call
  write : (address byte : ℕ) → Call

abbrev pub panic_if : Bool → List Call
panic_if true = Call.panic ∷ []
panic_if false = []

-- What `Receive` gives a task at its start: whether it failed, the sender, and the COM number.
pub record Parent : Type 0 where
  pub failed : Bool
  pub tid : ℕ
  pub com_num : ℕ

-- `Receive` of the COM number, and the empty reply.
abbrev pub get_com_number : Parent → List Call
get_com_number p = Call.receive_com ∷ panic_if p.failed ++ Call.reply_empty p.tid ∷ []

abbrev pub register : ℕ → List Call
register com_num =
    if com_num == com1
    then Call.register_as io_server_name1 ∷ []
    else if com_num == com2
    then Call.register_as io_server_name2 ∷ []
    else Call.panic ∷ []

-- `io_server_main` up to its loop. The notifiers' task numbers are what `Create` returns, as bytes.
unfoldable pub io_server_main_start :
    Parent → (tx_tid rx_tid : ℕ) → (tx_failed rx_failed : Bool) → List Call
io_server_main_start p tx_tid rx_tid tx_failed rx_failed =
    get_com_number p
    ++ (register p.com_num
        ++ (Call.create 1 Entry.io_server_notifier_tx_main
            ∷ Call.create 1 Entry.io_server_notifier_rx_main
            ∷ Call.send_com (tx_tid % 256) p.com_num
            ∷ (panic_if tx_failed ++ Call.send_com (rx_tid % 256) p.com_num ∷ panic_if rx_failed)))

-- What a notifier picks for its COM number: the UART, the event and the server's name. The first
-- values are those that its variables start with.
pub record Choice : Type 0 where
  pub uart_base : Option ℕ
  pub event : ℕ
  pub name : Option Bytes

unfoldable pub rx_choice : ℕ → List Call × Choice
rx_choice com_num =
    if com_num == com1
    then (
      [],
      record { uart_base = some uart1_base; event = event_uart1_rx; name = some io_server_name1 },
    )
    else if com_num == com2
    then (
      [],
      record { uart_base = some uart2_base; event = event_uart2_rx; name = some io_server_name2 },
    )
    else (Call.panic ∷ [], record { uart_base = none; event = event_uart2_rx; name = none })

-- On COM1 the transmit notifier starts the CTS notifier, and sends it its first message.
unfoldable pub tx_choice : (com_num cts_tid : ℕ) → List Call × Choice
tx_choice com_num cts_tid =
    if com_num == com1
    then (
      Call.create 1 Entry.io_server_notifier_cts_main ∷ Call.send_empty (cts_tid % 256) ∷ [],
      record { uart_base = some uart1_base; event = event_uart1_tx; name = some io_server_name1 },
    )
    else if com_num == com2
    then (
      [],
      record { uart_base = some uart2_base; event = event_uart2_tx; name = some io_server_name2 },
    )
    else (Call.panic ∷ [], record { uart_base = none; event = event_uart2_tx; name = none })

-- The notifiers up to their loops.
unfoldable pub rx_start : Parent → List Call × Choice
unfolding rx_choice
rx_start p =
    let (calls, c) = rx_choice p.com_num in
    (get_com_number p ++ (calls ++ Call.who_is c.name ∷ []), c)

unfoldable pub tx_start : Parent → ℕ → List Call × Choice
unfolding tx_choice
tx_start p cts_tid =
    let (calls, c) = tx_choice p.com_num cts_tid in
    (get_com_number p ++ (calls ++ Call.who_is c.name ∷ []), c)

-- `Create`, and the COM number for the new task; the result is its number, as a byte.
unfoldable pub io_server_start : (priority uart created : ℕ) → Bool → List Call × ℕ
io_server_start priority uart created failed = (
  Call.create priority Entry.io_server_main ∷ Call.send_com (created % 256) uart ∷ panic_if failed,
  created % 256,
)
