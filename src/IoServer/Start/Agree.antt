-- ===== src/IoServer/Start/Agree.antt =====
-- The I/O server of src/io_server/io_server.c and its notifiers mean the same UART.
use armv4_kernel.Prelude.{
  ℕ, ◌+◌, ◌≤◌, ◌≡◌, ◌≢◌, ◌⊎◌, inl, inr, refl, Bool, true, false, ◌||◌, Option, none, some, List, [],
  ◌∷◌, arith, ◌==◌, if◌then◌else◌, ◌%◌,
}
use armv4_kernel.CString.{Bytes, strncmp}
use armv4_kernel.Bwio.{com1, com2}
use armv4_kernel.NameServer.{max_name_len}
use armv4_kernel.Kernel.Device.{
  uart1_base, uart2_base, interrupt_of, uart_ctlr_offset, rien_mask, tien_mask,
}
use armv4_kernel.IoServer.Start.{
  Call, Parent, Choice, io_server_name1, io_server_name2, io_server_main_start, rx_start, tx_start,
}

-- The name that a task registers, the name that it asks for, the COM number that it sends to a task, and
-- whether it panics.
abbrev pub registered : List Call → Option Bytes
registered [] = none
registered (Call.register_as name ∷ calls) = some name
registered (_ ∷ calls) = registered calls

abbrev pub asked : List Call → Option Bytes
asked [] = none
asked (Call.who_is name ∷ calls) = name
asked (_ ∷ calls) = asked calls

abbrev pub told : ℕ → List Call → Option ℕ
told t [] = none
told t (Call.send_com tid com_num ∷ calls) = if tid == t then some com_num else told t calls
told t (_ ∷ calls) = told t calls

abbrev pub panics : List Call → Bool
panics [] = false
panics (Call.panic ∷ calls) = true
panics (_ ∷ calls) = panics calls

-- What the server, the receive notifier and the transmit notifier do for one COM number.
pub record Agrees (com_num tx_tid rx_tid : ℕ) (name : Bytes) (base : ℕ) (main : List Call)
    (rx tx : List Call × Choice) : Type 0 where
  pub registers : registered main ≡ some name
  pub rx_asks : asked rx.0 ≡ some name
  pub tx_asks : asked tx.0 ≡ some name
  pub tells_tx : told (tx_tid % 256) main ≡ some com_num
  pub tells_rx : told (rx_tid % 256) main ≡ some com_num
  pub rx_base : rx.1.uart_base ≡ some base
  pub tx_base : tx.1.uart_base ≡ some base
  pub rx_interrupt : interrupt_of rx.1.event ≡ some (base + uart_ctlr_offset, rien_mask)
  pub tx_interrupt : interrupt_of tx.1.event ≡ some (base + uart_ctlr_offset, tien_mask)
  pub no_panic : (panics main || panics rx.0 || panics tx.0) ≡ false

-- A parent that sends a COM number.
abbrev pub sent : (tid com_num : ℕ) → Parent
sent tid com_num = record { failed = false; tid = tid; com_num = com_num }

module _ (parent server tx_tid rx_tid cts_tid : ℕ) where
  abbrev pub main_of : ℕ → List Call
  main_of com_num = io_server_main_start (sent parent com_num) tx_tid rx_tid false false

  abbrev pub rx_of : ℕ → List Call × Choice
  rx_of com_num = rx_start (sent server com_num)

  abbrev pub tx_of : ℕ → List Call × Choice
  tx_of com_num = tx_start (sent server com_num) cts_tid

  agrees1 :
      Agrees com1 tx_tid rx_tid io_server_name1 uart1_base (main_of com1) (rx_of com1) (tx_of com1)
  unfolding io_server_main_start rx_start tx_start interrupt_of
  agrees1 = record {
    registers = refl;
    rx_asks = refl;
    tx_asks = refl;
    tells_tx = ground arith;
    tells_rx = ground arith;
    rx_base = refl;
    tx_base = refl;
    rx_interrupt = refl;
    tx_interrupt = refl;
    no_panic = refl;
  }

  agrees2 :
      Agrees com2 tx_tid rx_tid io_server_name2 uart2_base (main_of com2) (rx_of com2) (tx_of com2)
  unfolding io_server_main_start rx_start tx_start interrupt_of
  agrees2 = record {
    registers = refl;
    rx_asks = refl;
    tx_asks = refl;
    tells_tx = ground arith;
    tells_rx = ground arith;
    rx_base = refl;
    tx_base = refl;
    rx_interrupt = refl;
    tx_interrupt = refl;
    no_panic = refl;
  }

  -- Where no call of a start fails, and the COM number is COM1 or COM2: the server registers a name,
  -- and both notifiers ask for the task of that name; the server sends both the COM number; both
  -- choose the registers of the same UART, and the interrupts that the kernel enables for the events
  -- that they wait for are the receive interrupt and the transmit interrupt of that UART; nobody
  -- panics.
  pub io_server_main_start-Agrees :
      (com_num : ℕ)
      → (com_num ≡ com1) ⊎ (com_num ≡ com2)
      → (name : Bytes) × (base : ℕ) × Agrees com_num tx_tid rx_tid name base
          (main_of com_num)
          (rx_of com_num)
          (tx_of com_num)
  io_server_main_start-Agrees com_num (inl e) = rw e (io_server_name1, uart1_base, agrees1)
  io_server_main_start-Agrees com_num (inr e) = rw e (io_server_name2, uart2_base, agrees2)

  -- With any other number all three panic.
  other_com_number :
      (com_num : ℕ)
      → 2 ≤ com_num
      → (panics (main_of com_num) ≡ true)
        × (panics (rx_of com_num).0 ≡ true)
        × (panics (tx_of com_num).0 ≡ true)
  unfolding io_server_main_start rx_start tx_start
  other_com_number com_num le =
      let e1 : (com_num == com1) ≡ false = ground arith in
      let e2 : (com_num == com2) ≡ false = ground arith in rw (e1, e2) (refl, refl, refl)

-- The name server can tell the two names apart.
names_differ : strncmp io_server_name1 io_server_name2 max_name_len ≢ 0
unfolding strncmp
names_differ e = absurd (omega (arith, e))
