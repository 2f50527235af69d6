-- ===== src/Kernel/Device.antt =====
-- The registers of include/ts7200.h that src/main.c reads and writes, and the interrupt enable bits of
-- the UARTs.
use Prim.Native.Nat.{bit_and, bit_or}
use armv4_kernel.Prelude.{ℕ, ◌+◌, ◌-◌, ◌^◌, ◌==◌, if◌then◌else◌, Option, none, some}
use armv4_kernel.Queue.{update}
use armv4_kernel.EventHandler.{
  event_uart1_tx, event_uart2_tx, event_uart1_rx, event_uart2_rx, event_uart1_ms,
}
use armv4_kernel.Kernel.Memory.{Regs}

module _ where
  abbrev pub uart1_base : ℕ
  uart1_base = 0x808c0000

  abbrev pub uart2_base : ℕ
  uart2_base = 0x808d0000

  abbrev pub timer3_base : ℕ
  timer3_base = 0x80810080

  abbrev pub vic2_base : ℕ
  vic2_base = 0x800c0000

  abbrev pub uart_data_offset : ℕ
  uart_data_offset = 0x0

  abbrev pub uart_ctlr_offset : ℕ
  uart_ctlr_offset = 0x14

  abbrev pub uart_flag_offset : ℕ
  uart_flag_offset = 0x18

  abbrev pub uart_intr_offset : ℕ
  uart_intr_offset = 0x1c

  abbrev pub clr_offset : ℕ
  clr_offset = 0xc

  abbrev pub vic_vec_addr_offset : ℕ
  vic_vec_addr_offset = 0x30

  abbrev pub msien_mask : ℕ
  msien_mask = 0x8

  abbrev pub rien_mask : ℕ
  rien_mask = 0x10

  abbrev pub tien_mask : ℕ
  tien_mask = 0x20

  abbrev pub mis_mask : ℕ
  mis_mask = 0x1

  abbrev pub ris_mask : ℕ
  ris_mask = 0x2

  abbrev pub tis_mask : ℕ
  tis_mask = 0x4

-- `REG(base, offset) |= mask`
abbrev pub set_bits : ℕ → ℕ → Regs → Regs
set_bits a mask regs = update regs a (bit_or (regs a) mask)

-- `REG(base, offset) &= ~mask`
abbrev pub clear_bits : ℕ → ℕ → Regs → Regs
clear_bits a mask regs = update regs a (bit_and (regs a) (2 ^ 32 - 1 - mask))

-- The `switch` of `kernel_await_event`: the control register and the mask that an event enables.
unfoldable pub interrupt_of : ℕ → Option (ℕ × ℕ)
interrupt_of event =
    if event == event_uart1_tx
    then some (uart1_base + uart_ctlr_offset, tien_mask)
    else if event == event_uart2_tx
    then some (uart2_base + uart_ctlr_offset, tien_mask)
    else if event == event_uart1_rx
    then some (uart1_base + uart_ctlr_offset, rien_mask)
    else if event == event_uart2_rx
    then some (uart2_base + uart_ctlr_offset, rien_mask)
    else if event == event_uart1_ms
    then some (uart1_base + uart_ctlr_offset, msien_mask)
    else none

unfoldable pub enable_interrupt : ℕ → Regs → Regs
unfolding interrupt_of
enable_interrupt event regs = elim (interrupt_of event) [
  | none ↦ regs
  | some (a, mask) ↦ set_bits a mask regs
]
