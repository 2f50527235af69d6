-- ===== src/Kernel/Dispatch/Irq.antt =====
-- The interrupt branch of `handle` in src/main.c.
-- `regs` is what the registers hold when the interrupt is handled; each is read once.
use Prim.Native.Nat.{bit_and}
use armv4_kernel.Prelude.{ℕ, ◌+◌, ◌%◌, Bool, false, not, Option, some, ◌==◌, if◌then◌else◌, ◌>>=◌}
use armv4_kernel.Queue.{update}
use armv4_kernel.EventHandler.{
  event_timer, event_uart1, event_uart1_ms, event_uart1_rx, event_uart1_tx, event_uart2,
  event_uart2_rx, event_uart2_tx, event_handler_handle_event,
}
use armv4_kernel.Kernel.{Kernel, make_ready, kernel_panic}
use armv4_kernel.Kernel.Device.{
  uart1_base, uart2_base, timer3_base, vic2_base, uart_data_offset, uart_ctlr_offset,
  uart_flag_offset, uart_intr_offset, clr_offset, vic_vec_addr_offset, msien_mask, tien_mask,
  mis_mask, ris_mask, tis_mask, clear_bits,
}

-- `event_handler_handle_event(ctx->eh, event, ret)`, whose result `handle` ignores.
unfoldable pub signal : (event ret : ℕ) → Kernel → Option Kernel
signal event ret k = do
  (_, eh, sch, ts) ← event_handler_handle_event k.eh event ret k.sch k.tasks
  some (record k { tasks = ts; sch = sch; eh = eh })

abbrev pub write_reg : ℕ → ℕ → Kernel → Kernel
write_reg a w k = record k { regs = update k.regs a w }

abbrev pub acknowledge : Kernel → Kernel
acknowledge k = write_reg (vic2_base + vic_vec_addr_offset) 0 k

abbrev pub has_bit : ℕ → ℕ → Bool
has_bit word mask = not (bit_and word mask == 0)

-- The branches on the interrupt identification of UART1: the event to signal, its value, and the
-- state after the register writes. On an unexpected one the event stays 0, the timer's.
unfoldable pub uart1_interrupt : Kernel → ℕ × ℕ × Kernel
uart1_interrupt k =
    let intr = k.regs (uart1_base + uart_intr_offset) % 256 in
    if has_bit intr ris_mask
    then (event_uart1_rx, k.regs (uart1_base + uart_data_offset) % 256, k)
    else if has_bit intr mis_mask
    then (
      event_uart1_ms,
      k.regs (uart1_base + uart_flag_offset),
      write_reg (uart1_base + uart_intr_offset) 0
          (record k { regs = clear_bits (uart1_base + uart_ctlr_offset) msien_mask k.regs }),
    )
    else if has_bit intr tis_mask
    then (
      event_uart1_tx,
      0,
      record k { regs = clear_bits (uart1_base + uart_ctlr_offset) tien_mask k.regs },
    )
    else (0, 0, kernel_panic k)

unfoldable pub uart2_interrupt : Kernel → ℕ × ℕ × Kernel
uart2_interrupt k =
    let intr = k.regs (uart2_base + uart_intr_offset) % 256 in
    if has_bit intr ris_mask
    then (event_uart2_rx, k.regs (uart2_base + uart_data_offset) % 256, k)
    else if has_bit intr tis_mask
    then (
      event_uart2_tx,
      0,
      record k { regs = clear_bits (uart2_base + uart_ctlr_offset) tien_mask k.regs },
    )
    else (0, 0, kernel_panic k)

-- The `switch` on the event that the interrupt controller reports.
unfoldable pub dispatch_irq : ℕ → Kernel → Option Kernel
unfolding signal uart1_interrupt uart2_interrupt
dispatch_irq event k =
    if event == event_timer
    then (do k' ← signal event 0 k; some (acknowledge (write_reg (timer3_base + clr_offset) 0 k')))
    else if event == event_uart1
    then (let (single_event, ret, k') = uart1_interrupt k in
        signal single_event ret (acknowledge k'))
    else if event == event_uart2
    then (let (single_event, ret, k') = uart2_interrupt k in
        signal single_event ret (acknowledge k'))
    else some (kernel_panic k)

unfoldable pub handle_irq : ℕ → Kernel → Option (Bool × Kernel)
unfolding dispatch_irq
handle_irq active k = do
  k₁ ← dispatch_irq (k.regs (vic2_base + vic_vec_addr_offset)) k
  k₂ ← make_ready active k₁
  some (false, k₂)
