-- ===== src/Bwio/Setup.antt =====
-- The set-up of a UART in src/bwio/bwio.c: writes to its line control registers.
use armv4_kernel.Prelude.{ℕ, ◌+◌, Bool, ◌==◌, if◌then◌else◌}
use armv4_kernel.Queue.{update}
use armv4_kernel.Task.{minus}
use armv4_kernel.Kernel.Memory.{Regs}
use armv4_kernel.Kernel.Device.{uart1_base, uart2_base, set_bits, clear_bits}
use armv4_kernel.Bwio.{com1, com2}

abbrev pub uart_lcrh_offset : ℕ
uart_lcrh_offset = 0x8

abbrev pub uart_lcrm_offset : ℕ
uart_lcrm_offset = 0xc

abbrev pub uart_lcrl_offset : ℕ
uart_lcrl_offset = 0x10

abbrev pub fen_mask : ℕ
fen_mask = 0x10

abbrev set_fifo : ℕ → Bool → Regs → ℕ × Regs
set_fifo line on regs =
    (0, if on then set_bits line fen_mask regs else clear_bits line fen_mask regs)

-- `on` is whether `state` is not 0.
unfoldable pub bwsetfifo : ℕ → Bool → Regs → ℕ × Regs
bwsetfifo channel on regs =
    if channel == com1
    then set_fifo (uart1_base + uart_lcrh_offset) on regs
    else if channel == com2
    then set_fifo (uart2_base + uart_lcrh_offset) on regs
    else (minus 1, regs)

-- The second `switch`, on the speed.
abbrev set_speed : (high low speed : ℕ) → Regs → ℕ × Regs
set_speed high low speed regs =
    if speed == 115200
    then (0, update (update regs high 0x0) low 0x3)
    else if speed == 2400
    then (0, update (update regs high 0x0) low 0xbf)
    else (minus 1, regs)

unfoldable pub bwsetspeed : ℕ → ℕ → Regs → ℕ × Regs
bwsetspeed channel speed regs =
    if channel == com1
    then set_speed (uart1_base + uart_lcrm_offset) (uart1_base + uart_lcrl_offset) speed regs
    else if channel == com2
    then set_speed (uart2_base + uart_lcrm_offset) (uart2_base + uart_lcrl_offset) speed regs
    else (minus 1, regs)
