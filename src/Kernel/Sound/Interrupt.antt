-- ===== src/Kernel/Sound/Interrupt.antt =====
-- The interrupt branch of `handle` in src/main.c keeps the kernel's queues whole.
use armv4_kernel.Prelude.{
  ℕ, ◌+◌, ◌<◌, ◌≡◌, ◌⊎◌, inl, inr, refl, true, false, some, arith, Bool-cases, ◌%◌,
}
use armv4_kernel.EventHandler.{max_events, event_timer, event_uart1, event_uart2}
use armv4_kernel.Kernel.Device.{
  timer3_base, clr_offset, uart1_base, uart2_base, uart_intr_offset, vic2_base, vic_vec_addr_offset,
  ris_mask, mis_mask, tis_mask,
}
use armv4_kernel.Kernel.Memory.{Regs}
use armv4_kernel.Kernel.Dispatch.Irq.{
  signal, has_bit, acknowledge, write_reg, uart1_interrupt, uart2_interrupt, dispatch_irq,
  handle_irq,
}
use armv4_kernel.Kernel.{Kernel}
use armv4_kernel.Kernel.Ready.{readied}
use armv4_kernel.Kernel.Sound.{Wait, queue_of, Places, IsSound, IsFree}
use armv4_kernel.Kernel.Sound.Still.{
  Keeps-IsFree, Stays, Stays-IsSound, free-make_ready, readied-IsSound, readied_places,
}
use armv4_kernel.Kernel.Sound.Running.{Spares, Spares-then}
use armv4_kernel.Kernel.Sound.Signal.{Proceeds, signal-Proceeds}

-- A write to device registers alone.
regs-Stays : (k : Kernel) (P : Places) (regs : Regs) → Stays k (record k { regs = regs }) P
regs-Stays k P regs = record {
  keeps = record { next_free = refl; tids = λ u. refl; priorities = λ u. refl; owners = refl };
  sch = refl;
  links = λ a. refl;
  queues = queues;
  states = λ u. inl refl;
}
  where
    queues : (w : Wait) → queue_of w (record k { regs = regs }) ≡ queue_of w k
    queues (Wait.to_send u) = refl
    queues (Wait.on_event e) = refl

-- What a UART reports: something that its branch of the kernel knows.
abbrev pub Expected1 : ℕ → Type 0
Expected1 intr =
    (has_bit intr ris_mask ≡ true) ⊎ (has_bit intr mis_mask ≡ true) ⊎ (has_bit intr tis_mask ≡ true)

abbrev pub Expected2 : ℕ → Type 0
Expected2 intr = (has_bit intr ris_mask ≡ true) ⊎ (has_bit intr tis_mask ≡ true)

-- The interrupts that the kernel expects: the timer's, and those of the UARTs.
abbrev pub IsExpected : Regs → Type 0
IsExpected regs =
    (regs (vic2_base + vic_vec_addr_offset) ≡ event_timer)
    ⊎ ((regs (vic2_base + vic_vec_addr_offset) ≡ event_uart1)
        × Expected1 (regs (uart1_base + uart_intr_offset) % 256))
    ⊎ ((regs (vic2_base + vic_vec_addr_offset) ≡ event_uart2)
        × Expected2 (regs (uart2_base + uart_intr_offset) % 256))

-- Such a report names one of the 16 events, and only registers are written.
abbrev Reports : Kernel → ℕ × ℕ × Kernel → Type 0
Reports k r =
    (event ret : ℕ) × (regs : Regs) × (r ≡ (event, ret, record k { regs = regs }))
    × (event < max_events)

uart1-Reports :
    (k : Kernel)
    → Expected1 (k.regs (uart1_base + uart_intr_offset) % 256)
    → Reports k (uart1_interrupt k)
unfolding uart1_interrupt
uart1-Reports k x =
    let intr = k.regs (uart1_base + uart_intr_offset) % 256 in
    elim (Bool-cases (has_bit intr ris_mask)) [
      | inl a ↦ rw a (_, _, _, refl, omega arith)
      | inr a ↦ elim (Bool-cases (has_bit intr mis_mask)) [
        | inl b ↦ rw (a, b) (_, _, _, refl, omega arith)
        | inr b ↦ elim (Bool-cases (has_bit intr tis_mask)) [
          | inl c ↦ rw (a, b, c) (_, _, _, refl, omega arith)
          | inr c ↦ elim x [ inl y ↦ cc | inr y ↦ elim y [ inl z ↦ cc | inr z ↦ cc ] ]
        ]
      ]
    ]

uart2-Reports :
    (k : Kernel)
    → Expected2 (k.regs (uart2_base + uart_intr_offset) % 256)
    → Reports k (uart2_interrupt k)
unfolding uart2_interrupt
uart2-Reports k x =
    let intr = k.regs (uart2_base + uart_intr_offset) % 256 in
    elim (Bool-cases (has_bit intr ris_mask)) [
      | inl a ↦ rw a (_, _, _, refl, omega arith)
      | inr a ↦ elim (Bool-cases (has_bit intr tis_mask)) [
        | inl c ↦ rw (a, c) (_, _, _, refl, omega arith)
        | inr c ↦ elim x [ inl y ↦ cc | inr y ↦ cc ]
      ]
    ]

module _ {k : Kernel} {P : Places} (h : IsSound k P) (active : ℕ) (f : IsFree k P active) where
  -- A signal after writes to registers.
  signal_after :
      (regs : Regs) (event ret : ℕ)
      → event < max_events
      → Proceeds active k (signal event ret (record k { regs = regs }))
  signal_after regs event ret small =
      let s = regs-Stays k P regs in
      signal-Proceeds (record k { regs = regs }) event ret active small (Stays-IsSound h s)
        (Keeps-IsFree s.keeps f)

  uart_signal :
      (r : ℕ × ℕ × Kernel)
      → Reports k r
      → Proceeds active k (let (event, ret, k') = r in signal event ret (acknowledge k'))
  uart_signal r (event, ret, regs, e, small) = rw e (signal_after _ event ret small)

  dispatch_irq-Proceeds :
      IsExpected k.regs
      → Proceeds active k (dispatch_irq (k.regs (vic2_base + vic_vec_addr_offset)) k)
  unfolding dispatch_irq
  dispatch_irq-Proceeds (inl e) =
      let (k', P', run, h', f', spares) =
        signal-Proceeds k event_timer 0 active (omega arith) h f in
      let s = regs-Stays k' P' (acknowledge (write_reg (timer3_base + clr_offset) 0 k')).regs in
      rw (e, run) (_, P', refl, Stays-IsSound h' s, Keeps-IsFree s.keeps f', spares)
  dispatch_irq-Proceeds (inr (inl (e, x))) =
      rw e (uart_signal (uart1_interrupt k) (uart1-Reports k x))
  dispatch_irq-Proceeds (inr (inr (e, x))) =
      rw e (uart_signal (uart2_interrupt k) (uart2-Reports k x))

  -- An interrupt that the kernel expects wakes who waits for it; the task that it interrupted is ready again.
  pub handle_irq-Sound :
      IsExpected k.regs
      → (k' : Kernel) × (P' : Places) × (handle_irq active k ≡ some (false, k'))
        × IsSound k' P'
        × Spares active active k k'
  unfolding handle_irq
  handle_irq-Sound x =
      let (k', P', run, h', f', spares) = dispatch_irq-Proceeds x in
      (
        readied active k',
        readied_places P' k' active,
        rw (run, free-make_ready h' active f'),
        readied-IsSound h' active f',
        Spares-then active active k k' (readied active k') refl (λ u na. ground arith) spares,
      )
