-- ===== src/Kernel/Await.antt =====
-- `kernel_await_event` of src/main.c.
use mathlib.Core.Path.{subst}
use armv4_kernel.Prelude.{
  ℕ, ◌+◌, ◌^◌, ◌<◌, ◌≡◌, Bool, if◌then◌else◌, ◌==◌, ◌&&◌, ◌||◌, refl, some, arith, false, List, [],
  ◌∷◌, ◌++◌, map, length, has, Bool-cases, inl, inr, lt→ltb,
}
use armv4_kernel.Bits.{bit, bit-lt, bit-or, bit-pow}
use armv4_kernel.Queue.{update}
use armv4_kernel.Queue.Rep.{IsQueue, update-same}
use armv4_kernel.Queue.Ops.{put_queue, put_nodes, queue_put-eq, put-IsQueue, put-SameOutside}
use armv4_kernel.Task.{TaskState, ready_node, await_node}
use armv4_kernel.Scheduler.Ready.{ReadyLists}
use armv4_kernel.Scheduler.Ready.Apart.{IsReady-frame}
use armv4_kernel.EventHandler.{
  event_uart1_tx, event_uart1_rx, event_uart1_ms, event_uart2_tx, event_uart2_rx, max_events,
  event_handler_add_task,
}
use armv4_kernel.EventHandler.Waiting.{
  has-await_node, map-await_node_snoc, length-await_node, await_node-inv,
}
use armv4_kernel.Kernel.{Kernel, write_state, kernel_await_event}
use armv4_kernel.Kernel.Device.{
  uart1_base, uart2_base, uart_ctlr_offset, set_bits, interrupt_of, enable_interrupt,
}
use armv4_kernel.Kernel.Ready.{Holds}

-- The interrupt enable bit that the wait for an event needs, by the address of the control register and
-- the number of the bit: 5 for transmit, 4 for receive and 3 for modem status, of the UART at 0x808c0000
-- or at 0x808d0000.
abbrev pub needs : (event address i : ℕ) → Bool
needs event address i =
    if address == 0x808c_0014
    then ((event == event_uart1_tx) && (i == 5))
      || ((event == event_uart1_rx) && (i == 4))
      || ((event == event_uart1_ms) && (i == 3))
    else if address == 0x808d_0014
    then ((event == event_uart2_tx) && (i == 5)) || ((event == event_uart2_rx) && (i == 4))
    else false

set_bits-bit :
    (a j : ℕ) (regs : ℕ → ℕ) (b i : ℕ)
    → bit i (set_bits a (2 ^ j) regs b) ≡ (if (b == a) && (i == j) then 1 else bit i (regs b))
set_bits-bit a j regs b i =
    ground (arith, bit-or i (regs a) (2 ^ j), bit-pow i j, bit-lt i (regs a))

enable_interrupt-bit :
    (event : ℕ) (regs : ℕ → ℕ) (a i : ℕ)
    → bit i (enable_interrupt event regs a) ≡ (if needs event a i then 1 else bit i (regs a))
unfolding enable_interrupt interrupt_of
enable_interrupt-bit event regs a i = elim (Bool-cases (event == event_uart1_tx)) [
  | inl e1 ↦ rw e1 (ground (arith, set_bits-bit (uart1_base + uart_ctlr_offset) 5 regs a i))
  | inr e1 ↦ elim (Bool-cases (event == event_uart2_tx)) [
    | inl e2 ↦ rw (e1, e2) (ground (arith, set_bits-bit (uart2_base + uart_ctlr_offset) 5 regs a i))
    | inr e2 ↦ elim (Bool-cases (event == event_uart1_rx)) [
      | inl e3 ↦
          rw (e1, e2, e3) (ground (arith, set_bits-bit (uart1_base + uart_ctlr_offset) 4 regs a i))
      | inr e3 ↦ elim (Bool-cases (event == event_uart2_rx)) [
        | inl e4 ↦
            rw (e1, e2, e3, e4)
              (ground (arith, set_bits-bit (uart2_base + uart_ctlr_offset) 4 regs a i))
        | inr e4 ↦ elim (Bool-cases (event == event_uart1_ms)) [
          | inl e5 ↦
              rw (e1, e2, e3, e4, e5)
                (ground (arith, set_bits-bit (uart1_base + uart_ctlr_offset) 3 regs a i))
          | inr e5 ↦ rw (e1, e2, e3, e4, e5) (ground arith)
        ]
      ]
    ]
  ]
]

-- What is left when the caller waits.
pub record Awaiting (k : Kernel) (R : ReadyLists) (active event : ℕ) (W : List ℕ) (k' : Kernel)
    : Type 0 where
  pub holds : Holds k' R
  pub waiting : IsQueue (k'.eh.await_qs event) k'.tasks.nodes (map await_node (W ++ active ∷ []))
  pub state : (k'.tasks.tds active).state ≡ TaskState.event_blocked
  pub enabled : (a i : ℕ) → bit i (k'.regs a) ≡ (if needs event a i then 1 else bit i (k.regs a))

module _ {R : ReadyLists} (k : Kernel) (active event : ℕ) (W : List ℕ) (h : Holds k R)
    (small : event < max_events)
    (queue : IsQueue (k.eh.await_qs event) k.tasks.nodes (map await_node W))
    (fresh : has active W ≡ false) (room : length W + 1 < 2 ^ 32) where
  abbrev blocked : Kernel
  blocked = write_state active TaskState.event_blocked k

  abbrev waits : Kernel
  waits = record blocked {
    tasks = record {
      tds = blocked.tasks.tds;
      nodes = put_nodes (k.eh.await_qs event) (await_node active) k.tasks.nodes;
    };
    eh = record {
      await_qs = update k.eh.await_qs event (put_queue (k.eh.await_qs event) (await_node active));
    };
    regs = enable_interrupt event k.regs;
  }

  kernel_await_event-eq : kernel_await_event active event k ≡ some (0, waits)
  unfolding kernel_await_event event_handler_add_task
  kernel_await_event-eq =
      let e = queue_put-eq (map await_node W) (await_node active) queue (omega arith) in
      rw (lt→ltb event max_events small, e)

  waits-Holds : Holds waits R
  waits-Holds = IsReady-frame h (λ u. links u) (λ u. refl) (λ u. ground arith)
    where
      links : (u : ℕ) → waits.tasks.nodes.next (ready_node u) ≡ k.tasks.nodes.next (ready_node u)
      links u =
          put-SameOutside (map await_node W) (await_node active) queue (ready_node u)
            (elim (Bool-cases (has (ready_node u) (map await_node (active ∷ W)))) [
              | inr out ↦ out
              | inl among ↦
                  let (t, e) = await_node-inv (ready_node u) (active ∷ W) among in
                  absurd (omega (arith, e))
            ])

  waits-IsQueue :
      IsQueue (waits.eh.await_qs event) waits.tasks.nodes (map await_node (W ++ active ∷ []))
  waits-IsQueue =
      subst (λ q. IsQueue q waits.tasks.nodes (map await_node (W ++ active ∷ [])))
        (update-same k.eh.await_qs event (put_queue (k.eh.await_qs event) (await_node active)))
        (rw (map-await_node_snoc W active) (
          put-IsQueue (map await_node W) (await_node active) queue (omega arith)
            (rw has-await_node fresh) (omega (arith, length-await_node W))))

  -- `kernel_await_event` of one of the 16 events, by a task that is not among those that wait for
  -- it, returns 0: the caller waits behind the others for that event, and the ready lists stay. For a
  -- transmit or a receive event of a UART and for the modem status of the first, the enable bit is set
  -- in the control register of that UART: bit 5 for transmit, 4 for receive, 3 for modem status. Every
  -- other bit of every register is as it was, and all of them for another event.
  pub kernel_await_event-waits :
      (k' : Kernel) × (kernel_await_event active event k ≡ some (0, k'))
      × Awaiting k R active event W k'
  kernel_await_event-waits = (
    waits,
    kernel_await_event-eq,
    record {
      holds = waits-Holds;
      waiting = waits-IsQueue;
      state = ground arith;
      enabled = enable_interrupt-bit event k.regs;
    },
  )
