-- ===== src/EventHandler.antt =====
-- The event handler of src/event_handler/event_handler.c, include/internal/event_handler.h and the
-- events of include/sys_call.h: a queue of waiting tasks for each of 16 events.
-- The scheduler that `ctx->sch` points to is an argument. An event is the 32-bit pattern of the
-- `event_t`, so that the two tests `event < 0 || event >= 16` are one.
pub mod Round
pub mod Tests
pub mod Waiting
pub mod Wake
use armv4_kernel.Prelude.{
  ℕ, zero, suc, ◌+◌, ◌-◌, ◌^◌, Bool, true, false, not, Option, none, some, ◌==◌, ltb, if◌then◌else◌,
  ◌>>=◌,
}
use armv4_kernel.Queue.{Queue, update, queue_init, queue_put, queue_get, queue_empty, queue_size}
use armv4_kernel.Task.{
  Tasks, TaskState, await_node, set_state, minus, task_descriptor_set_return_value,
}
use armv4_kernel.Scheduler.{Scheduler, scheduler_put}

pub record EventHandler : Type 0 where
  pub await_qs : ℕ → Queue

abbrev pub max_events : ℕ
max_events = 16

-- `event_t`
module _ where
  abbrev pub event_timer : ℕ
  event_timer = 0

  abbrev pub event_uart1 : ℕ
  event_uart1 = 1

  abbrev pub event_uart1_ms : ℕ
  event_uart1_ms = 2

  abbrev pub event_uart1_rx : ℕ
  event_uart1_rx = 3

  abbrev pub event_uart1_tx : ℕ
  event_uart1_tx = 5

  abbrev pub event_uart2 : ℕ
  event_uart2 = 6

  abbrev pub event_uart2_rx : ℕ
  event_uart2_rx = 7

  abbrev pub event_uart2_tx : ℕ
  event_uart2_tx = 9

-- The loop sets the entries 0 to 15.
unfoldable pub event_handler_init : EventHandler → EventHandler
event_handler_init eh = record {
  await_qs = λ i. if ltb i max_events then queue_init else eh.await_qs i;
}

unfoldable pub event_handler_add_task :
    EventHandler → ℕ → ℕ → Tasks → Option (ℕ × EventHandler × Tasks)
event_handler_add_task eh event td ts =
    if ltb event max_events
    then (do
      let ts' = set_state td TaskState.event_blocked ts
      (error, q, nodes) ← queue_put (eh.await_qs event) (await_node td) ts'.nodes
      some (
        if error == 0 then 0 else minus 2,
        record { await_qs = update eh.await_qs event q },
        record { tds = ts'.tds; nodes = nodes },
      ))
    else some (minus 1, eh, ts)

-- The loop over `await_qs[event]`, with fuel; `none` if it runs out. The pointer that `queue_get`
-- returns is used unchecked, so that `NULL` faults.
unfoldable pub wake_loop : ℕ → ℕ → Queue → Scheduler → Tasks → Option (Queue × Scheduler × Tasks)
wake_loop zero ret q sch ts = none
wake_loop (suc fuel) ret q sch ts = elim (queue_empty q) [
  | true ↦ some (q, sch, ts)
  | false ↦ do
    (front, q', nodes) ← queue_get q ts.nodes
    td ← front
    let ts' = task_descriptor_set_return_value td ret (record { tds = ts.tds; nodes = nodes })
    (_, sch', ts'') ← scheduler_put sch td ts'
    wake_loop fuel ret q' sch' ts''
]

unfoldable pub event_handler_handle_event :
    EventHandler → ℕ → ℕ → Scheduler → Tasks → Option (ℕ × EventHandler × Scheduler × Tasks)
unfolding wake_loop
event_handler_handle_event eh event ret sch ts =
    if ltb event max_events
    then (do
      let q = eh.await_qs event
      (q', sch', ts') ← wake_loop (queue_size q + 1) ret q sch ts
      some (0, record { await_qs = update eh.await_qs event q' }, sch', ts'))
    else some (minus 1, eh, sch, ts)

-- The entries from `i` on, with the rounds left.
unfoldable pub empty_from : ℕ → ℕ → EventHandler → Bool
empty_from zero i eh = true
empty_from (suc n) i eh =
    let rest = empty_from n (i + 1) eh in if not (queue_empty (eh.await_qs i)) then false else rest

unfoldable pub event_handler_empty : EventHandler → Bool
unfolding empty_from
event_handler_empty eh = empty_from max_events 0 eh
