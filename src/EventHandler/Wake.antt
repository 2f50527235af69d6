-- ===== src/EventHandler/Wake.antt =====
-- About `event_handler_handle_event` of src/event_handler/event_handler.c.
use mathlib.Core.Path.{subst, ◌∙◌}
use armv4_kernel.Prelude.{
  ℕ, zero, suc, ◌+◌, ◌<◌, ◌≡◌, refl, false, some, List, [], ◌∷◌, map, arith, length, has,
  if◌then◌else◌, lt→ltb, ltb, ◌≤◌,
}
use armv4_kernel.Queue.{Queue, update, queue_size}
use armv4_kernel.Queue.Rep.{IsQueue, update-same}
use armv4_kernel.Queue.Fifo.{queue_observers}
use armv4_kernel.Task.{Tasks, await_node, minus}
use armv4_kernel.Scheduler.{Scheduler}
use armv4_kernel.Scheduler.Ready.{ReadyLists, IsReady}
use armv4_kernel.EventHandler.{EventHandler, max_events, wake_loop, event_handler_handle_event}
use armv4_kernel.EventHandler.Round.{
  wake, woken, next-IsReady, next-IsQueue, next-CanWake, next_descriptors, wake_loop_step,
}
use armv4_kernel.EventHandler.Waiting.{CanWake, length-await_node}

-- What the loop leaves: an empty queue, the waiting tasks ready in order, and only their descriptors
-- changed.
record Woken (prio : ℕ → ℕ) (ret : ℕ) (ts : Tasks) (R : ReadyLists) (W : List ℕ) (q' : Queue)
    (sch' : Scheduler) (ts' : Tasks) : Type 0 where
  emptied : IsQueue q' ts'.nodes []
  is_ready : IsReady sch' ts' (wake prio R W)
  descriptors : (u : ℕ) → ts'.tds u ≡ (if has u W then woken ret (ts.tds u) else ts.tds u)

wake_loop_stop :
    (ret fuel : ℕ) {q : Queue} {sch : Scheduler} {ts : Tasks}
    → IsQueue q ts.nodes []
    → wake_loop (suc fuel) ret q sch ts ≡ some (q, sch, ts)
unfolding wake_loop
wake_loop_stop ret fuel hq = rw ((queue_observers [] hq).2, wake_loop)

wake_loop_lem :
    (prio : ℕ → ℕ) (ret : ℕ) (W : List ℕ) (fuel : ℕ) {q : Queue} {sch : Scheduler} {ts : Tasks}
    {R : ReadyLists}
    → length W < fuel
    → IsQueue q ts.nodes (map await_node W)
    → IsReady sch ts R
    → CanWake prio ts R W
    → (q' : Queue) × (sch' : Scheduler) × (ts' : Tasks) × (wake_loop fuel ret q sch ts
        ≡ some (q', sch', ts'))
      × Woken prio ret ts R W q' sch' ts'
wake_loop_lem prio ret W zero f hq hr cw = absurd (omega arith)
wake_loop_lem prio ret [] (suc fuel) {q} {sch} {ts} {R} f hq hr cw = (
  q,
  sch,
  ts,
  wake_loop_stop ret fuel hq,
  record { emptied = hq; is_ready = hr; descriptors = λ u. refl },
)
wake_loop_lem prio ret (t ∷ W) (suc fuel) {q} {sch} {ts} {R} f hq hr cw =
    let (q', sch', ts', e, w) =
      wake_loop_lem prio ret W fuel (omega arith) (next-IsQueue prio ret q sch ts R t W hq hr cw)
        (next-IsReady prio ret q sch ts R t W hq hr cw)
        (next-CanWake prio ret q sch ts R t W hq hr cw) in
    (
      q',
      sch',
      ts',
      wake_loop_step prio ret q sch ts R t W hq hr cw fuel ∙ e,
      record {
        emptied = w.emptied;
        is_ready = w.is_ready;
        descriptors =
            λ u. next_descriptors prio ret q sch ts R t W hq hr cw (ts'.tds u) u (w.descriptors u);
      },
    )

-- `event_handler_handle_event` of one of the 16 events, for which tasks wait that are not ready and
-- own their nodes, returns 0, makes them ready in the order in which they came, each with `ret` as
-- the value of its system call, leaves no task waiting for the event, and changes no other
-- descriptor.
pub event_handler_handle_event-wake :
    (prio : ℕ → ℕ) (eh : EventHandler) (event ret : ℕ) (W : List ℕ) {sch : Scheduler} {ts : Tasks}
    {R : ReadyLists}
    → event < max_events
    → IsQueue (eh.await_qs event) ts.nodes (map await_node W)
    → IsReady sch ts R
    → CanWake prio ts R W
    → (eh' : EventHandler) × (sch' : Scheduler) × (ts' : Tasks) × (event_handler_handle_event eh
          event ret sch ts
        ≡ some (0, eh', sch', ts'))
      × IsQueue (eh'.await_qs event) ts'.nodes []
      × IsReady sch' ts' (wake prio R W)
      × ((u : ℕ) → ts'.tds u ≡ (if has u W then woken ret (ts.tds u) else ts.tds u))
unfolding event_handler_handle_event
event_handler_handle_event-wake prio eh event ret W {sch} {ts} he hq hr cw =
    let count = (queue_observers (map await_node W) hq).1 in
    let (q', sch', ts', e, w) =
      wake_loop_lem prio ret W (queue_size (eh.await_qs event) + 1)
        (omega (arith, count, length-await_node W)) hq hr cw in
    (
      record { await_qs = update eh.await_qs event q' },
      sch',
      ts',
      rw (lt→ltb event max_events he, e),
      subst (λ q. IsQueue q ts'.nodes []) (update-same eh.await_qs event q') w.emptied,
      w.is_ready,
      w.descriptors,
    )

-- Any other event is refused with -1, and nothing changes.
pub event_handler_handle_event-refuses :
    (eh : EventHandler) (event ret : ℕ) (sch : Scheduler) (ts : Tasks)
    → max_events ≤ event
    → event_handler_handle_event eh event ret sch ts ≡ some (minus 1, eh, sch, ts)
unfolding event_handler_handle_event
event_handler_handle_event-refuses eh event ret sch ts h =
    let e : ltb event max_events ≡ false = ground arith in rw e
