-- ===== src/EventHandler/Tests.antt =====
-- Tests of the model of src/event_handler/event_handler.c: two tasks wait for event 5.
use armv4_kernel.Prelude.{
  ℕ, ◌-◌, ◌/◌, ◌≡◌, refl, some, List, [], ◌∷◌, arith, ◌==◌, if◌then◌else◌, map, has,
}
use armv4_kernel.Queue.{queue_init}
use armv4_kernel.Queue.Rep.{IsQueue}
use armv4_kernel.Task.{Tasks, await_node}
use armv4_kernel.Scheduler.{Scheduler}
use armv4_kernel.Scheduler.Ready.{IsReady}
use armv4_kernel.Scheduler.Tests.{sample, nobody, idle, idle-IsReady}
use armv4_kernel.EventHandler.{EventHandler, event_handler_handle_event}
use armv4_kernel.EventHandler.Round.{wake, woken}
use armv4_kernel.EventHandler.Waiting.{CanWake}
use armv4_kernel.EventHandler.Wake.{event_handler_handle_event-wake}

abbrev pub sleepers : Tasks
sleepers = record {
  tds = sample;
  nodes = record { payload = λ a. (a - 1) / 3; next = λ a. if a == 12 then 15 else 0 };
}

abbrev pub handler : EventHandler
handler = record {
  await_qs = λ i. if i == 5 then record { front = 12; back = 15; elements = 2 } else queue_init;
}

abbrev pub pair : List ℕ
pair = 3 ∷ 4 ∷ []

pair-IsQueue : IsQueue (handler.await_qs 5) sleepers.nodes (map await_node pair)
pair-IsQueue = record {
  chain = (refl, omega arith, refl, (refl, omega arith, refl, refl));
  count = refl;
  last = refl;
  small = omega arith;
}

pair-CanWake : CanWake (λ u. 5) sleepers nobody pair
pair-CanWake = record {
  priorities = λ u. refl;
  in_range = λ u i. omega arith;
  fresh = λ u i. refl;
  ready_owner = λ u i. omega arith;
  await_owner = λ u i. omega arith;
  room = λ i. omega arith;
}

event_handler_handle_event-wake_example :
    (eh' : EventHandler) × (sch' : Scheduler) × (ts' : Tasks) × (event_handler_handle_event handler
        5 42 idle sleepers
      ≡ some (0, eh', sch', ts'))
    × IsQueue (eh'.await_qs 5) ts'.nodes []
    × IsReady sch' ts' (wake (λ u. 5) nobody pair)
    × ((u : ℕ) → ts'.tds u ≡ (if has u pair then woken 42 (sample u) else sample u))
event_handler_handle_event-wake_example =
    event_handler_handle_event-wake (λ u. 5) handler 5 42 pair (omega arith) pair-IsQueue
      (idle-IsReady sleepers) pair-CanWake
