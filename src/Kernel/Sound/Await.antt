-- ===== src/Kernel/Sound/Await.antt =====
-- `kernel_await_event` of src/main.c keeps the kernel's queues whole.
use armv4_kernel.Prelude.{ℕ, ◌<◌, ◌≡◌, inl, inr, refl, false, map, arith, Bool-cases, lt→ltb, ltb}
use armv4_kernel.Queue.{update}
use armv4_kernel.Queue.Ops.{put_queue, put_nodes, queue_put-eq}
use armv4_kernel.Task.{TaskState, minus, await_node}
use armv4_kernel.EventHandler.{max_events, event_handler_add_task}
use armv4_kernel.Kernel.Device.{enable_interrupt}
use armv4_kernel.Kernel.{kernel_await_event, Kernel, write_state}
use armv4_kernel.Kernel.Sound.{Wait, node, queue_of, Places, IsSound}
use armv4_kernel.Kernel.Sound.Move.{same, Moves}
use armv4_kernel.Kernel.Sound.Move.Enter.{block-IsSound, blocked_places}
use armv4_kernel.Kernel.Sound.Running.{IsRunning, Succeeds, go_on}

module _ {k : Kernel} {P : Places} (h : IsSound k P) (active event : ℕ)
    (r : IsRunning k P active) where
  module _ (small : event < max_events) where
    abbrev w : Wait
    w = Wait.on_event event

    abbrev waits : Kernel
    waits = record (write_state active TaskState.event_blocked k) {
      tasks = record {
        tds = (write_state active TaskState.event_blocked k).tasks.tds;
        nodes = put_nodes (k.eh.await_qs event) (await_node active) k.tasks.nodes;
      };
      eh = record {
        await_qs = update k.eh.await_qs event (put_queue (k.eh.await_qs event) (await_node active));
      };
      regs = enable_interrupt event k.regs;
    }

    other_queues : (v : Wait) → same v w ≡ false → queue_of v waits ≡ queue_of v k
    other_queues (Wait.to_send u) e = ground arith
    other_queues (Wait.on_event u) e = ground arith

    waits-Moves :
        Moves k waits w
          (put_queue (queue_of w k) (node w active))
          (put_nodes (queue_of w k) (node w active) k.tasks.nodes)
    waits-Moves = record {
      keeps = record {
        next_free = refl;
        tids = λ u. ground arith;
        priorities = λ u. ground arith;
        owners = refl;
      };
      sch = refl;
      nodes = refl;
      queue = ground arith;
      others = other_queues;
    }

    waits-IsSound : IsSound waits (blocked_places P w active)
    waits-IsSound =
        block-IsSound h w active r.free small waits-Moves (ground arith) λ u ne. ground arith

    awaits-Succeeds : Succeeds active active k (kernel_await_event active event k)
    unfolding kernel_await_event event_handler_add_task
    awaits-Succeeds = (
      0,
      waits,
      blocked_places P w active,
      rw (
        lt→ltb event max_events small,
        queue_put-eq (map await_node (P.waiting w)) (await_node active) (h.queues w small)
            (omega arith),
      ),
      waits-IsSound,
      λ u lt na nt st. (lt, ground arith),
    )

  pub kernel_await_event-Succeeds : Succeeds active active k (kernel_await_event active event k)
  kernel_await_event-Succeeds = elim (Bool-cases (ltb event max_events)) [
    | inl e ↦ awaits-Succeeds (ground arith)
    | inr e ↦ refused e
  ]
    where
      refused :
          ltb event max_events ≡ false
          → Succeeds active active k (kernel_await_event active event k)
      refused e = unfold kernel_await_event in rw e (go_on h active r.free active (minus 1))
