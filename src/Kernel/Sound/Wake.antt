-- ===== src/Kernel/Sound/Wake.antt =====
-- One round of the loop of src/event_handler/event_handler.c that wakes tasks, with the kernel around it.
use mathlib.Core.Path.{subst, sym}
use armv4_kernel.Prelude.{
  ℕ, ◌<◌, ◌≡◌, ◌≢◌, ◌∙◌, inl, refl, ap, true, false, List, ◌∷◌, map, arith, has, suc,
}
use armv4_kernel.EventHandler.{max_events, wake_loop}
use armv4_kernel.Scheduler.{Scheduler}
use armv4_kernel.Scheduler.Ready.Put.{scheduler_put-eq}
use armv4_kernel.Kernel.Sound.Room.{free-MayPut}
use armv4_kernel.Queue.{Queue, update, queue_empty}
use armv4_kernel.Queue.Rep.{IsQueue, update-same}
use armv4_kernel.Queue.Fifo.{queue_observers}
use armv4_kernel.Queue.Ops.{get_queue, get_nodes, queue_get-eq}
use armv4_kernel.Task.{Tasks, TaskState, await_node, task_descriptor_set_return_value}
use armv4_kernel.Kernel.{Kernel}
use armv4_kernel.Kernel.Ready.{readied, answered}
use armv4_kernel.Kernel.Sound.{Wait, queue_of, Places, IsSound, IsFree}
use armv4_kernel.Kernel.Sound.Still.{
  Keeps-IsFree, Stays, Stays-IsSound, readied-IsSound, readied-IsFree, readied_places,
}
use armv4_kernel.Kernel.Sound.Move.{same, Moves}
use armv4_kernel.Kernel.Sound.Move.Leave.{leave-IsSound, leave-IsFree, left-IsFree, left_places}
use armv4_kernel.Kernel.Sound.Running.{Spares, rewrite-Stays}

-- The kernel while the loop runs, with what the loop's variables stand for.
abbrev pub during : Kernel → ℕ → Queue → Scheduler → Tasks → Kernel
during k event q sch ts = record k {
  tasks = ts;
  sch = sch;
  eh = record { await_qs = update k.eh.await_qs event q };
}

module _ (k : Kernel) (event ret active : ℕ) (small : event < max_events) where
  abbrev w : Wait
  w = Wait.on_event event

  here : (q : Queue) (sch : Scheduler) (ts : Tasks) → q ≡ queue_of w (during k event q sch ts)
  here q sch ts = update-same k.eh.await_qs event q

  -- One round: the first waiting task leaves the queue, gets its answer and is ready.
  module _ (q : Queue) (sch : Scheduler) (ts : Tasks) {P : Places}
      (h : IsSound (during k event q sch ts) P) (t : ℕ) (rest : List ℕ)
      (first : P.waiting w ≡ t ∷ rest) where
    abbrev taken : Kernel
    taken =
        during k event (get_queue q ts.nodes) sch
          (record { tds = ts.tds; nodes = get_nodes q ts.nodes })

    other_queues :
        (v : Wait) → same v w ≡ false → queue_of v taken ≡ queue_of v (during k event q sch ts)
    other_queues (Wait.to_send u) e = refl
    other_queues (Wait.on_event u) e = ground arith

    taken-Moves :
        Moves
          (during k event q sch ts)
          taken
          w
          (get_queue (queue_of w (during k event q sch ts)) ts.nodes)
          (get_nodes (queue_of w (during k event q sch ts)) ts.nodes)
    taken-Moves = record {
      keeps = record { next_free = refl; tids = λ u. refl; priorities = λ u. refl; owners = refl };
      sch = refl;
      nodes = ap (λ (x : Queue). get_nodes x ts.nodes) (here q sch ts);
      queue =
          sym (update-same k.eh.await_qs event (get_queue q ts.nodes))
          ∙ ap (λ (x : Queue). get_queue x ts.nodes) (here q sch ts);
      others = other_queues;
    }

    abbrev Q : Places
    Q = left_places P w rest

    taken-IsSound : IsSound taken Q
    taken-IsSound = leave-IsSound h w t rest small first taken-Moves λ u. refl

    first-IsFree : IsFree taken Q t
    first-IsFree = leave-IsFree h w t rest small first taken-Moves λ u. refl

    abbrev told : Kernel
    told = answered t ret taken

    told-Stays : Stays taken told Q
    told-Stays = rewrite-Stays taken Q t _ k.mem refl refl refl (inl refl)

    told-IsSound : IsSound told Q
    told-IsSound = Stays-IsSound taken-IsSound told-Stays

    told-IsFree : IsFree told Q t
    told-IsFree = Keeps-IsFree told-Stays.keeps first-IsFree

    abbrev pub next : Kernel
    next = readied t told

    pub next-IsSound : IsSound next (readied_places Q told t)
    next-IsSound = readied-IsSound told-IsSound t told-IsFree

    pub next-IsFree :
        IsFree (during k event q sch ts) P active → IsFree next (readied_places Q told t) active
    next-IsFree f = readied-IsFree told-IsSound t told-IsFree active other (
        Keeps-IsFree told-Stays.keeps
          (left-IsFree h w t rest small first taken-Moves (λ u. refl) active f))
      where
        other : active ≢ t
        other e = cc (
          f.not_waiting w small,
          ap (λ x. has x (P.waiting w)) e,
          ap (λ l. has t l) first,
          (let self : has t (t ∷ rest) ≡ true = ground arith in self),
        )

    pub next-Spares : Spares active active (during k event q sch ts) next
    next-Spares u lt na nt st =
        let listed : has t (P.waiting w) ≡ true = rw first (ground arith) in
        let waits : (ts.tds t).state ≡ TaskState.event_blocked = (h.waits w t small listed).state in
        let other : u ≢ t = λ e. cc (waits, st) in (lt, ground arith)

    pub wake_loop-next :
        (fuel : ℕ)
        → wake_loop (suc fuel) ret q sch ts
          ≡ wake_loop fuel ret (get_queue q ts.nodes) next.sch next.tasks
    unfolding wake_loop task_descriptor_set_return_value
    wake_loop-next fuel =
        let hq : IsQueue q ts.nodes (await_node t ∷ map await_node rest) =
          subst (λ x. IsQueue x ts.nodes (await_node t ∷ map await_node rest)) (sym (here q sch ts))
            (subst (λ l. IsQueue (queue_of w (during k event q sch ts)) ts.nodes (map await_node l))
              first (h.queues w small)) in
        let full : queue_empty q ≡ false =
          ground (arith, (queue_observers (await_node t ∷ map await_node rest) hq).2) in
        let listed : has t (P.waiting w) ≡ true = rw first (ground arith) in
        let own : ts.nodes.payload (await_node t) ≡ t =
          (h.made t (h.waits w t small listed).made).await_owner in
        rw (
          full,
          wake_loop,
          queue_get-eq (await_node t) (map await_node rest) hq,
          own,
          scheduler_put-eq t told-IsSound.ready (free-MayPut told-IsSound t told-IsFree),
        )
