-- ===== src/Kernel/Sound/Signal.antt =====
-- `event_handler_handle_event`, as the kernel of src/main.c calls it, keeps the kernel's queues whole.
use mathlib.Core.Path.{subst, sym}
use armv4_kernel.Prelude.{
  ℕ, ◌+◌, ◌<◌, ◌≡◌, ◌∙◌, inl, refl, true, Option, some, List, [], ◌∷◌, map, arith, ◌==◌,
  if◌then◌else◌, lt→ltb, zero, suc, length, length-map,
}
use armv4_kernel.EventHandler.{max_events, wake_loop, event_handler_handle_event}
use armv4_kernel.Scheduler.{Scheduler}
use armv4_kernel.Kernel.Sound.Wake.{
  during, next, next-IsSound, next-IsFree, next-Spares, wake_loop-next,
}
use armv4_kernel.Kernel.Dispatch.Irq.{signal}
use armv4_kernel.Queue.{Queue, queue_empty, queue_size}
use armv4_kernel.Queue.Rep.{IsQueue, update-same}
use armv4_kernel.Queue.Fifo.{queue_observers}
use armv4_kernel.Queue.Ops.{get_queue}
use armv4_kernel.Task.{Tasks, await_node}
use armv4_kernel.Kernel.{Kernel}
use armv4_kernel.Kernel.Sound.Running.{Spares, Spares-trans}
use armv4_kernel.Kernel.Sound.{Wait, node, queue_of, Places, IsSound, IsFree}
use armv4_kernel.Kernel.Sound.Still.{Keeps-IsFree, Stays, Stays-IsSound}

-- A step by which the running task stays free and the queues whole, and which spares the tasks that wait
-- for a reply.
abbrev pub Proceeds : (active : ℕ) → Kernel → Option Kernel → Type 0
Proceeds active k r =
    (k' : Kernel) × (P : Places) × (r ≡ some k')
    × IsSound k' P
    × IsFree k' P active
    × Spares active active k k'

module _ (k : Kernel) (event ret active : ℕ) (small : event < max_events) where
  abbrev w : Wait
  w = Wait.on_event event

  abbrev at : Queue → Scheduler → Tasks → Kernel
  at = during k event

  waiting_at :
      {q : Queue} {sch : Scheduler} {ts : Tasks} {P : Places} (l : List ℕ)
      → IsSound (at q sch ts) P
      → P.waiting w ≡ l
      → IsQueue q ts.nodes (map (node w) l)
  waiting_at {q} {sch} {ts} l h e =
      subst (λ x. IsQueue x ts.nodes (map (node w) l)) (sym (update-same k.eh.await_qs event q))
        (subst (λ l. IsQueue (queue_of w (at q sch ts)) ts.nodes (map (node w) l)) e
          (h.queues w small))

  wake_loop-Sound :
      (l : List ℕ) (fuel : ℕ) (q : Queue) (sch : Scheduler) (ts : Tasks) {P : Places}
      → IsSound (at q sch ts) P
      → IsFree (at q sch ts) P active
      → P.waiting w ≡ l
      → length l < fuel
      → (q' : Queue) × (sch' : Scheduler) × (ts' : Tasks) × (P' : Places) × (wake_loop fuel ret q
            sch ts
          ≡ some (q', sch', ts'))
        × IsSound (at q' sch' ts') P'
        × IsFree (at q' sch' ts') P' active
        × Spares active active (at q sch ts) (at q' sch' ts')
  unfolding wake_loop
  wake_loop-Sound l zero q sch ts h f e lt = absurd (omega arith)
  wake_loop-Sound [] (suc fuel) q sch ts {P} h f e lt =
      let empty : queue_empty q ≡ true =
        ground (arith, (queue_observers [] (waiting_at [] h e)).2) in
      (q, sch, ts, P, rw (empty, wake_loop), h, f, λ u lt na nt st. (lt, refl))
  wake_loop-Sound (t ∷ rest) (suc fuel) q sch ts {P} h f e lt =
      let h' = next-IsSound k event ret active small q sch ts h t rest e in
      let f' = next-IsFree k event ret active small q sch ts h t rest e f in
      let k' = next k event ret active small q sch ts h t rest e in
      let self : (event == event) ≡ true = ground arith in
      let list : (if event == event then rest else P.waiting w) ≡ rest = rw self refl in
      let (q'', sch'', ts'', P'', run, h'', f'', spares) =
        wake_loop-Sound rest fuel (get_queue q ts.nodes) k'.sch k'.tasks h' f' list (omega arith) in
      (
        q'',
        sch'',
        ts'',
        P'',
        wake_loop-next k event ret active small q sch ts h t rest e fuel ∙ run,
        h'',
        f'',
        Spares-trans active active (at q sch ts) k' (at q'' sch'' ts'')
            (next-Spares k event ret active small q sch ts h t rest e) spares,
      )

  -- Every task that waits for one of the 16 events is woken.
  pub signal-Proceeds :
      {P : Places} → IsSound k P → IsFree k P active → Proceeds active k (signal event ret k)
  unfolding signal event_handler_handle_event
  signal-Proceeds {P} h f =
      let q = k.eh.await_qs event in
      let s : Stays k (at q k.sch k.tasks) P = record {
        keeps = record {
          next_free = refl;
          tids = λ u. refl;
          priorities = λ u. refl;
          owners = refl;
        };
        sch = refl;
        links = λ a. refl;
        queues = same_queues;
        states = λ u. inl refl;
      } in
      let h' = Stays-IsSound h s in
      let f' : IsFree (at q k.sch k.tasks) P active = Keeps-IsFree s.keeps f in
      let count = (queue_observers (map await_node (P.waiting w)) (h.queues w small)).1 in
      let (q', sch', ts', P', run, h'', f'', spares) =
        wake_loop-Sound (P.waiting w) (queue_size q + 1) q k.sch k.tasks h' f' refl
          (omega (arith, count, length-map (P.waiting w) await_node)) in
      (at q' sch' ts', P', rw (lt→ltb event max_events small, run), h'', f'', spares)
    where
      same_queues : (v : Wait) → queue_of v (at (k.eh.await_qs event) k.sch k.tasks) ≡ queue_of v k
      same_queues (Wait.to_send u) = refl
      same_queues (Wait.on_event u) = ground arith
