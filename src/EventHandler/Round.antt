-- ===== src/EventHandler/Round.antt =====
-- One round of the loop of `event_handler_handle_event` in src/event_handler/event_handler.c.
use mathlib.Core.Path.{subst, sym, ◌∙◌}
use armv4_kernel.Prelude.{
  ℕ, suc, ◌+◌, ◌^◌, ◌<◌, ◌≡◌, ◌≢◌, refl, ap, Bool, true, false, List, [], ◌∷◌, map, arith, length,
  length-append, has, has-append, ◌==◌, if◌then◌else◌, Bool-cases, inl, inr,
}
use armv4_kernel.Queue.{Queue, update, queue_empty}
use armv4_kernel.Queue.Rep.{IsQueue, IsQueue-frame}
use armv4_kernel.Queue.Fifo.{queue_observers}
use armv4_kernel.Queue.Ops.{get_queue, get_nodes, queue_get-eq, get-IsQueue}
use armv4_kernel.Task.{Task, Tasks, TaskState, await_node, task_descriptor_set_return_value}
use armv4_kernel.Scheduler.{Scheduler, priority_count}
use armv4_kernel.Scheduler.Ready.{ReadyLists, IsReady}
use armv4_kernel.Scheduler.Ready.Apart.{IsReady-frame}
use armv4_kernel.Scheduler.Ready.Put.{
  put_ready, put_scheduler, put_tasks, MayPut, scheduler_put-eq, put-IsReady, put_spares,
}
use armv4_kernel.EventHandler.{wake_loop}
use armv4_kernel.EventHandler.Waiting.{CanWake, has-await_node, await_node-inv}

-- The ready lists with the tasks of a list appended in turn, each to the list of its priority.
abbrev pub wake : (ℕ → ℕ) → ReadyLists → List ℕ → ReadyLists
wake prio R [] = R
wake prio R (t ∷ W) = wake prio (put_ready R (prio t) t) W

-- What a woken task's descriptor becomes: ready, with `ret` for the value of its system call.
abbrev pub woken : ℕ → Task → Task
woken ret d = record d { frame = update d.frame 0 ret; state = TaskState.ready }

-- The state after one round of the loop.
module _ (prio : ℕ → ℕ) (ret : ℕ) (q : Queue) (sch : Scheduler) (ts : Tasks) (R : ReadyLists)
    (t : ℕ) (W : List ℕ) (hq : IsQueue q ts.nodes (await_node t ∷ map await_node W))
    (hr : IsReady sch ts R) (cw : CanWake prio ts R (t ∷ W)) where
  abbrev pub taken : Tasks
  taken = record { tds = ts.tds; nodes = get_nodes q ts.nodes }

  abbrev pub answered : Tasks
  answered = record {
    tds = update ts.tds t (record (ts.tds t) { frame = update (ts.tds t).frame 0 ret });
    nodes = get_nodes q ts.nodes;
  }

  same_priority : (u : ℕ) → (answered.tds u).priority ≡ prio u
  same_priority u = ground (arith, cw.priorities u, cw.priorities t)

  answered-IsReady : IsReady sch answered R
  answered-IsReady =
      IsReady-frame hr (λ u. ground (arith, hq.chain.0)) (λ u. refl)
        (λ u. same_priority u ∙ sym (cw.priorities u))

  answered-MayPut : MayPut answered R t
  answered-MayPut =
      let p : prio t ≡ (answered.tds t).priority = sym (same_priority t) in
      let self : has t (t ∷ W) ≡ true = ground arith in
      record {
        priority = subst (λ p. p < priority_count) p (cw.in_range t self);
        fresh = subst (λ p. has t (R p) ≡ false) p (cw.fresh t self);
        owner = cw.ready_owner t self;
        room = subst (λ p. length (R p) + 1 < 2 ^ 32) p (omega (arith, cw.room (prio t)));
      }

  abbrev pub next_tasks : Tasks
  next_tasks = put_tasks sch (answered.tds t).priority t answered

  pub next-IsReady :
      IsReady (put_scheduler sch (answered.tds t).priority t) next_tasks (put_ready R (prio t) t)
  next-IsReady =
      subst
        (λ p. IsReady (put_scheduler sch (answered.tds t).priority t) next_tasks (put_ready R p t))
        (same_priority t) (put-IsReady t answered-IsReady answered-MayPut)

  pub next-IsQueue : IsQueue (get_queue q ts.nodes) next_tasks.nodes (map await_node W)
  next-IsQueue =
      IsQueue-frame (map await_node W) (get-IsQueue (await_node t) (map await_node W) hq) λ a a∈.
        let (v, e) = await_node-inv a W a∈ in
        put_spares t answered-IsReady answered-MayPut a (λ u. omega arith)

  not_again : has t W ≡ false
  not_again = sym (has-await_node t W) ∙ hq.chain.2

  pub next-CanWake : CanWake prio next_tasks (put_ready R (prio t) t) W
  next-CanWake = record {
    priorities = λ u. ground (arith, same_priority u, same_priority t);
    in_range = λ u m. cw.in_range u (ground arith);
    fresh = λ u m.
        ground (arith, cw.fresh u (ground arith), has-append u (R (prio t)) (t ∷ []), not_again);
    ready_owner = λ u m. cw.ready_owner u (ground arith);
    await_owner = λ u m. cw.await_owner u (ground arith);
    room = λ i. ground (arith, cw.room i, cw.room (prio t), length-append (R (prio t)) (t ∷ []));
  }

  next_tds_same : next_tasks.tds t ≡ woken ret (ts.tds t)
  next_tds_same = ground arith

  next_tds_other : (u : ℕ) → u ≢ t → next_tasks.tds u ≡ ts.tds u
  next_tds_other u ne = ground arith

  -- What the later rounds say of a descriptor, said of the state before this round.
  pub next_descriptors :
      (d : Task) (u : ℕ)
      → d ≡ (if has u W then woken ret (next_tasks.tds u) else next_tasks.tds u)
      → d ≡ (if has u (t ∷ W) then woken ret (ts.tds u) else ts.tds u)
  next_descriptors d u h = elim (Bool-cases (u == t)) [
    | inl e ↦
        let same : u ≡ t = ground arith in
        let out : has u W ≡ false = subst (λ x. has x W ≡ false) (sym same) not_again in
        rw e (
          h
          ∙ ap (λ (b : Bool). if b then woken ret (next_tasks.tds u) else next_tasks.tds u) out
          ∙ subst (λ x. next_tasks.tds x ≡ woken ret (ts.tds x)) (sym same) next_tds_same)
    | inr e ↦ rw e (
        h ∙ ap (λ (x : Task). if has u W then woken ret x else x) (next_tds_other u (ground arith)))
  ]

  -- One round of the loop, where a task waits.
  pub wake_loop_step :
      (fuel : ℕ)
      → wake_loop (suc fuel) ret q sch ts
        ≡ wake_loop fuel ret
            (get_queue q ts.nodes)
            (put_scheduler sch (answered.tds t).priority t)
            next_tasks
  unfolding wake_loop task_descriptor_set_return_value
  wake_loop_step fuel =
      let full : queue_empty q ≡ false =
        ground (arith, (queue_observers (await_node t ∷ map await_node W) hq).2) in
      let own : ts.nodes.payload (await_node t) ≡ t = cw.await_owner t (ground arith) in
      rw (
        full,
        wake_loop,
        queue_get-eq (await_node t) (map await_node W) hq,
        own,
        scheduler_put-eq t answered-IsReady answered-MayPut,
      )
