-- ===== src/Kernel/Sound/Create.antt =====
-- `kernel_create` of src/main.c keeps the kernel's queues whole.
use mathlib.Core.Path.{subst, sym}
use armv4_kernel.Prelude.{
  ℕ, ◌+◌, ◌<◌, ◌≡◌, ◌≢◌, ◌⊎◌, ◌∙◌, inl, inr, refl, ap, true, false, some, [], map, arith, has, ◌==◌,
  Bool-cases, if◌then◌else◌, ltb, leb, ◌%◌,
}
use armv4_kernel.Queue.{queue_node_init, queue_init}
use armv4_kernel.Queue.Rep.{IsQueue, IsQueue-frame}
use armv4_kernel.Queue.Fifo.{queue_init-IsQueue}
use armv4_kernel.Scheduler.{priority_count}
use armv4_kernel.Scheduler.Ready.Apart.{IsReady-members}
use armv4_kernel.Kernel.Sound.Room.{has-map-inv, free-MayPut}
use armv4_kernel.Task.{Task, max_tasks, minus, task_descriptor_init}
use armv4_kernel.Kernel.{kernel_create, Kernel}
use armv4_kernel.Kernel.Ready.{Holds, make_ready-eq, readied}
use armv4_kernel.Kernel.Sound.{
  Wait, node, queue_of, Exists, Places, IsTask, IsWaiting, IsSound, IsFree,
}
use armv4_kernel.Kernel.Sound.Still.{readied-IsSound, readied-IsFree, readied_places}
use armv4_kernel.Kernel.Sound.Move.{same, with_waiting}
use armv4_kernel.Kernel.Sound.Running.{IsRunning, Spares, Succeeds}

module _ (stack_start : ℕ) {k : Kernel} {P : Places} (h : IsSound k P) (active priority code : ℕ)
    (r : IsRunning k P active) where
  module _ (low : priority < priority_count) (free : k.next_free_td < max_tasks) where
    abbrev new : ℕ
    new = k.next_free_td

    -- The new descriptor, counted as in use.
    abbrev made : Kernel
    made = record k {
      tasks =
          task_descriptor_init stack_start new (new % 256) (priority % 256) (some active) code
            k.tasks;
      next_free_td = new + 1;
    }

    abbrev Q : Places
    Q = record P { waiting = with_waiting P.waiting (Wait.to_send new) [] }

    older : (u : ℕ) → u < new → made.tasks.tds u ≡ k.tasks.tds u
    unfolding task_descriptor_init
    older u lt = ground arith

    same_links :
        (v : Wait) (u : ℕ)
        → u < new
        → made.tasks.nodes.next (node v u) ≡ k.tasks.nodes.next (node v u)
    unfolding task_descriptor_init queue_node_init
    same_links (Wait.to_send x) u lt = ground arith
    same_links (Wait.on_event x) u lt = ground arith

    made-Holds : Holds made P.ready
    unfolding task_descriptor_init queue_node_init
    made-Holds = IsReady-members h.ready λ i u hi m.
        let lt = (h.runnable i u hi m).made in (ground arith, ground arith, ground arith)

    same_priority : (u : ℕ) → u < new → (made.tasks.tds u).priority ≡ (k.tasks.tds u).priority
    same_priority u lt = ap (λ (d : Task). d.priority) (older u lt)

    older-IsTask : (u : ℕ) → u < new → IsTask made u
    unfolding task_descriptor_init queue_node_init
    older-IsTask u lt =
        let m = h.made u lt in
        record {
          tid = ground (arith, m.tid);
          priority = omega (arith, same_priority u lt, m.priority);
          ready_owner = ground (arith, m.ready_owner);
          send_owner = ground (arith, m.send_owner);
          await_owner = ground (arith, m.await_owner);
        }

    new-IsTask : IsTask made new
    unfolding task_descriptor_init queue_node_init
    new-IsTask = record {
      tid = ground arith;
      priority = ground arith;
      ready_owner = ground arith;
      send_owner = ground arith;
      await_owner = ground arith;
    }

    older_queue : (v : Wait) → Exists v new → queue_of v made ≡ queue_of v k
    older_queue (Wait.to_send u) hv = ap (λ (d : Task). d.send_q) (older u hv)
    older_queue (Wait.on_event u) hv = refl

    new_queue : (made.tasks.tds new).send_q ≡ queue_init
    unfolding task_descriptor_init
    new_queue = ground arith

    older_queues :
        (v : Wait)
        → Exists v new
        → IsQueue (queue_of v made) made.tasks.nodes (map (node v) (P.waiting v))
    older_queues v hv =
        subst (λ q. IsQueue q made.tasks.nodes (map (node v) (P.waiting v)))
          (sym (older_queue v hv))
          (IsQueue-frame (map (node v) (P.waiting v)) (h.queues v hv) λ a a∈.
            let (u, e, u∈) = has-map-inv (node v) a (P.waiting v) a∈ in
            subst (λ a. made.tasks.nodes.next a ≡ k.tasks.nodes.next a) (sym e)
              (same_links v u (h.waits v u hv u∈).made))

    -- A queue is that of the new task, or was there before.
    which :
        (v : Wait)
        → Exists v (new + 1)
        → (v ≡ Wait.to_send new) ⊎ ((same v (Wait.to_send new) ≡ false) × Exists v new)
    which (Wait.to_send u) hv = elim (Bool-cases (u == new)) [
      | inl e ↦ inl (ap Wait.to_send (ground arith))
      | inr e ↦ inr (e, ground arith)
    ]
    which (Wait.on_event u) hv = inr (refl, hv)

    made_queues :
        (v : Wait)
        → Exists v (new + 1)
        → IsQueue (queue_of v made) made.tasks.nodes (map (node v) (Q.waiting v))
    made_queues v hv = elim (which v hv) [
      | inl e ↦
          subst (λ x. IsQueue (queue_of x made) made.tasks.nodes (map (node x) (Q.waiting x)))
            (sym e)
            (let self : (new == new) ≡ true = ground arith in
              rw self (
                subst (λ q. IsQueue q made.tasks.nodes []) (sym new_queue)
                  (queue_init-IsQueue made.tasks.nodes)))
      | inr (ne, old) ↦ rw ne (older_queues v old)
    ]

    made_waits :
        (v : Wait) (u : ℕ) → Exists v (new + 1) → has u (Q.waiting v) ≡ true → IsWaiting made Q v u
    made_waits v u hv m = elim (which v hv) [
      | inl e ↦ absurd (nobody (subst (λ x. has u (Q.waiting x) ≡ true) e m))
      | inr (ne, old) ↦
          let w =
            h.waits v u old (subst (λ b. has u (if b then [] else P.waiting v) ≡ true) ne m) in
          record {
            made = omega (arith, w.made);
            state = ap (λ (d : Task). d.state) (older u w.made) ∙ w.state;
            place = w.place;
          }
    ]
      where
        nobody : has u (Q.waiting (Wait.to_send new)) ≡ true → ⊥
        nobody m = ground arith

    made-IsSound : IsSound made Q
    made-IsSound = record {
      ready = made-Holds;
      queues = made_queues;
      runnable = λ i u hi m.
          let w = h.runnable i u hi m in
          record {
            made = omega (arith, w.made);
            state = ap (λ (d : Task). d.state) (older u w.made) ∙ w.state;
          };
      waits = made_waits;
      made = λ u hu. elim (Bool-cases (u == new)) [
        | inl e ↦ subst (IsTask made) (let ne : new ≡ u = ground arith in ne) new-IsTask
        | inr e ↦ older-IsTask u (ground arith)
      ];
      bound = omega arith;
    }

    new-IsFree : IsFree made Q new
    new-IsFree = record {
      made = omega arith;
      not_ready = λ i hi. elim (Bool-cases (has new (P.ready i))) [
        | inr o ↦ o
        | inl m ↦ absurd (omega (arith, (h.runnable i new hi m).made))
      ];
      not_waiting = λ v hv. elim (which v hv) [
        | inl e ↦
            subst (λ x. has new (Q.waiting x) ≡ false) (sym e)
              (let self : (new == new) ≡ true = ground arith in rw self refl)
        | inr (ne, old) ↦ rw ne (elim (Bool-cases (has new (P.waiting v))) [
          | inr o ↦ o
          | inl m ↦ absurd (omega (arith, (h.waits v new old m).made))
        ])
      ];
    }

    active-IsFree : IsFree made Q active
    active-IsFree = record {
      made = omega (arith, r.free.made);
      not_ready = r.free.not_ready;
      not_waiting = λ v hv. elim (which v hv) [
        | inl e ↦
            subst (λ x. has active (Q.waiting x) ≡ false) (sym e)
              (let self : (new == new) ≡ true = ground arith in rw self refl)
        | inr (ne, old) ↦ rw ne (r.free.not_waiting v old)
      ];
    }

    two : active ≢ new
    two e = omega (arith, e, r.free.made)

    abbrev first : Kernel
    first = readied new made

    first-IsSound : IsSound first (readied_places Q made new)
    first-IsSound = readied-IsSound made-IsSound new new-IsFree

    next-IsFree : IsFree first (readied_places Q made new) active
    next-IsFree = readied-IsFree made-IsSound new new-IsFree active two active-IsFree

    abbrev uncounted : Kernel
    uncounted = record made { next_free_td = new }

    created-Spares : Spares active active k (readied active first)
    created-Spares u lt na nt st =
        let other : u ≢ new = λ e. omega (arith, lt, e) in
        let same = older u lt in (omega (arith, lt), ground arith)

    creates-Succeeds : Succeeds active active k (kernel_create stack_start active priority code k)
    unfolding kernel_create
    creates-Succeeds =
        let l : ltb 63 priority ≡ false = ground arith in
        let f : leb max_tasks new ≡ false = ground arith in
        (
          ((readied active first).tasks.tds new).tid,
          readied active first,
          readied_places (readied_places Q made new) first active,
          rw (
            l,
            f,
            make_ready-eq uncounted new made-Holds (free-MayPut made-IsSound new new-IsFree),
            make_ready-eq (readied new uncounted) active first-IsSound.ready
                (free-MayPut first-IsSound active next-IsFree),
          ),
          readied-IsSound first-IsSound active next-IsFree,
          created-Spares,
        )

  pub kernel_create-Succeeds :
      Succeeds active active k (kernel_create stack_start active priority code k)
  kernel_create-Succeeds = elim (Bool-cases (ltb 63 priority)) [
    | inl e ↦ unfold kernel_create in rw e (minus 1, k, P, refl, h, λ u lt na nt st. (lt, refl))
    | inr e ↦ elim (Bool-cases (leb max_tasks k.next_free_td)) [
      | inl f ↦
          unfold kernel_create in rw (e, f) (minus 2, k, P, refl, h, λ u lt na nt st. (lt, refl))
      | inr f ↦ creates-Succeeds (ground arith) (ground arith)
    ]
  ]
