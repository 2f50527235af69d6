-- ===== src/Kernel/Sound/Still.antt =====
-- Steps of the kernel of src/main.c that move no task between queues, and the step that makes a task
-- ready.
use mathlib.Core.Path.{subst, sym}
use armv4_kernel.Prelude.{
  ℕ, ◌<◌, ◌≡◌, ◌≢◌, ◌⊎◌, ◌∙◌, inl, inr, refl, true, false, some, [], ◌∷◌, map, arith, has,
  has-append, ◌==◌, Bool-cases,
}
use armv4_kernel.Queue.Rep.{IsQueue, IsQueue-frame}
use armv4_kernel.Task.{TaskState, ready_node}
use armv4_kernel.Scheduler.{priority_count}
use armv4_kernel.Scheduler.Ready.{IsReady}
use armv4_kernel.Scheduler.Ready.Apart.{IsReady-frame}
use armv4_kernel.Scheduler.Ready.Put.{MayPut, put_spares}
use armv4_kernel.Kernel.{Kernel, make_ready}
use armv4_kernel.Kernel.Ready.{priority_of, with_ready, readied, make_ready-eq, readied-Holds}
use armv4_kernel.Kernel.Sound.{
  Wait, node, queue_of, blocked, Exists, Places, IsTask, IsSound, IsFree,
}
use armv4_kernel.Kernel.Sound.Room.{has-map-inv, free-MayPut}

-- What the steps leave alone in every descriptor, and in the nodes.
pub record Keeps (k k' : Kernel) : Type 0 where
  pub next_free : k'.next_free_td ≡ k.next_free_td
  pub tids : (u : ℕ) → (k'.tasks.tds u).tid ≡ (k.tasks.tds u).tid
  pub priorities : (u : ℕ) → (k'.tasks.tds u).priority ≡ (k.tasks.tds u).priority
  pub owners : k'.tasks.nodes.payload ≡ k.tasks.nodes.payload

pub Keeps-IsTask : {k k' : Kernel} (t : ℕ) → Keeps k k' → IsTask k t → IsTask k' t
Keeps-IsTask {k} {k'} t c m = record {
  tid = c.tids t ∙ m.tid;
  priority = omega (arith, c.priorities t, m.priority);
  ready_owner = ground (arith, c.owners, m.ready_owner);
  send_owner = ground (arith, c.owners, m.send_owner);
  await_owner = ground (arith, c.owners, m.await_owner);
}

pub Keeps-Exists :
    {k k' : Kernel} (w : Wait) → Keeps k k' → Exists w k'.next_free_td → Exists w k.next_free_td
Keeps-Exists (Wait.to_send u) c e = omega (arith, c.next_free)
Keeps-Exists (Wait.on_event v) c e = e

-- A task that is free stays so where the lists stay.
pub Keeps-IsFree : {k k' : Kernel} {P : Places} {t : ℕ} → Keeps k k' → IsFree k P t → IsFree k' P t
Keeps-IsFree c f = record {
  made = omega (arith, c.next_free, f.made);
  not_ready = f.not_ready;
  not_waiting = λ w hw. f.not_waiting w (Keeps-Exists w c hw);
}

-- A step that moves no task: the state of a task changes only if it is free.
pub record Stays (k k' : Kernel) (P : Places) : Type 0 where
  pub keeps : Keeps k k'
  pub sch : k'.sch ≡ k.sch
  pub links : (a : ℕ) → k'.tasks.nodes.next a ≡ k.tasks.nodes.next a
  pub queues : (w : Wait) → queue_of w k' ≡ queue_of w k
  pub states : (u : ℕ) → ((k'.tasks.tds u).state ≡ (k.tasks.tds u).state) ⊎ IsFree k P u

module _ {k k' : Kernel} {P : Places} (h : IsSound k P) (s : Stays k k' P) where
  kept_state :
      (i t : ℕ)
      → i < priority_count
      → has t (P.ready i) ≡ true
      → (k'.tasks.tds t).state ≡ (k.tasks.tds t).state
  kept_state i t hi m = elim (s.states t) [ inl e ↦ e | inr f ↦ cc (f.not_ready i hi) ]

  kept_waiting :
      (w : Wait) (t : ℕ)
      → Exists w k.next_free_td
      → has t (P.waiting w) ≡ true
      → (k'.tasks.tds t).state ≡ (k.tasks.tds t).state
  kept_waiting w t hw m = elim (s.states t) [ inl e ↦ e | inr f ↦ cc (f.not_waiting w hw) ]

  pub Stays-IsSound : IsSound k' P
  Stays-IsSound = record {
    ready =
        subst (λ c. IsReady c k'.tasks P.ready) (sym s.sch)
          (IsReady-frame h.ready (λ u. s.links (ready_node u)) (λ u. ground (arith, s.keeps.owners))
            s.keeps.priorities);
    queues = λ w hw.
        let hw' = Keeps-Exists w s.keeps hw in
        subst (λ q. IsQueue q k'.tasks.nodes (map (node w) (P.waiting w))) (sym (s.queues w))
          (IsQueue-frame (map (node w) (P.waiting w)) (h.queues w hw') λ a a∈. s.links a);
    runnable = λ i t hi m.
        let r = h.runnable i t hi m in
        record {
          made = omega (arith, r.made, s.keeps.next_free);
          state = kept_state i t hi m ∙ r.state;
        };
    waits = λ w t hw m.
        let hw' = Keeps-Exists w s.keeps hw in
        let r = h.waits w t hw' m in
        record {
          made = omega (arith, r.made, s.keeps.next_free);
          state = kept_waiting w t hw' m ∙ r.state;
          place = r.place;
        };
    made = λ t m. Keeps-IsTask t s.keeps (h.made t (omega (arith, s.keeps.next_free)));
    bound = omega (arith, h.bound, s.keeps.next_free);
  }

-- A task whose state is that of no queue is free.
module _ {k : Kernel} {P : Places} (h : IsSound k P) (t : ℕ) (made : t < k.next_free_td) where
  pub IsFree-of_state :
      ((k.tasks.tds t).state ≡ TaskState.send_blocked)
        ⊎ ((k.tasks.tds t).state ≡ TaskState.reply_blocked)
      → IsFree k P t
  IsFree-of_state st = record {
    made = made;
    not_ready = λ i hi. elim (Bool-cases (has t (P.ready i))) [
      | inr out ↦ out
      | inl m ↦ let r = (h.runnable i t hi m).state in elim st [ inl e ↦ cc | inr e ↦ cc ]
    ];
    not_waiting = λ w hw. elim (Bool-cases (has t (P.waiting w))) [
      | inr out ↦ out
      | inl m ↦ clash w (h.waits w t hw m).state
    ];
  }
    where
      clash : (w : Wait) → (k.tasks.tds t).state ≡ blocked w → has t (P.waiting w) ≡ false
      clash (Wait.to_send u) e = elim st [ inl f ↦ cc | inr f ↦ cc ]
      clash (Wait.on_event u) e = elim st [ inl f ↦ cc | inr f ↦ cc ]

-- The places after a task was made ready.
abbrev pub readied_places : Places → Kernel → ℕ → Places
readied_places P k t = record P { ready = with_ready P.ready k t }

module _ {k : Kernel} {P : Places} (h : IsSound k P) (t : ℕ) (f : IsFree k P t) where
  abbrev m : MayPut k.tasks P.ready t
  m = free-MayPut h t f

  pub free-make_ready : make_ready t k ≡ some (readied t k)
  free-make_ready = make_ready-eq k t h.ready (free-MayPut h t f)

  pub readied-Keeps : Keeps k (readied t k)
  readied-Keeps = record {
    next_free = refl;
    tids = λ u. ground arith;
    priorities = λ u. ground arith;
    owners = refl;
  }

  same_queue : (w : Wait) → queue_of w (readied t k) ≡ queue_of w k
  same_queue (Wait.to_send u) = ground arith
  same_queue (Wait.on_event e) = refl

  not_ready_node : (w : Wait) (v u : ℕ) → node w v ≢ ready_node u
  not_ready_node (Wait.to_send x) v u e = omega (arith, e)
  not_ready_node (Wait.on_event x) v u e = omega (arith, e)

  readied_queue :
      (w : Wait)
      → Exists w k.next_free_td
      → IsQueue (queue_of w (readied t k)) (readied t k).tasks.nodes (map (node w) (P.waiting w))
  readied_queue w hw =
      subst (λ q. IsQueue q (readied t k).tasks.nodes (map (node w) (P.waiting w)))
        (sym (same_queue w))
        (IsQueue-frame (map (node w) (P.waiting w)) (h.queues w hw) λ a a∈.
          let (v, e, _) = has-map-inv (node w) a (P.waiting w) a∈ in
          put_spares t h.ready (free-MayPut h t f) a (λ u r. not_ready_node w v u (sym e ∙ r)))

  pub readied-IsSound : IsSound (readied t k) (readied_places P k t)
  readied-IsSound = record {
    ready = readied-Holds k t h.ready (free-MayPut h t f);
    queues = readied_queue;
    runnable = λ i u hi i∈. elim (Bool-cases (u == t)) [
      | inl e ↦ record { made = ground (arith, f.made); state = ground arith }
      | inr e ↦
          let r =
            h.runnable i u hi (ground (arith, has-append u (P.ready (priority_of t k)) (t ∷ []))) in
          record { made = r.made; state = ground (arith, r.state) }
    ];
    waits = λ w u hw w∈.
        let r = h.waits w u hw w∈ in
        let ne : (u == t) ≡ false = ground (arith, f.not_waiting w hw) in
        record { made = r.made; state = rw ne r.state; place = r.place };
    made = λ u hu. Keeps-IsTask u readied-Keeps (h.made u hu);
    bound = h.bound;
  }

  -- Any other free task stays free.
  pub readied-IsFree :
      (u : ℕ) → u ≢ t → IsFree k P u → IsFree (readied t k) (readied_places P k t) u
  readied-IsFree u ne g = record {
    made = g.made;
    not_ready =
        λ i hi. ground (arith, g.not_ready i hi, has-append u (P.ready (priority_of t k)) (t ∷ []));
    not_waiting = g.not_waiting;
  }
