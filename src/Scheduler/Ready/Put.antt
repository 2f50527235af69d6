-- ===== src/Scheduler/Ready/Put.antt =====
-- About `scheduler_put` of src/scheduler/scheduler.c.
use Prim.Native.Nat.{bit_or}
use armv4_kernel.Prelude.{
  ℕ, ◌+◌, ◌^◌, ◌<◌, ◌≡◌, ◌≢◌, refl, true, false, some, [], ◌∷◌, ◌++◌, map, arith, ◌==◌,
  if◌then◌else◌, length, length-append, has, has-append, Bool-cases, inl, inr, lt→ltb,
}
use armv4_kernel.Bits.{bit, bit-or, bit-pow, or-lt, pow-lt}
use armv4_kernel.Queue.{update}
use armv4_kernel.Queue.Rep.{IsQueue, IsQueue-frame}
use armv4_kernel.Queue.Ops.{put_queue, put_nodes, queue_put-eq, put-IsQueue, put-SameOutside}
use armv4_kernel.Task.{Tasks, TaskState, ready_node, set_state}
use armv4_kernel.Scheduler.{Scheduler, priority_count, scheduler_put}
use armv4_kernel.Scheduler.Ready.{ReadyLists, IsReady}
use armv4_kernel.Scheduler.Ready.Apart.{node_priority, lists_apart}
use armv4_kernel.Scheduler.Ready.Nodes.{
  has-ready_node, length-ready_node, map-ready_node_snoc, ready_node-inv,
}

-- The ready lists with `t` behind all others of its priority.
abbrev pub put_ready : ReadyLists → ℕ → ℕ → ReadyLists
put_ready R p t = update R p (R p ++ t ∷ [])

abbrev pub put_scheduler : Scheduler → ℕ → ℕ → Scheduler
put_scheduler sch p t = record {
  bitmap = bit_or sch.bitmap (2 ^ p);
  priority_qs = update sch.priority_qs p (put_queue (sch.priority_qs p) (ready_node t));
}

abbrev pub put_tasks : Scheduler → ℕ → ℕ → Tasks → Tasks
put_tasks sch p t ts =
    set_state t TaskState.ready
      (record { tds = ts.tds; nodes = put_nodes (sch.priority_qs p) (ready_node t) ts.nodes })

-- What `scheduler_put` asks of a task: a priority of the array, not ready yet, its node its own.
pub record MayPut (ts : Tasks) (R : ReadyLists) (t : ℕ) : Type 0 where
  pub priority : (ts.tds t).priority < priority_count
  pub fresh : has t (R (ts.tds t).priority) ≡ false
  pub owner : ts.nodes.payload (ready_node t) ≡ t
  pub room : length (R (ts.tds t).priority) + 1 < 2 ^ 32

module _ {sch : Scheduler} {ts : Tasks} {R : ReadyLists} (t : ℕ) (h : IsReady sch ts R)
    (m : MayPut ts R t) where
  abbrev prio : ℕ
  prio = (ts.tds t).priority

  pub scheduler_put-eq :
      scheduler_put sch t ts ≡ some (0, put_scheduler sch prio t, put_tasks sch prio t ts)
  unfolding scheduler_put
  scheduler_put-eq = rw (
    lt→ltb _ _ m.priority,
    queue_put-eq (map ready_node (R prio)) (ready_node t) (h.queues prio m.priority) (omega arith),
  )

  bits_kept :
      (i : ℕ)
      → i < priority_count
      → bit i (put_scheduler sch prio t).bitmap
        ≡ (if length (put_ready R prio t i) == 0 then 0 else 1)
  bits_kept i hi = ground (
    arith,
    bit-or i sch.bitmap (2 ^ prio),
    bit-pow i prio,
    h.bits i hi,
    length-append (R prio) (t ∷ []),
  )

  not_put :
      (i a : ℕ)
      → i < priority_count
      → i ≢ prio
      → has a (map ready_node (R i)) ≡ true
      → has a (ready_node t ∷ map ready_node (R prio)) ≡ false
  not_put i a hi ne a∈ =
      let (u, eu, pu) = node_priority h a i hi a∈ in
      let other : u ≢ t = λ e. ne (ground arith) in
      ground (arith, lists_apart h a i prio hi m.priority ne a∈)

  queues_kept :
      (i : ℕ)
      → i < priority_count
      → IsQueue
          ((put_scheduler sch prio t).priority_qs i)
          (put_tasks sch prio t ts).nodes
          (map ready_node (put_ready R prio t i))
  queues_kept i hi = elim (Bool-cases (i == prio)) [
    | inl e ↦
        rw (e, map-ready_node_snoc (R prio) t)
          (put-IsQueue (map ready_node (R prio)) (ready_node t) (h.queues prio m.priority)
            (omega arith) (rw has-ready_node m.fresh)
            (omega (arith, m.room, length-ready_node (R prio))))
    | inr e ↦ rw e (
        IsQueue-frame (map ready_node (R i)) (h.queues i hi) λ a a∈.
          put-SameOutside (map ready_node (R prio)) (ready_node t) (h.queues prio m.priority) a
            (not_put i a hi (ground arith) a∈))
  ]

  pub put-IsReady :
      IsReady (put_scheduler sch prio t) (put_tasks sch prio t ts) (put_ready R prio t)
  put-IsReady = record {
    word = or-lt 64 sch.bitmap (2 ^ prio) h.word (pow-lt prio 64 m.priority);
    bits = bits_kept;
    queues = queues_kept;
    own_list = λ i u hi i∈.
        ground
          (arith, h.own_list i u hi, h.own_list prio u m.priority, has-append u (R prio) (t ∷ []));
    owner = λ i u hi i∈.
        ground (
          arith,
          h.owner i u hi,
          h.owner prio u m.priority,
          has-append u (R prio) (t ∷ []),
          m.owner,
        );
  }

  -- Nodes of another kind keep their links.
  pub put_spares :
      (a : ℕ)
      → ((u : ℕ) → a ≢ ready_node u)
      → (put_tasks sch prio t ts).nodes.next a ≡ ts.nodes.next a
  put_spares a other =
      put-SameOutside (map ready_node (R prio)) (ready_node t) (h.queues prio m.priority) a
        (elim (Bool-cases (has a (ready_node t ∷ map ready_node (R prio)))) [
          | inr out ↦ out
          | inl among ↦ let (u, e, _) = ready_node-inv a (t ∷ R prio) among in absurd (other u e)
        ])

  -- `scheduler_put` of a task with a priority of the array, which is in none of the ready lists and
  -- owns its ready node, returns 0, puts the task behind the others of its priority, marks it
  -- ready, and changes nothing else of any descriptor.
  pub scheduler_put-append :
      (sch' : Scheduler) × (ts' : Tasks) × (scheduler_put sch t ts ≡ some (0, sch', ts'))
      × IsReady sch' ts' (put_ready R prio t)
      × (ts'.tds ≡ update ts.tds t (record (ts.tds t) { state = TaskState.ready }))
  scheduler_put-append =
      (put_scheduler sch prio t, put_tasks sch prio t ts, scheduler_put-eq, put-IsReady, refl)
