-- ===== src/Kernel/Sound/Send.antt =====
-- `kernel_send` of src/main.c keeps the kernel's queues whole.
use armv4_kernel.Prelude.{
  ℕ, ◌<◌, ◌≡◌, ◌≢◌, inl, inr, refl, ap, true, false, map, arith, ◌==◌, Bool-cases, lt→ltb,
}
use armv4_kernel.Queue.{update}
use armv4_kernel.Queue.Ops.{put_queue, put_nodes, queue_put-eq}
use armv4_kernel.CString.{memcpy}
use armv4_kernel.Task.{
  Task, TaskState, MessageParams, max_tasks, minus, send_node, task_descriptor_set_return_value,
}
use armv4_kernel.Kernel.{Kernel, write_task, write_state}
use armv4_kernel.Kernel.Messages.{
  is_send_blocked, set_reply, send_to_waiting, send_to_busy, kernel_send,
}
use armv4_kernel.Kernel.Ready.{readied, answered}
use armv4_kernel.Kernel.Sound.{Wait, node, queue_of, Places, IsSound, IsFree}
use armv4_kernel.Kernel.Sound.Still.{
  Keeps-IsFree, Stays, Stays-IsSound, IsFree-of_state, free-make_ready, readied-IsSound,
  readied-IsFree, readied_places,
}
use armv4_kernel.Kernel.Sound.Move.{same, Moves}
use armv4_kernel.Kernel.Sound.Move.Enter.{block-IsSound, blocked_places}
use armv4_kernel.Kernel.Sound.Running.{IsRunning, Spares, Succeeds, rewrite-Stays, go_on}

is_send_blocked-eq : (st : TaskState) → is_send_blocked st ≡ true → st ≡ TaskState.send_blocked
is_send_blocked-eq TaskState.send_blocked e = refl
is_send_blocked-eq _ e = cc

module _ {k : Kernel} {P : Places} (h : IsSound k P) (active receiver : ℕ)
    (msg msg_len rep rep_len : ℕ) (r : IsRunning k P active)
    (made : receiver < k.next_free_td) where
  abbrev params : MessageParams
  params = (k.tasks.tds receiver).message_params

  -- The receiver waits for a message.
  module _ (open_ : (k.tasks.tds receiver).state ≡ TaskState.send_blocked) where
    two : active ≢ receiver
    two e = cc (ap (λ x. (k.tasks.tds x).state) e, r.state)

    abbrev handed : Kernel
    handed = record (answered receiver (k.tasks.tds active).tid k) {
      mem = update (memcpy params.msg msg msg_len k.mem) params.tid (k.tasks.tds active).tid;
    }

    handed-Stays : Stays k handed P
    handed-Stays = rewrite-Stays k P receiver _ handed.mem refl refl refl (inl refl)

    handed-IsSound : IsSound handed P
    handed-IsSound = Stays-IsSound h handed-Stays

    receiver-IsFree : IsFree handed P receiver
    receiver-IsFree = Keeps-IsFree handed-Stays.keeps (IsFree-of_state h receiver made (inl open_))

    abbrev woken : Kernel
    woken = readied receiver handed

    active-IsFree : IsFree woken (readied_places P handed receiver) active
    active-IsFree =
        readied-IsFree handed-IsSound receiver receiver-IsFree active two
          (Keeps-IsFree handed-Stays.keeps r.free)

    abbrev sent : Kernel
    sent = set_reply active rep rep_len (write_state active TaskState.reply_blocked woken)

    sent-IsSound : IsSound sent (readied_places P handed receiver)
    sent-IsSound =
        Stays-IsSound
          (Stays-IsSound (readied-IsSound handed-IsSound receiver receiver-IsFree) (
            rewrite-Stays woken (readied_places P handed receiver) active _ woken.mem refl refl refl
              (inr active-IsFree)))
          (rewrite-Stays (write_state active TaskState.reply_blocked woken)
            (readied_places P handed receiver) active _ woken.mem refl refl refl (inl refl))

    sent-Spares : Spares active active k sent
    sent-Spares u lt na nt st =
        let other : u ≢ receiver = λ e. cc (ap (λ x. (k.tasks.tds x).state) e, open_, st) in
        (lt, ground arith)

    waiting-Succeeds :
        Succeeds active active k (send_to_waiting active receiver msg msg_len rep rep_len k)
    unfolding send_to_waiting task_descriptor_set_return_value
    waiting-Succeeds = elim (Bool-cases (params.msg_len == msg_len)) [
      | inr e ↦ rw e (go_on h active r.free active (minus 2))
      | inl e ↦ (
        0,
        sent,
        readied_places P handed receiver,
        rw (e, free-make_ready handed-IsSound receiver receiver-IsFree),
        sent-IsSound,
        sent-Spares,
      )
    ]

  -- The receiver is busy: the sender enters its queue.
  abbrev w : Wait
  w = Wait.to_send receiver

  abbrev d : Task
  d = k.tasks.tds receiver

  abbrev queued : Kernel
  queued = write_state active TaskState.receive_blocked (
      write_task receiver (record d { send_q = put_queue d.send_q (send_node active) })
        (record k {
          tasks = record {
            tds = k.tasks.tds;
            nodes = put_nodes d.send_q (send_node active) k.tasks.nodes;
          };
        }))

  abbrev noted : Task
  noted =
      let a = queued.tasks.tds active in
      record a { message_params = record (a.message_params) { msg = msg; msg_len = msg_len } }

  other_queues : (v : Wait) → same v w ≡ false → queue_of v queued ≡ queue_of v k
  other_queues (Wait.to_send u) e = ground arith
  other_queues (Wait.on_event u) e = refl

  queued-Moves :
      Moves k queued w
        (put_queue (queue_of w k) (node w active))
        (put_nodes (queue_of w k) (node w active) k.tasks.nodes)
  queued-Moves = record {
    keeps = record {
      next_free = refl;
      tids = λ u. ground arith;
      priorities = λ u. ground arith;
      owners = refl;
    };
    sch = refl;
    nodes = refl;
    queue = ground arith;
    others = other_queues;
  }

  queued-IsSound : IsSound queued (blocked_places P w active)
  queued-IsSound =
      block-IsSound h w active r.free made queued-Moves (ground arith) λ u ne. ground arith

  abbrev waits : Kernel
  waits = set_reply active rep rep_len (write_task active noted queued)

  waits-IsSound : IsSound waits (blocked_places P w active)
  waits-IsSound =
      Stays-IsSound
        (Stays-IsSound queued-IsSound (
          rewrite-Stays queued (blocked_places P w active) active _ k.mem refl refl refl
            (inl refl)))
        (rewrite-Stays (write_task active noted queued) (blocked_places P w active) active _ k.mem
          refl refl refl (inl refl))

  busy-Succeeds : Succeeds active active k (send_to_busy active receiver msg msg_len rep rep_len k)
  unfolding send_to_busy
  busy-Succeeds = (
    0,
    waits,
    blocked_places P w active,
    rw (
        queue_put-eq (map send_node (P.waiting w)) (send_node active) (h.queues w made)
          (omega arith)),
    waits-IsSound,
    λ u lt na nt st. (lt, ground arith),
  )

  -- A message to a task that was made.
  pub kernel_send-Succeeds :
      Succeeds active active k (kernel_send active receiver msg msg_len rep rep_len k)
  unfolding kernel_send
  kernel_send-Succeeds =
      let here : ((k.tasks.tds receiver).tid == receiver) ≡ true =
        ground (arith, (h.made receiver made).tid) in
      let small : receiver < max_tasks = omega (arith, h.bound) in
      elim (Bool-cases (is_send_blocked (k.tasks.tds receiver).state)) [
        | inl e ↦
            rw (lt→ltb receiver max_tasks small, here, e)
              (waiting-Succeeds (is_send_blocked-eq _ e))
        | inr e ↦ rw (lt→ltb receiver max_tasks small, here, e) busy-Succeeds
      ]
