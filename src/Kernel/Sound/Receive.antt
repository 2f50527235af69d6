-- ===== src/Kernel/Sound/Receive.antt =====
-- `kernel_receive` of src/main.c keeps the kernel's queues whole.
use mathlib.Core.Path.{subst}
use armv4_kernel.Prelude.{
  ℕ, ◌≡◌, ◌≢◌, inl, inr, refl, ap, true, false, List, [], ◌∷◌, map, arith, has, ◌==◌, Bool-cases,
}
use armv4_kernel.Queue.{update, queue_empty}
use armv4_kernel.Queue.Rep.{IsQueue}
use armv4_kernel.Queue.Fifo.{queue_observers}
use armv4_kernel.Queue.Ops.{get_queue, get_nodes, queue_get-eq}
use armv4_kernel.CString.{memcpy}
use armv4_kernel.Task.{Task, TaskState, MessageParams, minus, send_node}
use armv4_kernel.Kernel.{Kernel, write_task, write_state}
use armv4_kernel.Kernel.Messages.{receive_from, kernel_receive}
use armv4_kernel.Kernel.Ready.{readied}
use armv4_kernel.Kernel.Sound.{Wait, queue_of, Places, IsSound, IsFree}
use armv4_kernel.Kernel.Sound.Still.{
  Keeps-IsFree, Stays, Stays-IsSound, free-make_ready, readied-IsSound, readied-IsFree,
  readied_places,
}
use armv4_kernel.Kernel.Sound.Move.{same, Moves}
use armv4_kernel.Kernel.Sound.Move.Leave.{leave-IsSound, leave-IsFree, left-IsFree, left_places}
use armv4_kernel.Kernel.Sound.Running.{
  IsRunning, Spares, Spares-trans, Succeeds, rewrite-Stays, mem-Stays, go_on,
}

module _ {k : Kernel} {P : Places} (h : IsSound k P) (active tid msg msg_len : ℕ)
    (r : IsRunning k P active) where
  abbrev w : Wait
  w = Wait.to_send active

  abbrev d : Task
  d = k.tasks.tds active

  module _ (sender : ℕ) (rest : List ℕ) (first : P.waiting w ≡ sender ∷ rest) where
    abbrev taken : Kernel
    taken =
        write_task active (record d { send_q = get_queue d.send_q k.tasks.nodes })
          (record k {
            tasks = record { tds = k.tasks.tds; nodes = get_nodes d.send_q k.tasks.nodes };
          })

    other_queues : (v : Wait) → same v w ≡ false → queue_of v taken ≡ queue_of v k
    other_queues (Wait.to_send u) e = ground arith
    other_queues (Wait.on_event u) e = refl

    taken-Moves :
        Moves k taken w
          (get_queue (queue_of w k) k.tasks.nodes)
          (get_nodes (queue_of w k) k.tasks.nodes)
    taken-Moves = record {
      keeps = record {
        next_free = refl;
        tids = λ u. ground arith;
        priorities = λ u. ground arith;
        owners = refl;
      };
      sch = refl;
      nodes = refl;
      queue = ground arith;
      others = other_queues;
    }

    abbrev Q : Places
    Q = left_places P w rest

    same_state : (u : ℕ) → (taken.tasks.tds u).state ≡ (k.tasks.tds u).state
    same_state u = ground arith

    taken-IsSound : IsSound taken Q
    taken-IsSound = leave-IsSound h w sender rest r.free.made first taken-Moves same_state

    sender-IsFree : IsFree taken Q sender
    sender-IsFree = leave-IsFree h w sender rest r.free.made first taken-Moves same_state

    active-IsFree : IsFree taken Q active
    active-IsFree =
        left-IsFree h w sender rest r.free.made first taken-Moves same_state active r.free

    listed : has sender (P.waiting w) ≡ true
    listed = rw first (ground arith)

    two : sender ≢ active
    two e =
        cc (ap (λ x. (k.tasks.tds x).state) e, r.state, (h.waits w sender r.free.made listed).state)

    abbrev params : MessageParams
    params = (taken.tasks.tds sender).message_params

    abbrev copied : Kernel
    copied = record taken {
      mem = update (memcpy msg params.msg msg_len taken.mem) tid (taken.tasks.tds sender).tid;
    }

    copied-Stays : Stays taken copied Q
    copied-Stays = mem-Stays taken Q copied.mem

    copied-IsSound : IsSound copied Q
    copied-IsSound = Stays-IsSound taken-IsSound copied-Stays

    abbrev on : Kernel
    on = readied active copied

    on-IsSound : IsSound on (readied_places Q copied active)
    on-IsSound =
        readied-IsSound copied-IsSound active (Keeps-IsFree copied-Stays.keeps active-IsFree)

    sender_stays-IsFree : IsFree on (readied_places Q copied active) sender
    sender_stays-IsFree =
        readied-IsFree copied-IsSound active (Keeps-IsFree copied-Stays.keeps active-IsFree) sender
          two (Keeps-IsFree copied-Stays.keeps sender-IsFree)

    abbrev received : Kernel
    received = write_state sender TaskState.reply_blocked on

    received-IsSound : IsSound received (readied_places Q copied active)
    received-IsSound = Stays-IsSound on-IsSound (
        rewrite-Stays on (readied_places Q copied active) sender _ on.mem refl refl refl
          (inr sender_stays-IsFree))

    taken-Spares : Spares active active k taken
    taken-Spares u lt na nt st = (lt, ground arith)

    received-Spares : Spares active active k received
    received-Spares u lt na nt st =
        let waits : (k.tasks.tds sender).state ≡ TaskState.receive_blocked =
          (h.waits w sender r.free.made listed).state in
        let other : u ≢ sender = λ e. cc (ap (λ x. (k.tasks.tds x).state) e, waits, st) in
        (lt, ground arith)

    from-Succeeds : Succeeds active active k (receive_from active sender tid msg msg_len taken)
    unfolding receive_from
    from-Succeeds = elim (Bool-cases (params.msg_len == msg_len)) [
      | inr e ↦
          let (ret, k', P', run, s', spares) =
            go_on taken-IsSound active active-IsFree active (minus 1) in
          rw e (ret, k', P', run, s', Spares-trans active active k taken k' taken-Spares spares)
      | inl e ↦ (
        on.mem tid,
        received,
        readied_places Q copied active,
        rw (
          e,
          free-make_ready copied-IsSound active (Keeps-IsFree copied-Stays.keeps active-IsFree),
        ),
        received-IsSound,
        received-Spares,
      )
    ]

    waiting-Succeeds : Succeeds active active k (kernel_receive active tid msg msg_len k)
    unfolding kernel_receive
    waiting-Succeeds =
        let q : IsQueue d.send_q k.tasks.nodes (send_node sender ∷ map send_node rest) =
          subst (λ l. IsQueue d.send_q k.tasks.nodes (map send_node l)) first
            (h.queues w r.free.made) in
        let own : k.tasks.nodes.payload (send_node sender) ≡ sender =
          (h.made sender (h.waits w sender r.free.made listed).made).send_owner in
        let full : queue_empty d.send_q ≡ false =
          ground (arith, (queue_observers (send_node sender ∷ map send_node rest) q).2) in
        rw (full, queue_get-eq (send_node sender) (map send_node rest) q, own) from-Succeeds

  -- Nobody waits to send: the caller does, for a message.
  abbrev opened : Kernel
  opened =
      write_task active
        (record d {
          state = TaskState.send_blocked;
          message_params = record (d.message_params) { tid = tid; msg = msg; msg_len = msg_len };
        })
        k

  opened-IsSound : IsSound opened P
  opened-IsSound = Stays-IsSound h (rewrite-Stays k P active _ k.mem refl refl refl (inr r.free))

  by_senders :
      (l : List ℕ)
      → P.waiting w ≡ l
      → Succeeds active active k (kernel_receive active tid msg msg_len k)
  unfolding kernel_receive
  by_senders [] e =
      let q =
        subst (λ l. IsQueue d.send_q k.tasks.nodes (map send_node l)) e (h.queues w r.free.made) in
      let none_there : queue_empty d.send_q ≡ true = ground (arith, (queue_observers [] q).2) in
      rw none_there (0, opened, P, refl, opened-IsSound, λ u lt na nt st. (lt, ground arith))
  by_senders (sender ∷ rest) e = waiting-Succeeds sender rest e

  pub kernel_receive-Succeeds : Succeeds active active k (kernel_receive active tid msg msg_len k)
  kernel_receive-Succeeds = by_senders (P.waiting w) refl
