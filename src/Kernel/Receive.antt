-- ===== src/Kernel/Receive.antt =====
-- About `kernel_receive` of src/main.c, where a sender waits.
use mathlib.Core.Path.{subst, sym, ◌∙◌}
use armv4_kernel.Prelude.{
  ℕ, suc, ◌+◌, ◌^◌, ◌<◌, ◌≡◌, ◌≢◌, refl, some, arith, true, false, List, [], ◌∷◌, map, ◌==◌, length,
  has, Bool-cases, inl, inr,
}
use armv4_kernel.Queue.{Ptr, update, queue_empty}
use armv4_kernel.Queue.Rep.{IsQueue, IsQueue-frame}
use armv4_kernel.Queue.Fifo.{queue_observers}
use armv4_kernel.Queue.Ops.{get_queue, get_nodes, queue_get-eq, get-IsQueue}
use armv4_kernel.CString.{memcpy}
use armv4_kernel.CString.Copy.{memcpy_lem}
use armv4_kernel.Task.{Task, TaskState, ready_node, send_node}
use armv4_kernel.Scheduler.{priority_count}
use armv4_kernel.Scheduler.Ready.{ReadyLists}
use armv4_kernel.Scheduler.Ready.Apart.{IsReady-frame}
use armv4_kernel.Scheduler.Ready.Put.{MayPut, put_spares, put_ready}
use armv4_kernel.Kernel.{Kernel, write_task, write_state}
use armv4_kernel.Kernel.Messages.{kernel_receive, receive_from}
use armv4_kernel.Kernel.Ready.{
  Holds, with_ready, readied, make_ready-eq, readied-Holds, write_task-Holds, priority_of,
}
use armv4_kernel.Kernel.Rendezvous.{Copies, delivered}

-- The tasks that wait in the send queue of `t`.
abbrev pub Senders : Kernel → ℕ → List ℕ → Type 0
Senders k t l = IsQueue (k.tasks.tds t).send_q k.tasks.nodes (map send_node l)

send_node-inv : (a : Ptr) (l : List ℕ) → has a (map send_node l) ≡ true → (u : ℕ) → a ≢ ready_node u
send_node-inv a [] e u = cc
send_node-inv a (x ∷ l) e u = elim (Bool-cases (a == send_node x)) [
  | inl here ↦ λ r. omega (arith, (let p : a ≡ send_node x = ground arith in p), r)
  | inr there ↦ send_node-inv a l (ground arith) u
]

-- What taking a message of the expected length achieves.
pub record Received (k : Kernel) (R : ReadyLists) (active sender : ℕ) (rest : List ℕ)
    (tid msg msg_len : ℕ) (k' : Kernel) : Type 0 where
  pub holds : Holds k' (with_ready R k active)
  pub senders : Senders k' active rest
  pub tid_byte : k'.mem tid ≡ (k.tasks.tds sender).tid
  pub bytes :
      (a : ℕ)
      → a ≢ tid
      → k'.mem a ≡ delivered msg (k.tasks.tds sender).message_params.msg msg_len k.mem a
  pub receiver_ready : (k'.tasks.tds active).state ≡ TaskState.ready
  pub sender_blocked : (k'.tasks.tds sender).state ≡ TaskState.reply_blocked

zero_ne : (n : ℕ) → (suc n == 0) ≡ false
zero_ne n = ground arith

module _ {R : ReadyLists} (k : Kernel) (active sender : ℕ) (rest : List ℕ) (tid msg msg_len : ℕ)
    (h : Holds k R) (m : MayPut k.tasks R active) (waiting : Senders k active (sender ∷ rest))
    (own : k.tasks.nodes.payload (send_node sender) ≡ sender)
    (fits : (k.tasks.tds sender).message_params.msg_len ≡ msg_len)
    (apart : Copies msg (k.tasks.tds sender).message_params.msg msg_len)
    (two : sender ≢ active) where
  abbrev d : Task
  d = k.tasks.tds active

  -- The sender is out of the queue.
  abbrev taken : Kernel
  taken =
      write_task active (record d { send_q = get_queue d.send_q k.tasks.nodes })
        (record k {
          tasks = record { tds = k.tasks.tds; nodes = get_nodes d.send_q k.tasks.nodes };
        })

  abbrev copied : Kernel
  copied = record taken {
    mem =
        update (memcpy msg (k.tasks.tds sender).message_params.msg msg_len k.mem) tid
          (k.tasks.tds sender).tid;
  }

  abbrev after_receive : Kernel
  after_receive = write_state sender TaskState.reply_blocked (readied active copied)

  copied-Holds : Holds copied R
  copied-Holds =
      IsReady-frame h (λ u. ground (arith, waiting.chain.0)) (λ u. refl) (λ u. ground arith)

  copied-MayPut : MayPut copied.tasks R active
  copied-MayPut =
      let e : priority_of active k ≡ priority_of active copied = ground arith in
      record {
        priority = subst (λ p. p < priority_count) e m.priority;
        fresh = subst (λ p. has active (R p) ≡ false) e m.fresh;
        owner = m.owner;
        room = subst (λ p. length (R p) + 1 < 2 ^ 32) e m.room;
      }

  other : (sender == active) ≡ false
  other = ground arith

  receive_from-eq :
      receive_from active sender tid msg msg_len taken
      ≡ some ((k.tasks.tds sender).tid, after_receive)
  unfolding receive_from
  receive_from-eq =
      let len : ((k.tasks.tds sender).message_params.msg_len == msg_len) ≡ true = ground arith in
      let here : (tid == tid) ≡ true = ground arith in
      rw (other, len, make_ready-eq copied active copied-Holds copied-MayPut, here, other)

  kernel_receive-eq :
      kernel_receive active tid msg msg_len k ≡ some ((k.tasks.tds sender).tid, after_receive)
  unfolding kernel_receive
  kernel_receive-eq =
      let test : queue_empty d.send_q ≡ false =
        (queue_observers (map send_node (sender ∷ rest)) waiting).2
        ∙ zero_ne (length (map send_node rest)) in
      rw (test, queue_get-eq (send_node sender) (map send_node rest) waiting, own, receive_from-eq)

  after_receive-Holds : Holds after_receive (with_ready R k active)
  after_receive-Holds =
      subst (λ p. Holds after_receive (put_ready R p active))
        (let e : priority_of active copied ≡ priority_of active k = ground arith in e)
        (write_task-Holds (readied active copied) sender _
          (readied-Holds copied active copied-Holds copied-MayPut) refl)

  after_receive-Senders : Senders after_receive active rest
  after_receive-Senders =
      let q : (after_receive.tasks.tds active).send_q ≡ get_queue d.send_q k.tasks.nodes =
        ground arith in
      subst (λ q. IsQueue q after_receive.tasks.nodes (map send_node rest)) (sym q)
        (IsQueue-frame (map send_node rest)
          (get-IsQueue (send_node sender) (map send_node rest) waiting)
          λ a a∈. put_spares active copied-Holds copied-MayPut a (send_node-inv a rest a∈))

  -- A message of the expected length that a task waits to deliver is received. Let the kernel hold
  -- the ready lists, let the caller be in none of them, let another task be the first in the
  -- caller's send queue, and let the bytes not overlap the caller's buffer from below. Then the
  -- call returns that sender's id; the bytes of its message and its id are in the caller's buffers
  -- and no other byte changes; the caller is ready behind the others of its priority; that sender
  -- waits for the reply; the other senders wait as before.
  pub kernel_receive-delivers :
      (k' : Kernel) × (kernel_receive active tid msg msg_len k
        ≡ some ((k.tasks.tds sender).tid, k'))
      × Received k R active sender rest tid msg msg_len k'
  kernel_receive-delivers = (
    after_receive,
    kernel_receive-eq,
    record {
      holds = after_receive-Holds;
      senders = after_receive-Senders;
      tid_byte = ground arith;
      bytes = λ a ne.
          ground
            (arith, memcpy_lem msg (k.tasks.tds sender).message_params.msg msg_len k.mem a apart);
      receiver_ready = ground arith;
      sender_blocked = ground arith;
    },
  )
