-- ===== src/Kernel/Queued.antt =====
-- `kernel_send` of src/main.c to a task that does not wait for a message.
use mathlib.Core.Path.{subst}
use armv4_kernel.Prelude.{
  ℕ, ◌+◌, ◌^◌, ◌<◌, ◌≡◌, ◌≢◌, refl, some, arith, true, false, List, [], ◌∷◌, ◌++◌, map, ◌==◌,
  length, has, lt→ltb,
}
use armv4_kernel.Queue.Rep.{IsQueue}
use armv4_kernel.Queue.Ops.{put_queue, put_nodes, queue_put-eq, put-IsQueue, put-SameOutside}
use armv4_kernel.Task.{Task, TaskState, max_tasks, ready_node, send_node}
use armv4_kernel.Scheduler.Ready.{ReadyLists}
use armv4_kernel.Scheduler.Ready.Apart.{IsReady-frame}
use armv4_kernel.Kernel.{Kernel, write_task, write_state}
use armv4_kernel.Kernel.Messages.{kernel_send, send_to_busy, is_send_blocked, set_reply}
use armv4_kernel.Kernel.Ready.{Holds}
use armv4_kernel.Kernel.Receive.{Senders}

has-send_node : (t : ℕ) (l : List ℕ) → has (send_node t) (map send_node l) ≡ has t l
has-send_node t [] = refl
has-send_node t (x ∷ l) = ground (arith, has-send_node t l)

length-send_node : (l : List ℕ) → length (map send_node l) ≡ length l
length-send_node [] = refl
length-send_node (x ∷ l) = omega (arith, length-send_node l)

map-send_node_snoc :
    (l : List ℕ) (t : ℕ) → map send_node (l ++ t ∷ []) ≡ map send_node l ++ send_node t ∷ []
map-send_node_snoc [] t = refl
map-send_node_snoc (x ∷ l) t = rw (map-send_node_snoc l t)

ready_node-out : (u : ℕ) (l : List ℕ) → has (ready_node u) (map send_node l) ≡ false
ready_node-out u [] = refl
ready_node-out u (x ∷ l) = ground (arith, ready_node-out u l)

-- What a message to a task that is busy achieves.
pub record Queued (k : Kernel) (R : ReadyLists) (active receiver : ℕ) (W : List ℕ)
    (msg msg_len rep rep_len : ℕ) (k' : Kernel) : Type 0 where
  pub holds : Holds k' R
  pub senders : Senders k' receiver (W ++ active ∷ [])
  pub sender_blocked : (k'.tasks.tds active).state ≡ TaskState.receive_blocked
  pub message : (k'.tasks.tds active).message_params.msg ≡ msg
  pub message_len : (k'.tasks.tds active).message_params.msg_len ≡ msg_len
  pub reply_place : (k'.tasks.tds active).message_params.rep ≡ rep
  pub reply_len : (k'.tasks.tds active).message_params.rep_len ≡ rep_len
  pub memory : k'.mem ≡ k.mem

module _ {R : ReadyLists} (k : Kernel) (active receiver : ℕ) (W : List ℕ)
    (msg msg_len rep rep_len : ℕ) (h : Holds k R) (small : receiver < max_tasks)
    (named : (k.tasks.tds receiver).tid ≡ receiver)
    (busy : is_send_blocked (k.tasks.tds receiver).state ≡ false) (waiting : Senders k receiver W)
    (fresh : has active W ≡ false) (room : length W + 1 < 2 ^ 32) (two : active ≢ receiver) where
  abbrev pub d : Task
  d = k.tasks.tds receiver

  abbrev pub queued : Kernel
  queued =
      write_task receiver (record d { send_q = put_queue d.send_q (send_node active) })
        (record k {
          tasks = record {
            tds = k.tasks.tds;
            nodes = put_nodes d.send_q (send_node active) k.tasks.nodes;
          };
        })

  abbrev pub blocked : Kernel
  blocked = write_state active TaskState.receive_blocked queued

  abbrev pub noted : Task
  noted =
      let a = blocked.tasks.tds active in
      record a { message_params = record (a.message_params) { msg = msg; msg_len = msg_len } }

  abbrev pub after_send : Kernel
  after_send = set_reply active rep rep_len (write_task active noted blocked)

  send_to_busy-eq : send_to_busy active receiver msg msg_len rep rep_len k ≡ some (0, after_send)
  unfolding send_to_busy
  send_to_busy-eq = rw (queue_put-eq (map send_node W) (send_node active) waiting (omega arith))

  pub kernel_send-busy :
      kernel_send active receiver msg msg_len rep rep_len k ≡ some (0, after_send)
  unfolding kernel_send
  kernel_send-busy =
      let here : (d.tid == receiver) ≡ true = ground arith in
      rw (lt→ltb receiver max_tasks small, here, busy, send_to_busy-eq)

  pub after_send-Holds : Holds after_send R
  after_send-Holds = IsReady-frame h (λ u. links u) (λ u. refl) (λ u. ground arith)
    where
      links :
          (u : ℕ) → after_send.tasks.nodes.next (ready_node u) ≡ k.tasks.nodes.next (ready_node u)
      links u =
          put-SameOutside (map send_node W) (send_node active) waiting (ready_node u)
            (ready_node-out u (active ∷ W))

  pub after_send-Senders : Senders after_send receiver (W ++ active ∷ [])
  after_send-Senders =
      let q : put_queue d.send_q (send_node active) ≡ (after_send.tasks.tds receiver).send_q =
        ground arith in
      subst (λ q. IsQueue q after_send.tasks.nodes (map send_node (W ++ active ∷ []))) q
        (rw (map-send_node_snoc W active) (
          put-IsQueue (map send_node W) (send_node active) waiting (omega arith)
            (rw has-send_node fresh) (omega (arith, length-send_node W))))

  pub priority_kept : (u : ℕ) → (k.tasks.tds u).priority ≡ (after_send.tasks.tds u).priority
  priority_kept u = ground arith

  pub tid_kept : (u : ℕ) → (after_send.tasks.tds u).tid ≡ (k.tasks.tds u).tid
  tid_kept u = ground arith

  pub after_send-Queued : Queued k R active receiver W msg msg_len rep rep_len after_send
  after_send-Queued = record {
    holds = after_send-Holds;
    senders = after_send-Senders;
    sender_blocked = ground arith;
    message = ground arith;
    message_len = ground arith;
    reply_place = ground arith;
    reply_len = ground arith;
    memory = refl;
  }

  -- A message to a busy task is kept for it. Let the kernel hold the ready lists, let the receiver be
  -- another task than the sender, with an id that is its index, and not send-blocked, and let the
  -- sender not be in its send queue. Then the call returns 0; the sender waits behind the others in
  -- that queue, receive-blocked, with its message and its reply buffer noted; no byte of memory and no
  -- ready list changes.
  pub kernel_send-queues :
      (k' : Kernel) × (kernel_send active receiver msg msg_len rep rep_len k ≡ some (0, k'))
      × Queued k R active receiver W msg msg_len rep rep_len k'
  kernel_send-queues = (after_send, kernel_send-busy, after_send-Queued)
