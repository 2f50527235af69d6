-- ===== src/Kernel/Exchange.antt =====
-- A message of src/main.c that is sent before its receiver asks for it.
use mathlib.Core.Path.{subst, sym, ◌∙◌, ap}
use armv4_kernel.Prelude.{ℕ, ◌+◌, ◌^◌, ◌<◌, ◌≡◌, ◌≢◌, refl, some, arith, false, [], length, has}
use armv4_kernel.Task.{TaskState, max_tasks, send_node}
use armv4_kernel.Scheduler.{priority_count}
use armv4_kernel.Scheduler.Ready.{ReadyLists}
use armv4_kernel.Scheduler.Ready.Put.{MayPut, put_ready}
use armv4_kernel.Kernel.{Kernel}
use armv4_kernel.Kernel.Messages.{kernel_send, kernel_receive, is_send_blocked}
use armv4_kernel.Kernel.Ready.{Holds, with_ready, priority_of}
use armv4_kernel.Kernel.Receive.{Senders, Received, kernel_receive-delivers}
use armv4_kernel.Kernel.Rendezvous.{Copies, delivered}
use armv4_kernel.Kernel.Queued.{
  after_send, after_send-Queued, Queued, priority_kept, tid_kept, kernel_send-busy,
}

module _ {R : ReadyLists} (k : Kernel) (active receiver : ℕ) (msg msg_len rep rep_len tid buf : ℕ)
    (h : Holds k R) (small : receiver < max_tasks) (named : (k.tasks.tds receiver).tid ≡ receiver)
    (busy : is_send_blocked (k.tasks.tds receiver).state ≡ false) (waiting : Senders k receiver [])
    (own : k.tasks.nodes.payload (send_node active) ≡ active) (m : MayPut k.tasks R receiver)
    (apart : Copies buf msg msg_len) (two : active ≢ receiver) where
  abbrev sent : Kernel
  sent =
      after_send k active receiver [] msg msg_len rep rep_len h small named busy waiting refl
        (omega arith) two

  sent_priority : priority_of receiver k ≡ priority_of receiver sent
  sent_priority =
      priority_kept k active receiver [] msg msg_len rep rep_len h small named busy waiting refl
        (omega arith) two receiver

  sent-MayPut : MayPut sent.tasks R receiver
  sent-MayPut = record {
    priority = subst (λ p. p < priority_count) sent_priority m.priority;
    fresh = subst (λ p. has receiver (R p) ≡ false) sent_priority m.fresh;
    owner = m.owner;
    room = subst (λ p. length (R p) + 1 < 2 ^ 32) sent_priority m.room;
  }

  sent-Queued : Queued k R active receiver [] msg msg_len rep rep_len sent
  sent-Queued =
      after_send-Queued k active receiver [] msg msg_len rep rep_len h small named busy waiting refl
        (omega arith) two

  received :
      (k'' : Kernel) × (kernel_receive receiver tid buf msg_len sent
        ≡ some ((sent.tasks.tds active).tid, k''))
      × Received sent R receiver active [] tid buf msg_len k''
  received =
      kernel_receive-delivers sent receiver active [] tid buf msg_len sent-Queued.holds sent-MayPut
        sent-Queued.senders own sent-Queued.message_len
        (subst (λ p. Copies buf p msg_len) (sym sent-Queued.message) apart) two

  sent_tid : (sent.tasks.tds active).tid ≡ (k.tasks.tds active).tid
  sent_tid =
      tid_kept k active receiver [] msg msg_len rep rep_len h small named busy waiting refl
        (omega arith) two active

  -- A message that is sent to a busy task with no senders is received by that task's next `Receive` of
  -- its length. Let the kernel hold the ready lists, let the receiver be in none of them, another task
  -- than the sender, with an id that is its index, and not send-blocked, let the sender own its node,
  -- and let the bytes not overlap the receiver's buffer from below. Then `kernel_send` returns 0, and
  -- `kernel_receive` after it returns the sender's id; the bytes of the message and the sender's id are
  -- in the receiver's buffers and no other byte changes; the receiver is ready and the sender waits
  -- for the reply.
  pub kernel_receive-kernel_send :
      (k' k'' : Kernel) × (kernel_send active receiver msg msg_len rep rep_len k ≡ some (0, k'))
      × (kernel_receive receiver tid buf msg_len k' ≡ some ((k.tasks.tds active).tid, k''))
      × Holds k'' (with_ready R k receiver)
      × (k''.mem tid ≡ (k.tasks.tds active).tid)
      × ((a : ℕ) → a ≢ tid → k''.mem a ≡ delivered buf msg msg_len k.mem a)
      × ((k''.tasks.tds receiver).state ≡ TaskState.ready)
      × ((k''.tasks.tds active).state ≡ TaskState.reply_blocked)
  kernel_receive-kernel_send =
      let (k'', e, r) = received in
      (
        sent,
        k'',
        kernel_send-busy k active receiver [] msg msg_len rep rep_len h small named busy waiting
            refl (omega arith) two,
        e ∙ ap (λ t. some (t, k'')) sent_tid,
        subst (λ p. Holds k'' (put_ready R p receiver)) (sym sent_priority) r.holds,
        r.tid_byte ∙ sent_tid,
        (λ a ne. r.bytes a ne ∙ ap (λ p. delivered buf p msg_len k.mem a) sent-Queued.message),
        r.receiver_ready,
        r.sender_blocked,
      )
