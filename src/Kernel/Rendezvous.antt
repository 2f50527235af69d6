-- ===== src/Kernel/Rendezvous.antt =====
-- About `kernel_send` of src/main.c, where the receiver waits.
use mathlib.Core.Path.{◌∙◌}
use armv4_kernel.Prelude.{
  ℕ, ◌+◌, ◌-◌, ◌<◌, ◌≤◌, ◌≡◌, ◌≢◌, ◌⊎◌, refl, some, arith, true, ◌&&◌, ltb, leb, ◌==◌,
  if◌then◌else◌, lt→ltb,
}
use armv4_kernel.Queue.{update}
use armv4_kernel.CString.{Bytes, memcpy}
use armv4_kernel.CString.Copy.{memcpy_lem}
use armv4_kernel.Task.{TaskState, MessageParams, max_tasks}
use armv4_kernel.Scheduler.Ready.{ReadyLists}
use armv4_kernel.Scheduler.Ready.Put.{MayPut}
use armv4_kernel.Kernel.{Kernel, write_state}
use armv4_kernel.Kernel.Messages.{kernel_send, set_reply, send_to_waiting}
use armv4_kernel.Kernel.Ready.{
  Holds, with_ready, readied, answered, answer-eq, answer-Holds, write_task-Holds,
}

-- Buffers between which `memcpy` copies as a copy from before the call would.
abbrev pub Copies : (dest src count : ℕ) → Type 0
Copies dest src count = (dest ≤ src) ⊎ (src + count ≤ dest)

-- The byte at `a` after `count` bytes went from `src` to `dest`.
abbrev pub delivered : (dest src count : ℕ) → Bytes → ℕ → ℕ
delivered dest src count mem a =
    if leb dest a && ltb a (dest + count) then mem (src + (a - dest)) else mem a

-- What a message to a task that waits for one achieves.
pub record Sent (k : Kernel) (R : ReadyLists) (active receiver msg msg_len rep rep_len : ℕ)
    (k' : Kernel) : Type 0 where
  pub holds : Holds k' (with_ready R k receiver)
  pub tid_byte : k'.mem (k.tasks.tds receiver).message_params.tid ≡ (k.tasks.tds active).tid
  pub bytes :
      (a : ℕ)
      → a ≢ (k.tasks.tds receiver).message_params.tid
      → k'.mem a ≡ delivered (k.tasks.tds receiver).message_params.msg msg msg_len k.mem a
  pub receiver_ready : (k'.tasks.tds receiver).state ≡ TaskState.ready
  pub receiver_result : (k'.tasks.tds receiver).frame 0 ≡ (k.tasks.tds active).tid
  pub sender_blocked : (k'.tasks.tds active).state ≡ TaskState.reply_blocked
  pub reply_place : (k'.tasks.tds active).message_params.rep ≡ rep
  pub reply_len : (k'.tasks.tds active).message_params.rep_len ≡ rep_len

module _ {R : ReadyLists} (k : Kernel) (active receiver msg msg_len rep rep_len : ℕ) (h : Holds k R)
    (m : MayPut k.tasks R receiver) (small : receiver < max_tasks)
    (named : (k.tasks.tds receiver).tid ≡ receiver)
    (waits : (k.tasks.tds receiver).state ≡ TaskState.send_blocked)
    (fits : (k.tasks.tds receiver).message_params.msg_len ≡ msg_len)
    (apart : Copies (k.tasks.tds receiver).message_params.msg msg msg_len)
    (two : active ≢ receiver) where
  abbrev params : MessageParams
  params = (k.tasks.tds receiver).message_params

  abbrev copied : Kernel
  copied = record k {
    mem = update (memcpy params.msg msg msg_len k.mem) params.tid (k.tasks.tds active).tid;
  }

  abbrev after_send : Kernel
  after_send = set_reply active rep rep_len (
      write_state active TaskState.reply_blocked
        (readied receiver (answered receiver (k.tasks.tds active).tid copied)))

  send_to_waiting-eq :
      send_to_waiting active receiver msg msg_len rep rep_len k ≡ some (0, after_send)
  unfolding send_to_waiting
  send_to_waiting-eq =
      let len : (params.msg_len == msg_len) ≡ true = ground arith in
      rw (len, answer-eq copied receiver (k.tasks.tds active).tid h m)

  kernel_send_branch :
      kernel_send active receiver msg msg_len rep rep_len k
      ≡ send_to_waiting active receiver msg msg_len rep rep_len k
  unfolding kernel_send
  kernel_send_branch =
      let here : ((k.tasks.tds receiver).tid == receiver) ≡ true = ground arith in
      rw (lt→ltb receiver max_tasks small, here, waits)

  kernel_send-eq : kernel_send active receiver msg msg_len rep rep_len k ≡ some (0, after_send)
  kernel_send-eq = kernel_send_branch ∙ send_to_waiting-eq

  after_send-Holds : Holds after_send (with_ready R k receiver)
  after_send-Holds =
      let woken : Kernel = readied receiver (answered receiver (k.tasks.tds active).tid copied) in
      let blocked : Kernel = write_state active TaskState.reply_blocked woken in
      write_task-Holds blocked active _
        (write_task-Holds woken active _ (answer-Holds copied receiver (k.tasks.tds active).tid h m)
          refl)
        refl

  -- A message of the length that a waiting task asked for arrives. Let the kernel hold the ready
  -- lists, let the receiver be another task than the sender, send-blocked, in none of the ready
  -- lists, with an id that is its index, and let the bytes not overlap its buffer from below. Then
  -- the call returns 0; the bytes of the message and the sender's id are in the receiver's buffers
  -- and no other byte changes; the receiver is ready behind the others of its priority with the
  -- sender's id for its result; the sender waits for the reply, with its buffer noted.
  pub kernel_send-delivers :
      (k' : Kernel) × (kernel_send active receiver msg msg_len rep rep_len k ≡ some (0, k'))
      × Sent k R active receiver msg msg_len rep rep_len k'
  kernel_send-delivers = (
    after_send,
    kernel_send-eq,
    record {
      holds = after_send-Holds;
      tid_byte = ground arith;
      bytes = λ a ne. ground (arith, memcpy_lem params.msg msg msg_len k.mem a apart);
      receiver_ready = ground arith;
      receiver_result = ground arith;
      sender_blocked = ground arith;
      reply_place = ground arith;
      reply_len = ground arith;
    },
  )
