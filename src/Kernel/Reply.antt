-- ===== src/Kernel/Reply.antt =====
-- About `kernel_reply` of src/main.c.
use mathlib.Core.Path.{subst, sym}
use armv4_kernel.Prelude.{ℕ, ◌+◌, ◌^◌, ◌<◌, ◌≡◌, ◌≢◌, refl, some, arith, true, ◌==◌, lt→ltb, length}
use armv4_kernel.CString.{memcpy}
use armv4_kernel.CString.Copy.{memcpy_lem}
use armv4_kernel.Task.{TaskState, MessageParams, max_tasks}
use armv4_kernel.Scheduler.Ready.{ReadyLists}
use armv4_kernel.Scheduler.Ready.Put.{MayPut, put_ready}
use armv4_kernel.Kernel.{Kernel}
use armv4_kernel.Kernel.Messages.{kernel_reply}
use armv4_kernel.Kernel.Ready.{
  Holds, with_ready, readied, answered, answer-eq, answer-Holds, make_ready-eq, readied-Holds,
  priority_of, write_task-MayPut, readied-MayPut,
}
use armv4_kernel.Kernel.Rendezvous.{Copies, delivered}

-- What a reply of the awaited length achieves.
pub record Replied (k : Kernel) (R : ReadyLists) (active receiver rep rep_len : ℕ) (k' : Kernel)
    : Type 0 where
  pub holds : Holds k' (put_ready (with_ready R k receiver) (priority_of active k) active)
  pub bytes :
      (a : ℕ) → k'.mem a ≡ delivered (k.tasks.tds receiver).message_params.rep rep rep_len k.mem a
  pub receiver_ready : (k'.tasks.tds receiver).state ≡ TaskState.ready
  pub receiver_result : (k'.tasks.tds receiver).frame 0 ≡ 0
  pub replier_ready : (k'.tasks.tds active).state ≡ TaskState.ready

module _ {R : ReadyLists} (k : Kernel) (active receiver rep rep_len : ℕ) (h : Holds k R)
    (m : MayPut k.tasks R receiver) (n : MayPut k.tasks R active)
    (room : length (R (priority_of active k)) + 2 < 2 ^ 32) (small : receiver < max_tasks)
    (named : (k.tasks.tds receiver).tid ≡ receiver)
    (fits : (k.tasks.tds receiver).message_params.rep_len ≡ rep_len)
    (apart : Copies (k.tasks.tds receiver).message_params.rep rep rep_len)
    (two : active ≢ receiver) where
  abbrev params : MessageParams
  params = (k.tasks.tds receiver).message_params

  abbrev copied : Kernel
  copied = record k { mem = memcpy params.rep rep rep_len k.mem }

  abbrev woken : Kernel
  woken = readied receiver (answered receiver 0 copied)

  n' : MayPut (answered receiver 0 copied).tasks R active
  n' = write_task-MayPut copied receiver active _ n refl

  still : MayPut woken.tasks (with_ready R k receiver) active
  still =
      let p : priority_of active (answered receiver 0 copied) ≡ priority_of active k =
        ground arith in
      let q : priority_of receiver (answered receiver 0 copied) ≡ priority_of receiver k =
        ground arith in
      subst (λ q. MayPut woken.tasks (put_ready R q receiver) active) q
        (readied-MayPut (answered receiver 0 copied) receiver active n' two
          (subst (λ p. length (R p) + 2 < 2 ^ 32) (sym p) room))

  kernel_reply-eq : kernel_reply active receiver rep rep_len k ≡ some (0, readied active woken)
  unfolding kernel_reply
  kernel_reply-eq =
      let here : ((k.tasks.tds receiver).tid == receiver) ≡ true = ground arith in
      let len : (params.rep_len == rep_len) ≡ true = ground arith in
      rw (
        lt→ltb receiver max_tasks small,
        here,
        len,
        answer-eq copied receiver 0 h m,
        make_ready-eq woken active (answer-Holds copied receiver 0 h m) still,
      )

  after_reply-Holds :
      Holds
        (readied active woken)
        (put_ready (with_ready R k receiver) (priority_of active k) active)
  after_reply-Holds =
      subst (λ p. Holds (readied active woken) (put_ready (with_ready R k receiver) p active))
        (let e : priority_of active woken ≡ priority_of active k = ground arith in e)
        (readied-Holds woken active (answer-Holds copied receiver 0 h m) still)

  -- A reply of the length that the receiver asked for arrives. Let the kernel hold the ready lists,
  -- let the two tasks be different and in none of the lists, let the receiver's id be its index,
  -- and let the bytes not overlap its buffer from below. Then the call returns 0; the receiver's
  -- buffer holds the bytes of the reply and no other byte changes; the receiver is ready with the
  -- result 0, and the caller is ready, behind it where their priorities are equal.
  pub kernel_reply-delivers :
      (k' : Kernel) × (kernel_reply active receiver rep rep_len k ≡ some (0, k'))
      × Replied k R active receiver rep rep_len k'
  kernel_reply-delivers = (
    readied active woken,
    kernel_reply-eq,
    record {
      holds = after_reply-Holds;
      bytes = λ a. memcpy_lem params.rep rep rep_len k.mem a apart;
      receiver_ready = ground arith;
      receiver_result = ground arith;
      replier_ready = ground arith;
    },
  )
