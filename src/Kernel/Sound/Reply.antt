-- ===== src/Kernel/Sound/Reply.antt =====
-- `kernel_reply` of src/main.c keeps the kernel's queues whole.
use armv4_kernel.Prelude.{
  ℕ, ◌<◌, ◌≡◌, ◌≢◌, inl, inr, refl, ap, true, arith, ◌==◌, Bool-cases, lt→ltb,
}
use armv4_kernel.CString.{memcpy}
use armv4_kernel.Task.{TaskState, MessageParams, max_tasks, minus, task_descriptor_set_return_value}
use armv4_kernel.Kernel.{Kernel}
use armv4_kernel.Kernel.Messages.{kernel_reply}
use armv4_kernel.Kernel.Ready.{readied, answered}
use armv4_kernel.Kernel.Sound.{Places, IsSound, IsFree}
use armv4_kernel.Kernel.Sound.Still.{
  Keeps-IsFree, Stays, Stays-IsSound, IsFree-of_state, free-make_ready, readied-IsSound,
  readied-IsFree, readied_places,
}
use armv4_kernel.Kernel.Sound.Running.{
  IsRunning, Spares, Spares-trans, Succeeds, rewrite-Stays, go_on,
}

module _ {k : Kernel} {P : Places} (h : IsSound k P) (active receiver rep rep_len : ℕ)
    (r : IsRunning k P active) (made : receiver < k.next_free_td)
    (due : (k.tasks.tds receiver).message_params.rep_len ≡ rep_len
      → (k.tasks.tds receiver).state ≡ TaskState.reply_blocked) where
  abbrev params : MessageParams
  params = (k.tasks.tds receiver).message_params

  module _ (fits : params.rep_len ≡ rep_len) where
    two : active ≢ receiver
    two e = cc (ap (λ x. (k.tasks.tds x).state) e, r.state, due fits)

    abbrev handed : Kernel
    handed = record (answered receiver 0 k) { mem = memcpy params.rep rep rep_len k.mem }

    handed-Stays : Stays k handed P
    handed-Stays = rewrite-Stays k P receiver _ handed.mem refl refl refl (inl refl)

    handed-IsSound : IsSound handed P
    handed-IsSound = Stays-IsSound h handed-Stays

    receiver-IsFree : IsFree handed P receiver
    receiver-IsFree =
        Keeps-IsFree handed-Stays.keeps (IsFree-of_state h receiver made (inr (due fits)))

    abbrev woken : Kernel
    woken = readied receiver handed

    woken-IsSound : IsSound woken (readied_places P handed receiver)
    woken-IsSound = readied-IsSound handed-IsSound receiver receiver-IsFree

    active-IsFree : IsFree woken (readied_places P handed receiver) active
    active-IsFree =
        readied-IsFree handed-IsSound receiver receiver-IsFree active two
          (Keeps-IsFree handed-Stays.keeps r.free)

    woken-Spares : Spares active receiver k woken
    woken-Spares u lt na nt st = (lt, ground arith)

  -- A reply to a task that was made, and that waits for one if it is of the length it asked for.
  pub kernel_reply-Succeeds :
      Succeeds active receiver k (kernel_reply active receiver rep rep_len k)
  unfolding kernel_reply task_descriptor_set_return_value
  kernel_reply-Succeeds =
      let here : ((k.tasks.tds receiver).tid == receiver) ≡ true =
        ground (arith, (h.made receiver made).tid) in
      let small : receiver < max_tasks = omega (arith, h.bound) in
      elim (Bool-cases (params.rep_len == rep_len)) [
        | inr e ↦
            rw (lt→ltb receiver max_tasks small, here, e) (go_on h active r.free receiver (minus 2))
        | inl e ↦
            let fits : params.rep_len ≡ rep_len = ground arith in
            let (ret, k', P', run, s', spares) =
              go_on (woken-IsSound fits) active (active-IsFree fits) receiver 0 in
            rw
              (
                lt→ltb receiver max_tasks small,
                here,
                e,
                free-make_ready (handed-IsSound fits) receiver (receiver-IsFree fits),
              )
              (
                ret,
                k',
                P',
                run,
                s',
                Spares-trans active receiver k (woken fits) k' (woken-Spares fits) spares,
              )
      ]
