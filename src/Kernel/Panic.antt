-- ===== src/Kernel/Panic.antt =====
-- The panic of src/main.c, on a system call and on an interrupt.
use armv4_kernel.Prelude.{
  ℕ, ◌+◌, ◌^◌, ◌≡◌, ◌≢◌, ◌∙◌, ◌-◌, refl, ap, has, if◌then◌else◌, Option, some, List, [], ◌∷◌, ◌++◌,
  arith, Bool, true, false, map, ◌==◌, lt→ltb,
}
use armv4_kernel.Bits.{bit, bit-pow, bit_of_zero, pow-lt, LowestBit, LowestBit-set}
use Prim.Native.Nat.{bit_and, bit_or-bitwise}
use mathlib.Core.Path.{subst, sym}
use armv4_kernel.Queue.{Queue, update, queue_empty}
use armv4_kernel.Scheduler.Ready.Get.{get_tasks}
use armv4_kernel.Queue.Rep.{IsQueue, update-same}
use armv4_kernel.Scheduler.Bitmap.{bitmap_leadingzeroes-LowestBit}
use armv4_kernel.Queue.Ops.{queue_put-eq, queue_get-eq, get_queue}
use armv4_kernel.Task.{Tasks, TaskState, ready_node, task_descriptor_set_return_value}
use armv4_kernel.Scheduler.{
  Scheduler, bitmap_leadingzeroes, scheduler_empty, scheduler_get, scheduler_put,
}
use armv4_kernel.Scheduler.Ready.{ReadyLists}
use armv4_kernel.Scheduler.Ready.Put.{MayPut}
use armv4_kernel.EventHandler.{event_timer, event_uart1, event_uart2}
use armv4_kernel.Kernel.{Kernel, make_ready, kernel_panic}
use armv4_kernel.Kernel.Device.{vic2_base, vic_vec_addr_offset}
use armv4_kernel.Kernel.Dispatch.Irq.{dispatch_irq, handle_irq}
use armv4_kernel.Kernel.Dispatch.{
  SysCode, handle_swi, handle, is_idle, update_idle_task, end_idle_task, round,
}
use armv4_kernel.Kernel.Ready.{Holds, readied, readied-Holds, answered, priority_of}

-- The codes on which `handle` panics.
abbrev pub panics : SysCode → Bool
panics SysCode.panic = true
panics SysCode.unknown = true
panics _ = false

module _ (stack_start : ℕ) (k : Kernel) (active : ℕ) where
  abbrev panicked : Kernel
  panicked = answered active 0 (kernel_panic k)

  handle_swi-panicked :
      (code : SysCode)
      → panics code ≡ true
      → handle_swi stack_start code active k ≡ some (false, panicked)
  unfolding handle_swi task_descriptor_set_return_value
  handle_swi-panicked SysCode.panic e = refl
  handle_swi-panicked SysCode.unknown e = refl
  handle_swi-panicked _ e = cc

  round-panicked :
      (run : ℕ → Kernel → Kernel × ℕ × ℕ) → round stack_start run panicked ≡ some (true, panicked)
  unfolding round scheduler_get scheduler_empty kernel_panic
  round-panicked run = refl

  -- The system call of a panic, and one with a code that there is not, let the main loop end in the
  -- next round, whichever tasks are ready.
  pub handle_swi-panic :
      (code : SysCode) (run : ℕ → Kernel → Kernel × ℕ × ℕ)
      → panics code ≡ true
      → (k' : Kernel) × (handle_swi stack_start code active k ≡ some (false, k'))
        × (round stack_start run k' ≡ some (true, k'))
  handle_swi-panic code run e = (panicked, handle_swi-panicked code e, round-panicked run)

-- The rest of a round, in which the task `t` runs and its trap is handled.
abbrev pub turn :
    (stack_start : ℕ) → (ℕ → Kernel → Kernel × ℕ × ℕ) → ℕ → Kernel → Option (Bool × Kernel)
turn stack_start run t k =
    let k₂ = if is_idle stack_start t k then update_idle_task stack_start k else k in
    let (k₃, irq, req) = run t k₂ in
    let k₄ = if is_idle stack_start t k₃ then end_idle_task stack_start k₃ else k₃ in
    handle stack_start irq req t k₄

-- A panic on the way through an interrupt.
module _ {R : ReadyLists} (k : Kernel) (active : ℕ) (h : Holds k R) (m : MayPut k.tasks R active)
    (event : ℕ) (reported : k.regs (vic2_base + vic_vec_addr_offset) ≡ event)
    (no_timer : event ≢ event_timer) (no_uart1 : event ≢ event_uart1)
    (no_uart2 : event ≢ event_uart2) where
  dispatch_irq-unknown : dispatch_irq event k ≡ some (kernel_panic k)
  unfolding dispatch_irq
  dispatch_irq-unknown =
      let a : (event == event_timer) ≡ false = ground arith in
      let b : (event == event_uart1) ≡ false = ground arith in
      let c : (event == event_uart2) ≡ false = ground arith in rw (a, b, c)

  abbrev back : Kernel
  back = readied active (kernel_panic k)

  make_ready-panicked : make_ready active (kernel_panic k) ≡ some back
  unfolding kernel_panic make_ready scheduler_put
  make_ready-panicked = rw (
    lt→ltb _ _ m.priority,
    queue_put-eq (map ready_node (R (priority_of active k))) (ready_node active)
        (h.queues (priority_of active k) m.priority) (omega arith),
  )

  abbrev p : ℕ
  p = priority_of active k

  back-bitmap : back.sch.bitmap ≡ 2 ^ p
  unfolding kernel_panic
  back-bitmap = omega (arith, bit_or-bitwise 0 (2 ^ p))

  some_set : 2 ^ p ≢ 0
  some_set z =
      let self : (p == p) ≡ true = ground arith in
      let set : bit p (2 ^ p) ≡ 1 = rw (bit-pow p p, self) in
      omega (arith, bit_of_zero p, ap (bit p) z, set)

  -- The only bit that is set.
  found : bitmap_leadingzeroes back.sch.bitmap ≡ p
  found = rw back-bitmap (
      let lowest : LowestBit (2 ^ p) (bitmap_leadingzeroes (2 ^ p)) =
        bitmap_leadingzeroes-LowestBit (2 ^ p) (pow-lt p 64 m.priority) some_set in
      ground (arith, LowestBit-set lowest, bit-pow (bitmap_leadingzeroes (2 ^ p)) p))

  back-IsQueue :
      IsQueue (back.sch.priority_qs p) back.tasks.nodes (map ready_node (R p ++ active ∷ []))
  unfolding kernel_panic
  back-IsQueue =
      subst (λ l. IsQueue (back.sch.priority_qs p) back.tasks.nodes (map ready_node l))
        (sym (update-same R p (R p ++ active ∷ [])))
        ((readied-Holds k active h m).queues p m.priority)

  abbrev q' : Queue
  q' = get_queue (back.sch.priority_qs p) back.tasks.nodes

  -- The first task of that priority is taken out next.
  abbrev next : Kernel
  next = record back {
    tasks = get_tasks back.sch p back.tasks;
    sch = record {
      bitmap =
          if queue_empty q' then bit_and back.sch.bitmap (2 ^ 64 - 1 - 2 ^ p) else back.sch.bitmap;
      priority_qs = update back.sch.priority_qs p q';
    };
  }

  back-get :
      (t : ℕ) (rest : List ℕ)
      → R p ++ active ∷ [] ≡ t ∷ rest
      → scheduler_get back.sch back.tasks ≡ some (some t, next.sch, next.tasks)
  unfolding scheduler_get scheduler_empty kernel_panic
  back-get t rest e =
      let q : IsQueue (back.sch.priority_qs p) back.tasks.nodes
          (ready_node t ∷ map ready_node rest) =
        subst (λ l. IsQueue (back.sch.priority_qs p) back.tasks.nodes (map ready_node l)) e
          back-IsQueue in
      let set : back.sch.bitmap ≢ 0 = λ z. some_set (sym back-bitmap ∙ z) in
      let full : (back.sch.bitmap == 0) ≡ false = ground (arith, set) in
      let self : has t (t ∷ rest) ≡ true = ground arith in
      let own : back.tasks.nodes.payload (ready_node t) ≡ t =
        (readied-Holds k active h m).owner p t m.priority
          (ap (has t) (sym (update-same R p (R p ++ active ∷ [])) ∙ e) ∙ self) in
      rw (full, found, queue_get-eq (ready_node t) (map ready_node rest) q, own) refl

  handle_irq-back : handle_irq active k ≡ some (false, back)
  unfolding handle_irq
  handle_irq-back = rw (reported, dispatch_irq-unknown, make_ready-panicked)

  back-ready : (back.tasks.tds active).state ≡ TaskState.ready
  back-ready = ground arith

  -- After the panic, the loop goes on.
  back-round :
      (stack_start : ℕ) (run : ℕ → Kernel → Kernel × ℕ × ℕ) (t : ℕ) (rest : List ℕ)
      → R p ++ active ∷ [] ≡ t ∷ rest
      → round stack_start run back ≡ turn stack_start run t next
  unfolding round
  back-round stack_start run t rest e = rw (back-get t rest e) refl

  -- A panic while an interrupt of an unknown source is handled does not end the main loop. Let the
  -- kernel hold the ready lists, let the interrupted task be in none of them, and let `t` be the first
  -- of its priority, with the interrupted task behind the ready ones. Then `handle_irq` leaves a map of
  -- the ready queues in which the bit of that priority is the only one, and the interrupted task ready;
  -- the scheduler gives `t` next, whichever tasks of other priorities are ready; and the next round of
  -- the main loop runs `t` until its trap, and handles that.
  pub handle_irq-goes_on :
      (stack_start : ℕ) (run : ℕ → Kernel → Kernel × ℕ × ℕ) (t : ℕ) (rest : List ℕ)
      → R (priority_of active k) ++ active ∷ [] ≡ t ∷ rest
      → (k' : Kernel) × (sch : Scheduler) × (ts : Tasks) × (handle_irq active k ≡ some (false, k'))
        × (k'.sch.bitmap ≡ 2 ^ priority_of active k)
        × ((k'.tasks.tds active).state ≡ TaskState.ready)
        × (scheduler_get k'.sch k'.tasks ≡ some (some t, sch, ts))
        × (round stack_start run k' ≡ turn stack_start run t (record k' { tasks = ts; sch = sch }))
  handle_irq-goes_on stack_start run t rest e = (
    back,
    next.sch,
    next.tasks,
    handle_irq-back,
    back-bitmap,
    back-ready,
    back-get t rest e,
    back-round stack_start run t rest e,
  )
