-- ===== src/Kernel/Create.antt =====
-- About `kernel_create` of src/main.c.
use mathlib.Core.Path.{subst, sym}
use armv4_kernel.Prelude.{
  ℕ, ◌+◌, ◌-◌, ◌*◌, ◌%◌, ◌^◌, ◌<◌, ◌≤◌, ◌≡◌, ◌≢◌, ◌⊎◌, ◌==◌, refl, Option, none, some, ◌∷◌, ap,
  arith, true, false, [], length, has, Bool-cases, ltb, leb, inl, inr, if◌then◌else◌,
}
use armv4_kernel.Queue.{queue_node_init, queue_init}
use armv4_kernel.Queue.Rep.{IsQueue}
use armv4_kernel.Queue.Fifo.{queue_init-IsQueue}
use armv4_kernel.Kernel.Sound.Choose.{first_below}
use mathlib.Core.Option.{none-ne-some, some-injective}
use armv4_kernel.Task.{
  Task, Tasks, TaskState, max_tasks, minus, task_descriptor_init, task_descriptor_set_return_value,
}
use armv4_kernel.Scheduler.{Scheduler, priority_count, scheduler_get}
use armv4_kernel.Scheduler.Ready.{ReadyLists}
use armv4_kernel.Scheduler.Ready.Apart.{IsReady-members}
use armv4_kernel.Scheduler.Ready.Get.{
  get_scheduler, get_tasks, scheduler_get-none, scheduler_get-eq,
}
use armv4_kernel.Scheduler.Ready.Put.{MayPut, put_ready}
use armv4_kernel.Kernel.{Kernel, kernel_create}
use armv4_kernel.Kernel.Dispatch.{SysCode, handle_swi}
use armv4_kernel.Kernel.Receive.{Senders}
use armv4_kernel.Kernel.Ready.{
  Holds, readied, write_task-Holds, answered, make_ready-eq, readied-Holds, readied-MayPut,
  priority_of,
}

-- What a refused `Create` leaves.
pub record Refused (k : Kernel) (R : ReadyLists) (active : ℕ) (k' : Kernel) : Type 0 where
  pub holds : Holds k' R
  pub result :
      (k'.tasks.tds active).frame 0
      ≡ (if leb ((k.tasks.tds active).frame 0) 63 then 0xffff_fffe else 0xffff_ffff)
  pub state : (k'.tasks.tds active).state ≡ (k.tasks.tds active).state
  pub others : (u : ℕ) → u ≢ active → k'.tasks.tds u ≡ k.tasks.tds u
  pub scheduler : k'.sch ≡ k.sch
  pub next :
      (next : Option ℕ) × (sch : Scheduler) × (ts : Tasks) × (scheduler_get k'.sch k'.tasks
        ≡ some (next, sch, ts))
      × (next ≢ some active)

module _ (stack_start : ℕ) {R : ReadyLists} (k : Kernel) (active : ℕ) (h : Holds k R) where
  abbrev refusal : (d : Task) → ℕ
  refusal d = if ltb 63 (d.frame 0) then minus 1 else minus 2

  refused-eq :
      (63 < (k.tasks.tds active).frame 0) ⊎ (max_tasks ≤ k.next_free_td)
      → handle_swi stack_start SysCode.create active k
        ≡ some (false, answered active (refusal (k.tasks.tds active)) k)
  unfolding handle_swi kernel_create task_descriptor_set_return_value
  refused-eq bad = elim (Bool-cases (ltb 63 ((k.tasks.tds active).frame 0))) [
    | inl high ↦ rw high
    | inr low ↦ let full : leb max_tasks k.next_free_td ≡ true = ground arith in rw (low, full)
  ]

  -- Whom the scheduler gives next, where a task is in none of the ready lists: another one, or nobody.
  another :
      (k' : Kernel)
      → Holds k' R
      → ((i : ℕ) → i < priority_count → has active (R i) ≡ false)
      → (next : Option ℕ) × (sch : Scheduler) × (ts : Tasks) × (scheduler_get k'.sch k'.tasks
          ≡ some (next, sch, ts))
        × (next ≢ some active)
  another k' h' out = elim (first_below R priority_count) [
    | inl nobody ↦ (none, k'.sch, k'.tasks, scheduler_get-none h' nobody, none-ne-some active)
    | inr (idx, t, rest, hi, first, above) ↦ (
      some t,
      get_scheduler k'.sch idx rest k'.tasks,
      get_tasks k'.sch idx k'.tasks,
      scheduler_get-eq h' idx t rest hi first above,
      λ e. cc (
        out idx hi,
        ap (has active) first,
        some-injective t active e,
        (let self : has active (active ∷ rest) ≡ true = ground arith in self),
      ),
    )
  ]

  -- `Create` with a priority above 63, or with no descriptor left, by a task that is in none of the
  -- ready lists, does not put its caller back into one. The trap hands the caller -1 for the priority
  -- and -2 otherwise, and leaves the scheduler, every ready list, the state of the caller and every
  -- other descriptor as they were; and what the scheduler gives next is another task, or nobody.
  pub handle_swi-Refused :
      (63 < (k.tasks.tds active).frame 0) ⊎ (max_tasks ≤ k.next_free_td)
      → ((i : ℕ) → i < priority_count → has active (R i) ≡ false)
      → (k' : Kernel) × (handle_swi stack_start SysCode.create active k ≡ some (false, k'))
        × Refused k R active k'
  handle_swi-Refused bad out =
      let k' : Kernel = answered active (refusal (k.tasks.tds active)) k in
      let h' : Holds k' R = write_task-Holds k active _ h refl in
      (
        k',
        refused-eq bad,
        record {
          holds = h';
          result = ground (arith, bad);
          state = ground arith;
          others = λ u ne. ground arith;
          scheduler = refl;
          next = another k' h' out;
        },
      )

-- The bytes of a task's stack of 8 KB, by address, from the highest on: the stack of task 0 ends 8 KB
-- below `_stack_start`, and that of each other task where the one before it begins.
abbrev pub stack_byte : (stack_start u j : ℕ) → ℕ
stack_byte stack_start u j = (stack_start + 2 ^ 32 - 0x2000 * (u + 1) - 1 - j) % 2 ^ 32

-- What a new task starts with. Its saved frame of 14 words ends where its stack does, and its stack shares no
-- byte with that of another task.
pub record Created (stack_start : ℕ) (k : Kernel) (R : ReadyLists) (active prio code : ℕ)
    (k' : Kernel) : Type 0 where
  pub holds : Holds k' (put_ready (put_ready R prio k.next_free_td) (priority_of active k) active)
  pub next_free : k'.next_free_td ≡ k.next_free_td + 1
  pub tid : (k'.tasks.tds k.next_free_td).tid ≡ k.next_free_td
  pub parent : (k'.tasks.tds k.next_free_td).parent ≡ some active
  pub entry : (k'.tasks.tds k.next_free_td).svc_lr ≡ code
  pub sp :
      (k'.tasks.tds k.next_free_td).sp
      ≡ (stack_start + 2 ^ 32 - 0x2000 * (k.next_free_td + 1) - 56) % 2 ^ 32
  pub word13 :
      (k'.tasks.tds k.next_free_td).frame 13 ≡ ((k'.tasks.tds k.next_free_td).sp + 56) % 2 ^ 32
  pub word0 : (k'.tasks.tds k.next_free_td).frame 0 ≡ 0
  pub mode : (k'.tasks.tds k.next_free_td).spsr ≡ 0x50
  pub apart :
      (u i j : ℕ)
      → u < max_tasks
      → u ≢ k.next_free_td
      → i < 0x2000
      → j < 0x2000
      → ((k'.tasks.tds k.next_free_td).sp + 55 + 2 ^ 32 - i) % 2 ^ 32 ≢ stack_byte stack_start u j
  pub priority : (k'.tasks.tds k.next_free_td).priority ≡ prio
  pub state : (k'.tasks.tds k.next_free_td).state ≡ TaskState.ready
  pub senders : Senders k' k.next_free_td []
  pub others : (u : ℕ) → u ≢ k.next_free_td → u ≢ active → k'.tasks.tds u ≡ k.tasks.tds u

module _ (stack_start : ℕ) {R : ReadyLists} (k : Kernel) (active priority code : ℕ) (h : Holds k R)
    (low : priority < priority_count) (free : k.next_free_td < max_tasks)
    (fresh : (i : ℕ) → i < priority_count → has k.next_free_td (R i) ≡ false)
    (m : MayPut k.tasks R active) (room : (i : ℕ) → i < priority_count → length (R i) + 2 < 2 ^ 32)
    (two : active ≢ k.next_free_td) where
  abbrev new : ℕ
  new = k.next_free_td

  abbrev made : Kernel
  made = record k {
    tasks =
        task_descriptor_init stack_start new (new % 256) (priority % 256) (some active) code
          k.tasks;
  }

  made-Holds : Holds made R
  unfolding task_descriptor_init queue_node_init
  made-Holds = IsReady-members h λ i u hi m.
      let ne : (u == new) ≡ false = ground (arith, fresh i hi) in
      (ground arith, ground arith, ground arith)

  made-MayPut : MayPut made.tasks R new
  unfolding task_descriptor_init queue_node_init
  made-MayPut =
      let p : priority ≡ priority_of new made = ground arith in
      record {
        priority = subst (λ p. p < priority_count) p low;
        fresh = subst (λ p. has new (R p) ≡ false) p (fresh priority low);
        owner = ground arith;
        room = subst (λ p. length (R p) + 1 < 2 ^ 32) p (omega (arith, room priority low));
      }

  active-MayPut : MayPut made.tasks R active
  unfolding task_descriptor_init queue_node_init
  active-MayPut =
      let p : priority_of active k ≡ priority_of active made = ground arith in
      record {
        priority = subst (λ p. p < priority_count) p m.priority;
        fresh = subst (λ p. has active (R p) ≡ false) p m.fresh;
        owner = ground (arith, m.owner);
        room = subst (λ p. length (R p) + 1 < 2 ^ 32) p m.room;
      }

  p_new : priority_of new made ≡ priority
  unfolding task_descriptor_init
  p_new = ground arith

  p_active : priority_of active made ≡ priority_of active k
  unfolding task_descriptor_init
  p_active = ground arith

  abbrev created : Kernel
  created = record (readied active (readied new made)) { next_free_td = new + 1 }

  made-new-Holds : Holds (readied new made) (put_ready R priority new)
  made-new-Holds =
      subst (λ p. Holds (readied new made) (put_ready R p new)) p_new
        (readied-Holds made new made-Holds made-MayPut)

  behind-MayPut : MayPut (readied new made).tasks (put_ready R priority new) active
  behind-MayPut =
      subst (λ p. MayPut (readied new made).tasks (put_ready R p new) active) p_new
        (readied-MayPut made new active active-MayPut two
          (subst (λ p. length (R p) + 2 < 2 ^ 32) (sym p_active) (room _ m.priority)))

  new_tid : (created.tasks.tds new).tid ≡ new
  unfolding task_descriptor_init
  new_tid = ground arith

  created-eq : kernel_create stack_start active priority code k ≡ some (new, created)
  unfolding kernel_create
  created-eq =
      let l : ltb 63 priority ≡ false = ground arith in
      let f : leb max_tasks new ≡ false = ground arith in
      rw (
        l,
        f,
        make_ready-eq made new made-Holds made-MayPut,
        make_ready-eq (readied new made) active made-new-Holds behind-MayPut,
        new_tid,
      )

  behind_priority : priority_of active (readied new made) ≡ priority_of active k
  unfolding task_descriptor_init
  behind_priority = ground arith

  created-Holds : Holds created (put_ready (put_ready R priority new) (priority_of active k) active)
  created-Holds =
      subst (λ p. Holds created (put_ready (put_ready R priority new) p active)) behind_priority
        (readied-Holds (readied new made) active made-new-Holds behind-MayPut)

  new_send_q : (created.tasks.tds new).send_q ≡ queue_init
  unfolding task_descriptor_init
  new_send_q = ground arith

  created-Senders : Senders created new []
  created-Senders =
      subst (λ q. IsQueue q created.tasks.nodes []) (sym new_send_q)
        (queue_init-IsQueue created.tasks.nodes)

  new_sp : (created.tasks.tds new).sp ≡ (stack_start + 2 ^ 32 - 0x2000 * (new + 1) - 56) % 2 ^ 32
  unfolding task_descriptor_init
  new_sp = ground arith

  new_apart :
      (u i j : ℕ)
      → u < max_tasks
      → u ≢ new
      → i < 0x2000
      → j < 0x2000
      → ((created.tasks.tds new).sp + 55 + 2 ^ 32 - i) % 2 ^ 32 ≢ stack_byte stack_start u j
  new_apart u i j lu ne li lj e = omega (arith, new_sp, e, lu, ne, li, lj, free)

  -- `kernel_create` with a priority below 64, while descriptors are free, by a task that is in none
  -- of the ready lists, returns the number of the first free descriptor, which is used up. The new
  -- task has that id, the priority, the code, the caller as its parent and no senders. Its saved
  -- registers of 14 words end where its stack does: their address is 56 below the end of the 8 KB that
  -- belong to its number, which share no byte with the 8 KB of any of the 63 other numbers; the first
  -- word is 0 and the last is the end of the stack. The task is ready behind the others of its
  -- priority, and the caller behind it. No third descriptor changes.
  pub kernel_create-adds :
      (k' : Kernel) × (kernel_create stack_start active priority code k ≡ some (new, k'))
      × Created stack_start k R active priority code k'
  unfolding task_descriptor_init
  kernel_create-adds = (
    created,
    created-eq,
    record {
      holds = created-Holds;
      next_free = refl;
      tid = new_tid;
      parent = ground arith;
      entry = ground arith;
      sp = new_sp;
      word13 = ground (arith, new_sp);
      word0 = ground arith;
      mode = ground arith;
      apart = new_apart;
      priority = ground arith;
      state = ground arith;
      senders = created-Senders;
      others = λ u n a. ground arith;
    },
  )
