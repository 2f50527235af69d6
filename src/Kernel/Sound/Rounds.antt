-- ===== src/Kernel/Sound/Rounds.antt =====
-- The main loop of src/main.c: the kernel does not fault, and its queues stay whole.
use armv4_kernel.Prelude.{
  ℕ, ◌≡◌, ◌≢◌, ◌∙◌, inl, inr, refl, Bool, true, false, some, arith, if◌then◌else◌, zero, suc,
}
use armv4_kernel.CString.{Bytes}
use armv4_kernel.Scheduler.{priority_count}
use armv4_kernel.Scheduler.Ready.Get.{scheduler_get-none}
use armv4_kernel.Kernel.Dispatch.{
  SysCode, sys_code, handle, update_idle_task, end_idle_task, is_idle, round, main_loop,
}
use armv4_kernel.Kernel.Sound.Interrupt.{IsExpected}
use armv4_kernel.Kernel.Sound.Choose.{
  first_below, chosen, chosen_places, chosen-IsSound, chosen-IsRunning, chosen-eq,
}
use armv4_kernel.Kernel.Sound.Swi.{IsAllowed, Survives, Isolates, replied_by, handle-Isolates}
use armv4_kernel.Kernel.{Kernel}
use armv4_kernel.Kernel.Sound.{Wait, queue_of, Places, IsSound}
use armv4_kernel.Kernel.Sound.Still.{Keeps-IsFree, Stays, Stays-IsSound}
use armv4_kernel.Kernel.Sound.Running.{IsRunning}

-- What a task leaves alone while it runs: the kernel's structures, and of every descriptor all but the
-- saved context.
pub record Leaves (k k' : Kernel) : Type 0 where
  pub next_free : k'.next_free_td ≡ k.next_free_td
  pub sch : k'.sch ≡ k.sch
  pub eh : k'.eh ≡ k.eh
  pub nodes : k'.tasks.nodes ≡ k.tasks.nodes
  pub tids : (u : ℕ) → (k'.tasks.tds u).tid ≡ (k.tasks.tds u).tid
  pub priorities : (u : ℕ) → (k'.tasks.tds u).priority ≡ (k.tasks.tds u).priority
  pub send_queues : (u : ℕ) → (k'.tasks.tds u).send_q ≡ (k.tasks.tds u).send_q
  pub states : (u : ℕ) → (k'.tasks.tds u).state ≡ (k.tasks.tds u).state

Leaves-Stays : {k k' : Kernel} (P : Places) → Leaves k k' → Stays k k' P
Leaves-Stays {k} {k'} P l = record {
  keeps = record {
    next_free = l.next_free;
    tids = l.tids;
    priorities = l.priorities;
    owners = ground (arith, l.nodes);
  };
  sch = l.sch;
  links = λ a. ground (arith, l.nodes);
  queues = same_queue;
  states = λ u. inl (l.states u);
}
  where
    same_queue : (w : Wait) → queue_of w k' ≡ queue_of w k
    same_queue (Wait.to_send u) = l.send_queues u
    same_queue (Wait.on_event e) = ground (arith, l.eh)

-- A task that runs until it traps: by a system call that it may make, or by an interrupt that is
-- expected.
pub record Traps (active : ℕ) (k : Kernel) (trap : Kernel × ℕ × ℕ) : Type 0 where
  pub leaves : Leaves k trap.0
  pub allowed : trap.1 ≡ 0 → IsAllowed (sys_code trap.2) active trap.0
  pub expected : trap.1 ≢ 0 → IsExpected trap.0.regs

-- What the user tasks do, from every state that the kernel may be in.
abbrev pub BehavesWell : (ℕ → Kernel → Kernel × ℕ × ℕ) → Type 0
BehavesWell run =
    (active : ℕ) (k : Kernel) (P : Places)
    → IsSound k P
    → IsRunning k P active
    → Traps active k (run active k)

-- The idle task's accounting changes memory, or the time it started at.
accounted :
    (k : Kernel) (mem : Bytes) (time : ℕ) → Leaves k (record k { mem = mem; last_idle_time = time })
accounted k mem time = record {
  next_free = refl;
  sch = refl;
  eh = refl;
  nodes = refl;
  tids = λ u. refl;
  priorities = λ u. refl;
  send_queues = λ u. refl;
  states = λ u. refl;
}

if_Leaves : (b : Bool) (k k' : Kernel) → Leaves k k' → Leaves k (if b then k' else k)
if_Leaves true k k' l = l
if_Leaves false k k' l = accounted k k.mem k.last_idle_time

pub start_idle :
    (stack_start active : ℕ) (k : Kernel)
    → Leaves k (if is_idle stack_start active k then update_idle_task stack_start k else k)
unfolding update_idle_task
start_idle stack_start active k =
    if_Leaves (is_idle stack_start active k) k (update_idle_task stack_start k)
      (accounted k _ k.last_idle_time)

pub Leaves-IsRunning :
    {k k' : Kernel} {P : Places} {t : ℕ} → Leaves k k' → IsRunning k P t → IsRunning k' P t
Leaves-IsRunning {P} {t} l r = record {
  free = Keeps-IsFree (Leaves-Stays P l).keeps r.free;
  state = l.states t ∙ r.state;
}

pub Leaves-IsSound : {k k' : Kernel} {P : Places} → IsSound k P → Leaves k k' → IsSound k' P
Leaves-IsSound {P} h l = Stays-IsSound h (Leaves-Stays P l)

IsAllowed-time :
    (code : SysCode) (active : ℕ) (k : Kernel) (time : ℕ)
    → IsAllowed code active k
    → IsAllowed code active (record k { last_idle_time = time })
IsAllowed-time SysCode.send active k time a = a
IsAllowed-time _ active k time a = a

-- What a chosen task finds.
abbrev pub found : (stack_start active : ℕ) → Kernel → Kernel
found stack_start active k =
    if is_idle stack_start active k then update_idle_task stack_start k else k

module _ (stack_start : ℕ) (run : ℕ → Kernel → Kernel × ℕ × ℕ) (good : BehavesWell run) where
  -- The trap is handled, after the idle task's accounting or without it.
  trap_of :
      (b : Bool) (active irq req : ℕ) {k : Kernel} {P : Places}
      → IsSound k P
      → IsRunning k P active
      → (irq ≡ 0 → IsAllowed (sys_code req) active k)
      → (irq ≢ 0 → IsExpected k.regs)
      → Isolates active
          (replied_by irq req active k)
          k
          (handle stack_start irq req active (if b then end_idle_task stack_start k else k))
  unfolding end_idle_task
  trap_of false active irq req h r ok expected =
      handle-Isolates stack_start h active r irq req ok expected
  trap_of true active irq req {k} h r ok expected =
      let l = accounted k k.mem (end_idle_task stack_start k).last_idle_time in
      handle-Isolates stack_start (Leaves-IsSound h l) active (Leaves-IsRunning l r) irq req
        (λ z. IsAllowed-time (sys_code req) active k _ (ok z)) expected

  -- The round from where a task was chosen.
  pub round_of :
      (active : ℕ) (k₁ : Kernel) (P : Places)
      → IsSound k₁ P
      → IsRunning k₁ P active
      → let (k₃, irq, req) = run active (found stack_start active k₁) in
        let k₄ = if is_idle stack_start active k₃ then end_idle_task stack_start k₃ else k₃ in
        Isolates active (replied_by irq req active k₃) k₃ (handle stack_start irq req active k₄)
  round_of active k₁ P h r =
      let k₂ : Kernel = found stack_start active k₁ in
      let l = start_idle stack_start active k₁ in
      let h₂ = Leaves-IsSound h l in
      let r₂ = Leaves-IsRunning l r in
      let t = good active k₂ P h₂ r₂ in
      trap_of (is_idle stack_start active (run active k₂).0) active (run active k₂).1
        (run active k₂).2 (Leaves-IsSound h₂ t.leaves) (Leaves-IsRunning t.leaves r₂) t.allowed
        t.expected

  round-Survives : {k : Kernel} {P : Places} → IsSound k P → Survives (round stack_start run k)
  unfolding round
  round-Survives {k} {P} h = elim (first_below P.ready priority_count) [
    | inl nobody ↦ rw (scheduler_get-none h.ready nobody) (true, k, P, refl, h)
    | inr (idx, t, rest, hi, first, above) ↦
        let (ended, k', P', run_on, h', spares) =
          round_of t (chosen h idx t rest hi first above)
            (chosen_places h idx t rest hi first above) (chosen-IsSound h idx t rest hi first above)
            (chosen-IsRunning h idx t rest hi first above) in
        rw (chosen-eq h idx t rest hi first above) (ended, k', P', run_on, h')
  ]

  -- What the rest of the loop does after a round.
  go_round :
      (fuel : ℕ)
      → ((k : Kernel) (P : Places) → IsSound k P → Survives (main_loop stack_start run fuel k))
      → (ended : Bool) (k' : Kernel) (P' : Places) → IsSound k' P'
      → Survives (elim ended [ true ↦ some (true, k') | false ↦ main_loop stack_start run fuel k' ])
  go_round fuel rest true k' P' h' = (true, k', P', refl, h')
  go_round fuel rest false k' P' h' = rest k' P' h'

  pub main_loop-Survives :
      (fuel : ℕ) (k : Kernel) (P : Places)
      → IsSound k P
      → Survives (main_loop stack_start run fuel k)
  unfolding main_loop
  main_loop-Survives zero k P h = (false, k, P, refl, h)
  main_loop-Survives (suc fuel) k P h =
      let (ended, k', P', e, h') = round-Survives h in
      rw e (go_round fuel (main_loop-Survives fuel) ended k' P' h')
