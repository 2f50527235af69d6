-- ===== src/Kernel/Sound/Tests.antt =====
-- The kernel of src/main.c, from `init` on, with tasks that wait for events, create tasks and are
-- interrupted.
use armv4_kernel.Prelude.{
  ℕ, ◌≡◌, inl, refl, some, [], arith, ◌==◌, if◌then◌else◌, Bool-cases, inr, ◌<◌, ◌≢◌, ap,
}
use armv4_kernel.Task.{TaskState}
use armv4_kernel.Kernel.{Kernel, write_state}
use armv4_kernel.Kernel.Sound.Still.{Stays-IsSound}
use armv4_kernel.Kernel.Sound.Running.{IsRunning, rewrite-Stays}
use armv4_kernel.Kernel.Sound.Parked.{LeavesAlone, Waits, main_loop-Waits}
use armv4_kernel.Kernel.Dispatch.{handle, main_loop}
use armv4_kernel.Kernel.Start.{init}
use armv4_kernel.Kernel.Sound.{Places, IsSound}
use armv4_kernel.Kernel.Sound.Swi.{Survives, Isolates, handle-Isolates}
use armv4_kernel.Kernel.Sound.Rounds.{Leaves, BehavesWell}
use armv4_kernel.Kernel.Sound.Choose.{chosen, chosen_places, chosen-IsSound, chosen-IsRunning}
use armv4_kernel.Kernel.Sound.Begin.{begun, first_places, begun-IsSound, init-main_loop}
use armv4_kernel.Kernel.Tests.{full}

-- Task 0 asks to create tasks, task 2 waits for an event, and the others are interrupted by the timer.
abbrev tasks : ℕ → Kernel → Kernel × ℕ × ℕ
tasks t k =
    if t == 0 then (k, 0, 2) else if t == 2 then (k, 0, 8) else (record k { regs = λ a. 0 }, 1, 0)

same_Leaves : (k : Kernel) (regs : ℕ → ℕ) → Leaves k (record k { regs = regs })
same_Leaves k regs = record {
  next_free = refl;
  sch = refl;
  eh = refl;
  nodes = refl;
  tids = λ u. refl;
  priorities = λ u. refl;
  send_queues = λ u. refl;
  states = λ u. refl;
}

tasks-BehavesWell : BehavesWell tasks
tasks-BehavesWell t k P h r = elim (Bool-cases (t == 0)) [
  | inl a ↦
      rw a (record {
        leaves = same_Leaves k k.regs;
        allowed = λ z. tt;
        expected = λ z. absurd (z refl);
      })
  | inr a ↦ elim (Bool-cases (t == 2)) [
    | inl b ↦
        rw (a, b)
          (record {
            leaves = same_Leaves k k.regs;
            allowed = λ z. tt;
            expected = λ z. absurd (z refl);
          })
    | inr b ↦
        rw (a, b)
          (record {
            leaves = same_Leaves k (λ a. 0);
            allowed = λ z. absurd (omega (arith, z));
            expected = λ z. inl refl;
          })
  ]
]

init-main_loop_example :
    (k₀ : Kernel) × (init 0x1000000 0x2000 0x100 0x200 0x9000 0x300 full ≡ some k₀)
    × Survives (main_loop 0x1000000 tasks 100 k₀)
init-main_loop_example =
    init-main_loop 0x1000000 0x2000 0x100 0x200 0x9000 0x300 full tasks tasks-BehavesWell 100

abbrev start : Kernel
start = begun 0x1000000 0x2000 0x100 0x200 0x9000 0x300 full

start-IsSound : IsSound start first_places
start-IsSound = begun-IsSound 0x1000000 0x2000 0x100 0x200 0x9000 0x300 full

nothing_above : (i : ℕ) → i < 1 → first_places.ready i ≡ []
nothing_above i lt = ground arith

abbrev running : Kernel
running = chosen start-IsSound 1 0 [] (omega arith) refl nothing_above

abbrev places : Places
places = chosen_places start-IsSound 1 0 [] (omega arith) refl nothing_above

running-IsSound : IsSound running places
running-IsSound = chosen-IsSound start-IsSound 1 0 [] (omega arith) refl nothing_above

running-IsRunning : IsRunning running places 0
running-IsRunning = chosen-IsRunning start-IsSound 1 0 [] (omega arith) refl nothing_above

handle-Isolates_example : Isolates 0 0 running (handle 0x1000000 0 2 0 running)
handle-Isolates_example =
    handle-Isolates 0x1000000 running-IsSound 0 running-IsRunning 0 2 (λ z. tt)
      (λ z. absurd (z refl))

-- Task 0 waits for a reply, and the idle task is interrupted again and again.
abbrev parked : Kernel
parked = write_state 0 TaskState.reply_blocked running

parked-IsSound : IsSound parked places
parked-IsSound =
    Stays-IsSound running-IsSound
      (rewrite-Stays running places 0 _ running.mem refl refl refl (inr running-IsRunning.free))

tasks-LeavesAlone : LeavesAlone 0 tasks
tasks-LeavesAlone t k P h r p =
    let other : t ≢ 0 = λ e. cc (ap (λ x. (k.tasks.tds x).state) e, r.state, p.state) in
    elim (Bool-cases (t == 0)) [
      | inl a ↦ absurd (other (ground arith))
      | inr a ↦ elim (Bool-cases (t == 2)) [
        | inl b ↦ rw (a, b) (refl, other)
        | inr b ↦ rw (a, b) (refl, other)
      ]
    ]

main_loop-Waits_example : Waits 0 parked (main_loop 0x1000000 tasks 50 parked)
main_loop-Waits_example =
    main_loop-Waits 0x1000000 tasks tasks-BehavesWell 0 tasks-LeavesAlone 50 parked places
      parked-IsSound (record { made = omega arith; state = refl })
