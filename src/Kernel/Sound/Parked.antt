-- ===== src/Kernel/Sound/Parked.antt =====
-- A task that waits for a reply, while the loop of src/main.c goes on with others.
use mathlib.Core.Path.{subst, sym}
use armv4_kernel.Prelude.{
  ℕ, zero, suc, ◌<◌, ◌≡◌, ◌≢◌, ◌∙◌, inl, inr, refl, ap, Bool, true, false, Option, some, arith,
  if◌then◌else◌,
}
use armv4_kernel.Task.{Task, TaskState}
use armv4_kernel.Scheduler.{priority_count}
use armv4_kernel.Scheduler.Ready.Get.{scheduler_get-none}
use armv4_kernel.Kernel.{Kernel}
use armv4_kernel.Kernel.Dispatch.{
  update_idle_task, end_idle_task, handle, is_idle, round, main_loop,
}
use armv4_kernel.Kernel.Sound.{Places, IsSound}
use armv4_kernel.Kernel.Sound.Running.{IsRunning, Untouched, Untouched-trans, Untouched-state}
use armv4_kernel.Kernel.Sound.Choose.{
  first_below, chosen, chosen_places, chosen-IsSound, chosen-IsRunning, chosen-eq,
}
use armv4_kernel.Kernel.Sound.Swi.{replied_by}
use armv4_kernel.Kernel.Sound.Rounds.{
  BehavesWell, Leaves-IsSound, Leaves-IsRunning, start_idle, found, round_of,
}

-- A task that was made and waits for a reply.
pub record IsParked (k : Kernel) (u : ℕ) : Type 0 where
  pub made : u < k.next_free_td
  pub state : (k.tasks.tds u).state ≡ TaskState.reply_blocked

Untouched-IsParked : {k k' : Kernel} {u : ℕ} → IsParked k u → Untouched k k' u → IsParked k' u
Untouched-IsParked {k} {k'} {u} p s = record {
  made = s.0;
  state = Untouched-state k k' u s ∙ p.state;
}

-- While the task `u` waits for a reply, the task that runs neither changes its descriptor nor replies to
-- it.
abbrev pub LeavesAlone : (u : ℕ) → (ℕ → Kernel → Kernel × ℕ × ℕ) → Type 0
LeavesAlone u run =
    (active : ℕ) (k : Kernel) (P : Places)
    → IsSound k P
    → IsRunning k P active
    → IsParked k u
    → let (k', irq, req) = run active k in
      (k'.tasks.tds u ≡ k.tasks.tds u) × (replied_by irq req active k' ≢ u)

-- The kernel does not fault, leaves whole queues, and the task `u` as it was.
abbrev pub Waits : (u : ℕ) → Kernel → Option (Bool × Kernel) → Type 0
Waits u k r =
    (ended : Bool) × (k' : Kernel) × (P : Places) × (r ≡ some (ended, k'))
    × IsSound k' P
    × Untouched k k' u

same_tasks :
    (b : Bool) (k k' : Kernel) (u : ℕ)
    → k'.tasks.tds u ≡ k.tasks.tds u
    → (if b then k' else k).tasks.tds u ≡ k.tasks.tds u
same_tasks true k k' u e = e
same_tasks false k k' u e = refl

module _ (stack_start : ℕ) (run : ℕ → Kernel → Kernel × ℕ × ℕ) (good : BehavesWell run) (u : ℕ)
    (alone : LeavesAlone u run) where
  found_same : (active : ℕ) (k : Kernel) → (found stack_start active k).tasks.tds u ≡ k.tasks.tds u
  unfolding update_idle_task
  found_same active k =
      same_tasks (is_idle stack_start active k) k (update_idle_task stack_start k) u refl

  -- The round of a task that was chosen, which is another one.
  chosen_round :
      (active : ℕ) (k₁ : Kernel) (P : Places)
      → IsSound k₁ P
      → IsRunning k₁ P active
      → IsParked k₁ u
      → let (k₃, irq, req) = run active (found stack_start active k₁) in
        let k₄ = if is_idle stack_start active k₃ then end_idle_task stack_start k₃ else k₃ in
        Waits u k₁ (handle stack_start irq req active k₄)
  chosen_round active k₁ P h r p =
      let k₂ : Kernel = found stack_start active k₁ in
      let l = start_idle stack_start active k₁ in
      let same₂ = found_same active k₁ in
      let p₂ : IsParked k₂ u = record {
        made = omega (arith, l.next_free, p.made);
        state = l.states u ∙ p.state;
      } in
      let h₂ = Leaves-IsSound h l in
      let r₂ = Leaves-IsRunning l r in
      let leaves = (good active k₂ P h₂ r₂).leaves in
      let (same₃, silent) = alone active k₂ P h₂ r₂ p₂ in
      let k₃ : Kernel = (run active k₂).0 in
      let p₃ : IsParked k₃ u = record {
        made = omega (arith, leaves.next_free, p₂.made);
        state = leaves.states u ∙ p₂.state;
      } in
      let other : u ≢ active = λ e. cc (ap (λ x. (k₁.tasks.tds x).state) e, r.state, p.state) in
      let (ended, k', P', run_on, h', spares) = round_of stack_start run good active k₁ P h r in
      let (there, same) = spares u p₃.made other (λ e. silent (sym e)) p₃.state in
      (
        ended,
        k',
        P',
        run_on,
        h',
        (
          there,
          subst (λ (d : Task). record (k'.tasks.tds u) { send_q = d.send_q } ≡ d) (same₃ ∙ same₂)
              same,
        ),
      )

  round-Waits :
      {k : Kernel} {P : Places} → IsSound k P → IsParked k u → Waits u k (round stack_start run k)
  unfolding round
  round-Waits {k} {P} h p = elim (first_below P.ready priority_count) [
    | inl nobody ↦ rw (scheduler_get-none h.ready nobody) (true, k, P, refl, h, (p.made, refl))
    | inr (idx, t, rest, hi, first, above) ↦ rw (chosen-eq h idx t rest hi first above) (
        chosen_round t (chosen h idx t rest hi first above)
          (chosen_places h idx t rest hi first above) (chosen-IsSound h idx t rest hi first above)
          (chosen-IsRunning h idx t rest hi first above)
          (record { made = p.made; state = p.state }))
  ]

  -- What the rest of the loop does after a round.
  go_round :
      (fuel : ℕ) (k : Kernel)
      → ((k' : Kernel) (P' : Places)
          → IsSound k' P'
          → IsParked k' u
          → Waits u k' (main_loop stack_start run fuel k'))
      → IsParked k u
      → (ended : Bool) (k' : Kernel) (P' : Places) → IsSound k' P'
      → Untouched k k' u
      → Waits u k
          (elim ended [ true ↦ some (true, k') | false ↦ main_loop stack_start run fuel k' ])
  go_round fuel k rest p true k' P' h' s = (true, k', P', refl, h', s)
  go_round fuel k rest p false k' P' h' s =
      let (ended, k'', P'', e, h'', s') = rest k' P' h' (Untouched-IsParked p s) in
      (ended, k'', P'', e, h'', Untouched-trans k k' k'' u s s')

  -- Let the kernel's queues be whole, let the task `u` wait for a reply, and let every task that runs
  -- leave the kernel's structures alone up to its trap. Let each trap be a system call other than
  -- `Panic` and those that do not exist, where `Send` and `Reply` name a task that was made, and a
  -- `Reply` of the length that its receiver asked for goes to a task that waits for a reply; or an
  -- interrupt of the timer, or of a UART whose status has a bit that its branch tests. Let moreover no
  -- task that runs while `u` waits change the descriptor of `u`, or trap with a `Reply` to it. Then any
  -- number of rounds of the main loop do not fault, leave whole queues, and leave the descriptor of `u`
  -- as it was, its send queue apart: its state, its saved registers, and where it wants the reply.
  pub main_loop-Waits :
      (fuel : ℕ) (k : Kernel) (P : Places)
      → IsSound k P
      → IsParked k u
      → Waits u k (main_loop stack_start run fuel k)
  unfolding main_loop
  main_loop-Waits zero k P h p = (false, k, P, refl, h, (p.made, refl))
  main_loop-Waits (suc fuel) k P h p =
      let (ended, k', P', e, h', s) = round-Waits h p in
      rw e (go_round fuel k (main_loop-Waits fuel) p ended k' P' h' s)
