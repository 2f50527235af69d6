-- ===== src/Kernel/Sound/Choose.antt =====
-- The choice of the next task by the main loop of src/main.c.
use mathlib.Core.Path.{subst, sym}
use armv4_kernel.Prelude.{
  ℕ, ◌<◌, ◌≡◌, ◌≢◌, ◌⊎◌, ◌∙◌, inl, inr, refl, true, false, some, List, [], ◌∷◌, map, arith, has,
  ◌==◌, Bool-cases, zero, suc,
}
use armv4_kernel.Task.{TaskState, ready_node}
use armv4_kernel.Queue.{update}
use armv4_kernel.Queue.Rep.{IsQueue, IsQueue-frame}
use armv4_kernel.Scheduler.{priority_count, scheduler_get}
use armv4_kernel.Scheduler.Ready.{ReadyLists}
use armv4_kernel.Scheduler.Ready.Get.{get_scheduler, get_tasks, scheduler_get-eq, get-IsReady}
use armv4_kernel.Scheduler.Ready.Nodes.{has-ready_node}
use armv4_kernel.Kernel.Sound.Room.{has-map-inv}
use armv4_kernel.Kernel.{Kernel}
use armv4_kernel.Kernel.Sound.{Wait, node, queue_of, blocked, Places, IsSound}
use armv4_kernel.Kernel.Sound.Running.{IsRunning}

-- The first list that is not empty, below `n`.
pub first_below :
    (R : ReadyLists) (n : ℕ)
    → ((i : ℕ) → i < n → R i ≡ [])
      ⊎ ((idx t : ℕ) × (rest : List ℕ) × (idx < n)
          × (R idx ≡ t ∷ rest)
          × ((i : ℕ) → i < idx → R i ≡ []))
first_below R zero = inl (λ i lt. absurd (omega arith))
first_below R (suc n) = elim (first_below R n) [
  | inr (idx, t, rest, lt, e, above) ↦ inr (idx, t, rest, omega arith, e, above)
  | inl none_below ↦ here (R n) refl none_below
]
  where
    here :
        (l : List ℕ)
        → R n ≡ l
        → ((i : ℕ) → i < n → R i ≡ [])
        → ((i : ℕ) → i < suc n → R i ≡ [])
          ⊎ ((idx t : ℕ) × (rest : List ℕ) × (idx < suc n)
              × (R idx ≡ t ∷ rest)
              × ((i : ℕ) → i < idx → R i ≡ []))
    here [] e none_below = inl (λ i lt. elim (Bool-cases (i == n)) [
      | inl s ↦ subst (λ x. R x ≡ []) (let p : n ≡ i = ground arith in p) e
      | inr s ↦ none_below i (ground arith)
    ])
    here (t ∷ rest) e none_below = inr (n, t, rest, omega arith, e, none_below)

module _ {k : Kernel} {P : Places} (h : IsSound k P) (idx t : ℕ) (rest : List ℕ)
    (hi : idx < priority_count) (first : P.ready idx ≡ t ∷ rest)
    (above : (i : ℕ) → i < idx → P.ready i ≡ []) where
  -- The first task of the first list is taken out.
  abbrev pub chosen : Kernel
  chosen = record k {
    tasks = get_tasks k.sch idx k.tasks;
    sch = get_scheduler k.sch idx rest k.tasks;
  }

  abbrev pub chosen_places : Places
  chosen_places = record P { ready = update P.ready idx rest }

  queue_here : IsQueue (k.sch.priority_qs idx) k.tasks.nodes (ready_node t ∷ map ready_node rest)
  queue_here =
      subst (λ l. IsQueue (k.sch.priority_qs idx) k.tasks.nodes (map ready_node l)) first
        (h.ready.queues idx hi)

  listed : has t (P.ready idx) ≡ true
  listed = rw first (ground arith)

  not_again : has t rest ≡ false
  not_again = sym (has-ready_node t rest) ∙ queue_here.chain.2

  not_ready_node : (w : Wait) (u : ℕ) → node w u ≢ ready_node t
  not_ready_node (Wait.to_send x) u e = omega (arith, e)
  not_ready_node (Wait.on_event x) u e = omega (arith, e)

  same_queue : (w : Wait) → queue_of w chosen ≡ queue_of w k
  same_queue (Wait.to_send u) = refl
  same_queue (Wait.on_event u) = refl

  -- Who is ready now was ready before.
  was : (i u : ℕ) → has u (chosen_places.ready i) ≡ true → has u (P.ready i) ≡ true
  was i u m = elim (Bool-cases (i == idx)) [
    | inl e ↦
        subst (λ x. has u (P.ready x) ≡ true) (let p : idx ≡ i = ground arith in p)
          (rw first (ground arith))
    | inr e ↦ ground arith
  ]

  pub chosen-IsSound : IsSound chosen chosen_places
  chosen-IsSound = record {
    ready = get-IsReady h.ready idx t rest hi first above;
    queues = λ w hw.
        subst (λ q. IsQueue q chosen.tasks.nodes (map (node w) (P.waiting w))) (sym (same_queue w))
          (IsQueue-frame (map (node w) (P.waiting w)) (h.queues w hw) λ a a∈.
            let (u, e, u∈) = has-map-inv (node w) a (P.waiting w) a∈ in
            let ne : a ≢ ready_node t = λ p. not_ready_node w u (sym e ∙ p) in
            ground (arith, queue_here.chain.0));
    runnable = λ i u lt m.
        let r = h.runnable i u lt (was i u m) in record { made = r.made; state = r.state };
    waits = λ w u hw m.
        let r = h.waits w u hw m in record { made = r.made; state = r.state; place = r.place };
    made = λ u lt.
        let m = h.made u lt in
        record {
          tid = m.tid;
          priority = m.priority;
          ready_owner = m.ready_owner;
          send_owner = m.send_owner;
          await_owner = m.await_owner;
        };
    bound = h.bound;
  }

  pub chosen-IsRunning : IsRunning chosen chosen_places t
  chosen-IsRunning =
      let s = h.runnable idx t hi listed in
      record {
        free = record {
          made = s.made;
          not_ready = λ i lt. elim (Bool-cases (i == idx)) [
            | inl e ↦ rw e not_again
            | inr e ↦ rw e (elim (Bool-cases (has t (P.ready i))) [
              | inr o ↦ o
              | inl m ↦
                  absurd
                    (ground (arith, h.ready.own_list i t lt m, h.ready.own_list idx t hi listed))
            ])
          ];
          not_waiting = λ w hw. elim (Bool-cases (has t (P.waiting w))) [
            | inr o ↦ o
            | inl m ↦ clash w (sym (h.waits w t hw m).state ∙ s.state)
          ];
        };
        state = s.state;
      }
    where
      clash : (w : Wait) → blocked w ≡ TaskState.ready → has t (P.waiting w) ≡ false
      clash (Wait.to_send u) e = cc
      clash (Wait.on_event u) e = cc

  pub chosen-eq : scheduler_get k.sch k.tasks ≡ some (some t, chosen.sch, chosen.tasks)
  chosen-eq = scheduler_get-eq h.ready idx t rest hi first above
