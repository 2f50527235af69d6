-- ===== src/Kernel/Sound/Move/Leave.antt =====
-- The step of the kernel of src/main.c by which the first task leaves a send queue or the queue of an
-- event.
use mathlib.Core.Path.{subst, sym}
use armv4_kernel.Prelude.{
  ℕ, ◌≡◌, ◌≢◌, ◌∙◌, inl, inr, refl, ap, true, false, List, ◌∷◌, map, arith, has, Bool-cases,
}
use armv4_kernel.Queue.Rep.{IsQueue}
use armv4_kernel.Queue.Ops.{get_queue, get_nodes, get-IsQueue}
use armv4_kernel.Task.{ready_node}
use armv4_kernel.Kernel.{Kernel}
use armv4_kernel.Kernel.Sound.{Wait, node, queue_of, Exists, Places, IsSound, IsFree}
use armv4_kernel.Kernel.Sound.Room.{has-node}
use armv4_kernel.Kernel.Sound.Still.{Keeps-IsTask, Keeps-Exists}
use armv4_kernel.Kernel.Sound.Move.{
  same, same-eq, same_ne, with_waiting, node_inj, not_ready_node, blocked_ne_ready, Moves,
  kept_ready, moved_queues,
}

-- The places after the first task of `w` left.
abbrev pub left_places : Places → Wait → List ℕ → Places
left_places P w rest = record P { waiting = with_waiting P.waiting w rest }

module _ {k k' : Kernel} {P : Places} (h : IsSound k P) (w : Wait) (t : ℕ) (rest : List ℕ)
    (hw : Exists w k.next_free_td) (first : P.waiting w ≡ t ∷ rest)
    (mv : Moves k k' w
      (get_queue (queue_of w k) k.tasks.nodes)
      (get_nodes (queue_of w k) k.tasks.nodes))
    (states : (u : ℕ) → (k'.tasks.tds u).state ≡ (k.tasks.tds u).state) where
  queue_before : IsQueue (queue_of w k) k.tasks.nodes (node w t ∷ map (node w) rest)
  queue_before =
      subst (λ l. IsQueue (queue_of w k) k.tasks.nodes (map (node w) l)) first (h.queues w hw)

  taken_out :
      (a : ℕ)
      → a ≢ node w t
      → (get_nodes (queue_of w k) k.tasks.nodes).next a ≡ k.tasks.nodes.next a
  taken_out a ne = ground (arith, queue_before.chain.0)

  listed : has t (P.waiting w) ≡ true
  listed = rw first (ground arith)

  not_again : has t rest ≡ false
  not_again = sym (has-node w t rest) ∙ queue_before.chain.2

  -- Who waits now waited before, and is not `t`.
  was :
      (v : Wait) (u : ℕ)
      → Exists v k.next_free_td
      → has u (with_waiting P.waiting w rest v) ≡ true
      → (has u (P.waiting v) ≡ true) × (u ≢ t)
  was v u hv m = elim (Bool-cases (same v w)) [
    | inl s ↦
        let u∈ : has u rest ≡ true = ground arith in
        (
          subst (λ x. has u (P.waiting x) ≡ true) (sym (same-eq v w s)) (rw first (ground arith)),
          (λ e. ground (arith, not_again)),
        )
    | inr s ↦
        let u∈ : has u (P.waiting v) ≡ true = ground arith in
        (
          u∈,
          (λ e.
              same_ne v w s
                (sym (h.waits v u hv u∈).place ∙ ap P.place e ∙ (h.waits w t hw listed).place)),
        )
  ]

  -- The first task of a queue is taken out of it.
  pub leave-IsSound : IsSound k' (left_places P w rest)
  leave-IsSound = record {
    ready = kept_ready h w mv λ u. taken_out (ready_node u) (not_ready_node w u t);
    queues =
        moved_queues h w mv rest (get-IsQueue (node w t) (map (node w) rest) queue_before)
          λ v x hv e x∈. taken_out (node v x) λ p.
            let xt : x ≡ t = node_inj v w x t p in
            same_ne v w e
              (sym (h.waits v x hv x∈).place ∙ ap P.place xt ∙ (h.waits w t hw listed).place);
    runnable = λ i u hi m.
        let r = h.runnable i u hi m in
        record { made = omega (arith, r.made, mv.keeps.next_free); state = states u ∙ r.state };
    waits = λ v u hv m.
        let hv' = Keeps-Exists v mv.keeps hv in
        let r = h.waits v u hv' (was v u hv' m).0 in
        record {
          made = omega (arith, r.made, mv.keeps.next_free);
          state = states u ∙ r.state;
          place = r.place;
        };
    made = λ u hu. Keeps-IsTask u mv.keeps (h.made u (omega (arith, mv.keeps.next_free)));
    bound = omega (arith, h.bound, mv.keeps.next_free);
  }

  -- It is free then, whatever its state.
  pub leave-IsFree : IsFree k' (left_places P w rest) t
  leave-IsFree = record {
    made = omega (arith, (h.waits w t hw listed).made, mv.keeps.next_free);
    not_ready = λ i hi. elim (Bool-cases (has t (P.ready i))) [
      | inr o ↦ o
      | inl m ↦
          absurd
            (blocked_ne_ready w (sym (h.waits w t hw listed).state ∙ (h.runnable i t hi m).state))
    ];
    not_waiting = λ v hv. elim (Bool-cases (has t (with_waiting P.waiting w rest v))) [
      | inr o ↦ o
      | inl m ↦ absurd ((was v t (Keeps-Exists v mv.keeps hv) m).1 refl)
    ];
  }

  -- Any other free task stays free.
  pub left-IsFree : (u : ℕ) → IsFree k P u → IsFree k' (left_places P w rest) u
  left-IsFree u g = record {
    made = omega (arith, g.made, mv.keeps.next_free);
    not_ready = g.not_ready;
    not_waiting = λ v hv.
        let hv' = Keeps-Exists v mv.keeps hv in
        elim (Bool-cases (has u (with_waiting P.waiting w rest v))) [
          | inr o ↦ o
          | inl m ↦ let p = (was v u hv' m).0 in cc (g.not_waiting v hv')
        ];
  }
