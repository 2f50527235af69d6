-- ===== src/Kernel/Sound/Move.antt =====
-- The queues of the kernel of src/main.c where one send queue, or the queue of one event, changes.
pub mod Enter
pub mod Leave
use mathlib.Core.Path.{subst, sym}
use mathlib.Core.List.{map-append}
use armv4_kernel.Prelude.{
  ℕ, ◌+◌, ◌<◌, ◌≡◌, ◌≢◌, ◌⊎◌, ◌∙◌, inl, inr, refl, ap, Bool, true, false, some, List, [], ◌∷◌, ◌++◌,
  map, arith, has, has-append, length, length-map, ◌==◌, Bool-cases, if◌then◌else◌,
}
use armv4_kernel.Queue.{update, null, Queue, Nodes}
use armv4_kernel.Queue.Rep.{IsQueue, IsQueue-frame}
use armv4_kernel.Queue.Ops.{
  put_queue, put_nodes, put-IsQueue, put-SameOutside, get_queue, get_nodes, get-IsQueue,
}
use armv4_kernel.Task.{TaskState, ready_node}
use armv4_kernel.Scheduler.{priority_count}
use armv4_kernel.Scheduler.Ready.{IsReady}
use armv4_kernel.Scheduler.Ready.Apart.{IsReady-frame}
use armv4_kernel.Kernel.{Kernel}
use armv4_kernel.Kernel.Ready.{Holds}
use armv4_kernel.Kernel.Sound.{
  Wait, node, queue_of, blocked, Exists, Places, IsSound, IsFree, IsWaiting,
}
use armv4_kernel.Kernel.Sound.Room.{has-map-inv, has-node, length-waiting}
use armv4_kernel.Kernel.Sound.Still.{Keeps, Keeps-IsTask, Keeps-Exists}

abbrev pub same : Wait → Wait → Bool
same (Wait.to_send u) (Wait.to_send v) = u == v
same (Wait.on_event d) (Wait.on_event e) = d == e
same _ _ = false

pub same-eq : (v w : Wait) → same v w ≡ true → v ≡ w
same-eq (Wait.to_send u) (Wait.to_send v) e = ground arith
same-eq (Wait.on_event u) (Wait.on_event v) e = ground arith
same-eq (Wait.to_send u) (Wait.on_event v) e = cc
same-eq (Wait.on_event u) (Wait.to_send v) e = cc

pub same_self : (w : Wait) → same w w ≡ true
same_self (Wait.to_send u) = ground arith
same_self (Wait.on_event u) = ground arith

pub same_ne : (v w : Wait) → same v w ≡ false → v ≢ w
same_ne v w e p = cc (e, same_self w, ap (λ x. same x w) p)

abbrev pub with_waiting : (Wait → List ℕ) → Wait → List ℕ → Wait → List ℕ
with_waiting L w l v = if same v w then l else L v

-- Nodes of different tasks differ, and none is a ready node.
pub node_inj : (v w : Wait) (x y : ℕ) → node v x ≡ node w y → x ≡ y
node_inj (Wait.to_send u) (Wait.to_send v) x y e = omega (arith, e)
node_inj (Wait.on_event u) (Wait.on_event v) x y e = omega (arith, e)
node_inj (Wait.to_send u) (Wait.on_event v) x y e = absurd (omega (arith, e))
node_inj (Wait.on_event u) (Wait.to_send v) x y e = absurd (omega (arith, e))

pub not_ready_node : (w : Wait) (u v : ℕ) → ready_node u ≢ node w v
not_ready_node (Wait.to_send x) u v e = omega (arith, e)
not_ready_node (Wait.on_event x) u v e = omega (arith, e)

pub node_ne_null : (w : Wait) (t : ℕ) → node w t ≢ null
node_ne_null (Wait.to_send u) t e = omega (arith, e)
node_ne_null (Wait.on_event u) t e = omega (arith, e)

pub blocked_ne_ready : (w : Wait) → blocked w ≢ TaskState.ready
blocked_ne_ready (Wait.to_send u) e = cc
blocked_ne_ready (Wait.on_event u) e = cc

-- `k'` has the nodes `s`, the queue `q` for `w`, and every other queue of `k`.
pub record Moves (k k' : Kernel) (w : Wait) (q : Queue) (s : Nodes ℕ) : Type 0 where
  pub keeps : Keeps k k'
  pub sch : k'.sch ≡ k.sch
  pub nodes : k'.tasks.nodes ≡ s
  pub queue : queue_of w k' ≡ q
  pub others : (v : Wait) → same v w ≡ false → queue_of v k' ≡ queue_of v k

module _ {k k' : Kernel} {P : Places} (h : IsSound k P) (w : Wait) {q : Queue} {s : Nodes ℕ}
    (mv : Moves k k' w q s) where
  -- The ready lists, where the ready nodes keep their links.
  pub kept_ready :
      ((u : ℕ) → s.next (ready_node u) ≡ k.tasks.nodes.next (ready_node u)) → Holds k' P.ready
  kept_ready same_links =
      subst (λ c. IsReady c k'.tasks P.ready) (sym mv.sch)
        (IsReady-frame h.ready
          (λ u. ap (λ (n : Nodes ℕ). n.next (ready_node u)) mv.nodes ∙ same_links u)
          (λ u. ap (λ (f : ℕ → ℕ). f (ready_node u)) mv.keeps.owners) mv.keeps.priorities)

  -- The queues, where `w` holds the list `l` and the nodes of the others keep their links.
  pub moved_queues :
      (l : List ℕ)
      → IsQueue q s (map (node w) l)
      → ((v : Wait) (x : ℕ)
          → Exists v k.next_free_td
          → same v w ≡ false
          → has x (P.waiting v) ≡ true
          → s.next (node v x) ≡ k.tasks.nodes.next (node v x))
      → (v : Wait) → Exists v k'.next_free_td
      → IsQueue (queue_of v k') k'.tasks.nodes (map (node v) (with_waiting P.waiting w l v))
  moved_queues l here links v hv = elim (Bool-cases (same v w)) [
    | inl e ↦ rw e (
        subst (λ x. IsQueue (queue_of x k') k'.tasks.nodes (map (node x) l)) (sym (same-eq v w e))
          (subst (λ n. IsQueue (queue_of w k') n (map (node w) l)) (sym mv.nodes)
            (subst (λ c. IsQueue c s (map (node w) l)) (sym mv.queue) here)))
    | inr e ↦
        let hv' = Keeps-Exists v mv.keeps hv in
        rw e (
          subst (λ n. IsQueue (queue_of v k') n (map (node v) (P.waiting v))) (sym mv.nodes)
            (subst (λ c. IsQueue c s (map (node v) (P.waiting v))) (sym (mv.others v e))
              (IsQueue-frame (map (node v) (P.waiting v)) (h.queues v hv') λ a a∈.
                let (x, ax, x∈) = has-map-inv (node v) a (P.waiting v) a∈ in
                subst (λ a. s.next a ≡ k.tasks.nodes.next a) (sym ax) (links v x hv' e x∈))))
  ]
