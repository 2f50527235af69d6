-- ===== src/Kernel/Sound/Move/Enter.antt =====
-- The step of the kernel of src/main.c by which a task enters a send queue or the queue of an event.
use mathlib.Core.Path.{subst, sym}
use mathlib.Core.List.{map-append}
use armv4_kernel.Prelude.{
  ℕ, ◌≡◌, ◌≢◌, ◌⊎◌, ◌∙◌, inl, inr, ap, true, false, List, [], ◌∷◌, ◌++◌, map, arith, has,
  has-append, length-map, ◌==◌, Bool-cases, if◌then◌else◌,
}
use armv4_kernel.Queue.Rep.{IsQueue}
use armv4_kernel.Queue.Ops.{put_queue, put_nodes, put-IsQueue, put-SameOutside}
use armv4_kernel.Task.{ready_node}
use armv4_kernel.Kernel.{Kernel}
use armv4_kernel.Kernel.Sound.{
  Wait, node, queue_of, blocked, Exists, Places, IsSound, IsFree, IsWaiting,
}
use armv4_kernel.Kernel.Sound.Room.{has-map-inv, has-node, length-waiting}
use armv4_kernel.Kernel.Sound.Still.{Keeps-IsTask, Keeps-Exists}
use armv4_kernel.Kernel.Sound.Move.{
  same, same-eq, same_ne, with_waiting, node_inj, not_ready_node, node_ne_null, Moves, kept_ready,
  moved_queues,
}

-- The places after a task came to wait.
abbrev pub blocked_places : Places → Wait → ℕ → Places
blocked_places P w t = record {
  ready = P.ready;
  waiting = with_waiting P.waiting w (P.waiting w ++ t ∷ []);
  place = λ u. if u == t then w else P.place u;
}

module _ {k k' : Kernel} {P : Places} (h : IsSound k P) (w : Wait) (t : ℕ) (f : IsFree k P t)
    (hw : Exists w k.next_free_td)
    (mv : Moves k k' w
      (put_queue (queue_of w k) (node w t))
      (put_nodes (queue_of w k) (node w t) k.tasks.nodes))
    (state : (k'.tasks.tds t).state ≡ blocked w)
    (states : (u : ℕ) → u ≢ t → (k'.tasks.tds u).state ≡ (k.tasks.tds u).state) where
  abbrev L : List ℕ
  L = P.waiting w

  outside :
      (a : ℕ)
      → has a (map (node w) (t ∷ L)) ≡ false
      → (put_nodes (queue_of w k) (node w t) k.tasks.nodes).next a ≡ k.tasks.nodes.next a
  outside a o = put-SameOutside (map (node w) L) (node w t) (h.queues w hw) a o

  apart :
      (v : Wait) (x : ℕ)
      → Exists v k.next_free_td
      → same v w ≡ false
      → has x (P.waiting v) ≡ true
      → has (node v x) (map (node w) (t ∷ L)) ≡ false
  apart v x hv e x∈ = elim (Bool-cases (has (node v x) (map (node w) (t ∷ L)))) [
    | inr o ↦ o
    | inl m ↦
        let (y, p, y∈) = has-map-inv (node w) (node v x) (t ∷ L) m in
        let xy : x ≡ y = node_inj v w x y p in
        let x≢t : (x == t) ≡ false = ground (arith, f.not_waiting v hv) in
        let x∈w : has x L ≡ true = ground arith in
        absurd (same_ne v w e (sym (h.waits v x hv x∈).place ∙ (h.waits w x hw x∈w).place))
  ]

  queue_here :
      IsQueue
        (put_queue (queue_of w k) (node w t))
        (put_nodes (queue_of w k) (node w t) k.tasks.nodes)
        (map (node w) (L ++ t ∷ []))
  queue_here = rw map-append (
      put-IsQueue (map (node w) L) (node w t) (h.queues w hw) (node_ne_null w t)
        (has-node w t L ∙ f.not_waiting w hw)
        (omega (arith, length-waiting h w hw, length-map L (node w))))

  -- Who waits now: `t`, and who waited before.
  found :
      (v : Wait) (u : ℕ)
      → Exists v k.next_free_td
      → has u (with_waiting P.waiting w (L ++ t ∷ []) v) ≡ true
      → ((u ≡ t) × (v ≡ w)) ⊎ ((u ≢ t) × (has u (P.waiting v) ≡ true))
  found v u hv m = elim (Bool-cases (u == t)) [
    | inl e ↦ elim (Bool-cases (same v w)) [
      | inl s ↦ inl (ground arith, same-eq v w s)
      | inr s ↦ absurd (ground (arith, f.not_waiting v hv))
    ]
    | inr e ↦ inr (
      ground arith,
      (elim (Bool-cases (same v w)) [
        | inl s ↦
            subst (λ x. has u (P.waiting x) ≡ true) (sym (same-eq v w s))
              (ground (arith, has-append u L (t ∷ [])))
        | inr s ↦ ground arith
      ]),
    )
  ]

  waits_now :
      (v : Wait) (u : ℕ)
      → Exists v k'.next_free_td
      → has u (with_waiting P.waiting w (L ++ t ∷ []) v) ≡ true
      → IsWaiting k' (blocked_places P w t) v u
  waits_now v u hv m =
      let hv' = Keeps-Exists v mv.keeps hv in
      elim (found v u hv' m) [
        | inl (e, s) ↦ record {
          made = omega (arith, e, f.made, mv.keeps.next_free);
          state = ap (λ x. (k'.tasks.tds x).state) e ∙ state ∙ ap blocked (sym s);
          place = let here : (u == t) ≡ true = ground arith in rw here (sym s);
        }
        | inr (ne, old) ↦
            let r = h.waits v u hv' old in
            record {
              made = omega (arith, r.made, mv.keeps.next_free);
              state = states u ne ∙ r.state;
              place = let other : (u == t) ≡ false = ground arith in rw other r.place;
            }
      ]

  ready_apart : (u : ℕ) → has (ready_node u) (map (node w) (t ∷ L)) ≡ false
  ready_apart u = elim (Bool-cases (has (ready_node u) (map (node w) (t ∷ L)))) [
    | inr o ↦ o
    | inl m ↦
        let (v, e, _) = has-map-inv (node w) (ready_node u) (t ∷ L) m in
        absurd (not_ready_node w u v e)
  ]

  -- A free task that is put behind the others of a queue, with the state that goes with it.
  pub block-IsSound : IsSound k' (blocked_places P w t)
  block-IsSound = record {
    ready = kept_ready h w mv λ u. outside (ready_node u) (ready_apart u);
    queues =
        moved_queues h w mv (L ++ t ∷ []) queue_here
          λ v x hv e x∈. outside (node v x) (apart v x hv e x∈);
    runnable = λ i u hi m.
        let r = h.runnable i u hi m in
        record {
          made = omega (arith, r.made, mv.keeps.next_free);
          state = states u (λ e. ground (arith, f.not_ready i hi)) ∙ r.state;
        };
    waits = waits_now;
    made = λ u hu. Keeps-IsTask u mv.keeps (h.made u (omega (arith, mv.keeps.next_free)));
    bound = omega (arith, h.bound, mv.keeps.next_free);
  }
