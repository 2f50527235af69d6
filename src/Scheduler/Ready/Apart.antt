-- ===== src/Scheduler/Ready/Apart.antt =====
-- About the nodes of ready lists of different priorities.
use armv4_kernel.Prelude.{ℕ, ◌<◌, ◌≡◌, ◌≢◌, true, false, map, arith, has, Bool-cases, inl, inr}
use mathlib.Core.Path.{subst, sym, ◌∙◌}
use armv4_kernel.Queue.Rep.{IsQueue-frame}
use armv4_kernel.Task.{Tasks, ready_node}
use armv4_kernel.Scheduler.{Scheduler, priority_count}
use armv4_kernel.Scheduler.Ready.{ReadyLists, IsReady}
use armv4_kernel.Scheduler.Ready.Nodes.{ready_node-inv}

module _ {sch : Scheduler} {ts : Tasks} {R : ReadyLists} (h : IsReady sch ts R) where
  pub node_priority :
      (a i : ℕ)
      → i < priority_count
      → has a (map ready_node (R i)) ≡ true
      → (u : ℕ) × (a ≡ ready_node u) × ((ts.tds u).priority ≡ i)
  node_priority a i hi a∈ =
      let (u, e, u∈) = ready_node-inv a (R i) a∈ in (u, e, h.own_list i u hi u∈)

  pub lists_apart :
      (a i j : ℕ)
      → i < priority_count
      → j < priority_count
      → i ≢ j
      → has a (map ready_node (R i)) ≡ true
      → has a (map ready_node (R j)) ≡ false
  lists_apart a i j hi hj ne a∈ = elim (Bool-cases (has a (map ready_node (R j)))) [
    | inr out ↦ out
    | inl both ↦
        let (u, eu, pu) = node_priority a i hi a∈ in
        let (v, ev, pv) = node_priority a j hj both in
        let same : u ≡ v = omega arith in absurd (ne (ground arith))
  ]

-- The ready lists are not disturbed where, of each task in them, the ready node keeps its link and
-- owner, and the priority stays.
pub IsReady-members :
    {sch : Scheduler} {ts ts' : Tasks} {R : ReadyLists}
    → IsReady sch ts R
    → ((i u : ℕ)
        → i < priority_count
        → has u (R i) ≡ true
        → (ts'.nodes.next (ready_node u) ≡ ts.nodes.next (ready_node u))
          × (ts'.nodes.payload (ready_node u) ≡ ts.nodes.payload (ready_node u))
          × ((ts'.tds u).priority ≡ (ts.tds u).priority))
    → IsReady sch ts' R
IsReady-members {ts} {ts'} {R} h same = record {
  word = h.word;
  bits = h.bits;
  queues = λ i hi. IsQueue-frame (map ready_node (R i)) (h.queues i hi) λ a a∈.
      let (u, e, u∈) = ready_node-inv a (R i) a∈ in
      subst (λ x. ts'.nodes.next x ≡ ts.nodes.next x) (sym e) (same i u hi u∈).0;
  own_list = λ i t hi m. (same i t hi m).2 ∙ h.own_list i t hi m;
  owner = λ i t hi m. (same i t hi m).1 ∙ h.owner i t hi m;
}

-- So too where that holds of every task.
pub IsReady-frame :
    {sch : Scheduler} {ts ts' : Tasks} {R : ReadyLists}
    → IsReady sch ts R
    → ((u : ℕ) → ts'.nodes.next (ready_node u) ≡ ts.nodes.next (ready_node u))
    → ((u : ℕ) → ts'.nodes.payload (ready_node u) ≡ ts.nodes.payload (ready_node u))
    → ((u : ℕ) → (ts'.tds u).priority ≡ (ts.tds u).priority)
    → IsReady sch ts' R
IsReady-frame h links owners priorities =
    IsReady-members h (λ i u hi m. (links u, owners u, priorities u))
