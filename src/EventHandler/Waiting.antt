-- ===== src/EventHandler/Waiting.antt =====
-- The nodes by which tasks wait in a queue of the event handler.
use armv4_kernel.Prelude.{
  ℕ, ◌+◌, ◌^◌, ◌<◌, ◌≡◌, refl, true, false, List, [], ◌∷◌, ◌++◌, map, arith, length, has, ◌==◌,
  Bool-cases, inl, inr,
}
use armv4_kernel.Task.{Tasks, ready_node, await_node}
use armv4_kernel.Scheduler.{priority_count}
use armv4_kernel.Scheduler.Ready.{ReadyLists}

pub has-await_node : (t : ℕ) (l : List ℕ) → has (await_node t) (map await_node l) ≡ has t l
has-await_node t [] = refl
has-await_node t (x ∷ l) = ground (arith, has-await_node t l)

pub length-await_node : (l : List ℕ) → length (map await_node l) ≡ length l
length-await_node [] = refl
length-await_node (x ∷ l) = omega (arith, length-await_node l)

pub map-await_node_snoc :
    (l : List ℕ) (t : ℕ) → map await_node (l ++ t ∷ []) ≡ map await_node l ++ await_node t ∷ []
map-await_node_snoc [] t = refl
map-await_node_snoc (x ∷ l) t = rw (map-await_node_snoc l t)

pub await_node-inv :
    (a : ℕ) (l : List ℕ) → has a (map await_node l) ≡ true → (t : ℕ) × (a ≡ await_node t)
await_node-inv a [] h = cc
await_node-inv a (x ∷ l) h = elim (Bool-cases (a == await_node x)) [
  | inl e ↦ (x, ground arith)
  | inr e ↦ await_node-inv a l (ground arith)
]

-- What it takes to make every task of `W` ready: none of them is ready yet, and each owns its nodes.
pub record CanWake (prio : ℕ → ℕ) (ts : Tasks) (R : ReadyLists) (W : List ℕ) : Type 0 where
  pub priorities : (u : ℕ) → (ts.tds u).priority ≡ prio u
  pub in_range : (u : ℕ) → has u W ≡ true → prio u < priority_count
  pub fresh : (u : ℕ) → has u W ≡ true → has u (R (prio u)) ≡ false
  pub ready_owner : (u : ℕ) → has u W ≡ true → ts.nodes.payload (ready_node u) ≡ u
  pub await_owner : (u : ℕ) → has u W ≡ true → ts.nodes.payload (await_node u) ≡ u
  pub room : (i : ℕ) → length (R i) + length W < 2 ^ 32
