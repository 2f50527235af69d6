-- ===== src/Scheduler/Ready/Nodes.antt =====
-- The nodes of a list of tasks.
use armv4_kernel.Prelude.{
  ℕ, ◌≡◌, refl, true, List, [], ◌∷◌, ◌++◌, map, arith, ◌==◌, length, has, Bool-cases, inl, inr,
}
use armv4_kernel.Task.{ready_node}

pub has-ready_node : (t : ℕ) (l : List ℕ) → has (ready_node t) (map ready_node l) ≡ has t l
has-ready_node t [] = refl
has-ready_node t (x ∷ l) = ground (arith, has-ready_node t l)

pub length-ready_node : (l : List ℕ) → length (map ready_node l) ≡ length l
length-ready_node [] = refl
length-ready_node (x ∷ l) = omega (arith, length-ready_node l)

pub map-ready_node_snoc :
    (l : List ℕ) (t : ℕ) → map ready_node (l ++ t ∷ []) ≡ map ready_node l ++ ready_node t ∷ []
map-ready_node_snoc [] t = refl
map-ready_node_snoc (x ∷ l) t = rw (map-ready_node_snoc l t)

-- Each node of the list is that of a task of the list.
pub ready_node-inv :
    (a : ℕ) (l : List ℕ)
    → has a (map ready_node l) ≡ true
    → (t : ℕ) × (a ≡ ready_node t) × (has t l ≡ true)
ready_node-inv a [] h = cc
ready_node-inv a (x ∷ l) h = elim (Bool-cases (a == ready_node x)) [
  | inl e ↦ (x, ground arith, ground arith)
  | inr e ↦ let (t, p, q) = ready_node-inv a l (ground arith) in (t, p, ground arith)
]
