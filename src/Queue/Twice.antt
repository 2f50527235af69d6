-- ===== src/Queue/Twice.antt =====
-- About `queue_put` of src/queue/queue.c for a node that is in the queue already.
use mathlib.Core.Path.{ap}
use armv4_kernel.Prelude.{
  ◌+◌, ◌^◌, ◌<◌, ◌≤◌, ◌≡◌, ◌≢◌, refl, true, false, some, List, [], ◌∷◌, arith, ◌==◌, length, has,
  if◌then◌else◌, Bool-cases, inl, inr,
}
use armv4_kernel.Queue.{Ptr, null, Nodes, Queue, update, queue_put}
use armv4_kernel.Queue.Rep.{Chain, EndsAt, IsQueue, Chain-unique, has-EndsAt}
use armv4_kernel.Queue.Ops.{put_queue, put_nodes, queue_put-eq}

-- The nodes of a list up to and with `n`.
abbrev up_to : Ptr → List Ptr → List Ptr
up_to n [] = []
up_to n (x ∷ xs) = let rest = up_to n xs in if x == n then x ∷ [] else x ∷ rest

length-up_to : (n : Ptr) (ps : List Ptr) → length (up_to n ps) ≤ length ps
length-up_to n [] = omega arith
length-up_to n (x ∷ xs) = ground (arith, length-up_to n xs)

has-up_to : (y n : Ptr) (ps : List Ptr) → has y ps ≡ false → has y (up_to n ps) ≡ false
has-up_to y n [] h = refl
has-up_to y n (x ∷ xs) h = ground (arith, has-up_to y n xs)

Chain-cut :
    (next : Ptr → Ptr) (b n p : Ptr) (ps : List Ptr)
    → Chain next p ps
    → EndsAt b ps
    → has n ps ≡ true
    → Chain (update (update next b n) n null) p (up_to n ps)
Chain-cut next b n p [] c e i = cc
Chain-cut next b n p (x ∷ []) c e i = ground arith
Chain-cut next b n p (x ∷ y ∷ r) c e i = elim (Bool-cases (x == n)) [
  | inl here ↦
      rw here
        (c.0, c.1, refl, (let z : update (update next b n) n null x ≡ null = ground arith in z))
  | inr later ↦
      let keep : update (update next b n) n null x ≡ next x = ground (arith, has-EndsAt b y r e) in
      rw later (
        c.0,
        c.1,
        has-up_to x n (y ∷ r) c.2,
        rw keep (Chain-cut next b n (next x) (y ∷ r) c.3 e (ground arith)),
      )
]

module _ {ℓ} {A : Type ℓ} where
  put_twice-Chain :
      {q : Queue} {s : Nodes A} (ps : List Ptr) (n : Ptr)
      → IsQueue q s ps
      → has n ps ≡ true
      → Chain (put_nodes q n s).next (put_queue q n).front (up_to n ps)
  put_twice-Chain [] n h i = cc
  put_twice-Chain {q} {s} (x ∷ xs) n h i =
      let ne : (q.elements == 0) ≡ false = ground (arith, h.count) in
      rw ne (Chain-cut s.next q.back n q.front (x ∷ xs) h.chain h.last i)

  -- `queue_put` of a node that is in the queue already is not refused: it returns 0, and leaves a
  -- structure that holds no list of nodes, since the count is above the number of nodes that the links
  -- lead to.
  pub queue_put-twice :
      {q : Queue} {s : Nodes A} (ps : List Ptr) (n : Ptr)
      → IsQueue q s ps
      → has n ps ≡ true
      → n ≢ null
      → length ps + 1 < 2 ^ 32
      → (q' : Queue) × (s' : Nodes A) × (queue_put q n s ≡ some (0, q', s'))
        × ((l : List Ptr) → ¬ IsQueue q' s' l)
  queue_put-twice {q} {s} ps n h i nn small = (
    put_queue q n,
    put_nodes q n s,
    queue_put-eq ps n h nn,
    λ l bad.
        let same : l ≡ up_to n ps =
          Chain-unique (put_nodes q n s).next (put_queue q n).front l (up_to n ps) bad.chain
            (put_twice-Chain ps n h i) in
        omega (arith, bad.count, h.count, small, length-up_to n ps, ap length same),
  )
