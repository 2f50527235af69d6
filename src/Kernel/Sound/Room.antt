-- ===== src/Kernel/Sound/Room.antt =====
-- There is room in every queue of the kernel of src/main.c: a queue holds each task at most once.
use armv4_kernel.Prelude.{
  ℕ, zero, suc, ◌+◌, ◌*◌, ◌<◌, ◌≤◌, ◌≡◌, refl, true, false, List, [], ◌∷◌, map, arith, length,
  length-map, has, ◌==◌, Bool-cases, inl, inr, if◌then◌else◌,
}
use armv4_kernel.Queue.{Ptr}
use armv4_kernel.Queue.Rep.{Chain}
use armv4_kernel.Task.{ready_node}
use armv4_kernel.Scheduler.{priority_count}
use armv4_kernel.Scheduler.Ready.Put.{MayPut}
use armv4_kernel.Kernel.{Kernel}
use armv4_kernel.Kernel.Ready.{priority_of}
use armv4_kernel.Kernel.Sound.{Wait, node, Exists, Places, IsSound, IsFree}

abbrev Distinct : List ℕ → Type 0
Distinct [] = Unit
Distinct (x ∷ l) = (has x l ≡ false) × Distinct l

erase : ℕ → List ℕ → List ℕ
erase n [] = []
erase n (x ∷ l) = if x == n then l else x ∷ erase n l

has-erase : (n a : ℕ) (l : List ℕ) → has a (erase n l) ≡ true → has a l ≡ true
unfolding erase
has-erase n a [] h = h
has-erase n a (x ∷ l) h = ground (arith, has-erase n a l)

has-erase_self : (n : ℕ) (l : List ℕ) → Distinct l → has n (erase n l) ≡ false
unfolding erase
has-erase_self n [] d = refl
has-erase_self n (x ∷ l) d = ground (arith, has-erase_self n l d.1)

has-erase-false : (n a : ℕ) (l : List ℕ) → has a l ≡ false → has a (erase n l) ≡ false
has-erase-false n a l h = elim (Bool-cases (has a (erase n l))) [
  | inl m ↦ cc (has-erase n a l m)
  | inr e ↦ e
]

erase-Distinct : (n : ℕ) (l : List ℕ) → Distinct l → Distinct (erase n l)
unfolding erase
erase-Distinct n [] d = tt
erase-Distinct n (x ∷ l) d = elim (Bool-cases (x == n)) [
  | inl e ↦ rw e d.1
  | inr e ↦ rw e (has-erase-false n x l d.0, erase-Distinct n l d.1)
]

length-erase : (n : ℕ) (l : List ℕ) → has n l ≡ true → length l ≡ length (erase n l) + 1
unfolding erase
length-erase n [] h = cc
length-erase n (x ∷ l) h = ground (arith, length-erase n l)

-- Distinct numbers below `n` are at most `n` many.
length-Distinct :
    (n : ℕ) (l : List ℕ) → Distinct l → ((a : ℕ) → has a l ≡ true → a < n) → length l ≤ n
length-Distinct n [] d below = omega arith
length-Distinct zero (x ∷ l) d below = absurd (omega (arith, below x (ground arith)))
length-Distinct (suc n) (x ∷ l) d below = elim (Bool-cases (has n (x ∷ l))) [
  | inl m ↦
      let less =
        length-Distinct n (erase n (x ∷ l)) (erase-Distinct n (x ∷ l) d)
          λ a a∈. ground (arith, below a (has-erase n a (x ∷ l) a∈), has-erase_self n (x ∷ l) d) in
      omega (arith, length-erase n (x ∷ l) m)
  | inr out ↦
      let less = length-Distinct n (x ∷ l) d λ a a∈. ground (arith, below a a∈) in omega arith
]

Chain-Distinct : (next : Ptr → Ptr) (p : Ptr) (l : List Ptr) → Chain next p l → Distinct l
Chain-Distinct next p [] c = tt
Chain-Distinct next p (x ∷ l) c = (c.2, Chain-Distinct next (next x) l c.3)

-- A member of a mapped list is the image of a member.
pub has-map-inv :
    (f : ℕ → ℕ) (a : ℕ) (l : List ℕ)
    → has a (map f l) ≡ true
    → (t : ℕ) × (a ≡ f t) × (has t l ≡ true)
has-map-inv f a [] h = cc
has-map-inv f a (x ∷ l) h = elim (Bool-cases (a == f x)) [
  | inl e ↦ (x, ground arith, ground arith)
  | inr e ↦ let (t, p, q) = has-map-inv f a l (ground arith) in (t, p, ground arith)
]

pub has-node : (w : Wait) (t : ℕ) (l : List ℕ) → has (node w t) (map (node w) l) ≡ has t l
has-node w t [] = refl
has-node (Wait.to_send u) t (x ∷ l) = ground (arith, has-node (Wait.to_send u) t l)
has-node (Wait.on_event e) t (x ∷ l) = ground (arith, has-node (Wait.on_event e) t l)

node-le : (w : Wait) (t : ℕ) → node w t ≤ 3 * t + 3
node-le (Wait.to_send u) t = omega arith
node-le (Wait.on_event e) t = omega arith

module _ {k : Kernel} {P : Places} (h : IsSound k P) where
  pub length-ready : (i : ℕ) → i < priority_count → length (P.ready i) ≤ 200
  length-ready i hi =
      let q = h.ready.queues i hi in
      let few =
        length-Distinct 200 (map ready_node (P.ready i)) (Chain-Distinct _ _ _ q.chain) λ a a∈.
          let (t, e, t∈) = has-map-inv ready_node a (P.ready i) a∈ in
          let m = (h.runnable i t hi t∈).made in omega (arith, h.bound, e, m) in
      omega (arith, few, length-map (P.ready i) ready_node)

  pub length-waiting : (w : Wait) → Exists w k.next_free_td → length (P.waiting w) ≤ 200
  length-waiting w hw =
      let q = h.queues w hw in
      let few =
        length-Distinct 200 (map (node w) (P.waiting w)) (Chain-Distinct _ _ _ q.chain) λ a a∈.
          let (t, e, t∈) = has-map-inv (node w) a (P.waiting w) a∈ in
          let m = (h.waits w t hw t∈).made in omega (arith, h.bound, e, m, node-le w t) in
      omega (arith, few, length-map (P.waiting w) (node w))

  -- A free task may be made ready.
  pub free-MayPut : (t : ℕ) → IsFree k P t → MayPut k.tasks P.ready t
  free-MayPut t f =
      let m = h.made t f.made in
      record {
        priority = m.priority;
        fresh = f.not_ready (priority_of t k) m.priority;
        owner = m.ready_owner;
        room = omega (arith, length-ready (priority_of t k) m.priority);
      }
