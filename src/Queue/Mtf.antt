-- ===== src/Queue/Mtf.antt =====
-- About `queue_mtf` of src/queue/queue.c, which nothing calls.
use mathlib.Core.Path.{subst}
use armv4_kernel.Prelude.{◌≡◌, refl, false, some, List, ◌∷◌, ap, arith, length, has}
use armv4_kernel.Queue.{Ptr, Nodes, Queue, update, queue_mtf}
use armv4_kernel.Queue.Rep.{Chain, IsQueue, Chain-frame, Chain-unique}

module _ {ℓ} {A : Type ℓ} where
  -- In a queue of at least three nodes, with the first as the parent, `queue_mtf` returns 0 and the
  -- second node becomes the first, with the order of the others kept.
  pub queue_mtf_first :
      {q : Queue} {s : Nodes A} (x y z : Ptr) (ps : List Ptr)
      → IsQueue q s (x ∷ y ∷ z ∷ ps)
      → (q' : Queue) × (s' : Nodes A) × (queue_mtf q x s ≡ some (0, q', s'))
        × IsQueue q' s' (y ∷ x ∷ z ∷ ps)
  unfolding queue_mtf
  queue_mtf_first {q} {s} x y z ps h = (
    record { front = y; back = q.back; elements = q.elements },
    record { payload = s.payload; next = update (update s.next x z) y x },
    ground (arith, h.count, h.chain),
    record {
      chain = (
        refl,
        second.1,
        ground (arith, h.chain.2, second.2),
        (
          ground arith,
          h.chain.1,
          ground (arith, h.chain.2),
          (
            ground (arith, h.chain.2),
            third.1,
            third.2,
            subst (λ r. Chain moved r ps) (let e : s.next z ≡ moved z = ground (arith, apart) in e)
                (Chain-frame (s.next z) ps third.3 (λ a i. ground (arith, apart, third.2))),
          ),
        ),
      );
      count = h.count;
      last = h.last;
      small = h.small;
    },
  )
    where
      moved : Ptr → Ptr
      moved = update (update s.next x z) y x

      second : Chain s.next (s.next x) (y ∷ z ∷ ps)
      second = h.chain.3

      third : Chain s.next (s.next y) (z ∷ ps)
      third = second.3

      apart : (has x (y ∷ z ∷ ps) ≡ false) × (has y (z ∷ ps) ≡ false)
      apart = (h.chain.2, second.2)

  -- In a queue of at least three nodes, with the second as the parent, `queue_mtf` returns 0 and
  -- loses the first node: what it leaves is no queue, whatever list of nodes it is taken for.
  pub queue_mtf_second :
      {q : Queue} {s : Nodes A} (x y z : Ptr) (ps : List Ptr)
      → IsQueue q s (x ∷ y ∷ z ∷ ps)
      → (q' : Queue) × (s' : Nodes A) × (queue_mtf q y s ≡ some (0, q', s'))
        × ((qs : List Ptr) → ¬ IsQueue q' s' qs)
  unfolding queue_mtf
  queue_mtf_second {q} {s} x y z ps h = (
    record { front = z; back = q.back; elements = q.elements },
    record { payload = s.payload; next = moved },
    ground (arith, h.count, second.1, third.0, third.1),
    λ qs h'.
        let e : z ∷ y ∷ ps ≡ qs = Chain-unique moved z (z ∷ y ∷ ps) qs left h'.chain in
        omega (arith, ap length e, h.count, h'.count),
  )
    where
      moved : Ptr → Ptr
      moved = update (update s.next y (s.next z)) z y

      second : Chain s.next (s.next x) (y ∷ z ∷ ps)
      second = h.chain.3

      third : Chain s.next (s.next y) (z ∷ ps)
      third = second.3

      left : Chain moved z (z ∷ y ∷ ps)
      left = (
        refl,
        third.1,
        ground (arith, second.2, third.2),
        (
          ground arith,
          second.1,
          ground (arith, second.2),
          subst (λ r. Chain moved r ps) (let e : s.next z ≡ moved y = ground (arith, second.2) in e)
              (Chain-frame (s.next z) ps third.3 (λ a i. ground (arith, second.2, third.2))),
        ),
      )
