-- ===== src/Queue/Fifo.antt =====
-- About the operations of src/queue/queue.c, as a client sees them.
use armv4_kernel.Prelude.{
  ◌+◌, ◌^◌, ◌<◌, ◌≡◌, ◌≢◌, refl, false, Option, none, some, List, [], ◌∷◌, ◌++◌, arith, length, has,
  ◌==◌,
}
use armv4_kernel.Queue.{
  Ptr, null, Nodes, Queue, queue_init, queue_put, queue_put_front, queue_get, queue_peek,
  queue_size, queue_empty,
}
use armv4_kernel.Queue.Rep.{IsQueue, SameOutside}
use armv4_kernel.Queue.Ops.{
  put_queue, put_nodes, queue_put-eq, put-IsQueue, put-SameOutside, get_queue, get_nodes,
  queue_get-eq, get-IsQueue, queue_put_front-eq, put_front-IsQueue, put_front_queue,
  put_front_nodes,
}

module _ {ℓ} {A : Type ℓ} where
  -- `queue_init` gives a queue that holds no node, in every store.
  pub queue_init-IsQueue : (s : Nodes A) → IsQueue queue_init s []
  unfolding queue_init
  queue_init-IsQueue s = record { chain = refl; count = refl; last = tt; small = omega arith }

  -- `queue_put` of a node that is not null and not in the queue returns 0, puts the node behind all
  -- others, changes no data pointer, and changes no link outside the queue and the node.
  pub queue_put-append :
      {q : Queue} {s : Nodes A} (ps : List Ptr) (n : Ptr)
      → IsQueue q s ps
      → n ≢ null
      → has n ps ≡ false
      → length ps + 1 < 2 ^ 32
      → (q' : Queue) × (s' : Nodes A) × (queue_put q n s ≡ some (0, q', s'))
        × IsQueue q' s' (ps ++ n ∷ [])
        × SameOutside (n ∷ ps) s s'
        × (s'.payload ≡ s.payload)
  queue_put-append {q} {s} ps n h nn out small = (
    put_queue q n,
    put_nodes q n s,
    queue_put-eq ps n h nn,
    put-IsQueue ps n h nn out small,
    put-SameOutside ps n h,
    refl,
  )

  -- `queue_put_front` of a node that is not null and not in the queue returns 0, puts the node in
  -- front of all others, changes no data pointer, and changes no link but the node's.
  pub queue_put_front-cons :
      {q : Queue} {s : Nodes A} (ps : List Ptr) (n : Ptr)
      → IsQueue q s ps
      → n ≢ null
      → has n ps ≡ false
      → length ps + 1 < 2 ^ 32
      → (q' : Queue) × (s' : Nodes A) × (queue_put_front q n s ≡ some (0, q', s'))
        × IsQueue q' s' (n ∷ ps)
        × SameOutside (n ∷ []) s s'
        × (s'.payload ≡ s.payload)
  queue_put_front-cons {q} {s} ps n h nn out small = (
    put_front_queue q n,
    put_front_nodes q n s,
    queue_put_front-eq q s n nn,
    put_front-IsQueue ps n h nn out small,
    (λ a o. ground arith),
    refl,
  )

  -- `queue_get` of a queue with a first node returns the data of that node, leaves the rest in
  -- order, changes no link but the node's, and changes no data pointer.
  pub queue_get-tail :
      {q : Queue} {s : Nodes A} (p : Ptr) (ps : List Ptr)
      → IsQueue q s (p ∷ ps)
      → (q' : Queue) × (s' : Nodes A) × (queue_get q s ≡ some (some (s.payload p), q', s'))
        × IsQueue q' s' ps
        × SameOutside (p ∷ []) s s'
        × (s'.payload ≡ s.payload)
  queue_get-tail {q} {s} p ps h = (
    get_queue q s,
    get_nodes q s,
    queue_get-eq p ps h,
    get-IsQueue p ps h,
    (λ a o. ground (arith, h.chain.0)),
    refl,
  )

  -- The data of the first node, if there is one.
  abbrev pub first : Nodes A → List Ptr → Option A
  first s [] = none
  first s (p ∷ ps) = some (s.payload p)

  -- On a queue that holds a list of nodes, `queue_peek`, `queue_size` and `queue_empty` report the
  -- first node's data if there is one, the number of nodes, and whether there is none.
  pub queue_observers :
      {q : Queue} {s : Nodes A} (ps : List Ptr)
      → IsQueue q s ps
      → (queue_peek q s ≡ some (first s ps))
        × (queue_size q ≡ length ps)
        × (queue_empty q ≡ (length ps == 0))
  unfolding queue_peek queue_empty
  queue_observers [] h = ground (arith, h.count)
  queue_observers (p ∷ ps) h = ground (arith, h.count, h.chain)
