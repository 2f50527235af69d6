-- ===== src/ClockServer/Front.antt =====
-- About a queue of src/queue/queue.c of which only the front is used, as src/clock_server/clock_server.c
-- uses its blocked tasks.
use armv4_kernel.Prelude.{
  ℕ, ◌+◌, ◌^◌, ◌<◌, ◌≡◌, ◌≢◌, refl, true, false, some, List, [], ◌∷◌, arith, has, length,
}
use armv4_kernel.Queue.{Ptr, null, Nodes, Queue, queue_empty, queue_size, queue_peek, queue_get}
use armv4_kernel.Queue.Rep.{Chain, EndsAt, IsQueue}
use armv4_kernel.Queue.Ops.{
  get_queue, get_nodes, get-IsQueue, put_front-IsQueue, put_front_queue, put_front_nodes,
}

abbrev last_of : List Ptr → Ptr
last_of [] = null
last_of (x ∷ []) = x
last_of (x ∷ y ∷ r) = last_of (y ∷ r)

EndsAt-last_of : (ps : List Ptr) → EndsAt (last_of ps) ps
EndsAt-last_of [] = tt
EndsAt-last_of (x ∷ []) = refl
EndsAt-last_of (x ∷ y ∷ r) = EndsAt-last_of (y ∷ r)

-- A queue whose `back` is not kept: the insertion behind the last node leaves it where it was.
pub record IsFront (q : Queue) (s : Nodes ℕ) (ps : List Ptr) : Type 0 where
  pub chain : Chain s.next q.front ps
  pub count : q.elements ≡ length ps
  pub small : length ps < 2 ^ 32

as_queue :
    {q : Queue} {s : Nodes ℕ} (ps : List Ptr)
    → IsFront q s ps
    → IsQueue (record q { back = last_of ps }) s ps
as_queue {q} ps h = record {
  chain = h.chain;
  count = h.count;
  last = EndsAt-last_of ps;
  small = h.small;
}

pub queue_get_front-eq :
    {q : Queue} {s : Nodes ℕ} (p : Ptr) (ps : List Ptr)
    → IsFront q s (p ∷ ps)
    → queue_get q s ≡ some (some (s.payload p), get_queue q s, get_nodes q s)
unfolding queue_get
queue_get_front-eq p ps h = ground (arith, h.count, h.chain)

pub get-IsFront :
    {q : Queue} {s : Nodes ℕ} (p : Ptr) (ps : List Ptr)
    → IsFront q s (p ∷ ps)
    → IsFront (get_queue q s) (get_nodes q s) ps
get-IsFront {q} {s} p ps h =
    let g : IsQueue (get_queue (record q { back = last_of (p ∷ ps) }) s) (get_nodes q s) ps =
      get-IsQueue p ps (as_queue (p ∷ ps) h) in
    record { chain = g.chain; count = g.count; small = g.small }

pub put_front_lem :
    {q : Queue} {s : Nodes ℕ} (ps : List Ptr) (n : Ptr)
    → IsFront q s ps
    → n ≢ null
    → has n ps ≡ false
    → length ps + 1 < 2 ^ 32
    → IsFront (put_front_queue q n) (put_front_nodes q n s) (n ∷ ps)
put_front_lem {q} {s} ps n h nn out small =
    let g : IsQueue (put_front_queue (record q { back = last_of ps }) n) (put_front_nodes q n s)
        (n ∷ ps) =
      put_front-IsQueue ps n (as_queue ps h) nn out small in
    record { chain = g.chain; count = g.count; small = g.small }

pub peek_front :
    {q : Queue} {s : Nodes ℕ} (p : Ptr) (ps : List Ptr)
    → IsFront q s (p ∷ ps)
    → (queue_empty q ≡ false) × (queue_peek q s ≡ some (some (s.payload p)))
unfolding queue_peek queue_empty queue_size
peek_front p ps h = ground (arith, h.count, h.chain)

pub empty_front : {q : Queue} {s : Nodes ℕ} → IsFront q s [] → queue_empty q ≡ true
unfolding queue_empty queue_size
empty_front h = ground (arith, h.count)
