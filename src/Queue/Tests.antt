-- ===== src/Queue/Tests.antt =====
-- Tests of the model of src/queue/queue.c on a queue of three nodes.
use armv4_kernel.Prelude.{ℕ, ◌*◌, ◌≡◌, refl, some, List, [], ◌∷◌, arith, ◌==◌, if◌then◌else◌}
use armv4_kernel.Queue.{Ptr, Nodes, Queue, queue_init, queue_put, queue_get, queue_mtf}
use armv4_kernel.Queue.Rep.{IsQueue, SameOutside}
use armv4_kernel.Queue.Fifo.{queue_init-IsQueue, queue_put-append, queue_get-tail}
use armv4_kernel.Queue.Mtf.{queue_mtf_second}
use armv4_kernel.Queue.Twice.{queue_put-twice}

abbrev store : Nodes ℕ
store = record { payload = λ a. a * 10; next = λ a. if a == 4 then 5 else if a == 5 then 6 else 0 }

abbrev three : Queue
three = record { front = 4; back = 6; elements = 3 }

abbrev order : List Ptr
order = 4 ∷ 5 ∷ 6 ∷ []

three-IsQueue : IsQueue three store order
three-IsQueue = record {
  chain = (refl, omega arith, refl, (refl, omega arith, refl, (refl, omega arith, refl, refl)));
  count = refl;
  last = refl;
  small = omega arith;
}

queue_init-IsQueue_example : IsQueue queue_init store []
queue_init-IsQueue_example = queue_init-IsQueue store

queue_put-append_example :
    (q' : Queue) × (s' : Nodes ℕ) × (queue_put three 7 store ≡ some (0, q', s'))
    × IsQueue q' s' (4 ∷ 5 ∷ 6 ∷ 7 ∷ [])
    × SameOutside (7 ∷ order) store s'
    × (s'.payload ≡ store.payload)
queue_put-append_example = queue_put-append order 7 three-IsQueue (omega arith) refl (omega arith)

queue_get-tail_example :
    (q' : Queue) × (s' : Nodes ℕ) × (queue_get three store ≡ some (some 40, q', s'))
    × IsQueue q' s' (5 ∷ 6 ∷ [])
    × SameOutside (4 ∷ []) store s'
    × (s'.payload ≡ store.payload)
queue_get-tail_example = queue_get-tail 4 (5 ∷ 6 ∷ []) three-IsQueue

queue_mtf_second_example :
    (q' : Queue) × (s' : Nodes ℕ) × (queue_mtf three 5 store ≡ some (0, q', s'))
    × ((qs : List Ptr) → ¬ IsQueue q' s' qs)
queue_mtf_second_example = queue_mtf_second 4 5 6 [] three-IsQueue

queue_put-twice_example :
    (q' : Queue) × (s' : Nodes ℕ) × (queue_put three 5 store ≡ some (0, q', s'))
    × ((l : List Ptr) → ¬ IsQueue q' s' l)
queue_put-twice_example = queue_put-twice order 5 three-IsQueue refl (omega arith) (omega arith)
