-- ===== src/ClockServer/Start.antt =====
-- About the state in which `clock_server_main` of src/clock_server/clock_server.c starts.
use mathlib.Core.Path.{subst}
use armv4_kernel.Prelude.{
  ℕ, zero, suc, ◌+◌, ◌<◌, ◌≤◌, ◌≡◌, ◌≢◌, refl, ap, ◌∙◌, sym, true, false, some, List, [], ◌∷◌, ◌++◌,
  arith, ◌==◌, ◌||◌, has, has-append, Bool-cases, length, length-append, inl, inr,
}
use armv4_kernel.Queue.{Ptr, Nodes, Queue, update, queue_init, queue_node_init}
use armv4_kernel.Queue.Rep.{IsQueue, IsQueue-frame}
use armv4_kernel.Queue.Fifo.{queue_init-IsQueue, queue_put-append}
use armv4_kernel.Task.{max_tasks}
use armv4_kernel.ClockServer.{ClockServer, node_at, init_from, clock_server_init}
use armv4_kernel.ClockServer.Holds.{apart_ne, IsWaiting}

abbrev up_to : ℕ → List Ptr
up_to zero = []
up_to (suc n) = up_to n ++ node_at n ∷ []

length-up_to : (n : ℕ) → length (up_to n) ≡ n
length-up_to zero = refl
length-up_to (suc n) = omega (arith, length-append (up_to n) (node_at n ∷ []), length-up_to n)

has-up_to : (n a : ℕ) → n < a → has a (up_to n) ≡ false
has-up_to zero a p = refl
has-up_to (suc n) a p =
    has-append a (up_to n) (node_at n ∷ []) ∙ rw (has-up_to n a (omega arith)) (ground arith)

-- Each of the nodes points to its entry.
abbrev Own : (ℕ → ℕ) → List Ptr → Type 0
Own payload ps = (p : Ptr) → has p ps ≡ true → node_at (payload p) ≡ p

Own-up_to :
    (payload payload' : ℕ → ℕ) (i : ℕ)
    → Own payload (up_to i)
    → payload' ≡ update payload (node_at i) i
    → Own payload' (up_to (suc i))
Own-up_to payload payload' i own e a j = elim (Bool-cases (a == node_at i)) [
  | inl is ↦
      ap (λ (f : ℕ → ℕ). node_at (f a)) e
      ∙ (let here : a ≡ node_at i = ground (arith, is) in rw is (sym here))
  | inr other ↦
      let inside : has a (up_to i) ≡ true =
        sym (before (up_to i) a (node_at i) other)
        ∙ sym (has-append a (up_to i) (node_at i ∷ []))
        ∙ j in
      ap (λ (f : ℕ → ℕ). node_at (f a)) e ∙ rw other (own a inside)
]
  where
    before :
        (ps : List Ptr) (a n : Ptr) → (a == n) ≡ false → (has a ps || has a (n ∷ [])) ≡ has a ps
    before ps a n o = ground (arith, o)

fresh_init :
    (nodes : Nodes ℕ) (i : ℕ) (a : Ptr)
    → has a (up_to i) ≡ true
    → (queue_node_init (node_at i) i nodes).next a ≡ nodes.next a
unfolding queue_node_init
fresh_init nodes i a j =
    let ne : a ≢ node_at i = apart_ne (up_to i) (has-up_to i (node_at i) (omega arith)) j in
    let eq : (a == node_at i) ≡ false = ground (arith, ne) in rw eq refl

set_payload :
    (s : Nodes ℕ) (i : ℕ)
    → (queue_node_init (node_at i) i s).payload ≡ update s.payload (node_at i) i
unfolding queue_node_init
set_payload s i = refl

init_lem :
    (m n i : ℕ) {s : ClockServer}
    → IsQueue s.free_list s.nodes (up_to i)
    → Own s.nodes.payload (up_to i)
    → i + n ≡ m
    → m ≤ max_tasks
    → (free : Queue) × (nodes : Nodes ℕ) × (init_from n i s
        ≡ some (record s { free_list = free; nodes = nodes }))
      × IsQueue free nodes (up_to m)
      × Own nodes.payload (up_to m)
unfolding init_from
init_lem m zero i {s} h own e small =
    let z : i ≡ m = omega (arith, e) in
    (
      s.free_list,
      s.nodes,
      refl,
      subst (λ k. IsQueue s.free_list s.nodes (up_to k)) z h,
      subst (λ k. Own s.nodes.payload (up_to k)) z own,
    )
init_lem m (suc n) i {s} h own e small =
    let nodes : Nodes ℕ = queue_node_init (node_at i) i s.nodes in
    let new : has (node_at i) (up_to i) ≡ false = has-up_to i (node_at i) (omega arith) in
    let h₁ : IsQueue s.free_list nodes (up_to i) =
      IsQueue-frame (up_to i) h (λ a j. fresh_init s.nodes i a j) in
    let (free, nodes', run, h₂, same, payload) =
      queue_put-append (up_to i) (node_at i) h₁ (λ z. omega (arith, z)) new
        (omega (arith, e, small, length-up_to i)) in
    let own' : Own nodes'.payload (up_to (suc i)) =
      Own-up_to s.nodes.payload nodes'.payload i own (payload ∙ set_payload s.nodes i) in
    let z : suc i ≡ i + 1 = omega arith in
    let (free', nodes'', run', h₃, own'') =
      init_lem m n (i + 1) {s = record s { free_list = free; nodes = nodes' }}
        (subst (λ k. IsQueue free nodes' (up_to k)) z h₂)
        (subst (λ k. Own nodes'.payload (up_to k)) z own') (omega (arith, e)) small in
    (free', nodes'', rw (run, run') refl, h₃, own'')

-- The clock server starts at the time 0 and keeps no task waiting, whatever its variables held.
pub clock_server_init-IsWaiting :
    (s : ClockServer)
    → (s' : ClockServer) × (clock_server_init s ≡ some s') × (s'.ticks ≡ 0) × IsWaiting s' []
unfolding clock_server_init
clock_server_init-IsWaiting s =
    let s₀ : ClockServer = record s { ticks = 0; blocked = queue_init; free_list = queue_init } in
    let (free, nodes, run, h, own) =
      init_lem max_tasks max_tasks 0 {s = s₀} (queue_init-IsQueue s.nodes)
        (λ p i. ground (arith, i)) (omega arith) (omega arith) in
    (
      record s₀ { free_list = free; nodes = nodes },
      run,
      refl,
      record {
        blocked = [];
        unused = up_to max_tasks;
        holds = record {
          front =
              let empty : IsQueue queue_init nodes [] = queue_init-IsQueue nodes in
              record { chain = empty.chain; count = empty.count; small = empty.small };
          free = h;
          own = own;
          apart = λ p i. ground (arith, i);
          total = omega (arith, length-up_to max_tasks);
        };
        view = refl;
        sorted = tt;
        due = tt;
      },
    )
