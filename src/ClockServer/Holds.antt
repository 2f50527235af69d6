-- ===== src/ClockServer/Holds.antt =====
-- About the two queues of the clock server of src/clock_server/clock_server.c.
use armv4_kernel.Prelude.{
  ℕ, ◌+◌, ◌≡◌, ◌≢◌, refl, ap, ◌∙◌, sym, true, false, some, List, [], ◌∷◌, ◌++◌, arith, ◌==◌, ◌||◌,
  has, has-append, map, length, length-append,
}
use armv4_kernel.Queue.{Ptr, Nodes, Queue, queue_put}
use armv4_kernel.Queue.Rep.{IsQueue, SameOutside, IsQueue-frame, Chain-frame}
use armv4_kernel.Queue.Ops.{
  get_queue, get_nodes, put_queue, put_nodes, queue_put-eq, put-IsQueue, put-SameOutside,
}
use armv4_kernel.Task.{max_tasks}
use armv4_kernel.ClockServer.{BlockedEntry, ClockServer, node_at}
use armv4_kernel.ClockServer.Front.{IsFront, get-IsFront}
use armv4_kernel.ClockServer.Sorted.{AllDue, SortedFrom}
use armv4_kernel.ClockServer.Insert.{entry_at}

-- The server's two queues hold the nodes `ps` and `fs`.
pub record Holds (s : ClockServer) (ps fs : List Ptr) : Type 0 where
  pub front : IsFront s.blocked s.nodes ps
  pub free : IsQueue s.free_list s.nodes fs
  pub own : (p : Ptr) → has p (ps ++ fs) ≡ true → node_at (s.nodes.payload p) ≡ p
  pub apart : (p : Ptr) → has p ps ≡ true → has p fs ≡ false
  pub total : length ps + length fs ≡ max_tasks

-- The tasks that the server keeps waiting, in order.
pub record IsWaiting (s : ClockServer) (l : List BlockedEntry) : Type 0 where
  pub blocked : List Ptr
  pub unused : List Ptr
  pub holds : Holds s blocked unused
  pub view : map (entry_at s.nodes s.entries) blocked ≡ l
  pub sorted : SortedFrom 0 l
  pub due : AllDue l

pub IsFront-frame :
    {q : Queue} {s t : Nodes ℕ} (ps : List Ptr)
    → IsFront q s ps
    → ((a : Ptr) → has a ps ≡ true → t.next a ≡ s.next a)
    → IsFront q t ps
IsFront-frame {q} ps h same = record {
  chain = Chain-frame q.front ps h.chain same;
  count = h.count;
  small = h.small;
}

pub apart_ne : {p a : Ptr} (ps : List Ptr) → has p ps ≡ false → has a ps ≡ true → a ≢ p
apart_ne ps out i e = let bad : true ≡ false = sym i ∙ ap (λ z. has z ps) e ∙ out in ground arith

pub get_other :
    (q : Queue) (s : Nodes ℕ) (p : Ptr) (ps : List Ptr) (a : Ptr)
    → q.front ≡ p
    → has p ps ≡ false
    → has a ps ≡ true
    → (get_nodes q s).next a ≡ s.next a
get_other q s p ps a e out i =
    let ne : a ≢ q.front = λ c. apart_ne ps out i (c ∙ e) in
    let eq : (a == q.front) ≡ false = ground (arith, ne) in rw eq refl

apart_cons :
    {s : ClockServer} (p : Ptr) (ps fs : List Ptr) (a : Ptr)
    → Holds s (p ∷ ps) fs
    → has a ps ≡ true
    → has a (p ∷ fs) ≡ false
apart_cons p ps fs a h i =
    let ne : a ≢ p = apart_ne ps h.front.chain.2 i in
    let out : has a fs ≡ false = h.apart a (ground (arith, i)) in ground (arith, ne, out)

apart_swap :
    (a p : Ptr) (fs : List Ptr) → has a (p ∷ fs) ≡ false → (has a fs || has a (p ∷ [])) ≡ false
apart_swap a p fs o = ground arith

moved :
    (p : Ptr) (ps fs : List Ptr) (a : Ptr)
    → has a (ps ++ (fs ++ p ∷ [])) ≡ true
    → has a (p ∷ ps ++ fs) ≡ true
moved p ps fs a i =
    ground (arith, has-append a ps (fs ++ p ∷ []), has-append a fs (p ∷ []), has-append a ps fs)

-- The front node goes behind the unused ones.
pub release :
    {s : ClockServer} (p : Ptr) (ps fs : List Ptr)
    → Holds s (p ∷ ps) fs
    → (free : Queue) × (next : Ptr → Ptr) × (queue_put s.free_list p (get_nodes s.blocked s.nodes)
        ≡ some (0, free, record s.nodes { next = next }))
      × Holds
          (record s {
            blocked = get_queue s.blocked s.nodes;
            free_list = free;
            nodes = record s.nodes { next = next };
          })
          ps
          (fs ++ p ∷ [])
release {s} p ps fs h =
    let got : Nodes ℕ = get_nodes s.blocked s.nodes in
    let here : s.blocked.front ≡ p = h.front.chain.0 in
    let out : has p fs ≡ false = h.apart p (ground arith) in
    let free' : IsQueue s.free_list got fs =
      IsQueue-frame fs h.free (λ a i. get_other s.blocked s.nodes p fs a here out i) in
    let outside : SameOutside (p ∷ fs) got (put_nodes s.free_list p got) =
      put-SameOutside fs p free' in
    (
      put_queue s.free_list p,
      (put_nodes s.free_list p got).next,
      queue_put-eq fs p free' h.front.chain.1,
      record {
        front =
            IsFront-frame ps (get-IsFront p ps h.front)
              (λ a i. outside a (apart_cons p ps fs a h i));
        free = put-IsQueue fs p free' h.front.chain.1 out (omega (arith, h.total));
        own = λ a i. h.own a (moved p ps fs a i);
        apart = λ a i. has-append a fs (p ∷ []) ∙ apart_swap a p fs (apart_cons p ps fs a h i);
        total = omega (arith, h.total, length-append fs (p ∷ []));
      },
    )

-- The clock has no part in it.
pub Holds-ticks :
    {s : ClockServer} (ps fs : List Ptr) (t : ℕ)
    → Holds s ps fs
    → Holds (record s { ticks = t }) ps fs
Holds-ticks ps fs t h = record {
  front = h.front;
  free = h.free;
  own = h.own;
  apart = h.apart;
  total = h.total;
}
