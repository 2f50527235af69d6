-- ===== src/ClockServer/Block.antt =====
-- About the insertion of a blocked task in src/clock_server/clock_server.c.
use armv4_kernel.Prelude.{
  ℕ, ◌^◌, ◌<◌, ◌≡◌, ◌≢◌, inl, inr, refl, ap, ◌∙◌, sym, true, false, some, List, [], ◌∷◌, arith, ltb,
  ◌==◌, has, map, Bool-cases, length,
}
use armv4_kernel.Queue.{Ptr, null, Queue, update, inc_size}
use armv4_kernel.Queue.Ops.{put_front_queue, put_front_nodes, queue_put_front-eq}
use armv4_kernel.Task.{max_tasks}
use armv4_kernel.ClockServer.{BlockedEntry, ClockServer, node_at, int_gt, insert_blocked}
use armv4_kernel.ClockServer.Front.{IsFront, put_front_lem, peek_front, empty_front}
use armv4_kernel.ClockServer.Sorted.{AllDue, int_gt_lem}
use armv4_kernel.ClockServer.Insert.{entry_at, place, length-place, linked, find_place_lem}

-- What the insertion of the entry `new` leaves.
pub record Inserted (new : ℕ) (ps : List Ptr) (s : ClockServer) (q : Queue) (next : Ptr → Ptr)
    : Type 0 where
  pub run :
      insert_blocked new s ≡ some (record s { blocked = q; nodes = record s.nodes { next = next } })
  pub front :
      IsFront q
        (record s.nodes { next = next })
        (place (entry_at s.nodes s.entries) (node_at new) ps)
  pub others : (a : Ptr) → has a (node_at new ∷ ps) ≡ false → next a ≡ s.nodes.next a

not_null_lem : (p : Ptr) → p ≢ null → (p == null) ≡ false
not_null_lem p h = ground (arith, h)

update_other :
    (f : Ptr → Ptr) (n v : Ptr) (ps : List Ptr) (a : Ptr)
    → has a (n ∷ ps) ≡ false
    → update f n v a ≡ f a
update_other f n v ps a o = ground arith

linked_other :
    (next : Ptr → Ptr) (n c : Ptr) (ps : List Ptr) (a : Ptr)
    → has c ps ≡ true
    → has a (n ∷ ps) ≡ false
    → linked n c next a ≡ next a
linked_other next n c ps a inside o = ground arith

pub insert_blocked_lem :
    {s : ClockServer} (ps : List Ptr) (new : ℕ)
    → IsFront s.blocked s.nodes ps
    → AllDue (map (entry_at s.nodes s.entries) ps)
    → has (node_at new) ps ≡ false
    → s.nodes.payload (node_at new) ≡ new
    → (s.entries new).ticks < 2 ^ 31
    → length ps < max_tasks
    → (q : Queue) × (next : Ptr → Ptr) × Inserted new ps s q next
unfolding insert_blocked
insert_blocked_lem {s} [] new h due out data_ok small room =
    let n : Ptr = node_at new in
    let nn : n ≢ null = (λ e. omega (arith, e)) in
    (
      put_front_queue s.blocked n,
      (put_front_nodes s.blocked n s.nodes).next,
      record {
        run = rw (empty_front h, queue_put_front-eq s.blocked s.nodes n nn) refl;
        front = put_front_lem [] n h nn out (omega arith);
        others = λ a o. update_other s.nodes.next n _ [] a o;
      },
    )
insert_blocked_lem {s} (x ∷ xs) new h (pos, bound, due) out data_ok small room =
    let n : Ptr = node_at new in
    let nn : n ≢ null = (λ e. omega (arith, e)) in
    let at : Ptr → BlockedEntry = entry_at s.nodes s.entries in
    let (filled, peek) = peek_front x xs h in
    let new_eq : (at n).ticks ≡ (s.entries new).ticks = ap (λ i. (s.entries i).ticks) data_ok in
    let small' : (at n).ticks < 2 ^ 31 = omega (arith, new_eq, small) in
    let compared : int_gt (at x).ticks (s.entries new).ticks ≡ ltb (at n).ticks (at x).ticks =
      int_gt_lem (at x).ticks (s.entries new).ticks bound small
      ∙ ap (λ t. ltb t (at x).ticks) (sym new_eq) in
    let front_eq : s.blocked.front ≡ x = h.chain.0 in
    elim (Bool-cases (ltb (at n).ticks (at x).ticks)) [
      | inl b ↦ (
        put_front_queue s.blocked n,
        (put_front_nodes s.blocked n s.nodes).next,
        record {
          run = rw (filled, peek, compared, b, queue_put_front-eq s.blocked s.nodes n nn) refl;
          front = rw b (put_front_lem (x ∷ xs) n h nn out (omega arith));
          others = λ a o. update_other s.nodes.next n _ (x ∷ xs) a o;
        },
      )
      | inr b ↦
          let (c, run, inside, not_null, ch) =
            find_place_lem s.nodes s.entries n max_tasks x xs
              (refl, h.chain.1, h.chain.2, h.chain.3) nn out small' due (omega arith) in
          let c_ok : (c == null) ≡ false = not_null_lem c not_null in
          let n_ok : (n == null) ≡ false = not_null_lem n nn in
          (
            record s.blocked { elements = inc_size s.blocked.elements },
            linked n c s.nodes.next,
            record {
              run = rw (filled, peek, compared, b, front_eq, sym new_eq, run, c_ok, n_ok) refl;
              front = record {
                chain = rw (b, front_eq) ch;
                count = rw b (omega (arith, h.count, length-place at n xs, room));
                small = rw b (omega (arith, length-place at n xs, room));
              };
              others = λ a o. linked_other s.nodes.next n c (x ∷ xs) a inside o;
            },
          )
    ]
