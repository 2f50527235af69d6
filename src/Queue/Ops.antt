-- ===== src/Queue/Ops.antt =====
-- About the operations of src/queue/queue.c: what each leaves behind.
use armv4_kernel.Prelude.{
  ◌+◌, ◌^◌, ◌<◌, ◌≡◌, ◌≢◌, refl, Bool, true, false, none, some, List, [], ◌∷◌, ◌++◌, arith, ◌==◌,
  if◌then◌else◌, length, length-append, has,
}
use mathlib.Core.Path.{sym, subst}
use armv4_kernel.Queue.{
  Ptr, null, Nodes, Queue, update, queue_put, queue_put_front, queue_get, inc_size, dec_size,
}
use armv4_kernel.Queue.Rep.{
  Chain, EndsAt, IsQueue, SameOutside, Chain-frame, Chain-extend, EndsAt-append, EndsAt-tail,
  has-EndsAt,
}

-- What `queue_put` leaves behind, where it does not fault.
abbrev pub put_queue : Queue → Ptr → Queue
put_queue q n = record {
  front = if q.elements == 0 then n else q.front;
  back = n;
  elements = inc_size q.elements;
}

abbrev pub put_next : Bool → Ptr → Ptr → (Ptr → Ptr) → Ptr → Ptr
put_next true b n next = update next n null
put_next false b n next = update (update next b n) n null

back_ne_null :
    (next : Ptr → Ptr) (p b : Ptr) (x : Ptr) (xs : List Ptr)
    → Chain next p (x ∷ xs)
    → EndsAt b (x ∷ xs)
    → b ≢ null
back_ne_null next p b x [] c e = ground arith
back_ne_null next p b x (y ∷ r) c e = back_ne_null next (next x) b y r c.3 e

module _ {ℓ} {A : Type ℓ} where
  abbrev pub put_nodes : Queue → Ptr → Nodes A → Nodes A
  put_nodes q n s = record {
    payload = s.payload;
    next = put_next (q.elements == 0) q.back n s.next;
  }

  pub queue_put-eq :
      {q : Queue} {s : Nodes A} (ps : List Ptr) (n : Ptr)
      → IsQueue q s ps
      → n ≢ null
      → queue_put q n s ≡ some (0, put_queue q n, put_nodes q n s)
  unfolding queue_put
  queue_put-eq {q} {s} [] n h nn = ground (arith, h.count)
  queue_put-eq {q} {s} (x ∷ xs) n h nn =
      ground (arith, h.count, back_ne_null s.next q.front q.back x xs h.chain h.last)

  pub put-IsQueue :
      {q : Queue} {s : Nodes A} (ps : List Ptr) (n : Ptr)
      → IsQueue q s ps
      → n ≢ null
      → has n ps ≡ false
      → length ps + 1 < 2 ^ 32
      → IsQueue (put_queue q n) (put_nodes q n s) (ps ++ n ∷ [])
  put-IsQueue {q} {s} [] n h nn out small = record {
    chain = ground (arith, h.count);
    count = ground (arith, h.count);
    last = refl;
    small = small;
  }
  put-IsQueue {q} {s} (x ∷ xs) n h nn out small = record {
    chain =
        let ne : (q.elements == 0) ≡ false = ground (arith, h.count) in
        subst
          (λ t. Chain (put_next t q.back n s.next) (if t then n else q.front) (x ∷ xs ++ n ∷ []))
          (sym ne) (Chain-extend s.next q.back n q.front x xs h.chain h.last nn out);
    count = omega (arith, h.count, length-append xs (n ∷ []));
    last = EndsAt-append n (x ∷ xs);
    small = omega (arith, length-append xs (n ∷ []));
  }

  -- The links of other queues are left alone.
  pub put-SameOutside :
      {q : Queue} {s : Nodes A} (ps : List Ptr) (n : Ptr)
      → IsQueue q s ps
      → SameOutside (n ∷ ps) s (put_nodes q n s)
  put-SameOutside {q} {s} [] n h a out = ground (arith, h.count)
  put-SameOutside {q} {s} (x ∷ xs) n h a out =
      ground (arith, h.count, has-EndsAt q.back x xs h.last)

-- What `queue_put_front` leaves behind.
abbrev pub put_front_queue : Queue → Ptr → Queue
put_front_queue q n = record {
  front = n;
  back = if q.elements == 0 then n else q.back;
  elements = inc_size q.elements;
}

-- What `queue_get` leaves behind.
module _ {ℓ} {A : Type ℓ} where
  abbrev pub get_queue : Queue → Nodes A → Queue
  get_queue q s = record { front = s.next q.front; back = q.back; elements = dec_size q.elements }

  abbrev pub get_nodes : Queue → Nodes A → Nodes A
  get_nodes q s = record { payload = s.payload; next = update s.next q.front null }

  abbrev pub put_front_nodes : Queue → Ptr → Nodes A → Nodes A
  put_front_nodes q n s = record {
    payload = s.payload;
    next = update s.next n (if q.elements == 0 then null else q.front);
  }

  pub queue_get-nil : {q : Queue} {s : Nodes A} → IsQueue q s [] → queue_get q s ≡ some (none, q, s)
  unfolding queue_get
  queue_get-nil h = ground (arith, h.count)

  pub queue_get-eq :
      {q : Queue} {s : Nodes A} (p : Ptr) (ps : List Ptr)
      → IsQueue q s (p ∷ ps)
      → queue_get q s ≡ some (some (s.payload p), get_queue q s, get_nodes q s)
  unfolding queue_get
  queue_get-eq p ps h = ground (arith, h.count, h.chain)

  pub get-IsQueue :
      {q : Queue} {s : Nodes A} (p : Ptr) (ps : List Ptr)
      → IsQueue q s (p ∷ ps)
      → IsQueue (get_queue q s) (get_nodes q s) ps
  get-IsQueue {q} {s} p ps h = record {
    chain =
        Chain-frame (s.next q.front) ps
          (subst (λ z. Chain s.next (s.next z) ps) (sym h.chain.0) h.chain.3)
          (λ a i. ground (arith, h.chain));
    count = omega (arith, h.count, h.small);
    last = EndsAt-tail q.back p ps h.last;
    small = omega (arith, h.small);
  }

  pub queue_put_front-eq :
      (q : Queue) (s : Nodes A) (n : Ptr)
      → n ≢ null
      → queue_put_front q n s ≡ some (0, put_front_queue q n, put_front_nodes q n s)
  unfolding queue_put_front
  queue_put_front-eq q s n nn = ground arith

  pub put_front-IsQueue :
      {q : Queue} {s : Nodes A} (ps : List Ptr) (n : Ptr)
      → IsQueue q s ps
      → n ≢ null
      → has n ps ≡ false
      → length ps + 1 < 2 ^ 32
      → IsQueue (put_front_queue q n) (put_front_nodes q n s) (n ∷ ps)
  put_front-IsQueue {q} {s} [] n h nn out small = record {
    chain = ground (arith, h.count);
    count = ground (arith, h.count);
    last = ground (arith, h.count);
    small = omega (arith, small);
  }
  put_front-IsQueue {q} {s} (x ∷ xs) n h nn out small =
      let ne : (q.elements == 0) ≡ false = ground (arith, h.count) in
      record {
        chain = (
          refl,
          nn,
          out,
          subst (λ z. Chain (update s.next n z) (update s.next n z n) (x ∷ xs))
              (let e : q.front ≡ (if q.elements == 0 then null else q.front) = rw ne in e)
              (subst (λ z. Chain (update s.next n q.front) z (x ∷ xs))
                (let e : q.front ≡ update s.next n q.front n = ground arith in e)
                (Chain-frame q.front (x ∷ xs) h.chain (λ a i. ground arith))),
        );
        count = ground (arith, h.count);
        last = subst (λ t. EndsAt (if t then n else q.back) (x ∷ xs)) (sym ne) h.last;
        small = omega (arith, small);
      }
