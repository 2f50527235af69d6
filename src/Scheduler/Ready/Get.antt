-- ===== src/Scheduler/Ready/Get.antt =====
-- About `scheduler_get` of src/scheduler/scheduler.c.
use mathlib.Core.Path.{subst, ◌∙◌}
use Prim.Native.Nat.{bit_and}
use armv4_kernel.Prelude.{
  ℕ, ◌-◌, ◌^◌, ◌<◌, ◌≡◌, ◌≢◌, refl, true, false, none, some, List, [], ◌∷◌, map, arith, ◌==◌,
  if◌then◌else◌, length, has, Bool-cases, inl, inr, ap,
}
use native.Mathlib.Decide.{dec_lt}
use armv4_kernel.Bits.{
  bit, bit-and, bit_of_complement, and-lt, LowestBit, LowestBit-set, LowestBit-least, bit_of_zero,
  eq-zero_of_bits,
}
use armv4_kernel.Queue.{update, queue_empty}
use armv4_kernel.Queue.Rep.{IsQueue, IsQueue-frame}
use armv4_kernel.Queue.Fifo.{queue_observers}
use armv4_kernel.Queue.Ops.{get_queue, get_nodes, queue_get-eq, get-IsQueue}
use armv4_kernel.Task.{Tasks, ready_node}
use armv4_kernel.Scheduler.{Scheduler, priority_count, bitmap_leadingzeroes, scheduler_get}
use armv4_kernel.Scheduler.Bitmap.{bitmap_leadingzeroes-LowestBit}
use armv4_kernel.Scheduler.Ready.{ReadyLists, IsReady}
use armv4_kernel.Scheduler.Ready.Apart.{lists_apart}
use armv4_kernel.Scheduler.Ready.Nodes.{length-ready_node}

abbrev pub get_scheduler : Scheduler → ℕ → List ℕ → Tasks → Scheduler
get_scheduler sch idx rest ts = record {
  bitmap = if length rest == 0 then bit_and sch.bitmap (2 ^ 64 - 1 - 2 ^ idx) else sch.bitmap;
  priority_qs = update sch.priority_qs idx (get_queue (sch.priority_qs idx) ts.nodes);
}

abbrev pub get_tasks : Scheduler → ℕ → Tasks → Tasks
get_tasks sch idx ts = record { tds = ts.tds; nodes = get_nodes (sch.priority_qs idx) ts.nodes }

module _ {sch : Scheduler} {ts : Tasks} {R : ReadyLists} (h : IsReady sch ts R) where
  -- Where the scheduler holds ready lists that are all empty, `scheduler_get` returns `NULL` and
  -- changes nothing.
  pub scheduler_get-none :
      ((i : ℕ) → i < priority_count → R i ≡ []) → scheduler_get sch ts ≡ some (none, sch, ts)
  unfolding scheduler_get
  scheduler_get-none all =
      let zero_map : sch.bitmap ≡ 0 =
        eq-zero_of_bits 64 sch.bitmap h.word λ i hi. ground (arith, h.bits i hi, all i hi) in
      rw zero_map

  module _ (idx t : ℕ) (rest : List ℕ) (hi : idx < priority_count) (first : R idx ≡ t ∷ rest)
      (above : (i : ℕ) → i < idx → R i ≡ []) where
    bit_here : bit idx sch.bitmap ≡ 1
    bit_here = ground (arith, h.bits idx hi)

    bitmap_ne_zero : sch.bitmap ≢ 0
    bitmap_ne_zero z = omega (arith, bit_of_zero idx, bit_here, ap (bit idx) z)

    found : bitmap_leadingzeroes sch.bitmap ≡ idx
    found = elim (dec_lt r idx) [
      | yes below ↦ absurd (ground (arith, set_there, h.bits r (omega arith), above r below))
      | no up ↦ elim (dec_lt idx r) [
        | yes over ↦ absurd (omega (arith, bit_here, LowestBit-least lowest idx over))
        | no down ↦ omega arith
      ]
    ]
      where
        r : ℕ
        r = bitmap_leadingzeroes sch.bitmap

        lowest : LowestBit sch.bitmap r
        lowest = bitmap_leadingzeroes-LowestBit sch.bitmap h.word bitmap_ne_zero

        set_there : bit r sch.bitmap ≡ 1
        set_there = LowestBit-set lowest

    IsQueue-here : IsQueue (sch.priority_qs idx) ts.nodes (ready_node t ∷ map ready_node rest)
    IsQueue-here =
        subst (λ l. IsQueue (sch.priority_qs idx) ts.nodes (map ready_node l)) first
          (h.queues idx hi)

    pub scheduler_get-eq :
        scheduler_get sch ts ≡ some (some t, get_scheduler sch idx rest ts, get_tasks sch idx ts)
    unfolding scheduler_get
    scheduler_get-eq =
        let q' = get_queue (sch.priority_qs idx) ts.nodes in
        let test : queue_empty q' ≡ (length rest == 0) =
          (queue_observers (map ready_node rest)
            (get-IsQueue (ready_node t) (map ready_node rest) IsQueue-here)).2
          ∙ ap (λ n. n == 0) (length-ready_node rest) in
        let full : (sch.bitmap == 0) ≡ false = ground (arith, bitmap_ne_zero) in
        let own : ts.nodes.payload (ready_node t) ≡ t =
          h.owner idx t hi (rw first (ground arith)) in
        rw (full, found, queue_get-eq (ready_node t) (map ready_node rest) IsQueue-here, own, test)

    not_first :
        (i a : ℕ)
        → i < priority_count
        → i ≢ idx
        → has a (map ready_node (R i)) ≡ true
        → (get_tasks sch idx ts).nodes.next a ≡ ts.nodes.next a
    not_first i a hj ne a∈ =
        let out : has a (map ready_node (t ∷ rest)) ≡ false =
          subst (λ l. has a (map ready_node l) ≡ false) first (lists_apart h a i idx hj hi ne a∈) in
        ground (arith, IsQueue-here.chain.0)

    pub get-IsReady :
        IsReady (get_scheduler sch idx rest ts) (get_tasks sch idx ts) (update R idx rest)
    get-IsReady = record {
      word = ground (arith, h.word, and-lt 64 sch.bitmap (2 ^ 64 - 1 - 2 ^ idx) h.word);
      bits = λ i hj. ground (
        arith,
        h.bits i hj,
        bit-and i sch.bitmap (2 ^ 64 - 1 - 2 ^ idx),
        bit_of_complement 64 i idx hj hi,
        bit_here,
      );
      queues = λ i hj. elim (Bool-cases (i == idx)) [
        | inl e ↦ rw e (get-IsQueue (ready_node t) (map ready_node rest) IsQueue-here)
        | inr e ↦ rw e (
            IsQueue-frame (map ready_node (R i)) (h.queues i hj)
              λ a a∈. not_first i a hj (ground arith) a∈)
      ];
      own_list = λ i u hj m. ground (arith, first, h.own_list i u hj, h.own_list idx u hi);
      owner = λ i u hj m. ground (arith, first, h.owner i u hj, h.owner idx u hi);
    }

    -- Where the scheduler holds the ready lists and list `idx` is the first that is not empty,
    -- `scheduler_get` returns its first task, takes it out of the list, and changes no descriptor.
    pub scheduler_get-first :
        (sch' : Scheduler) × (ts' : Tasks) × (scheduler_get sch ts ≡ some (some t, sch', ts'))
        × IsReady sch' ts' (update R idx rest)
        × (ts'.tds ≡ ts.tds)
    scheduler_get-first =
        (get_scheduler sch idx rest ts, get_tasks sch idx ts, scheduler_get-eq, get-IsReady, refl)
