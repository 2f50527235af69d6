-- ===== src/Scheduler.antt =====
-- The scheduler of src/scheduler/scheduler.c and include/internal/scheduler.h: a ready queue for each
-- of 64 priorities, and a 64-bit map of the queues that are not empty.
-- `x & (2 ^ k - 1)` is written `x % 2 ^ k`, and `x >> k` is `x / 2 ^ k`.
pub mod Bitmap
pub mod Ready
pub mod Tests
use Prim.Native.Nat.{bit_and, bit_or}
use armv4_kernel.Prelude.{
  ℕ, ◌+◌, ◌-◌, ◌/◌, ◌%◌, ◌^◌, Bool, Option, none, some, ◌==◌, ltb, if◌then◌else◌, ◌>>=◌,
}
use armv4_kernel.Queue.{Queue, update, queue_init, queue_put, queue_get, queue_empty}
use armv4_kernel.Task.{Task, Tasks, TaskState, ready_node, set_state}

pub record Scheduler : Type 0 where
  pub bitmap : ℕ
  pub priority_qs : ℕ → Queue

abbrev pub priority_count : ℕ
priority_count = 64

-- One test of `bitmap_leadingzeroes`: if the low `k` bits are clear, shift them out and count them.
unfoldable pub narrow : ℕ → ℕ × ℕ → ℕ × ℕ
narrow k (bitmap, count) =
    if bitmap % 2 ^ k == 0 then (bitmap / 2 ^ k, (count + k) % 256) else (bitmap, count)

unfoldable pub bitmap_leadingzeroes : ℕ → ℕ
unfolding narrow
bitmap_leadingzeroes bitmap =
    let narrowed = narrow 2 (narrow 4 (narrow 8 (narrow 16 (narrow 32 (bitmap, 1))))) in
    if bitmap % 2 == 1 then 0 else (narrowed.1 + 256 - narrowed.0 % 2) % 256

-- The loop sets the entries 0 to 63.
unfoldable pub scheduler_init : Scheduler → Scheduler
scheduler_init sch = record {
  bitmap = 0;
  priority_qs = λ i. if ltb i priority_count then queue_init else sch.priority_qs i;
}

unfoldable pub scheduler_empty : Scheduler → Bool
scheduler_empty sch = sch.bitmap == 0

-- The inner `none` is the `NULL` of an empty scheduler.
unfoldable pub scheduler_get : Scheduler → Tasks → Option (Option ℕ × Scheduler × Tasks)
unfolding scheduler_empty
scheduler_get sch ts = if scheduler_empty sch then some (none, sch, ts) else do
  let idx = bitmap_leadingzeroes sch.bitmap
  (ret, q, nodes) ← queue_get (sch.priority_qs idx) ts.nodes
  let bitmap' = if queue_empty q then bit_and sch.bitmap (2 ^ 64 - 1 - 2 ^ idx) else sch.bitmap
  some (
    ret,
    record { bitmap = bitmap'; priority_qs = update sch.priority_qs idx q },
    record { tds = ts.tds; nodes = nodes },
  )

-- The branch on `err` of `scheduler_put`.
scheduler_mark : ℕ → ℕ → Queue → ℕ → Scheduler → Tasks → ℕ × Scheduler × Tasks
scheduler_mark error p q td sch ts =
    if error == 0
    then (
      error,
      record { bitmap = bit_or sch.bitmap (2 ^ p); priority_qs = qs },
      set_state td TaskState.ready ts,
    )
    else (error, record { bitmap = sch.bitmap; priority_qs = qs }, ts)
  where
    qs : ℕ → Queue
    qs = update sch.priority_qs p q

-- A priority past the array faults.
unfoldable pub scheduler_put : Scheduler → ℕ → Tasks → Option (ℕ × Scheduler × Tasks)
unfolding scheduler_mark
scheduler_put sch td ts =
    if ltb (ts.tds td).priority priority_count
    then (do
      let p = (ts.tds td).priority
      (error, q, nodes) ← queue_put (sch.priority_qs p) (ready_node td) ts.nodes
      some (scheduler_mark error p q td sch (record { tds = ts.tds; nodes = nodes })))
    else none
