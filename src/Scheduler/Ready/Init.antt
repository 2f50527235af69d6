-- ===== src/Scheduler/Ready/Init.antt =====
-- About `scheduler_init` of src/scheduler/scheduler.c.

use armv4_kernel.Prelude.{[], arith, lt→ltb}
use armv4_kernel.Bits.{bit_of_zero}
use armv4_kernel.Queue.Fifo.{queue_init-IsQueue}
use armv4_kernel.Task.{Tasks}
use armv4_kernel.Scheduler.{Scheduler, scheduler_init}
use armv4_kernel.Scheduler.Ready.{IsReady}

-- After `scheduler_init`, over any store of nodes, every ready list is empty.
pub scheduler_init-IsReady :
    (sch : Scheduler) (ts : Tasks) → IsReady (scheduler_init sch) ts (λ _. [])
unfolding scheduler_init
scheduler_init-IsReady sch ts = record {
  word = omega arith;
  bits = λ i hi. bit_of_zero i;
  queues = λ i hi. rw (lt→ltb i 64 hi) (queue_init-IsQueue ts.nodes);
  own_list = λ i t hi m. cc;
  owner = λ i t hi m. cc;
}
