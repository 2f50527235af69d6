-- ===== src/Scheduler/Tests.antt =====
-- Tests of the model of src/scheduler/scheduler.c, and the empty scheduler that other tests start from.
use armv4_kernel.Prelude.{ℕ, ◌-◌, ◌/◌, ◌≡◌, refl, some, [], arith}
use armv4_kernel.Bits.{LowestBit}
use armv4_kernel.Queue.{queue_init, update}
use armv4_kernel.Task.{Task, Tasks, TaskState}
use armv4_kernel.Scheduler.{
  Scheduler, bitmap_leadingzeroes, scheduler_init, scheduler_get, scheduler_put,
}
use armv4_kernel.Scheduler.Bitmap.{bitmap_leadingzeroes-LowestBit}
use armv4_kernel.Scheduler.Ready.{ReadyLists, IsReady}
use armv4_kernel.Scheduler.Ready.Init.{scheduler_init-IsReady}
use armv4_kernel.Scheduler.Ready.Put.{
  MayPut, put_ready, put-IsReady, put_scheduler, put_tasks, scheduler_put-append,
}
use armv4_kernel.Scheduler.Ready.Get.{scheduler_get-first}

-- A task of priority 5.
abbrev pub sample : ℕ → Task
sample t = record {
  tid = t;
  priority = 5;
  parent = some 0;
  send_q = queue_init;
  state = TaskState.ready;
  sp = 0;
  svc_lr = 0;
  spsr = 0x50;
  frame = λ i. 0;
  message_params = record { tid = 100; msg = 200; msg_len = 4; rep = 300; rep_len = 8 };
}

abbrev pub samples : Tasks
samples = record { tds = sample; nodes = record { payload = λ a. (a - 1) / 3; next = λ a. 0 } }

abbrev pub nobody : ReadyLists
nobody i = []

abbrev pub idle : Scheduler
idle = scheduler_init (record { bitmap = 77; priority_qs = λ i. queue_init })

pub idle-IsReady : (ts : Tasks) → IsReady idle ts nobody
idle-IsReady ts = scheduler_init-IsReady (record { bitmap = 77; priority_qs = λ i. queue_init }) ts

sample-MayPut : MayPut samples nobody 9
sample-MayPut = record { priority = omega arith; fresh = refl; owner = refl; room = omega arith }

bitmap_leadingzeroes-LowestBit_example : LowestBit 0x1000 (bitmap_leadingzeroes 0x1000)
bitmap_leadingzeroes-LowestBit_example =
    bitmap_leadingzeroes-LowestBit 0x1000 (omega arith) (omega arith)

scheduler_put-append_example :
    (sch' : Scheduler) × (ts' : Tasks) × (scheduler_put idle 9 samples ≡ some (0, sch', ts'))
    × IsReady sch' ts' (put_ready nobody 5 9)
    × (ts'.tds ≡ update sample 9 (record (sample 9) { state = TaskState.ready }))
scheduler_put-append_example = scheduler_put-append 9 (idle-IsReady samples) sample-MayPut

abbrev busy : Scheduler
busy = put_scheduler idle 5 9

abbrev busy_tasks : Tasks
busy_tasks = put_tasks idle 5 9 samples

scheduler_get-first_example :
    (sch' : Scheduler) × (ts' : Tasks) × (scheduler_get busy busy_tasks ≡ some (some 9, sch', ts'))
    × IsReady sch' ts' (update (put_ready nobody 5 9) 5 [])
    × (ts'.tds ≡ busy_tasks.tds)
scheduler_get-first_example =
    scheduler_get-first (put-IsReady 9 (idle-IsReady samples) sample-MayPut) 5 9 [] (omega arith)
      refl (λ i hi. ground arith)
