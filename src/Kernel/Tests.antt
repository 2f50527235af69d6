-- ===== src/Kernel/Tests.antt =====
-- Tests of the model of src/main.c.
use armv4_kernel.Prelude.{
  ℕ, ◌-◌, ◌/◌, ◌%◌, ◌≡◌, ◌≢◌, refl, false, ◌>>=◌, some, List, [], ◌∷◌, arith, ◌==◌, if◌then◌else◌,
  inr,
}
use armv4_kernel.Queue.Rep.{IsQueue}
use armv4_kernel.Task.{Tasks, TaskState}
use armv4_kernel.Scheduler.{Scheduler, scheduler_get}
use armv4_kernel.Scheduler.Ready.Put.{MayPut, put_ready}
use armv4_kernel.Scheduler.Tests.{sample, nobody, idle, idle-IsReady}
use armv4_kernel.EventHandler.Tests.{sleepers, handler, pair}
use armv4_kernel.Kernel.{Kernel, kernel_create, kernel_await_event}
use armv4_kernel.Kernel.Dispatch.{SysCode, handle_swi, round}
use armv4_kernel.Kernel.Dispatch.Irq.{handle_irq}
use armv4_kernel.Kernel.Messages.{kernel_send, kernel_receive, kernel_reply}
use armv4_kernel.Kernel.Ready.{Holds}
use armv4_kernel.CString.{Bytes}
use armv4_kernel.Queue.{update}
use armv4_kernel.Bwio.{bwputc, bwputw, put_text, pad_count, pad, bwui2a, scale, emit}
use armv4_kernel.Bwio.Format.{directive, convert, format_round, bwformat}
use armv4_kernel.Kernel.Dispatch.{is_exit_address, non_idle_time_address}
use armv4_kernel.Kernel.Idle.{wait_exit, idle_main}
use armv4_kernel.Queue.Fifo.{queue_init-IsQueue}
use armv4_kernel.Kernel.Queued.{Queued, kernel_send-queues}
use armv4_kernel.Kernel.Exchange.{kernel_receive-kernel_send}
use armv4_kernel.Kernel.Rendezvous.{delivered, Sent, kernel_send-delivers}
use armv4_kernel.Kernel.Receive.{Senders, Received, kernel_receive-delivers}
use armv4_kernel.Kernel.Reply.{Replied, kernel_reply-delivers}
use armv4_kernel.Kernel.Create.{Created, kernel_create-adds, Refused, handle_swi-Refused}
use armv4_kernel.Kernel.Await.{Awaiting, kernel_await_event-waits}
use armv4_kernel.Kernel.Calls.{handle_swi-answers}
use armv4_kernel.Kernel.Start.{init}
use armv4_kernel.Kernel.Start.First.{Started, init-starts}
use armv4_kernel.Kernel.Panic.{turn, handle_irq-goes_on}

-- Task 3 waits for a message, tasks 6 and 7 wait to send to task 8.
abbrev pub tasks : Tasks
tasks = record {
  tds = λ t.
      if t == 3
      then record (sample 3) { state = TaskState.send_blocked }
      else if t == 8
      then record (sample 8) { send_q = record { front = 20; back = 23; elements = 2 } }
      else sample t;
  nodes = record {
    payload = λ a. (a - 1) / 3;
    next = λ a. if a == 20 then 23 else sleepers.nodes.next a;
  };
}

abbrev pub kernel : Kernel
kernel = record {
  tasks = tasks;
  sch = idle;
  eh = handler;
  next_free_td = 10;
  last_idle_time = 0;
  mem = λ a. a % 256;
  regs = λ a. 51;
}

kernel-Holds : Holds kernel nobody
kernel-Holds = idle-IsReady tasks

may2 : MayPut tasks nobody 2
may2 = record { priority = omega arith; fresh = refl; owner = refl; room = omega arith }

may3 : MayPut tasks nobody 3
may3 = record { priority = omega arith; fresh = refl; owner = refl; room = omega arith }

may5 : MayPut tasks nobody 5
may5 = record { priority = omega arith; fresh = refl; owner = refl; room = omega arith }

may8 : MayPut tasks nobody 8
may8 = record { priority = omega arith; fresh = refl; owner = refl; room = omega arith }

senders8 : Senders kernel 8 (6 ∷ 7 ∷ [])
senders8 = record {
  chain = (refl, omega arith, refl, (refl, omega arith, refl, refl));
  count = refl;
  last = refl;
  small = omega arith;
}

kernel_send-delivers_example :
    (k' : Kernel) × (kernel_send 2 3 150 4 400 8 kernel ≡ some (0, k'))
    × Sent kernel nobody 2 3 150 4 400 8 k'
kernel_send-delivers_example =
    kernel_send-delivers kernel 2 3 150 4 400 8 kernel-Holds may3 (omega arith) refl refl refl
      (inr (omega arith)) (omega arith)

kernel_receive-delivers_example :
    (k' : Kernel) × (kernel_receive 8 90 500 4 kernel ≡ some (6, k'))
    × Received kernel nobody 8 6 (7 ∷ []) 90 500 4 k'
kernel_receive-delivers_example =
    kernel_receive-delivers kernel 8 6 (7 ∷ []) 90 500 4 kernel-Holds may8 senders8 refl refl
      (inr (omega arith)) (omega arith)

kernel_reply-delivers_example :
    (k' : Kernel) × (kernel_reply 2 3 150 8 kernel ≡ some (0, k'))
    × Replied kernel nobody 2 3 150 8 k'
kernel_reply-delivers_example =
    kernel_reply-delivers kernel 2 3 150 8 kernel-Holds may3 may2 (omega arith) (omega arith) refl
      refl (inr (omega arith)) (omega arith)

kernel_create-adds_example :
    (k' : Kernel) × (kernel_create 0x1000000 2 4 0x9000 kernel ≡ some (10, k'))
    × Created 0x1000000 kernel nobody 2 4 0x9000 k'
kernel_create-adds_example =
    kernel_create-adds 0x1000000 kernel 2 4 0x9000 kernel-Holds (omega arith) (omega arith)
      (λ i hi. refl) may2 (λ i hi. omega arith) (omega arith)

-- The priority of the new task is in register 0, and all descriptors are used up.
abbrev pub full : Kernel
full = record kernel { next_free_td = 64 }

handle_swi-Refused_example :
    (k' : Kernel) × (handle_swi 0x1000000 SysCode.create 2 full ≡ some (false, k'))
    × Refused full nobody 2 k'
handle_swi-Refused_example =
    handle_swi-Refused 0x1000000 full 2 (idle-IsReady tasks) (inr (omega arith)) (λ i hi. refl)

kernel_await_event-waits_example :
    (k' : Kernel) × (kernel_await_event 2 5 kernel ≡ some (0, k'))
    × Awaiting kernel nobody 2 5 pair k'
kernel_await_event-waits_example =
    kernel_await_event-waits kernel 2 5 pair kernel-Holds (omega arith) pair_here refl (omega arith)
  where
    pair_here : IsQueue (handler.await_qs 5) tasks.nodes (12 ∷ 15 ∷ [])
    pair_here = record {
      chain = (refl, omega arith, refl, (refl, omega arith, refl, refl));
      count = refl;
      last = refl;
      small = omega arith;
    }

handle_swi-answers_example :
    (k' : Kernel) × (handle_swi 0x1000000 SysCode.mytid 2 kernel ≡ some (false, k'))
    × Holds k' (put_ready nobody 5 2)
    × ((k'.tasks.tds 2).frame 0 ≡ 2)
    × ((k'.tasks.tds 2).state ≡ TaskState.ready)
handle_swi-answers_example =
    handle_swi-answers 0x1000000 kernel 2 kernel-Holds may2 SysCode.mytid 2 refl

abbrev run : ℕ → Kernel → Kernel × ℕ × ℕ
run t k = (k, 0, 1)

handle_irq-goes_on_example :
    (k' : Kernel) × (sch : Scheduler) × (ts : Tasks) × (handle_irq 2 kernel ≡ some (false, k'))
    × (k'.sch.bitmap ≡ 32)
    × ((k'.tasks.tds 2).state ≡ TaskState.ready)
    × (scheduler_get k'.sch k'.tasks ≡ some (some 2, sch, ts))
    × (round 0x1000000 run k' ≡ turn 0x1000000 run 2 (record k' { tasks = ts; sch = sch }))
handle_irq-goes_on_example =
    handle_irq-goes_on kernel 2 kernel-Holds may2 51 refl (omega arith) (omega arith) (omega arith)
      0x1000000 run 2 [] refl

init-starts_example :
    (k' : Kernel) × (init 0x1000000 0x2000 0x100 0x200 0x9000 0x300 full ≡ some k')
    × Started 0x9000 0x300 k'
init-starts_example = init-starts 0x1000000 0x2000 0x100 0x200 0x9000 0x300 full

kernel_send-queues_example :
    (k' : Kernel) × (kernel_send 2 8 150 4 400 8 kernel ≡ some (0, k'))
    × Queued kernel nobody 2 8 (6 ∷ 7 ∷ []) 150 4 400 8 k'
kernel_send-queues_example =
    kernel_send-queues kernel 2 8 (6 ∷ 7 ∷ []) 150 4 400 8 kernel-Holds (omega arith) refl refl
      senders8 refl (omega arith) (omega arith)

kernel_receive-kernel_send_example :
    (k' k'' : Kernel) × (kernel_send 2 5 150 4 400 8 kernel ≡ some (0, k'))
    × (kernel_receive 5 90 500 4 k' ≡ some (2, k''))
    × Holds k'' (put_ready nobody 5 5)
    × (k''.mem 90 ≡ 2)
    × ((a : ℕ) → a ≢ 90 → k''.mem a ≡ delivered 500 150 4 (λ a. a % 256) a)
    × ((k''.tasks.tds 5).state ≡ TaskState.ready)
    × ((k''.tasks.tds 2).state ≡ TaskState.reply_blocked)
kernel_receive-kernel_send_example =
    kernel_receive-kernel_send kernel 2 5 150 4 400 8 90 500 kernel-Holds (omega arith) refl refl
      (queue_init-IsQueue tasks.nodes) refl may5 (inr (omega arith)) (omega arith)

abbrev quiet : Bytes
quiet a = 0

-- The second read finds the byte set; the word holds 12, and `clock` returns 345.
idle_main_prints :
    (do
      (out, trap) ←
          idle_main 0x10_0000 30
            (quiet
              ∷ update quiet (is_exit_address 0x10_0000) 1
              ∷ update quiet (non_idle_time_address 0x10_0000) 12
              ∷ [])
            345
            quiet
            (record { uart1 = []; uart2 = [] })
            quiet
      let printed : List ℕ × SysCode = (out.uart2, trap.code)
      some printed)
    ≡ some (
      b'N' ∷ b'o' ∷ b'n' ∷ b'-' ∷ b'i' ∷ b'd' ∷ b'l' ∷ b'e' ∷ b' ' ∷ b't' ∷ b'i' ∷ b'm' ∷ b'e'
          ∷ b':' ∷ b' ' ∷ b'1' ∷ b'2' ∷ b'/' ∷ b'3' ∷ b'4' ∷ b'5' ∷ 10 ∷ 13 ∷ [],
      SysCode.exit,
    )
unfolding idle_main wait_exit bwformat format_round directive convert bwputc bwputw put_text
    pad_count pad bwui2a scale emit armv4_kernel.SysCall.exit
idle_main_prints = refl
