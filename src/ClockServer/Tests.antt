-- ===== src/ClockServer/Tests.antt =====
-- Tests of the model of src/clock_server/clock_server.c on runs of a few messages.
use armv4_kernel.Prelude.{ℕ, ◌+◌, ◌≡◌, refl, some, List, [], ◌∷◌, arith, replicate, ◌>>=◌}
use armv4_kernel.Queue.{queue_init}
use armv4_kernel.ClockServer.{
  BlockedEntry, ClockServer, ClockServerMsg, ClockServerMsgType, clock_server_init,
  clock_server_step,
}
use armv4_kernel.ClockServer.Client.{delay, delay_until}
use armv4_kernel.ClockServer.Holds.{IsWaiting}
use armv4_kernel.ClockServer.Loop.{Delivery, Progress, clock_server_loop}
use armv4_kernel.ClockServer.Run.{KeepsRun, promise_run, clock_server_main-KeepsRun}
use armv4_kernel.ClockServer.Step.{IsAt, Keeps, promise, clock_server_step-Keeps}
use armv4_kernel.ClockServer.Wake.{woken, clock_server_loop-wakes}

abbrev junk : ClockServer
junk = record {
  ticks = 77;
  blocked = record { front = 1; back = 2; elements = 3 };
  free_list = queue_init;
  nodes = record { payload = λ p. 0; next = λ p. p };
  entries = λ i. record { ticks = 0; tid = 0 };
}

abbrev delivery : ℕ → ClockServerMsgType → ℕ → Delivery
delivery sender type t = record { sender = sender; msg = record { type = type; time = t } }

-- Two tasks wait until the time 2, and a third until 1; then the time passes.
abbrev run : List Delivery
run =
    delivery 9 ClockServerMsgType.delayuntil 2
    ∷ delivery 8 ClockServerMsgType.delay 2
    ∷ delivery 7 ClockServerMsgType.delayuntil 1
    ∷ replicate 5 (delivery 4 ClockServerMsgType.tick 0)

clock_server_main-KeepsRun_example :
    KeepsRun (do s' ← clock_server_init junk; clock_server_loop run s') (promise_run run 0 [])
clock_server_main-KeepsRun_example = clock_server_main-KeepsRun junk run (ground arith)

-- Of two tasks that wait until the same time, a tick releases one.
one_at_a_time : woken (promise_run run 0 []).0 ≡ 7 ∷ 9 ∷ 8 ∷ []
one_at_a_time = refl

abbrev waiting : List BlockedEntry
waiting = record { ticks = 2; tid = 9 } ∷ record { ticks = 2; tid = 8 } ∷ []

-- The server once both tasks wait.
abbrev two : List Delivery
two = delivery 9 ClockServerMsgType.delayuntil 2 ∷ delivery 8 ClockServerMsgType.delayuntil 2 ∷ []

two_wait :
    KeepsRun (do s' ← clock_server_init junk; clock_server_loop two s') ([] ∷ [] ∷ [], 0, waiting)
two_wait = clock_server_main-KeepsRun junk two (ground arith)

abbrev server : ClockServer
server = two_wait.0.server

server-IsAt : IsAt server 0 waiting
server-IsAt = two_wait.3

clock_server_step-Keeps_example :
    Keeps (clock_server_step 7 (record { type = ClockServerMsgType.delayuntil; time = 1 }) server) (
      promise ClockServerMsgType.delayuntil 7
        (record { type = ClockServerMsgType.delayuntil; time = 1 })
        server.ticks
        waiting)
clock_server_step-Keeps_example =
    clock_server_step-Keeps 7 (record { type = ClockServerMsgType.delayuntil; time = 1 })
      server-IsAt.waiting (omega arith) (omega arith)

clock_server_loop-wakes_example :
    (p : Progress) × (clock_server_loop (replicate 5 (delivery 4 ClockServerMsgType.tick 0)) server
      ≡ some p)
    × (woken p.turns ≡ 9 ∷ 8 ∷ [])
    × (p.server.ticks ≡ server.ticks + 5)
    × IsWaiting p.server []
clock_server_loop-wakes_example =
    clock_server_loop-wakes 5 2 (delivery 4 ClockServerMsgType.tick 0) server-IsAt.waiting
      (omega arith) (omega arith, (omega arith, tt)) (omega (arith, server-IsAt.clock))
      (omega (arith, server-IsAt.clock)) refl (omega arith)

abbrev refuse : ClockServerMsg → ℕ × ClockServerMsg
refuse msg = (0, record { type = ClockServerMsgType.error; time = 0 })

-- The answer to a delay of 0 is an error, but the result is 0.
delay_refused : (delay refuse 0 ≡ 0) × (delay_until refuse 0 ≡ 0)
unfolding delay delay_until
delay_refused = (refl, refl)
