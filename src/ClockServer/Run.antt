-- ===== src/ClockServer/Run.antt =====
-- About the loop of `clock_server_main` of src/clock_server/clock_server.c over a whole run.
use armv4_kernel.Prelude.{
  ℕ, ◌^◌, ◌<◌, ◌≡◌, refl, ap, true, false, inl, inr, Option, none, some, List, [], ◌∷◌, length,
  Bool-cases, ◌>>=◌,
}
use mathlib.Core.Path.{subst}
use armv4_kernel.Task.{max_tasks}
use armv4_kernel.ClockServer.{
  BlockedEntry, ClockServer, Answer, clock_server_step, clock_server_init,
}
use armv4_kernel.ClockServer.Loop.{Delivery, Progress, is_exit, clock_server_loop}
use armv4_kernel.ClockServer.Start.{clock_server_init-IsWaiting}
use armv4_kernel.ClockServer.Step.{IsAt, Keeps, promise, clock_server_step-Keeps}

-- What a run promises: the answers round by round, the time, and the tasks that wait, as lists.
abbrev pub promise_run :
    List Delivery → ℕ → List BlockedEntry → List (List Answer) × ℕ × List BlockedEntry
promise_run [] now l = ([], now, l)
promise_run (d ∷ ds) now l =
    let (answers, now', l') = promise d.msg.type d.sender d.msg now l in
    let (turns, now'', l'') = promise_run ds now' l' in
    elim (is_exit d.msg.type) [
      | true ↦ (answers ∷ [], now', l')
      | false ↦ (answers ∷ turns, now'', l'')
    ]

-- At no message of the run do 64 tasks wait, and each time is the pattern of an `int`.
abbrev pub HasRoom : List Delivery → ℕ → List BlockedEntry → Type 0
HasRoom [] now l = Unit
HasRoom (d ∷ ds) now l =
    let (answers, now', l') = promise d.msg.type d.sender d.msg now l in
    (length l < max_tasks) × (d.msg.time < 2 ^ 32) × HasRoom ds now' l'

abbrev pub KeepsRun : Option Progress → List (List Answer) × ℕ × List BlockedEntry → Type 0
KeepsRun result promised =
    let (turns, now, l) = promised in
    (p : Progress) × (result ≡ some p) × (p.turns ≡ turns) × IsAt p.server now l

run_lem :
    (ds : List Delivery) (now : ℕ) {s : ClockServer} {l : List BlockedEntry}
    → IsAt s now l
    → HasRoom ds now l
    → KeepsRun (clock_server_loop ds s) (promise_run ds now l)
unfolding clock_server_loop
run_lem [] now {s} at room =
    (record { server = s; turns = []; exiter = none; rest = [] }, refl, refl, at)
run_lem (d ∷ ds) now {s} {l} at (fits, small, room) =
    let (s', run, at') =
      subst
        (λ t. Keeps (clock_server_step d.sender d.msg s) (promise d.msg.type d.sender d.msg t l))
        at.clock (clock_server_step-Keeps d.sender d.msg at.waiting fits small) in
    elim (Bool-cases (is_exit d.msg.type)) [
      | inl last ↦
          let p : Progress = record {
            server = s';
            turns = (promise d.msg.type d.sender d.msg now l).0 ∷ [];
            exiter = some d.sender;
            rest = ds;
          } in
          rw (last, promise_run) (p, rw run refl, refl, at')
      | inr on ↦
          let (p, rest, told, end) =
            run_lem ds (promise d.msg.type d.sender d.msg now l).1 at' room in
          rw (on, promise_run)
            (
              record p { turns = (promise d.msg.type d.sender d.msg now l).0 ∷ p.turns },
              rw (run, rest) refl,
              ap (λ r. (promise d.msg.type d.sender d.msg now l).0 ∷ r) told,
              end,
            )
    ]

-- The server, from its initialisation, whatever its variables held, and over any messages, up to the first
-- of type exit: while fewer than 64 tasks wait it reaches no `NULL` and no end of fuel, and its answers
-- round by round, its clock and the tasks it keeps waiting are those that `promise_run` computes on lists.
pub clock_server_main-KeepsRun :
    (s : ClockServer) (ds : List Delivery)
    → HasRoom ds 0 []
    → KeepsRun (do s' ← clock_server_init s; clock_server_loop ds s') (promise_run ds 0 [])
clock_server_main-KeepsRun s ds room =
    let (s', run, clock, idle) = clock_server_init-IsWaiting s in
    rw run (run_lem ds 0 (record { clock = clock; waiting = idle }) room)
