-- ===== src/ClockServer/Step.antt =====
-- About one message to the clock server of src/clock_server/clock_server.c.
use mathlib.Core.Path.{subst}
use armv4_kernel.Prelude.{
  ℕ, ◌+◌, ◌%◌, ◌^◌, ◌<◌, ◌≡◌, inl, inr, refl, ap, ◌∙◌, sym, true, false, Option, some, List, [],
  ◌∷◌, ◌++◌, arith, ltb, map, if◌then◌else◌, Bool-cases, length, length-map, not,
}
use armv4_kernel.Queue.{Ptr}
use armv4_kernel.Queue.Ops.{get_queue, queue_get-eq}
use armv4_kernel.Task.{max_tasks}
use armv4_kernel.ClockServer.{
  BlockedEntry, ClockServer, ClockServerMsg, ClockServerMsgType, Answer, answer, node_at, int_gt,
  on_tick, on_delay, on_delayuntil, serve, clock_server_step,
}
use armv4_kernel.ClockServer.Front.{queue_get_front-eq, peek_front, empty_front}
use armv4_kernel.ClockServer.Sorted.{
  AllDue, SortedFrom, insert, after_tick, insert-SortedFrom, insert-AllDue, after_tick-SortedFrom,
  after_tick-AllDue,
}
use armv4_kernel.ClockServer.Insert.{entry_at}
use armv4_kernel.ClockServer.Admit.{admit}
use armv4_kernel.ClockServer.Holds.{Holds, IsWaiting, Holds-ticks, release}

-- What a released task is told.
abbrev pub released : ℕ → ClockServerMsg → List BlockedEntry → List Answer
released now msg [] = []
released now msg (x ∷ xs) =
    if ltb x.ticks now then record { tid = x.tid; msg = record msg { time = now } } ∷ [] else []

-- The server keeps `l` waiting at the time `now`.
pub record IsAt (s : ClockServer) (now : ℕ) (l : List BlockedEntry) : Type 0 where
  pub clock : s.ticks ≡ now
  pub waiting : IsWaiting s l

-- What the server promises: its answers, the time, and the tasks that wait, as lists.
abbrev pub promise_until : ℕ → ℕ → ℕ → List BlockedEntry → List Answer × ℕ × List BlockedEntry
promise_until sender t now l =
    if not (int_gt t 0)
    then (answer sender ClockServerMsgType.error 0 ∷ [], now, l)
    else if ltb t now
    then (answer sender ClockServerMsgType.tick now ∷ [], now, l)
    else ([], now, insert (record { ticks = t; tid = sender }) l)

abbrev pub promise :
    ClockServerMsgType
    → ℕ
    → ClockServerMsg
    → ℕ
    → List BlockedEntry
    → List Answer × ℕ × List BlockedEntry
promise ClockServerMsgType.tick sender msg now l =
    let next = (now + 1) % 2 ^ 32 in
    (record { tid = sender; msg = msg } ∷ released next msg l, next, after_tick next l)
promise ClockServerMsgType.time sender msg now l =
    (record { tid = sender; msg = record msg { time = now } } ∷ [], now, l)
promise ClockServerMsgType.delay sender msg now l =
    if not (int_gt msg.time 0)
    then (answer sender ClockServerMsgType.error 0 ∷ [], now, l)
    else promise_until sender ((msg.time + now) % 2 ^ 32) now l
promise ClockServerMsgType.delayuntil sender msg now l = promise_until sender msg.time now l
promise ClockServerMsgType.exit sender msg now l = ([], now, l)
promise ClockServerMsgType.error sender msg now l = ([], now, l)

tick_lem :
    (sender : ℕ) (msg : ClockServerMsg) {s : ClockServer} (ps fs : List Ptr)
    → Holds s ps fs
    → SortedFrom 0 (map (entry_at s.nodes s.entries) ps)
    → AllDue (map (entry_at s.nodes s.entries) ps)
    → let now = (s.ticks + 1) % 2 ^ 32 in
      let l = map (entry_at s.nodes s.entries) ps in
      (s' : ClockServer) × (on_tick sender msg s
        ≡ some (record { tid = sender; msg = msg } ∷ released now msg l, s'))
      × IsAt s' now (after_tick now l)
unfolding on_tick
tick_lem sender msg {s} [] fs h sorted due = (
  record s { ticks = (s.ticks + 1) % 2 ^ 32 },
  rw (empty_front h.front) refl,
  record {
    clock = refl;
    waiting = record {
      blocked = [];
      unused = fs;
      holds = Holds-ticks [] fs ((s.ticks + 1) % 2 ^ 32) h;
      view = refl;
      sorted = sorted;
      due = due;
    };
  },
)
tick_lem sender msg {s} (p ∷ ps) fs h sorted due =
    let now : ℕ = (s.ticks + 1) % 2 ^ 32 in
    let (filled, peek) = peek_front p ps h.front in
    let at : Ptr → BlockedEntry = entry_at s.nodes s.entries in
    elim (Bool-cases (ltb (at p).ticks now)) [
      | inl b ↦
          let (free, next, run, holds) = release p ps fs h in
          let own : node_at (s.nodes.payload p) ≡ p = h.own p (ground arith) in
          (
            record s {
              ticks = now;
              blocked = get_queue s.blocked s.nodes;
              free_list = free;
              nodes = record s.nodes { next = next };
            },
            rw (filled, peek, b, queue_get_front-eq p ps h.front, own, run) refl,
            record {
              clock = refl;
              waiting = record {
                blocked = ps;
                unused = fs ++ p ∷ [];
                holds = Holds-ticks ps (fs ++ p ∷ []) now holds;
                view = rw b refl;
                sorted = after_tick-SortedFrom 0 now (map at (p ∷ ps)) sorted;
                due = after_tick-AllDue now (map at (p ∷ ps)) due;
              };
            },
          )
      | inr b ↦ (
        record s { ticks = now },
        rw (filled, peek, b) refl,
        record {
          clock = refl;
          waiting = record {
            blocked = p ∷ ps;
            unused = fs;
            holds = Holds-ticks (p ∷ ps) fs now h;
            view = rw b refl;
            sorted = rw b sorted;
            due = rw b due;
          };
        },
      )
    ]

positive : (t : ℕ) → t < 2 ^ 32 → int_gt t 0 ≡ true → (0 < t) × (t < 2 ^ 31)
positive t p g = ground (arith, g)

-- The branch in which the sender has to wait.
wait_lem :
    (sender : ℕ) (msg : ClockServerMsg) {s : ClockServer} (ps fs : List Ptr)
    → Holds s ps fs
    → SortedFrom 0 (map (entry_at s.nodes s.entries) ps)
    → AllDue (map (entry_at s.nodes s.entries) ps)
    → length ps < max_tasks
    → msg.time < 2 ^ 32
    → int_gt msg.time 0 ≡ true
    → ltb msg.time s.ticks ≡ false
    → (s' : ClockServer) × (on_delayuntil sender msg s ≡ some ([], s'))
      × IsAt s' s.ticks
          (insert (record { ticks = msg.time; tid = sender }) (map (entry_at s.nodes s.entries) ps))
unfolding on_delayuntil
wait_lem sender msg ps [] h sorted due room small pos late = absurd (omega (arith, h.total, room))
wait_lem sender msg {s} ps (p ∷ fs) h sorted due room small pos late =
    let e : BlockedEntry = record { ticks = msg.time; tid = sender } in
    let (low, high) = positive msg.time small pos in
    let (s', run, clock, (ps', holds, view)) = admit ps fs p e h due high in
    let l : List BlockedEntry = map (entry_at s.nodes s.entries) ps in
    (
      s',
      rw (pos, late, queue_get-eq p fs h.free, run) refl,
      record {
        clock = clock;
        waiting = record {
          blocked = ps';
          unused = fs;
          holds = holds;
          view = view;
          sorted = insert-SortedFrom 0 e l (omega arith) sorted;
          due = insert-AllDue e l low high due;
        };
      },
    )

-- What one message leaves is what was promised.
abbrev pub Keeps : Option (List Answer × ClockServer) → List Answer × ℕ × List BlockedEntry → Type 0
Keeps result promised =
    let (answers, now, l) = promised in
    (s' : ClockServer) × (result ≡ some (answers, s')) × IsAt s' now l

stay : {s : ClockServer} {l : List BlockedEntry} → IsWaiting s l → IsAt s s.ticks l
stay w = record { clock = refl; waiting = w }

tick_Keeps :
    (sender : ℕ) (msg : ClockServerMsg) {s : ClockServer} {l : List BlockedEntry}
    → IsWaiting s l
    → Keeps (on_tick sender msg s) (promise ClockServerMsgType.tick sender msg s.ticks l)
tick_Keeps sender msg {s} w =
    subst (λ l. Keeps (on_tick sender msg s) (promise ClockServerMsgType.tick sender msg s.ticks l))
      w.view
      (tick_lem sender msg w.blocked w.unused w.holds (subst (SortedFrom 0) (sym w.view) w.sorted)
        (subst AllDue (sym w.view) w.due))

wait_Keeps :
    (sender : ℕ) (msg : ClockServerMsg) {s : ClockServer} {l : List BlockedEntry}
    → IsWaiting s l
    → length l < max_tasks
    → msg.time < 2 ^ 32
    → int_gt msg.time 0 ≡ true
    → ltb msg.time s.ticks ≡ false
    → Keeps
        (on_delayuntil sender msg s)
        ([], s.ticks, insert (record { ticks = msg.time; tid = sender }) l)
wait_Keeps sender msg {s} {l} w room small pos late =
    let same_length : length w.blocked ≡ length l =
      sym (length-map w.blocked (entry_at s.nodes s.entries)) ∙ ap length w.view in
    subst
      (λ l.
        Keeps (on_delayuntil sender msg s)
          ([], s.ticks, insert (record { ticks = msg.time; tid = sender }) l))
      w.view
      (wait_lem sender msg w.blocked w.unused w.holds (subst (SortedFrom 0) (sym w.view) w.sorted)
        (subst AllDue (sym w.view) w.due) (omega (arith, same_length, room)) small pos late)

until_lem :
    (sender : ℕ) (msg : ClockServerMsg) {s : ClockServer} {l : List BlockedEntry}
    → IsWaiting s l
    → length l < max_tasks
    → msg.time < 2 ^ 32
    → Keeps (on_delayuntil sender msg s) (promise_until sender msg.time s.ticks l)
unfolding on_delayuntil
until_lem sender msg {s} {l} w room small = elim (Bool-cases (int_gt msg.time 0)) [
  | inr neg ↦ rw (neg, on_delayuntil) (s, refl, stay w)
  | inl pos ↦ elim (Bool-cases (ltb msg.time s.ticks)) [
    | inl past ↦ rw (pos, past, on_delayuntil) (s, refl, stay w)
    | inr late ↦
        subst (λ (r : List Answer × ℕ × List BlockedEntry). Keeps (on_delayuntil sender msg s) r)
          (let eq : ([], s.ticks, insert (record { ticks = msg.time; tid = sender }) l)
                ≡ promise_until sender msg.time s.ticks l =
              rw (pos, late) refl in
            eq)
          (wait_Keeps sender msg w room small pos late)
  ]
]

delay_lem :
    (sender : ℕ) (msg : ClockServerMsg) {s : ClockServer} {l : List BlockedEntry}
    → IsWaiting s l
    → length l < max_tasks
    → Keeps (on_delay sender msg s) (promise ClockServerMsgType.delay sender msg s.ticks l)
unfolding on_delay
delay_lem sender msg {s} {l} w room = elim (Bool-cases (int_gt msg.time 0)) [
  | inr neg ↦ rw (neg, on_delay) (s, refl, stay w)
  | inl pos ↦
      rw (pos, on_delay)
        (until_lem sender (record msg { time = (msg.time + s.ticks) % 2 ^ 32 }) w room
          (omega arith))
]

serve-Keeps :
    (type : ClockServerMsgType) (sender : ℕ) (msg : ClockServerMsg) {s : ClockServer}
    {l : List BlockedEntry}
    → IsWaiting s l
    → length l < max_tasks
    → msg.time < 2 ^ 32
    → Keeps (serve type sender msg s) (promise type sender msg s.ticks l)
unfolding serve
serve-Keeps ClockServerMsgType.tick sender msg w room small = tick_Keeps sender msg w
serve-Keeps ClockServerMsgType.time sender msg {s} w room small = (s, refl, stay w)
serve-Keeps ClockServerMsgType.delay sender msg w room small = delay_lem sender msg w room
serve-Keeps ClockServerMsgType.delayuntil sender msg w room small =
    until_lem sender msg w room small
serve-Keeps ClockServerMsgType.exit sender msg {s} w room small = (s, refl, stay w)
serve-Keeps ClockServerMsgType.error sender msg {s} w room small = (s, refl, stay w)

-- In a server that keeps a list of fewer than 64 tasks waiting, in the order of their times, a message of
-- any type is handled without an access through `NULL` and within the fuel, and the server's answers, its
-- clock and the tasks that it then keeps waiting, in order, are those that `promise` computes on the list:
-- a new task goes behind all that are due no later, and a tick releases at most the first.
pub clock_server_step-Keeps :
    (sender : ℕ) (msg : ClockServerMsg) {s : ClockServer} {l : List BlockedEntry}
    → IsWaiting s l
    → length l < max_tasks
    → msg.time < 2 ^ 32
    → Keeps (clock_server_step sender msg s) (promise msg.type sender msg s.ticks l)
unfolding clock_server_step
clock_server_step-Keeps sender msg w room small = serve-Keeps msg.type sender msg w room small
