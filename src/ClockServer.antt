-- ===== src/ClockServer.antt =====
-- The clock server of src/clock_server/clock_server.c: the answer to a message.
-- The entry `i` has its node at address `i + 1`, whose data pointer is the index `i`. An `int` is its
-- 32-bit pattern. A message that `Receive` delivers is an argument, and the messages that `Reply` hands
-- over are listed in order. `none` is an access through `NULL`, or a loop that outlives its fuel.
pub mod Admit
pub mod Block
pub mod Client
pub mod Front
pub mod Holds
pub mod Insert
pub mod Loop
pub mod Run
pub mod Sorted
pub mod Start
pub mod Step
pub mod Wake
mod Tests
use armv4_kernel.Prelude.{
  ℕ, zero, suc, ◌+◌, ◌%◌, ◌^◌, Bool, true, false, not, Option, none, some, List, [], ◌∷◌, ◌==◌, ltb,
  if◌then◌else◌, ◌>>=◌,
}
use armv4_kernel.Task.{max_tasks}
use armv4_kernel.Queue.{
  Ptr, null, Nodes, Queue, update, get_data, get_next, set_next, inc_size, queue_node_init,
  queue_init, queue_put, queue_put_front, queue_get, queue_peek, queue_empty,
}

pub data ClockServerMsgType : Type 0 where
  tick time delay delayuntil exit error : ClockServerMsgType

pub record ClockServerMsg : Type 0 where
  pub type : ClockServerMsgType
  pub time : ℕ

-- `node` is kept apart, in the store.
pub record BlockedEntry : Type 0 where
  pub ticks : ℕ
  pub tid : ℕ

-- The variables of `clock_server_main` that outlive a message.
pub record ClockServer : Type 0 where
  pub ticks : ℕ
  pub blocked : Queue
  pub free_list : Queue
  pub nodes : Nodes ℕ
  pub entries : ℕ → BlockedEntry

pub record Answer : Type 0 where
  pub tid : ℕ
  pub msg : ClockServerMsg

-- `&entries[i].node`
abbrev pub node_at : ℕ → Ptr
node_at i = i + 1

-- `a > b` of two `int`s
abbrev pub int_gt : ℕ → ℕ → Bool
int_gt a b = ltb ((b + 2 ^ 31) % 2 ^ 32) ((a + 2 ^ 31) % 2 ^ 32)

-- The entries from `i` on, with the rounds left.
unfoldable pub init_from : ℕ → ℕ → ClockServer → Option ClockServer
init_from zero i s = some s
init_from (suc n) i s = do
  let nodes = queue_node_init (node_at i) i s.nodes
  (refused, free, nodes') ← queue_put s.free_list (node_at i) nodes
  init_from n (i + 1) (record s { free_list = free; nodes = nodes' })

unfoldable pub clock_server_init : ClockServer → Option ClockServer
unfolding init_from
clock_server_init s =
    init_from max_tasks 0 (record s { ticks = 0; blocked = queue_init; free_list = queue_init })

-- Moves the front entry of `blocked` to the free list if its time has passed.
unfoldable pub on_tick : ℕ → ClockServerMsg → ClockServer → Option (List Answer × ClockServer)
on_tick sender msg s =
    let now = (s.ticks + 1) % 2 ^ 32 in
    let unblocked : Answer = record { tid = sender; msg = msg } in
    let later : ClockServer = record s { ticks = now } in
    if queue_empty s.blocked then some (unblocked ∷ [], later) else do
      peeked ← queue_peek s.blocked s.nodes
      front ← peeked
      if not (ltb (s.entries front).ticks now) then some (unblocked ∷ [], later) else do
        (got, blocked, nodes) ← queue_get s.blocked s.nodes
        (refused, free, nodes') ← queue_put s.free_list (node_at front) nodes
        some (
          unblocked ∷ record { tid = (s.entries front).tid; msg = record msg { time = now } } ∷ [],
          record later { blocked = blocked; free_list = free; nodes = nodes' },
        )

-- The loop that looks for the last node not after `t`, with fuel.
unfoldable pub find_place : ℕ → Ptr → ℕ → (ℕ → BlockedEntry) → Nodes ℕ → Option Ptr
find_place zero curr t entries nodes = none
find_place (suc fuel) curr t entries nodes = do
  next ← get_next curr nodes
  let rest = find_place fuel next t entries nodes
  if next == null
      then some curr
      else do i ← get_data next nodes; if int_gt (entries i).ticks t then some curr else rest

-- Inserts the node into `blocked`, which is sorted.
unfoldable pub insert_blocked : ℕ → ClockServer → Option ClockServer
unfolding find_place
insert_blocked new s = if queue_empty s.blocked then put_front else do
  peeked ← queue_peek s.blocked s.nodes
  front ← peeked
  if int_gt (s.entries front).ticks (s.entries new).ticks then put_front else do
    curr ← find_place max_tasks s.blocked.front (s.entries new).ticks s.entries s.nodes
    after ← get_next curr s.nodes
    nodes ← set_next (node_at new) after s.nodes
    nodes' ← set_next curr (node_at new) nodes
    some (record s {
      nodes = nodes';
      blocked = record s.blocked { elements = inc_size s.blocked.elements };
    })
  where
    put_front : Option ClockServer
    put_front = do
      (refused, blocked, nodes) ← queue_put_front s.blocked (node_at new) s.nodes
      some (record s { blocked = blocked; nodes = nodes })

abbrev pub answer : ℕ → ClockServerMsgType → ℕ → Answer
answer sender type t = record { tid = sender; msg = record { type = type; time = t } }

unfoldable pub on_delayuntil : ℕ → ClockServerMsg → ClockServer → Option (List Answer × ClockServer)
unfolding insert_blocked
on_delayuntil sender msg s =
    if not (int_gt msg.time 0)
    then some (answer sender ClockServerMsgType.error 0 ∷ [], s)
    else if ltb msg.time s.ticks
    then some (answer sender ClockServerMsgType.tick s.ticks ∷ [], s)
    else do
      (got, free, nodes) ← queue_get s.free_list s.nodes
      new ← got
      s' ← insert_blocked new (record s {
        free_list = free;
        nodes = nodes;
        entries = update s.entries new (record { ticks = msg.time; tid = sender });
      })
      some ([], s')

-- Falls through to the case of `delayuntil`.
unfoldable pub on_delay : ℕ → ClockServerMsg → ClockServer → Option (List Answer × ClockServer)
unfolding on_delayuntil
on_delay sender msg s =
    if not (int_gt msg.time 0)
    then some (answer sender ClockServerMsgType.error 0 ∷ [], s)
    else on_delayuntil sender (record msg { time = (msg.time + s.ticks) % 2 ^ 32 }) s

-- The `switch` on the message's type.
unfoldable pub serve :
    ClockServerMsgType → ℕ → ClockServerMsg → ClockServer → Option (List Answer × ClockServer)
unfolding on_tick on_delay on_delayuntil
serve tick sender msg s = on_tick sender msg s
serve time sender msg s =
    some (record { tid = sender; msg = record msg { time = s.ticks } } ∷ [], s)
serve delay sender msg s = on_delay sender msg s
serve delayuntil sender msg s = on_delayuntil sender msg s
serve exit sender msg s = some ([], s)
serve error sender msg s = some ([], s)

unfoldable pub clock_server_step :
    ℕ → ClockServerMsg → ClockServer → Option (List Answer × ClockServer)
unfolding serve
clock_server_step sender msg s = serve msg.type sender msg s
