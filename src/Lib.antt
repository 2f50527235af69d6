-- ===== src/Lib.antt =====
-- Verification of the kernel of armv4-kernel, a message-passing microkernel for one ARMv4 board.
--
-- The program: `main` of src/main.c initialises the board and then repeats: take the next ready task
-- from the scheduler, run it until it traps (`activate`, assembler), and serve the system call or the
-- interrupt (`handle`). Tasks wait in intrusive queues: a task descriptor owns three queue nodes, one
-- for the ready queue of its priority, one for the send queue of the task that it sends to, and one for
-- the queue of the event that it waits for. The ring buffer and the string functions serve the kernel
-- and the user-level servers.
--
-- The files, with the code that each models:
--   Queue           src/queue/queue.c, include/internal/queue.h. Rep: when a structure holds a list of
--                   nodes. Ops, Fifo: the operations on that list. Mtf: `queue_mtf`.
--                   Twice: `queue_put` of a node that is in the queue.
--   Task            src/task_descriptor/task_descriptor.c, include/internal/task_descriptor.h, mem.h.
--   Scheduler       src/scheduler/scheduler.c. Bitmap: the search for the lowest bit. Ready and its
--                   children: the scheduler as 64 lists of tasks.
--   EventHandler    src/event_handler/event_handler.c, the events of include/sys_call.h. Waiting,
--                   Round, Wake: the loop that makes the waiting tasks ready.
--   RingBuffer      src/ringbuffer/ringbuffer.c. Valid: the invariant. Window, Contents: the bytes
--                   held. Fifo: the specification. Refine: that the code implements it.
--   CString         src/cstdlib/string.c. Copy, Compare: the functions that write, and that read.
--   Kernel          src/main.c: the context and the system calls; Messages: send, receive and reply;
--                   Dispatch and Dispatch/Irq: `handle` and the main loop; Device, Memory: registers
--                   and words; Start: `init` and `cleanup`. Ready, Rendezvous, Queued,
--                   Receive, Exchange, Reply, Create, Await, Calls, Panic, Start/First: proofs.
--                   Idle: `idle_main`. Sound: what holds between any two steps. Its children Room, Still, Move, Running:
--                   the kinds of step; Send, Receive, Reply, Create, Await, Wake, Signal, Interrupt,
--                   Swi: the calls and interrupts; Choose, Rounds, Parked, Begin: the main loop.
--   NameServer      src/name_server/name_server.c: the name map, and the answer to a message.
--                   Loop: the loop, and the functions that clients call. Map, Find, Serve,
--                   Loop/History: proofs.
--   Bwio            src/bwio/bwio.c: output, and numbers as text. Setup: the registers that it sets up.
--                   Input: `bwgetc`. Format: `bwformat`. Scale, Digits, Number, Format/Width, Format/Decimal: proofs.
--   ClockServer     src/clock_server/clock_server.c: the answer to a message. Loop: the loops. Client: the
--                   functions that clients call. Sorted: the blocked tasks as a list. Front, Holds:
--                   the queues. Insert, Block, Admit: a new blocked task. Step, Start, Run, Wake: proofs.
--   IoServer        src/io_server/io_server.c: the answer to a message. Run: the loops. Client: the
--                   functions that clients call. Notifier: the tasks that wait for the UART.
--                   Start: how they all start. Cts: the handshake on COM1. Start/Agree, Cts/Pace, Flush,
--                   Keep, Reader, Writer, Run/Whole, Run/Drain, Client/Short: proofs.
--   SysCall         src/sys_call/sys_call.c: the stubs of the system calls. Arrive: that the kernel gets
--                   what they pass.
--   Prelude, Bits   shared names, list lemmas and bit lemmas.
-- A module called Tests runs the model, and applies each theorem, on concrete inputs.
--
-- How state corresponds: a function that changes what its pointer argument leads to returns the new
-- value beside its result. A `queue_node_t *` is an address in one store of nodes, and a
-- `task_descriptor_t *` is an index of the array of descriptors; the nodes of task `t` have the
-- addresses 3 t + 1, 3 t + 2 and 3 t + 3. Where the code follows `NULL` or leaves an array, the model
-- answers `none`. The words at a task's saved stack pointer are a field `frame` of its descriptor, so
-- that user memory and saved frames do not overlap; the bytes of user memory are a function of the
-- address. A `size_t` or an `int` is its pattern of 32 bits, with the wrap-around written out.
--
-- Fuel: the loop of `event_handler_handle_event` gets one round more than the queue has elements,
-- which is enough because each round takes one out; the search of the name map gets one round more
-- than the map has entries, since it visits each at most once. The loops of `bwui2a` and `bwa2i` get 33
-- rounds, since a number of 32 bits has at most 32 digits; those of `bwputw` and `bwformat` get as many as
-- the text is long, and one more. The search for the place of a
-- blocked task gets 64 rounds, which is enough because it visits each of at most 63 nodes once. The main
-- loop of the kernel need not end; its fuel bounds the rounds that are looked at. The loops of the servers
-- recur on the list of the messages that arrive.
-- All other loops recur on the rounds that are left.
--
-- Parameters: the addresses that the linker places; `run`, what a task does until it traps;
-- the messages that `Receive` delivers to a server; `send`, what a client's `Send` returns.
--
-- Not modelled: `activate`, which is assembler; the text output of the servers; the wait of
-- src/bwio for a transmitter that is full.
pub mod Bits
pub mod Bwio
pub mod CString
pub mod ClockServer
pub mod EventHandler
pub mod IoServer
pub mod Kernel
pub mod NameServer
pub mod Prelude
pub mod Queue
pub mod RingBuffer
pub mod Scheduler
pub mod SysCall
pub mod Task
