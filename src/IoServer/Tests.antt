-- ===== src/IoServer/Tests.antt =====
-- Tests of the model of src/io_server/io_server.c on runs of a few messages.
use armv4_kernel.Prelude.{
  ℕ, ◌+◌, ◌≡◌, ◌⊎◌, refl, true, false, some, List, [], ◌∷◌, ◌++◌, arith, length, replicate, map,
  ◌%◌,
}
use armv4_kernel.CString.{Bytes}
use armv4_kernel.RingBuffer.{ringbuffer_init, ringbuffer_empty, ringbuffer_size}
use armv4_kernel.RingBuffer.Valid.{ringbuffer_init-IsValid}
use armv4_kernel.RingBuffer.Contents.{contents}
use armv4_kernel.IoServer.{
  IoServer, IoServerMsg, IoServerMsgType, Action, reply, slice, buffer_size, io_server_step,
}
use armv4_kernel.IoServer.Keep.{IsServing, Served, io_server_step-Served}
use armv4_kernel.IoServer.Reader.{reader-gets}
use armv4_kernel.IoServer.Writer.{writer-transmits}
use armv4_kernel.IoServer.Notifier.{transmit}
use armv4_kernel.IoServer.Run.{Delivery, Progress, io_server_init, io_server_loop, exit_notifiers}
use armv4_kernel.IoServer.Run.Drain.{first_notifs, dismissed, exit_notifiers_lem}
use armv4_kernel.IoServer.Run.Whole.{
  deliveries, gathered, came_in, to_clients, was_written, went_out, io_server_loop-init,
}

-- The byte at each index is 100 and the index.
abbrev letters : Bytes
letters i = 100 + i

abbrev message : IoServerMsgType → ℕ → IoServerMsg
message type len = record { type = type; bytes = letters; len = len }

abbrev delivery : ℕ → IoServerMsgType → ℕ → Delivery
delivery sender type len = record { failed = false; sender = sender; msg = message type len }

abbrev buffer : List ℕ
buffer = replicate 128 0

-- A transmitter that waits, a client that reads, one that writes, a byte that comes in, and the end.
abbrev run : List Delivery
run =
    delivery 5 IoServerMsgType.notif_tx 0
    ∷ delivery 8 IoServerMsgType.client_read 1
    ∷ delivery 9 IoServerMsgType.client_write 3
    ∷ delivery 6 IoServerMsgType.notif_rx 0
    ∷ delivery 9 IoServerMsgType.exit 0
    ∷ []

abbrev server : IoServer
server = io_server_init buffer buffer 5

empty_server : IsServing server
unfolding io_server_init ringbuffer_init
empty_server = record {
  valid_in = ringbuffer_init-IsValid buffer buffer_size (omega arith) (omega arith) (omega arith);
  valid_out = ringbuffer_init-IsValid buffer buffer_size (omega arith) (omega arith) (omega arith);
  idle_in = λ r. ground arith;
  idle_out = λ r. ground arith;
}

io_server_step-Served_example :
    (acts : List Action) × (s' : IoServer) × (io_server_step 9
        (message IoServerMsgType.client_write 3)
        server
      ≡ some (acts, s'))
    × Served IoServerMsgType.client_write (message IoServerMsgType.client_write 3) server acts s'
io_server_step-Served_example =
    io_server_step-Served 9 (message IoServerMsgType.client_write 3) empty_server (omega arith)

io_server_loop-init_example :
    (p : Progress) × (io_server_loop run (io_server_init buffer buffer 5) ≡ some p)
    × IsServing p.server
    × (deliveries p.turns ++ p.rest ≡ run)
    × ((p.ended ≡ true) ⊎ (p.rest ≡ []))
    × (gathered came_in p.turns ≡ gathered to_clients p.turns ++ contents p.server.rb_in)
    × (gathered was_written p.turns ≡ gathered went_out p.turns ++ contents p.server.rb_out)
io_server_loop-init_example =
    io_server_loop-init buffer buffer 5 run refl refl
      (omega arith, (omega arith, (omega arith, (omega arith, (omega arith, tt)))))

exit_notifiers_lem_example :
    ((exit_notifiers 0 run).1 ≡ 2)
    × (dismissed (exit_notifiers 0 run).0 ≡ first_notifs 2 run)
    × (length (exit_notifiers 0 run).0 ≡ 2)
exit_notifiers_lem_example = exit_notifiers_lem run (omega arith)

server-empty : ringbuffer_empty server.rb_in ≡ true
unfolding io_server_init ringbuffer_init ringbuffer_empty
server-empty = refl

server-size : server.rb_in.size ≡ 128
unfolding io_server_init ringbuffer_init
server-size = refl

reader-gets_example :
    let ask = message IoServerMsgType.client_read 1 in
    let byte = message IoServerMsgType.notif_rx 0 in
    (s₁ : IoServer) × (bytes : Bytes) × (s₂ : IoServer) × (io_server_step 8 ask server
      ≡ some ([], s₁))
    × (io_server_step 6 byte s₁
        ≡ some (
          reply 8 (record byte { bytes = bytes; len = 1 })
              ∷ reply 6 (record byte { bytes = bytes; len = 0 })
              ∷ [],
          s₂,
        ))
    × (bytes 0 ≡ 100)
    × (s₂.client_ready ≡ false)
    × (contents s₂.rb_in ≡ [])
reader-gets_example =
    reader-gets 8 6 (message IoServerMsgType.client_read 1) (message IoServerMsgType.notif_rx 0)
      empty_server server-empty (omega (arith, server-size)) refl refl

abbrev ready_server : IoServer
ready_server = record server { tx_ready = true }

out-empty : contents server.rb_out ≡ []
unfolding io_server_init ringbuffer_init ringbuffer_size
out-empty = refl

out-size : server.rb_out.size ≡ 128
unfolding io_server_init ringbuffer_init
out-size = refl

ready-IsServing : IsServing ready_server
ready-IsServing = record {
  valid_in = empty_server.valid_in;
  valid_out = empty_server.valid_out;
  idle_in = empty_server.idle_in;
  idle_out = λ r. out-empty;
}

writer-transmits_example :
    let msg = message IoServerMsgType.client_write 3 in
    let next = message IoServerMsgType.notif_tx 0 in
    (k : ℕ) × (bytes : Bytes) × (s₁ : IoServer) × (s₂ : IoServer) × (io_server_step 9 msg
        ready_server
      ≡ some (
        reply 5 (record msg { bytes = bytes; len = k })
            ∷ reply 9 (record msg { bytes = bytes; len = 0 })
            ∷ [],
        s₁,
      ))
    × (transmit k 0 bytes ≡ map (λ b. b % 256) (slice 0 3 letters))
    × (io_server_step 5 next s₁ ≡ some ([], s₂))
    × (s₂.tx_ready ≡ true)
    × (contents s₂.rb_out ≡ [])
unfolding io_server_init
writer-transmits_example =
    writer-transmits 9 (message IoServerMsgType.client_write 3) (message IoServerMsgType.notif_tx 0)
      ready-IsServing refl refl refl (omega arith) (omega (arith, out-size))
