-- ===== src/IoServer.antt =====
-- The server of src/io_server/io_server.c and include/io_server.h: the bytes that come in from a UART
-- and go out to it, each way through a ring buffer.
-- A message that `Receive` delivers is an argument, and the messages that `Reply` hands over are listed
-- in order, with the panics, whose text is left out. `data` is a function of the index; an access past
-- its 31 bytes, or through `NULL`, is `none`.
pub mod Client
pub mod Cts
pub mod Flush
pub mod Keep
pub mod Notifier
pub mod Reader
pub mod Run
pub mod Start
pub mod Writer
mod Tests
use armv4_kernel.Prelude.{
  ℕ, zero, suc, ◌+◌, Bool, true, false, not, Option, none, some, List, [], ◌∷◌, ◌++◌, ◌==◌, ltb,
  ◌&&◌, if◌then◌else◌, ◌>>=◌,
}
use armv4_kernel.Queue.{update}
use armv4_kernel.CString.{Bytes}
use armv4_kernel.RingBuffer.{
  RingBuffer, deref, ringbuffer_init, ringbuffer_empty, ringbuffer_get, ringbuffer_put,
  ringbuffer_putn,
}

abbrev pub msg_max_data_len : ℕ
msg_max_data_len = 31

abbrev pub buffer_size : ℕ
buffer_size = 128

-- `unexpected` is any other value.
pub data IoServerMsgType : Type 0 where
  exit client_read client_write notif_rx notif_tx unexpected : IoServerMsgType

pub record IoServerMsg : Type 0 where
  pub type : IoServerMsgType
  pub bytes : Bytes
  pub len : ℕ

-- The variables of `io_server_main` that outlive a message.
pub record IoServer : Type 0 where
  pub rb_in : RingBuffer
  pub rb_out : RingBuffer
  pub tx_ready : Bool
  pub client_ready : Bool
  pub client_tid : ℕ
  pub tx_notifier_tid : ℕ

pub data Action : Type 0 where
  reply : ℕ → IoServerMsg → Action
  panic : Action

-- The `n` bytes of an array from index `i` on.
abbrev pub slice : ℕ → ℕ → Bytes → List ℕ
slice i zero a = []
slice i (suc n) a = a i ∷ slice (i + 1) n a

-- The three loops that move bytes from a ring into a message: at most `n` more, from index `i` on.
-- The result is the index reached, the array, and the ring.
unfoldable pub flush_loop : ℕ → ℕ → Bytes → RingBuffer → Option (ℕ × Bytes × RingBuffer)
flush_loop zero i bytes rb = some (i, bytes, rb)
flush_loop (suc n) i bytes rb = elim (ringbuffer_empty rb) [
  | true ↦ some (i, bytes, rb)
  | false ↦ do
    let (p, rb') = ringbuffer_get rb
    q ← p
    if ltb i msg_max_data_len then flush_loop n (i + 1) (update bytes i (deref rb' q)) rb' else none
]

unfoldable pub on_client_read : ℕ → IoServerMsg → IoServer → Option (List Action × IoServer)
on_client_read sender msg s =
    if ringbuffer_empty s.rb_in
    then some ([], record s { client_ready = true; client_tid = sender })
    else do
      (len, bytes, rb) ← flush_loop msg.len 0 msg.bytes s.rb_in
      some (reply sender (record msg { bytes = bytes; len = len }) ∷ [], record s { rb_in = rb })

-- `ringbuffer_putn` reads past `data` where it is asked for more than 31 bytes and has the room.
unfoldable pub on_client_write : ℕ → IoServerMsg → IoServer → Option (List Action × IoServer)
on_client_write sender msg s =
    let (done, rb) = ringbuffer_putn s.rb_out (slice 0 msg.len msg.bytes) msg.len in
    if not done
    then some (panic ∷ reply sender (record msg { len = 0 }) ∷ [], record s { rb_out = rb })
    else if ltb msg_max_data_len msg.len
    then none
    else if s.tx_ready
    then (do
      (len, bytes, rb') ← flush_loop msg_max_data_len 0 msg.bytes rb
      some (
        reply s.tx_notifier_tid (record msg { bytes = bytes; len = len })
            ∷ reply sender (record msg { bytes = bytes; len = 0 })
            ∷ [],
        record s { rb_out = rb'; tx_ready = false },
      ))
    else some (reply sender (record msg { len = 0 }) ∷ [], record s { rb_out = rb })

unfoldable pub on_notif_rx : ℕ → IoServerMsg → IoServer → Option (List Action × IoServer)
on_notif_rx sender msg s =
    let (done, rb) = ringbuffer_put s.rb_in (msg.bytes 0) in
    if not done
    then some (panic ∷ reply sender (record msg { len = 0 }) ∷ [], record s { rb_in = rb })
    else if s.client_ready
    then (do
      let (p, rb') = ringbuffer_get rb
      q ← p
      let bytes = update msg.bytes 0 (deref rb' q)
      some (
        reply s.client_tid (record msg { bytes = bytes; len = 1 })
            ∷ reply sender (record msg { bytes = bytes; len = 0 })
            ∷ [],
        record s { rb_in = rb'; client_ready = false },
      ))
    else some (reply sender (record msg { len = 0 }) ∷ [], record s { rb_in = rb })

unfoldable pub on_notif_tx : ℕ → IoServerMsg → IoServer → Option (List Action × IoServer)
on_notif_tx sender msg s = do
  (len, bytes, rb) ← flush_loop msg_max_data_len 0 msg.bytes s.rb_out
  if ltb 0 len
      then some
          (reply sender (record msg { bytes = bytes; len = len }) ∷ [], record s { rb_out = rb })
      else some ([], record s { rb_out = rb; tx_ready = true })

-- The `switch` on the message's type.
unfoldable pub dispatch :
    IoServerMsgType → ℕ → IoServerMsg → IoServer → Option (List Action × IoServer)
dispatch exit sender msg s = some ([], s)
dispatch client_read sender msg s = on_client_read sender msg s
dispatch client_write sender msg s = on_client_write sender msg s
dispatch notif_rx sender msg s = on_notif_rx sender msg s
dispatch notif_tx sender msg s = on_notif_tx sender msg s
dispatch unexpected sender msg s = some (panic ∷ [], s)

unfoldable pub io_server_step : ℕ → IoServerMsg → IoServer → Option (List Action × IoServer)
unfolding dispatch
io_server_step sender msg s = dispatch msg.type sender msg s
