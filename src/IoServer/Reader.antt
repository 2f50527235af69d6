-- ===== src/IoServer/Reader.antt =====
-- About a client of src/io_server/io_server.c that reads while no byte is there.
use armv4_kernel.Prelude.{
  ℕ, ◌-◌, ◌<◌, ◌≡◌, ◌∙◌, refl, sym, ap, Bool, true, false, some, List, [], ◌∷◌, arith, ◌==◌,
  if◌then◌else◌, get_or,
}
use armv4_kernel.Queue.{update}
use armv4_kernel.Queue.Rep.{update-same}
use armv4_kernel.CString.{Bytes}
use armv4_kernel.RingBuffer.{RingBuffer, deref, ringbuffer_empty, ringbuffer_put}
use armv4_kernel.RingBuffer.Valid.{IsValid}
use armv4_kernel.RingBuffer.Contents.{contents}
use armv4_kernel.RingBuffer.Fifo
use armv4_kernel.RingBuffer.Refine.{put_refines, after_get, get_oldest, contents-empty}
use armv4_kernel.IoServer.{
  IoServer, IoServerMsg, IoServerMsgType, reply, on_client_read, on_notif_rx, dispatch,
  io_server_step,
}
use armv4_kernel.IoServer.Keep.{IsServing, holds_one}

-- Into an empty ring a byte fits.
put_first :
    {rb : RingBuffer} (b : ℕ)
    → IsValid rb
    → ringbuffer_empty rb ≡ true
    → 1 < rb.size
    → let (done, rb') = ringbuffer_put rb b in (done ≡ true) × (contents rb' ≡ b ∷ []) × IsValid rb'
put_first {rb} b v e wide =
    let (spec, v') = put_refines b v in
    let room : (0 == (rb.size - 1)) ≡ false = ground (arith, wide) in
    let result : Fifo.put (rb.size - 1) (contents rb) b ≡ (true, b ∷ []) =
      ap (λ l. Fifo.put (rb.size - 1) l b) (contents-empty v e)
      ∙ ap (λ full. if full then (false, []) else (true, b ∷ [])) room in
    (
      ap (λ (x : Bool × List ℕ). x.0) (spec ∙ result),
      ap (λ (x : Bool × List ℕ). x.1) (spec ∙ result),
      v',
    )

module _ {s : IoServer} (h : IsServing s) where
  read_lem :
      (reader : ℕ) (msg : IoServerMsg)
      → ringbuffer_empty s.rb_in ≡ true
      → on_client_read reader msg s
        ≡ some ([], record s { client_ready = true; client_tid = reader })
  unfolding on_client_read
  read_lem reader msg e = rw e refl

  byte_lem :
      (notifier : ℕ) (msg : IoServerMsg)
      → s.client_ready ≡ true
      → ringbuffer_empty s.rb_in ≡ true
      → 1 < s.rb_in.size
      → (bytes : Bytes) × (s' : IoServer) × (on_notif_rx notifier msg s
          ≡ some (
            reply s.client_tid (record msg { bytes = bytes; len = 1 })
                ∷ reply notifier (record msg { bytes = bytes; len = 0 })
                ∷ [],
            s',
          ))
        × (bytes 0 ≡ msg.bytes 0)
        × (s'.client_ready ≡ false)
        × (contents s'.rb_in ≡ [])
  unfolding on_notif_rx
  byte_lem notifier msg ready e wide =
      let rb : RingBuffer = (ringbuffer_put s.rb_in (msg.bytes 0)).1 in
      let (done, one, v) = put_first (msg.bytes 0) h.valid_in e wide in
      let (got, v', front) = get_oldest v (holds_one v one) in
      let byte : ℕ = deref (after_get rb) rb.read_index in
      let taken : byte ∷ contents (after_get rb) ≡ msg.bytes 0 ∷ [] = sym front ∙ one in
      (
        update msg.bytes 0 byte,
        record s { rb_in = after_get rb; client_ready = false },
        rw (done, ready, got) refl,
        sym (update-same msg.bytes 0 byte) ∙ ap (λ l. get_or l 0 0) taken,
        refl,
        ap rest_of taken,
      )
    where
      rest_of : List ℕ → List ℕ
      rest_of [] = []
      rest_of (x ∷ l) = l

-- In a server where no byte waits for a client that is ready, and whose input ring is empty and has room
-- for a byte: a client that asks to read gets no reply yet, and once a byte comes in from the UART the
-- client is replied to with that byte, a length of 1, and the notifier with a length of 0; after that no
-- client counts as ready, and the ring is empty again.
pub reader-gets :
    {s : IoServer} (reader notifier : ℕ) (ask byte : IoServerMsg)
    → IsServing s
    → ringbuffer_empty s.rb_in ≡ true
    → 1 < s.rb_in.size
    → ask.type ≡ IoServerMsgType.client_read
    → byte.type ≡ IoServerMsgType.notif_rx
    → (s₁ : IoServer) × (bytes : Bytes) × (s₂ : IoServer) × (io_server_step reader ask s
        ≡ some ([], s₁))
      × (io_server_step notifier byte s₁
          ≡ some (
            reply reader (record byte { bytes = bytes; len = 1 })
                ∷ reply notifier (record byte { bytes = bytes; len = 0 })
                ∷ [],
            s₂,
          ))
      × (bytes 0 ≡ byte.bytes 0)
      × (s₂.client_ready ≡ false)
      × (contents s₂.rb_in ≡ [])
unfolding io_server_step dispatch
reader-gets {s} reader notifier ask byte h e wide reads comes =
    let s₁ : IoServer = record s { client_ready = true; client_tid = reader } in
    let h₁ : IsServing s₁ = record {
      valid_in = h.valid_in;
      valid_out = h.valid_out;
      idle_in = λ r. contents-empty h.valid_in e;
      idle_out = h.idle_out;
    } in
    let (bytes, s₂, run, same, ready, empty) = byte_lem h₁ notifier byte refl e wide in
    (
      s₁,
      bytes,
      s₂,
      ap (λ t. dispatch t reader ask s) reads ∙ read_lem h reader ask e,
      ap (λ t. dispatch t notifier byte s₁) comes ∙ run,
      same,
      ready,
      empty,
    )
