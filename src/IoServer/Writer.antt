-- ===== src/IoServer/Writer.antt =====
-- About a client of src/io_server/io_server.c that writes while the transmitter is ready.
use mathlib.Core.Path.{subst}
use mathlib.Core.List.{append-nil}
use armv4_kernel.Prelude.{
  ℕ, zero, suc, ◌+◌, ◌-◌, ◌%◌, ◌<◌, ◌≤◌, ◌≡◌, ◌∙◌, ap₂, inl, inr, refl, sym, ap, Bool, true, false,
  some, List, [], ◌∷◌, ◌++◌, map, arith, ltb, length, take, length-append, if◌then◌else◌,
}
use armv4_kernel.CString.{Bytes}
use armv4_kernel.RingBuffer.{RingBuffer, ringbuffer_putn}
use armv4_kernel.RingBuffer.Valid.{IsValid}
use armv4_kernel.RingBuffer.Contents.{contents}
use armv4_kernel.RingBuffer.Fifo
use armv4_kernel.RingBuffer.Cases.{take_all}
use armv4_kernel.RingBuffer.Refine.{putn_refines}
use armv4_kernel.IoServer.{
  IoServer, IoServerMsg, IoServerMsgType, reply, slice, msg_max_data_len, on_client_write,
  on_notif_tx, dispatch, io_server_step,
}
use armv4_kernel.IoServer.Flush.{Flushed, flush_loop_lem}
use armv4_kernel.IoServer.Keep.{IsServing, length-slice}
use armv4_kernel.IoServer.Notifier.{transmit}

nil_of_length : (l : List ℕ) → length l ≡ 0 → l ≡ []
nil_of_length [] e = refl
nil_of_length (x ∷ l) e = absurd (omega (arith, e))

transmit-slice :
    (n i : ℕ) (bytes : Bytes) → transmit n i bytes ≡ map (λ b. b % 256) (slice i n bytes)
unfolding transmit
transmit-slice zero i bytes = refl
transmit-slice (suc n) i bytes = ap (λ l. bytes i % 256 ∷ l) (transmit-slice n (i + 1) bytes)

-- Into an empty ring of more than 32 bytes a whole message fits.
putn_first :
    {rb : RingBuffer} (n : ℕ) (bytes : Bytes)
    → IsValid rb
    → contents rb ≡ []
    → n ≤ msg_max_data_len
    → 32 < rb.size
    → let (done, rb') = ringbuffer_putn rb (slice 0 n bytes) n in
      (done ≡ true) × (contents rb' ≡ slice 0 n bytes) × IsValid rb'
putn_first {rb} n bytes v e fits wide =
    let new : List ℕ = slice 0 n bytes in
    let len : length new ≡ n = length-slice 0 n bytes in
    let (spec, v') = putn_refines new n v (omega (arith, len)) (omega (arith, len, fits)) in
    let whole : take n new ≡ new = subst (λ m. take m new ≡ new) len (take_all new) in
    let room : ltb (rb.size - 1) (0 + length new) ≡ false = ground (arith, wide, fits, len) in
    let result : Fifo.putn (rb.size - 1) (contents rb) (take n new) ≡ (true, new) =
      ap₂ (Fifo.putn (rb.size - 1)) e whole
      ∙ ap (λ full. if full then (false, []) else (true, new)) room in
    (
      ap (λ (x : Bool × List ℕ). x.0) (spec ∙ result),
      ap (λ (x : Bool × List ℕ). x.1) (spec ∙ result),
      v',
    )

-- A loop with 31 rounds empties a ring of at most 31 bytes.
emptied :
    {k : ℕ} {bytes bytes' : Bytes} {rb rb' : RingBuffer}
    → Flushed msg_max_data_len 0 k bytes rb bytes' rb'
    → length (contents rb) ≤ msg_max_data_len
    → contents rb' ≡ []
emptied {k} {bytes' = bytes'} {rb' = rb'} f few = elim f.stopped [
  | inr out ↦ out
  | inl all ↦ nil_of_length (contents rb') (
      omega (
        arith,
        all,
        few,
        ap length f.moved,
        length-append (slice 0 k bytes') (contents rb'),
        length-slice 0 k bytes',
      ))
]

module _ {s : IoServer} (h : IsServing s) where
  write_lem :
      (writer : ℕ) (msg : IoServerMsg)
      → s.tx_ready ≡ true
      → msg.len ≤ msg_max_data_len
      → 32 < s.rb_out.size
      → (k : ℕ) × (bytes : Bytes) × (rb : RingBuffer) × (on_client_write writer msg s
          ≡ some (
            reply s.tx_notifier_tid (record msg { bytes = bytes; len = k })
                ∷ reply writer (record msg { bytes = bytes; len = 0 })
                ∷ [],
            record s { rb_out = rb; tx_ready = false },
          ))
        × (slice 0 k bytes ≡ slice 0 msg.len msg.bytes)
        × IsValid rb
        × (contents rb ≡ [])
  unfolding on_client_write
  write_lem writer msg ready fits wide =
      let (done, all, v) = putn_first msg.len msg.bytes h.valid_out (h.idle_out ready) fits wide in
      let (k, bytes, rb, run, f) = flush_loop_lem msg_max_data_len 0 msg.bytes v (omega arith) in
      let len : length (slice 0 msg.len msg.bytes) ≡ msg.len = length-slice 0 msg.len msg.bytes in
      let out : contents rb ≡ [] = emptied f (omega (arith, ap length all, len, fits)) in
      let fit : ltb msg_max_data_len msg.len ≡ false = ground (arith, fits) in
      let z : 0 + k ≡ k = omega arith in
      (
        k,
        bytes,
        rb,
        rw (done, fit, ready, run, z) refl,
        sym (append-nil (slice 0 k bytes))
            ∙ ap (λ l. slice 0 k bytes ++ l) (sym out)
            ∙ sym f.moved
            ∙ all,
        f.valid,
        out,
      )

-- Nothing is left to send.
idle_lem :
    (s : IoServer) (sender : ℕ) (msg : IoServerMsg)
    → IsValid s.rb_out
    → contents s.rb_out ≡ []
    → (rb : RingBuffer) × (on_notif_tx sender msg s
        ≡ some ([], record s { rb_out = rb; tx_ready = true }))
      × (contents rb ≡ [])
unfolding on_notif_tx
idle_lem s sender msg v e =
    let (k, bytes, rb, run, f) = flush_loop_lem msg_max_data_len 0 msg.bytes v (omega arith) in
    let count : length (slice 0 k bytes ++ contents rb) ≡ 0 = ap length (sym f.moved ∙ e) in
    let len : length (slice 0 k bytes) ≡ k = length-slice 0 k bytes in
    let none_moved : k ≡ 0 =
      omega (arith, count, len, length-append (slice 0 k bytes) (contents rb)) in
    let z : 0 + k ≡ 0 = omega (arith, none_moved) in
    (
      rb,
      rw (run, z) refl,
      nil_of_length (contents rb)
          (omega (arith, count, length-append (slice 0 k bytes) (contents rb))),
    )

-- In a server where no byte waits for a transmitter that is ready, whose transmitter is ready and
-- whose output ring has a buffer of more than 32 bytes: a client_write of at most 31 bytes is handed
-- to the transmit notifier at once, which puts exactly these bytes into the data register, each modulo
-- 256; the client is replied to; and when the notifier asks again, it gets no reply, the transmitter
-- is ready again, and the ring is empty.
pub writer-transmits :
    {s : IoServer} (writer : ℕ) (msg next : IoServerMsg)
    → IsServing s
    → s.tx_ready ≡ true
    → msg.type ≡ IoServerMsgType.client_write
    → next.type ≡ IoServerMsgType.notif_tx
    → msg.len ≤ msg_max_data_len
    → 32 < s.rb_out.size
    → (k : ℕ) × (bytes : Bytes) × (s₁ : IoServer) × (s₂ : IoServer) × (io_server_step writer msg s
        ≡ some (
          reply s.tx_notifier_tid (record msg { bytes = bytes; len = k })
              ∷ reply writer (record msg { bytes = bytes; len = 0 })
              ∷ [],
          s₁,
        ))
      × (transmit k 0 bytes ≡ map (λ b. b % 256) (slice 0 msg.len msg.bytes))
      × (io_server_step s.tx_notifier_tid next s₁ ≡ some ([], s₂))
      × (s₂.tx_ready ≡ true)
      × (contents s₂.rb_out ≡ [])
unfolding io_server_step dispatch
writer-transmits {s} writer msg next h ready writes asks fits wide =
    let (k, bytes, rb, run, same, v, out) = write_lem h writer msg ready fits wide in
    let s₁ : IoServer = record s { rb_out = rb; tx_ready = false } in
    let (rb', run', out') = idle_lem s₁ s.tx_notifier_tid next v out in
    (
      k,
      bytes,
      s₁,
      record s { rb_out = rb'; tx_ready = true },
      ap (λ t. dispatch t writer msg s) writes ∙ run,
      transmit-slice k 0 bytes ∙ ap (map (λ b. b % 256)) same,
      ap (λ t. dispatch t s.tx_notifier_tid next s₁) asks ∙ run',
      refl,
      out',
    )
