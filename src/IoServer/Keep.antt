-- ===== src/IoServer/Keep.antt =====
-- About one message to the server of src/io_server/io_server.c.
use mathlib.Core.Path.{subst}
use mathlib.Core.List.{append-nil}
use armv4_kernel.Prelude.{
  ℕ, zero, suc, ◌+◌, ◌≤◌, ◌≡◌, inl, inr, refl, sym, ap, ◌∙◌, Bool, true, false, some, List, [], ◌∷◌,
  ◌++◌, arith, length, ltb, if◌then◌else◌, Bool-cases,
}
use armv4_kernel.Queue.{update}
use armv4_kernel.CString.{Bytes}
use armv4_kernel.RingBuffer.{RingBuffer, deref, ringbuffer_empty, ringbuffer_put, ringbuffer_putn}
use armv4_kernel.RingBuffer.Valid.{IsValid}
use armv4_kernel.RingBuffer.Contents.{contents}
use armv4_kernel.RingBuffer.Cases.{Written, put-Written, putn-Written}
use armv4_kernel.RingBuffer.Refine.{after_get, get_oldest, contents-empty}
use armv4_kernel.IoServer.{
  IoServer, IoServerMsg, IoServerMsgType, Action, reply, panic, slice, msg_max_data_len,
  on_client_read, on_client_write, on_notif_rx, on_notif_tx, dispatch, io_server_step,
}
use armv4_kernel.IoServer.Flush.{flush_loop_lem}

-- No byte waits for a transmitter that is ready, nor for a client that is ready.
pub record IsServing (s : IoServer) : Type 0 where
  pub valid_in : IsValid s.rb_in
  pub valid_out : IsValid s.rb_out
  pub idle_in : s.client_ready ≡ true → contents s.rb_in ≡ []
  pub idle_out : s.tx_ready ≡ true → contents s.rb_out ≡ []

-- The bytes of the replies, in order.
abbrev pub replied : List Action → List ℕ
replied [] = []
replied (reply t m ∷ acts) = slice 0 m.len m.bytes ++ replied acts
replied (panic ∷ acts) = replied acts

abbrev pub panicked : List Action → Bool
panicked [] = false
panicked (reply t m ∷ acts) = panicked acts
panicked (panic ∷ acts) = true

-- The bytes that a message brings in from the UART, and that its replies hand to clients.
abbrev pub entered : IoServerMsgType → IoServerMsg → List Action → List ℕ
entered IoServerMsgType.notif_rx msg acts = if panicked acts then [] else msg.bytes 0 ∷ []
entered _ msg acts = []

abbrev pub delivered : IoServerMsgType → List Action → List ℕ
delivered IoServerMsgType.client_read acts = replied acts
delivered IoServerMsgType.notif_rx acts = replied acts
delivered _ acts = []

-- The bytes that a client writes, and that the replies hand to the transmitter.
abbrev pub written : IoServerMsgType → IoServerMsg → List Action → List ℕ
written IoServerMsgType.client_write msg acts =
    if panicked acts then [] else slice 0 msg.len msg.bytes
written _ msg acts = []

abbrev pub transmitted : IoServerMsgType → List Action → List ℕ
transmitted IoServerMsgType.client_write acts = replied acts
transmitted IoServerMsgType.notif_tx acts = replied acts
transmitted _ acts = []

-- What one message leaves: the server in order, and each byte either handed on or kept, in order.
pub record Served (type : IoServerMsgType) (msg : IoServerMsg) (s : IoServer) (acts : List Action)
    (s' : IoServer) : Type 0 where
  pub serving : IsServing s'
  pub input : contents s.rb_in ++ entered type msg acts ≡ delivered type acts ++ contents s'.rb_in
  pub output :
      contents s.rb_out ++ written type msg acts ≡ transmitted type acts ++ contents s'.rb_out

pub length-slice : (i n : ℕ) (a : Bytes) → length (slice i n a) ≡ n
length-slice i zero a = refl
length-slice i (suc n) a = omega (arith, length-slice (i + 1) n a)

nil_of_append : (l : List ℕ) {m : List ℕ} → l ++ m ≡ [] → m ≡ []
nil_of_append [] e = e
nil_of_append (x ∷ l) e = absurd (omega (arith, ap length e))

-- A message of at most 31 bytes is written out whole, or not at all.
short : {n : ℕ} → n ≤ msg_max_data_len → ltb msg_max_data_len n ≡ false
short p = ground (arith, p)

pub holds_one :
    {rb : RingBuffer} {b : ℕ} → IsValid rb → contents rb ≡ b ∷ [] → ringbuffer_empty rb ≡ false
holds_one {rb} v one = elim (Bool-cases (ringbuffer_empty rb)) [
  | inl e ↦ absurd (omega (arith, ap length (sym (contents-empty v e) ∙ one)))
  | inr e ↦ e
]

putn_slice :
    {rb : RingBuffer} {n : ℕ} (bytes : Bytes)
    → IsValid rb
    → n ≤ msg_max_data_len
    → let (done, rb') = ringbuffer_putn rb (slice 0 n bytes) n in
      Written rb (slice 0 n bytes) done rb'
putn_slice {rb} {n} bytes v fits =
    let len_eq : length (slice 0 n bytes) ≡ n = length-slice 0 n bytes in
    subst
      (λ k.
        let (done, rb') = ringbuffer_putn rb (slice 0 n bytes) k in
        Written rb (slice 0 n bytes) done rb')
      len_eq (putn-Written (slice 0 n bytes) v (omega (arith, fits, len_eq)))

module _ (sender : ℕ) (msg : IoServerMsg) {s : IoServer} (h : IsServing s)
    (fits : msg.len ≤ msg_max_data_len) where
  client_read_lem :
      (acts : List Action) × (s' : IoServer) × (on_client_read sender msg s ≡ some (acts, s'))
      × Served IoServerMsgType.client_read msg s acts s'
  unfolding on_client_read
  client_read_lem = elim (Bool-cases (ringbuffer_empty s.rb_in)) [
    | inl e ↦ (
      [],
      record s { client_ready = true; client_tid = sender },
      rw e refl,
      record {
        serving = record {
          valid_in = h.valid_in;
          valid_out = h.valid_out;
          idle_in = λ r. contents-empty h.valid_in e;
          idle_out = h.idle_out;
        };
        input = append-nil (contents s.rb_in);
        output = append-nil (contents s.rb_out);
      },
    )
    | inr e ↦
        let (k, bytes, rb, run, f) =
          flush_loop_lem msg.len 0 msg.bytes h.valid_in (omega (arith, fits)) in
        let z : 0 + k ≡ k = omega arith in
        (
          reply sender (record msg { bytes = bytes; len = k }) ∷ [],
          record s { rb_in = rb },
          rw (e, run, z) refl,
          record {
            serving = record {
              valid_in = f.valid;
              valid_out = h.valid_out;
              idle_in = λ r. nil_of_append (slice 0 k bytes) (sym f.moved ∙ h.idle_in r);
              idle_out = h.idle_out;
            };
            input =
                append-nil (contents s.rb_in)
                ∙ f.moved
                ∙ ap (λ l. l ++ contents rb) (sym (append-nil (slice 0 k bytes)));
            output = append-nil (contents s.rb_out);
          },
        )
  ]

  client_write_lem :
      (acts : List Action) × (s' : IoServer) × (on_client_write sender msg s ≡ some (acts, s'))
      × Served IoServerMsgType.client_write msg s acts s'
  unfolding on_client_write
  client_write_lem =
      let w : Written s.rb_out (slice 0 msg.len msg.bytes)
          (ringbuffer_putn s.rb_out (slice 0 msg.len msg.bytes) msg.len).0
          (ringbuffer_putn s.rb_out (slice 0 msg.len msg.bytes) msg.len).1 =
        putn_slice msg.bytes h.valid_out fits in
      let rb : RingBuffer = (ringbuffer_putn s.rb_out (slice 0 msg.len msg.bytes) msg.len).1 in
      let fit : ltb msg_max_data_len msg.len ≡ false = short fits in
      elim w.result [
        | inl (refused, same) ↦ (
          panic ∷ reply sender (record msg { len = 0 }) ∷ [],
          record s { rb_out = rb },
          rw refused refl,
          record {
            serving = record {
              valid_in = h.valid_in;
              valid_out = w.valid;
              idle_in = h.idle_in;
              idle_out = λ r. same ∙ h.idle_out r;
            };
            input = append-nil (contents s.rb_in);
            output = append-nil (contents s.rb_out) ∙ sym same;
          },
        )
        | inr (done, more) ↦ elim (Bool-cases s.tx_ready) [
          | inl e ↦
              let (k, bytes, rb', run, f) =
                flush_loop_lem msg_max_data_len 0 msg.bytes w.valid (omega arith) in
              let z : 0 + k ≡ k = omega arith in
              (
                reply s.tx_notifier_tid (record msg { bytes = bytes; len = k })
                    ∷ reply sender (record msg { bytes = bytes; len = 0 })
                    ∷ [],
                record s { rb_out = rb'; tx_ready = false },
                rw (done, fit, e, run, z) refl,
                record {
                  serving = record {
                    valid_in = h.valid_in;
                    valid_out = f.valid;
                    idle_in = h.idle_in;
                    idle_out = λ r. ground arith;
                  };
                  input = append-nil (contents s.rb_in);
                  output =
                      sym more
                      ∙ f.moved
                      ∙ ap (λ l. l ++ contents rb') (sym (append-nil (slice 0 k bytes)));
                },
              )
          | inr e ↦ (
            reply sender (record msg { len = 0 }) ∷ [],
            record s { rb_out = rb },
            rw (done, fit, e) refl,
            record {
              serving = record {
                valid_in = h.valid_in;
                valid_out = w.valid;
                idle_in = h.idle_in;
                idle_out = λ r. ground arith;
              };
              input = append-nil (contents s.rb_in);
              output = sym more;
            },
          )
        ]
      ]

  notif_rx_lem :
      (acts : List Action) × (s' : IoServer) × (on_notif_rx sender msg s ≡ some (acts, s'))
      × Served IoServerMsgType.notif_rx msg s acts s'
  unfolding on_notif_rx
  notif_rx_lem =
      let w : Written s.rb_in (msg.bytes 0 ∷ []) (ringbuffer_put s.rb_in (msg.bytes 0)).0
          (ringbuffer_put s.rb_in (msg.bytes 0)).1 =
        put-Written (msg.bytes 0) h.valid_in in
      let rb : RingBuffer = (ringbuffer_put s.rb_in (msg.bytes 0)).1 in
      elim w.result [
        | inl (refused, same) ↦ (
          panic ∷ reply sender (record msg { len = 0 }) ∷ [],
          record s { rb_in = rb },
          rw refused refl,
          record {
            serving = record {
              valid_in = w.valid;
              valid_out = h.valid_out;
              idle_in = λ r. same ∙ h.idle_in r;
              idle_out = h.idle_out;
            };
            input = append-nil (contents s.rb_in) ∙ sym same;
            output = append-nil (contents s.rb_out);
          },
        )
        | inr (done, more) ↦ elim (Bool-cases s.client_ready) [
          | inl e ↦
              let stays : ringbuffer_empty rb ≡ false =
                holds_one w.valid (more ∙ ap (λ l. l ++ (msg.bytes 0 ∷ [])) (h.idle_in e)) in
              let (got, v', front) = get_oldest w.valid stays in
              (
                reply s.client_tid (record msg {
                  bytes = update msg.bytes 0 (deref (after_get rb) rb.read_index);
                  len = 1;
                })
                    ∷ reply sender (record msg {
                      bytes = update msg.bytes 0 (deref (after_get rb) rb.read_index);
                      len = 0;
                    })
                    ∷ [],
                record s { rb_in = after_get rb; client_ready = false },
                rw (done, e, got) refl,
                record {
                  serving = record {
                    valid_in = v';
                    valid_out = h.valid_out;
                    idle_in = λ r. ground arith;
                    idle_out = h.idle_out;
                  };
                  input = sym more ∙ front;
                  output = append-nil (contents s.rb_out);
                },
              )
          | inr e ↦ (
            reply sender (record msg { len = 0 }) ∷ [],
            record s { rb_in = rb },
            rw (done, e) refl,
            record {
              serving = record {
                valid_in = w.valid;
                valid_out = h.valid_out;
                idle_in = λ r. ground arith;
                idle_out = h.idle_out;
              };
              input = sym more;
              output = append-nil (contents s.rb_out);
            },
          )
        ]
      ]

  notif_tx_lem :
      (acts : List Action) × (s' : IoServer) × (on_notif_tx sender msg s ≡ some (acts, s'))
      × Served IoServerMsgType.notif_tx msg s acts s'
  unfolding on_notif_tx
  notif_tx_lem =
      let (k, bytes, rb, run, f) =
        flush_loop_lem msg_max_data_len 0 msg.bytes h.valid_out (omega arith) in
      let z : 0 + k ≡ k = omega arith in
      elim (Bool-cases (ltb 0 k)) [
        | inl e ↦ (
          reply sender (record msg { bytes = bytes; len = k }) ∷ [],
          record s { rb_out = rb },
          rw (run, z, e) refl,
          record {
            serving = record {
              valid_in = h.valid_in;
              valid_out = f.valid;
              idle_in = h.idle_in;
              idle_out = λ r. nil_of_append (slice 0 k bytes) (sym f.moved ∙ h.idle_out r);
            };
            input = append-nil (contents s.rb_in);
            output =
                append-nil (contents s.rb_out)
                ∙ f.moved
                ∙ ap (λ l. l ++ contents rb) (sym (append-nil (slice 0 k bytes)));
          },
        )
        | inr e ↦
            let none_moved : k ≡ 0 = ground (arith, e) in
            (
              [],
              record s { rb_out = rb; tx_ready = true },
              rw (run, z, e) refl,
              record {
                serving = record {
                  valid_in = h.valid_in;
                  valid_out = f.valid;
                  idle_in = h.idle_in;
                  idle_out = λ r. elim f.stopped [
                    | inl all ↦ absurd (omega (arith, all, none_moved))
                    | inr out ↦ out
                  ];
                };
                input = append-nil (contents s.rb_in);
                output =
                    append-nil (contents s.rb_out)
                    ∙ f.moved
                    ∙ ap (λ n. slice 0 n bytes ++ contents rb) none_moved;
              },
            )
      ]

  dispatch-Served :
      (type : IoServerMsgType)
      → (acts : List Action) × (s' : IoServer) × (dispatch type sender msg s ≡ some (acts, s'))
        × Served type msg s acts s'
  unfolding dispatch
  dispatch-Served IoServerMsgType.exit = (
    [],
    s,
    refl,
    record {
      serving = h;
      input = append-nil (contents s.rb_in);
      output = append-nil (contents s.rb_out);
    },
  )
  dispatch-Served IoServerMsgType.client_read = client_read_lem
  dispatch-Served IoServerMsgType.client_write = client_write_lem
  dispatch-Served IoServerMsgType.notif_rx = notif_rx_lem
  dispatch-Served IoServerMsgType.notif_tx = notif_tx_lem
  dispatch-Served IoServerMsgType.unexpected = (
    panic ∷ [],
    s,
    refl,
    record {
      serving = h;
      input = append-nil (contents s.rb_in);
      output = append-nil (contents s.rb_out);
    },
  )

-- In a server where no byte waits for a transmitter or a client that is ready, a message of any type
-- that gives a length of at most 31 is handled without an access out of bounds. Afterwards again no byte
-- waits for a transmitter or a client that is ready. The bytes that the replies to a client_read or a
-- notif_rx carry, followed by those that the input ring then holds, are those that it held, followed by
-- the byte that a notif_rx brought; the bytes that the replies to a client_write or a notif_tx carry,
-- followed by those that the output ring then holds, are those that it held, followed by those that a
-- client_write brought. Bytes that a full ring refuses, with a panic, do not count as brought.
pub io_server_step-Served :
    (sender : ℕ) (msg : IoServerMsg) {s : IoServer}
    → IsServing s
    → msg.len ≤ msg_max_data_len
    → (acts : List Action) × (s' : IoServer) × (io_server_step sender msg s ≡ some (acts, s'))
      × Served msg.type msg s acts s'
unfolding io_server_step
io_server_step-Served sender msg h fits = dispatch-Served sender msg h fits msg.type
