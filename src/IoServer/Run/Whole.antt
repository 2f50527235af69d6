-- ===== src/IoServer/Run/Whole.antt =====
-- About the loop of `io_server_main` of src/io_server/io_server.c over a whole run.
use mathlib.Core.List.{append-nil, append_assoc}
use armv4_kernel.Prelude.{
  ℕ, ◌<◌, ◌≤◌, ◌≡◌, ◌⊎◌, inl, inr, refl, ap, ◌∙◌, sym, Bool, true, false, some, List, [], ◌∷◌, ◌++◌,
  arith, length, ◌^◌, Bool-cases, if◌then◌else◌,
}
use armv4_kernel.RingBuffer.Contents.{contents}
use armv4_kernel.RingBuffer.Valid.{ringbuffer_init-IsValid}
use armv4_kernel.RingBuffer.{ringbuffer_init, ringbuffer_size}
use armv4_kernel.IoServer.{IoServer, Action, panic, msg_max_data_len, buffer_size}
use armv4_kernel.IoServer.Keep.{
  IsServing, Served, entered, delivered, written, transmitted, io_server_step-Served,
}
use armv4_kernel.IoServer.Run.{Delivery, Turn, Progress, is_exit, io_server_init, io_server_loop}

-- Each message gives a length of at most 31.
abbrev pub AllFit : List Delivery → Type 0
AllFit [] = Unit
AllFit (d ∷ ds) = (d.msg.len ≤ msg_max_data_len) × AllFit ds

-- The bytes of all the rounds of a run, that come in, go to clients, are written, and go out. A
-- failed `Receive` adds a panic in front of the round's own actions.
abbrev pub own : Bool → List Action → List Action
own true (a ∷ acts) = acts
own true [] = []
own false acts = acts

abbrev pub gathered : (Turn → List ℕ) → List Turn → List ℕ
gathered f [] = []
gathered f (t ∷ ts) = f t ++ gathered f ts

abbrev pub came_in : Turn → List ℕ
came_in t = entered t.delivery.msg.type t.delivery.msg (own t.delivery.failed t.actions)

abbrev pub to_clients : Turn → List ℕ
to_clients t = delivered t.delivery.msg.type (own t.delivery.failed t.actions)

abbrev pub was_written : Turn → List ℕ
was_written t = written t.delivery.msg.type t.delivery.msg (own t.delivery.failed t.actions)

abbrev pub went_out : Turn → List ℕ
went_out t = transmitted t.delivery.msg.type (own t.delivery.failed t.actions)

abbrev pub deliveries : List Turn → List Delivery
deliveries [] = []
deliveries (t ∷ ts) = t.delivery ∷ deliveries ts

pub record Ran (ds : List Delivery) (s : IoServer) (p : Progress) : Type 0 where
  pub serving : IsServing p.server
  pub received : deliveries p.turns ++ p.rest ≡ ds
  pub stopped : (p.ended ≡ true) ⊎ (p.rest ≡ [])
  pub input :
      contents s.rb_in ++ gathered came_in p.turns
      ≡ gathered to_clients p.turns ++ contents p.server.rb_in
  pub output :
      contents s.rb_out ++ gathered was_written p.turns
      ≡ gathered went_out p.turns ++ contents p.server.rb_out

-- One round's balance, followed by the rest's.
balance :
    (a e d b es ds c : List ℕ)
    → a ++ e ≡ d ++ b
    → b ++ es ≡ ds ++ c
    → a ++ (e ++ es) ≡ (d ++ ds) ++ c
balance a e d b es ds c p q =
    sym (append_assoc a e es)
    ∙ ap (λ l. l ++ es) p
    ∙ append_assoc d b es
    ∙ ap (λ l. d ++ l) q
    ∙ sym (append_assoc d ds c)

own_lem :
    (failed : Bool) (acts : List Action) → own failed (if failed then panic ∷ acts else acts) ≡ acts
own_lem true acts = refl
own_lem false acts = refl

turn_input :
    (d : Delivery) {s s' : IoServer} {acts : List Action}
    → Served d.msg.type d.msg s acts s'
    → let t : Turn = record { delivery = d; actions = if d.failed then panic ∷ acts else acts } in
      contents s.rb_in ++ came_in t ≡ to_clients t ++ contents s'.rb_in
turn_input d {s} {s'} {acts} h = rw (own_lem d.failed acts) h.input

turn_output :
    (d : Delivery) {s s' : IoServer} {acts : List Action}
    → Served d.msg.type d.msg s acts s'
    → let t : Turn = record { delivery = d; actions = if d.failed then panic ∷ acts else acts } in
      contents s.rb_out ++ was_written t ≡ went_out t ++ contents s'.rb_out
turn_output d {s} {s'} {acts} h = rw (own_lem d.failed acts) h.output

pub io_server_loop-Ran :
    (ds : List Delivery) {s : IoServer}
    → IsServing s
    → AllFit ds
    → (p : Progress) × (io_server_loop ds s ≡ some p) × Ran ds s p
unfolding io_server_loop
io_server_loop-Ran [] {s} h fits = (
  record { server = s; turns = []; ended = false; rest = [] },
  refl,
  record {
    serving = h;
    received = refl;
    stopped = inr refl;
    input = append-nil (contents s.rb_in);
    output = append-nil (contents s.rb_out);
  },
)
io_server_loop-Ran (d ∷ ds) {s} h (fit, fits) =
    let (acts, s', run, served) = io_server_step-Served d.sender d.msg h fit in
    let turn : Turn = record { delivery = d; actions = if d.failed then panic ∷ acts else acts } in
    elim (Bool-cases (is_exit d.msg.type)) [
      | inl last ↦ (
        record { server = s'; turns = turn ∷ []; ended = true; rest = ds },
        rw (run, last) refl,
        record {
          serving = served.serving;
          received = refl;
          stopped = inl refl;
          input =
              balance (contents s.rb_in) (came_in turn) (to_clients turn) (contents s'.rb_in) [] []
                (contents s'.rb_in) (turn_input d served) (append-nil (contents s'.rb_in));
          output =
              balance (contents s.rb_out) (was_written turn) (went_out turn) (contents s'.rb_out) []
                [] (contents s'.rb_out) (turn_output d served) (append-nil (contents s'.rb_out));
        },
      )
      | inr more ↦
          let (p, rest, ran) = io_server_loop-Ran ds served.serving fits in
          (
            record p { turns = turn ∷ p.turns },
            rw (run, more, rest) refl,
            record {
              serving = ran.serving;
              received = ap (λ l. d ∷ l) ran.received;
              stopped = ran.stopped;
              input =
                  balance (contents s.rb_in) (came_in turn) (to_clients turn) (contents s'.rb_in)
                    (gathered came_in p.turns) (gathered to_clients p.turns)
                    (contents p.server.rb_in) (turn_input d served) ran.input;
              output =
                  balance (contents s.rb_out) (was_written turn) (went_out turn)
                    (contents s'.rb_out) (gathered was_written p.turns) (gathered went_out p.turns)
                    (contents p.server.rb_out) (turn_output d served) ran.output;
            },
          )
    ]

buffers :
    (buf : List ℕ)
    → length buf ≡ buffer_size
    → (0 < buffer_size) × (buffer_size ≤ length buf) × (buffer_size ≤ 2 ^ 31)
buffers buf e = omega (arith, e)

-- From its initial state, whose buffers have 128 bytes each, the server handles any messages that give
-- lengths of at most 31 without an access out of bounds, until a message of type exit or the last one,
-- and then no byte waits for a transmitter or a client that is ready. All the bytes that notif_rx
-- messages brought are those that the replies to client_read and notif_rx messages carried, in order,
-- followed by those that the input ring holds; all that client_write messages brought are those that the
-- replies to client_write and notif_tx messages carried, in order, followed by those that the output ring
-- holds. Bytes that a full ring refuses, with a panic, do not count as brought.
pub io_server_loop-init :
    (in_buf out_buf : List ℕ) (tx_notifier_tid : ℕ) (ds : List Delivery)
    → length in_buf ≡ buffer_size
    → length out_buf ≡ buffer_size
    → AllFit ds
    → (p : Progress) × (io_server_loop ds (io_server_init in_buf out_buf tx_notifier_tid) ≡ some p)
      × IsServing p.server
      × (deliveries p.turns ++ p.rest ≡ ds)
      × ((p.ended ≡ true) ⊎ (p.rest ≡ []))
      × (gathered came_in p.turns ≡ gathered to_clients p.turns ++ contents p.server.rb_in)
      × (gathered was_written p.turns ≡ gathered went_out p.turns ++ contents p.server.rb_out)
unfolding io_server_init ringbuffer_init ringbuffer_size
io_server_loop-init in_buf out_buf tx ds m n fits =
    let (in_pos, in_fit, small) = buffers in_buf m in
    let (out_pos, out_fit, small') = buffers out_buf n in
    let start : IsServing (io_server_init in_buf out_buf tx) = record {
      valid_in = ringbuffer_init-IsValid in_buf buffer_size in_pos in_fit small;
      valid_out = ringbuffer_init-IsValid out_buf buffer_size out_pos out_fit small';
      idle_in = λ r. refl;
      idle_out = λ r. refl;
    } in
    let (p, run, ran) = io_server_loop-Ran ds start fits in
    (p, run, ran.serving, ran.received, ran.stopped, ran.input, ran.output)
