-- ===== src/IoServer/Run.antt =====
-- The loops of `io_server_main` of src/io_server/io_server.c, over the messages that `Receive` delivers.
-- A delivery says whether `Receive` returned an error, and what `sender_tid` and `msg` then hold. What
-- comes before the loops is in Start; `bwprintf` is left out.
pub mod Drain
pub mod Whole
use armv4_kernel.Prelude.{
  ℕ, zero, suc, ◌+◌, Bool, true, false, Option, none, some, List, [], ◌∷◌, ◌++◌, ltb, if◌then◌else◌,
  ◌>>=◌,
}
use armv4_kernel.RingBuffer.{ringbuffer_init}
use armv4_kernel.IoServer.{
  IoServer, IoServerMsg, IoServerMsgType, Action, reply, panic, buffer_size, io_server_step,
}

pub record Delivery : Type 0 where
  pub failed : Bool
  pub sender : ℕ
  pub msg : IoServerMsg

-- One round of the loop: the message, and what the server did.
pub record Turn : Type 0 where
  pub delivery : Delivery
  pub actions : List Action

-- How far the loop came: the server, its rounds, whether it ended, and the messages not received.
pub record Progress : Type 0 where
  pub server : IoServer
  pub turns : List Turn
  pub ended : Bool
  pub rest : List Delivery

abbrev pub is_exit : IoServerMsgType → Bool
is_exit IoServerMsgType.exit = true
is_exit _ = false

-- `in_buf` and `out_buf` hold what the stack held; `client_tid` is 0.
unfoldable pub io_server_init : (in_buf out_buf : List ℕ) (tx_notifier_tid : ℕ) → IoServer
io_server_init in_buf out_buf tx_notifier_tid = record {
  rb_in = ringbuffer_init in_buf buffer_size;
  rb_out = ringbuffer_init out_buf buffer_size;
  tx_ready = false;
  client_ready = false;
  client_tid = 0;
  tx_notifier_tid = tx_notifier_tid;
}

-- `panic` returns.
unfoldable pub io_server_loop : List Delivery → IoServer → Option Progress
io_server_loop [] s = some (record { server = s; turns = []; ended = false; rest = [] })
io_server_loop (d ∷ ds) s = do
  (acts, s') ← io_server_step d.sender d.msg s
  let turn : Turn = record { delivery = d; actions = if d.failed then panic ∷ acts else acts }
  elim (is_exit d.msg.type) [
    | true ↦ some (record { server = s'; turns = turn ∷ []; ended = true; rest = ds })
    | false ↦ do p ← io_server_loop ds s'; some (record p { turns = turn ∷ p.turns })
  ]

abbrev pub is_notif : IoServerMsgType → Bool
is_notif IoServerMsgType.notif_rx = true
is_notif IoServerMsgType.notif_tx = true
is_notif _ = false

-- The second loop, which sends the notifiers away: its replies and the count it reached.
unfoldable pub exit_notifiers : ℕ → List Delivery → List Action × ℕ
exit_notifiers notifier_exit_count [] = ([], notifier_exit_count)
exit_notifiers notifier_exit_count (d ∷ ds) = elim (ltb notifier_exit_count 2) [
  | false ↦ ([], notifier_exit_count)
  | true ↦ elim (is_notif d.msg.type) [
    | false ↦ exit_notifiers notifier_exit_count ds
    | true ↦
        let (acts, count) = exit_notifiers (notifier_exit_count + 1) ds in
        (reply d.sender (record d.msg { type = IoServerMsgType.exit }) ∷ acts, count)
  ]
]
