-- ===== src/ClockServer/Loop.antt =====
-- The loops of src/clock_server/clock_server.c, over the messages that `Receive` delivers.
-- A delivery is what `sender_tid` and `msg` hold after `Receive`; where that returned an error, of which
-- a line is printed, they are the former ones. `RegisterAs`, `Create` and the printed lines are left out.
use armv4_kernel.Prelude.{ℕ, suc, Bool, true, false, Option, none, some, List, [], ◌∷◌, ◌>>=◌}
use armv4_kernel.Task.{minus}
use armv4_kernel.ClockServer.{
  ClockServer, ClockServerMsg, ClockServerMsgType, Answer, answer, clock_server_step,
}

pub record Delivery : Type 0 where
  pub sender : ℕ
  pub msg : ClockServerMsg

-- How far the loop came: the server, its answers round by round, the task that ended it, and the
-- messages not received.
pub record Progress : Type 0 where
  pub server : ClockServer
  pub turns : List (List Answer)
  pub exiter : Option ℕ
  pub rest : List Delivery

abbrev pub is_exit : ClockServerMsgType → Bool
is_exit ClockServerMsgType.exit = true
is_exit _ = false

-- The handlers that change the message's type change it to `error` or `tick`.
unfoldable pub clock_server_loop : List Delivery → ClockServer → Option Progress
clock_server_loop [] s = some (record { server = s; turns = []; exiter = none; rest = [] })
clock_server_loop (d ∷ ds) s = do
  (answers, s') ← clock_server_step d.sender d.msg s
  elim (is_exit d.msg.type) [
    | true ↦ some (record { server = s'; turns = answers ∷ []; exiter = some d.sender; rest = ds })
    | false ↦ do p ← clock_server_loop ds s'; some (record p { turns = answers ∷ p.turns })
  ]

abbrev pub is_tick : ClockServerMsgType → Bool
is_tick ClockServerMsgType.tick = true
is_tick _ = false

-- After the loop: waits for the notifier's message. `none`: it has not come.
unfoldable pub clock_server_shutdown : ℕ → List Delivery → Option (List Answer)
clock_server_shutdown exiter [] = none
clock_server_shutdown exiter (d ∷ ds) = elim (is_tick d.msg.type) [
  | true ↦ some (
      answer d.sender ClockServerMsgType.exit (minus 1)
      ∷ answer exiter ClockServerMsgType.exit (minus 1)
      ∷ [])
  | false ↦ clock_server_shutdown exiter ds
]

-- How many messages the notifier sends, given the types of the replies it gets.
unfoldable pub clock_server_notifier_main : List ClockServerMsgType → ℕ
clock_server_notifier_main [] = 0
clock_server_notifier_main (t ∷ ts) = elim (is_exit t) [
  | true ↦ 1
  | false ↦ suc (clock_server_notifier_main ts)
]
