-- ===== src/NameServer/Loop.antt =====
-- The loop of `name_server_main` of src/name_server/name_server.c, over the messages that `Receive`
-- delivers, and the functions that its clients call.
-- A request says whether `Receive` returned an error, and what `sender_tid` and `msg` then hold. `send` is
-- what the system call `Send` does with a message for the server: its result, and what `rep` then holds.
-- An `int` is its 32-bit pattern. The printed lines are left out.
pub mod History
use armv4_kernel.Prelude.{
  ℕ, zero, suc, Bool, true, false, not, Option, none, some, List, [], ◌∷◌, ◌++◌, ◌==◌,
  if◌then◌else◌, ◌>>=◌,
}
use armv4_kernel.CString.{Bytes, strncpy}
use armv4_kernel.Task.{minus}
use armv4_kernel.NameServer.{NameMap, MsgType, max_name_len, serve}

pub record Request : Type 0 where
  pub failed : Bool
  pub sender : ℕ
  pub type : MsgType
  pub name : Bytes

abbrev pub is_exit : MsgType → Bool
is_exit MsgType.exit = true
is_exit _ = false

-- How far the loop came: the replies in order, each with its receiver, the map, and whether it ended; the
-- message that ends the loop is answered after it.
pub record Outcome : Type 0 where
  pub replies : List (ℕ × ℕ)
  pub map : NameMap
  pub ended : Bool

abbrev pub reply_to : ℕ → Option ℕ → List (ℕ × ℕ)
reply_to sender none = []
reply_to sender (some rep) = (sender, rep) ∷ []

-- One round; an error skips it.
unfoldable pub round : Request → NameMap → Option (List (ℕ × ℕ) × NameMap)
round r nm =
    if r.failed
    then some ([], nm)
    else do (rep, nm') ← serve r.type r.name r.sender nm; some (reply_to r.sender rep, nm')

unfoldable pub name_server_loop : List Request → NameMap → Option Outcome
name_server_loop [] nm = some (record { replies = []; map = nm; ended = false })
name_server_loop (r ∷ rs) nm = do
  (replies, nm') ← round r nm
  elim (is_exit r.type) [
    | true ↦ some (record { replies = replies; map = nm'; ended = true })
    | false ↦ do o ← name_server_loop rs nm'; some (record o { replies = replies ++ o.replies })
  ]

-- A client's message: its type and the name's first bytes. `old` is what the variable holds.
unfoldable pub name_server_msg_init : MsgType → Bytes → Bytes → MsgType × Bytes
name_server_msg_init type name old = (type, strncpy old name max_name_len)

abbrev error_of : ℕ → ℕ
error_of res = if res == minus 1 then minus 1 else minus 2

module _ (send : MsgType × Bytes → ℕ × ℕ) where
  unfoldable pub register_as : Bytes → Bytes → ℕ
  unfolding name_server_msg_init
  register_as name old =
      let (res, rep) = send (name_server_msg_init MsgType.register name old) in
      if not (res == 0) then error_of res else 0

  -- Whether it prints that it failed.
  unfoldable pub name_server_exit : Bytes → Bool
  name_server_exit old = let (res, rep) = send (MsgType.exit, old) in not (res == 0)

-- `WhoIs` asks until the answer is not 1; what each of its calls of `Send` does, in order, is given.
-- `none`: it asks on.
unfoldable pub ask : MsgType × Bytes → List (MsgType × Bytes → ℕ × ℕ) → Option ℕ
ask msg [] = none
ask msg (send ∷ later) =
    let (res, rep) = send msg in
    let rest = ask msg later in
    if not (res == 0) then some (error_of res) else if not (rep == 1) then some rep else rest

unfoldable pub who_is : Bytes → Bytes → List (MsgType × Bytes → ℕ × ℕ) → Option ℕ
unfolding name_server_msg_init ask
who_is name old sends = ask (name_server_msg_init MsgType.who_is name old) sends
