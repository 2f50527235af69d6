-- ===== src/Kernel/Messages.antt =====
-- The message passing of src/main.c: `kernel_send`, `kernel_receive` and `kernel_reply`.
use armv4_kernel.Prelude.{ℕ, Bool, not, Option, some, ◌==◌, if◌then◌else◌, ◌>>=◌}
use armv4_kernel.Queue.{update, queue_put, queue_get, queue_empty}
use armv4_kernel.CString.{memcpy}
use armv4_kernel.Task.{TaskState, minus, send_node}
use armv4_kernel.Kernel.{Kernel, write_task, write_state, set_return_value, make_ready, task_at}

abbrev pub is_send_blocked : TaskState → Bool
is_send_blocked TaskState.send_blocked = Bool.true
is_send_blocked _ = Bool.false

-- `active_td->message_params.rep = rep` and `.rep_len = rep_len`, the end of `kernel_send`.
abbrev pub set_reply : ℕ → (rep rep_len : ℕ) → Kernel → Kernel
set_reply active rep rep_len k =
    let d = k.tasks.tds active in
    write_task active
      (record d { message_params = record (d.message_params) { rep = rep; rep_len = rep_len } }) k

-- The receiver waits for a message.
unfoldable pub send_to_waiting :
    (active receiver : ℕ) → (msg msg_len rep rep_len : ℕ) → Kernel → Option (ℕ × Kernel)
send_to_waiting active receiver msg msg_len rep rep_len k =
    let params = (k.tasks.tds receiver).message_params in
    if not (params.msg_len == msg_len)
    then (do k' ← make_ready active k; some (minus 2, k'))
    else do
      let sender = (k.tasks.tds active).tid
      let mem = update (memcpy params.msg msg msg_len k.mem) params.tid sender
      k' ← make_ready receiver (set_return_value receiver sender (record k { mem = mem }))
      some (0, set_reply active rep rep_len (write_state active TaskState.reply_blocked k'))

-- The receiver is not waiting.
unfoldable pub send_to_busy :
    (active receiver : ℕ) → (msg msg_len rep rep_len : ℕ) → Kernel → Option (ℕ × Kernel)
send_to_busy active receiver msg msg_len rep rep_len k = do
  (_, q, nodes) ← queue_put (k.tasks.tds receiver).send_q (send_node active) k.tasks.nodes
  let k₁ =
      write_task receiver (record (k.tasks.tds receiver) { send_q = q })
        (record k { tasks = record { tds = k.tasks.tds; nodes = nodes } })
  let k₂ = write_state active TaskState.receive_blocked k₁
  let d = k₂.tasks.tds active
  let params = record (d.message_params) { msg = msg; msg_len = msg_len }
  some (
    0,
    set_reply active rep rep_len (write_task active (record d { message_params = params }) k₂),
  )

unfoldable pub kernel_send :
    (active tid : ℕ) → (msg msg_len rep rep_len : ℕ) → Kernel → Option (ℕ × Kernel)
kernel_send active tid msg msg_len rep rep_len k = do
  receiver ← task_at tid
  if not ((k.tasks.tds receiver).tid == tid)
      then (do k' ← make_ready active k; some (minus 1, k'))
      else if is_send_blocked (k.tasks.tds receiver).state
      then send_to_waiting active receiver msg msg_len rep rep_len k
      else send_to_busy active receiver msg msg_len rep rep_len k

-- A sender waits in the queue. The message is taken from it, unless the lengths differ.
unfoldable pub receive_from :
    (active sender : ℕ) → (tid msg msg_len : ℕ) → Kernel → Option (ℕ × Kernel)
receive_from active sender tid msg msg_len k =
    let params = (k.tasks.tds sender).message_params in
    if not (params.msg_len == msg_len)
    then (do k' ← make_ready active k; some (minus 1, k'))
    else do
      let mem = update (memcpy msg params.msg msg_len k.mem) tid (k.tasks.tds sender).tid
      k' ← make_ready active (record k { mem = mem })
      some (k'.mem tid, write_state sender TaskState.reply_blocked k')

-- The pointer that `queue_get` returns is used unchecked, so that `NULL` faults.
unfoldable pub kernel_receive : (active tid msg msg_len : ℕ) → Kernel → Option (ℕ × Kernel)
kernel_receive active tid msg msg_len k =
    let d = k.tasks.tds active in
    if not (queue_empty d.send_q)
    then (do
      (front, q, nodes) ← queue_get d.send_q k.tasks.nodes
      sender ← front
      let k' =
          write_task active (record d { send_q = q })
            (record k { tasks = record { tds = k.tasks.tds; nodes = nodes } })
      receive_from active sender tid msg msg_len k')
    else (let params = record (d.message_params) { tid = tid; msg = msg; msg_len = msg_len } in
        some (
          0,
          write_task active (record d { state = TaskState.send_blocked; message_params = params })
              k,
        ))

unfoldable pub kernel_reply : (active tid rep rep_len : ℕ) → Kernel → Option (ℕ × Kernel)
kernel_reply active tid rep rep_len k = do
  reply_receiver ← task_at tid
  let d = k.tasks.tds reply_receiver
  if not (d.tid == tid)
      then (do k' ← make_ready active k; some (minus 1, k'))
      else if not (d.message_params.rep_len == rep_len)
      then (do k' ← make_ready active k; some (minus 2, k'))
      else do
        let mem = memcpy d.message_params.rep rep rep_len k.mem
        k₁ ← make_ready reply_receiver (set_return_value reply_receiver 0 (record k { mem = mem }))
        k₂ ← make_ready active k₁
        some (0, k₂)
