-- ===== src/NameServer.antt =====
-- The name server of src/name_server/name_server.c: the map from names to tasks, and the answer to a
-- message.
-- The map's node `i` has address `i + 1`, and its data pointer is the index of an entry. A name is an
-- array of bytes. `none` is an access past the 256 entries, or through `NULL`.
pub mod Find
pub mod Loop
pub mod Map
pub mod Serve
mod Tests
use armv4_kernel.Prelude.{
  ℕ, zero, suc, ◌+◌, ◌%◌, Bool, Option, none, some, ◌==◌, ltb, if◌then◌else◌, ◌>>=◌,
}
use armv4_kernel.Queue.{
  Ptr, null, Nodes, Queue, update, get_data, get_next, queue_node_init, queue_init, queue_size,
  queue_put_front,
}
use armv4_kernel.CString.{Bytes, strncpy, strncmp}

abbrev pub max_names : ℕ
max_names = 256

abbrev pub max_name_len : ℕ
max_name_len = 12

pub record Entry : Type 0 where
  pub name : Bytes
  pub tid : ℕ

pub record NameMap : Type 0 where
  pub queue : Queue
  pub nodes : Nodes ℕ
  pub node_data : ℕ → Entry

-- `&ctx->nodes[i]`
abbrev pub node_at : ℕ → Ptr
node_at i = i + 1

unfoldable pub name_map_entry_init : Entry → Entry
name_map_entry_init e = record { name = update e.name 0 0; tid = 0 }

-- The entries from `i` on, with the rounds left.
unfoldable pub init_from : ℕ → ℕ → NameMap → NameMap
unfolding name_map_entry_init
init_from zero i nm = nm
init_from (suc n) i nm = init_from n (i + 1) (record nm {
  nodes = queue_node_init (node_at i) i nm.nodes;
  node_data = update nm.node_data i (name_map_entry_init (nm.node_data i));
})

unfoldable pub name_map_init : NameMap → NameMap
unfolding init_from
name_map_init nm = init_from max_names 0 (record nm { queue = queue_init })

unfoldable pub name_map_insert : NameMap → Bytes → ℕ → Option (ℕ × NameMap)
name_map_insert nm name tid =
    let elements = queue_size nm.queue in
    if ltb elements max_names
    then (do
      entry ← get_data (node_at elements) nm.nodes
      let copied = strncpy (nm.node_data entry).name name max_name_len
      (error, queue, nodes) ← queue_put_front nm.queue (node_at elements) nm.nodes
      some (
        error,
        record {
          queue = queue;
          nodes = nodes;
          node_data = update nm.node_data entry (record { name = copied; tid = tid });
        },
      ))
    else none

-- The loop, with fuel; `none` if it runs out. The inner `none` is the `NULL` of a name not found.
unfoldable pub find_loop : ℕ → Ptr → Bytes → NameMap → Option (Option ℕ)
find_loop zero node name nm = none
find_loop (suc fuel) node name nm =
    let rest : Option (Option ℕ) = (do
      next_node ← get_next node nm.nodes
      find_loop fuel next_node name nm) in
    if node == null then some none else do
      entry ← get_data node nm.nodes
      if strncmp (nm.node_data entry).name name max_name_len == 0 then some (some entry) else rest

unfoldable pub name_map_find : NameMap → Bytes → Option (Option ℕ)
unfolding find_loop
name_map_find nm name = find_loop (max_names + 1) nm.queue.front name nm

pub data MsgType : Type 0 where
  register who_is exit : MsgType

-- The `switch` of the server's loop: what is replied, if anything, and the map afterwards. The reply
-- 1 to `who_is` means that the name is not known.
unfoldable pub serve : MsgType → Bytes → ℕ → NameMap → Option (Option ℕ × NameMap)
serve register name sender nm = do (rep, nm') ← name_map_insert nm name sender; some (some rep, nm')
serve who_is name sender nm = do
  found ← name_map_find nm name
  some (some (elim found [ none ↦ 1 | some entry ↦ (nm.node_data entry).tid ]), nm)
serve exit name sender nm = some (none, nm)
