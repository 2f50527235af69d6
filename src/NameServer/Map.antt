-- ===== src/NameServer/Map.antt =====
-- About the name map of src/name_server/name_server.c and its start.
use mathlib.Core.Path.{subst, sym}
use armv4_kernel.Prelude.{
  ℕ, zero, suc, ◌+◌, ◌<◌, ◌≤◌, ◌≡◌, refl, true, List, [], ◌∷◌, arith, length, has, Bool-cases, inl,
  inr, ◌==◌,
}
use armv4_kernel.Queue.{Ptr, update, queue_node_init, queue_init}
use armv4_kernel.Queue.Rep.{IsQueue}
use armv4_kernel.Queue.Fifo.{queue_init-IsQueue}
use armv4_kernel.NameServer.{
  NameMap, node_at, max_names, init_from, name_map_init, name_map_entry_init,
}

-- The nodes of `n` entries, the newest first.
abbrev pub down : ℕ → List Ptr
down zero = []
down (suc n) = node_at n ∷ down n

pub has-down : (a n : ℕ) → has a (down n) ≡ true → (0 < a) × (a ≤ n)
has-down a zero h = cc
has-down a (suc n) h = ground (arith, has-down a n)

pub length-down : (n : ℕ) → length (down n) ≡ n
length-down zero = refl
length-down (suc n) = omega (arith, length-down n)

-- The first `n` entries are in use, the newest in front of the queue.
pub record IsNameMap (nm : NameMap) (n : ℕ) : Type 0 where
  pub queue : IsQueue nm.queue nm.nodes (down n)
  pub in_range : n ≤ max_names
  pub owns : (i : ℕ) → i < max_names → nm.nodes.payload (node_at i) ≡ i
  pub bytes : (i j : ℕ) → (nm.node_data i).name j < 256

abbrev init_one : ℕ → NameMap → NameMap
init_one i nm = record nm {
  nodes = queue_node_init (node_at i) i nm.nodes;
  node_data = update nm.node_data i (name_map_entry_init (nm.node_data i));
}

init_from_kept :
    (n i : ℕ) (nm : NameMap) (j : ℕ)
    → j < i
    → (init_from n i nm).nodes.payload (node_at j) ≡ nm.nodes.payload (node_at j)
unfolding init_from queue_node_init
init_from_kept zero i nm j p = refl
init_from_kept (suc n) i nm j p =
    ground (arith, init_from_kept n (i + 1) (init_one i nm) j (omega arith))

init_from_owns :
    (n i : ℕ) (nm : NameMap) (j : ℕ)
    → i ≤ j
    → j < i + n
    → (init_from n i nm).nodes.payload (node_at j) ≡ j
unfolding init_from queue_node_init
init_from_owns zero i nm j p q = absurd (omega arith)
init_from_owns (suc n) i nm j p q = elim (Bool-cases (j == i)) [
  | inl e ↦ ground (arith, init_from_kept n (i + 1) (init_one i nm) j)
  | inr e ↦ init_from_owns n (i + 1) (init_one i nm) j (ground arith) (omega arith)
]

-- Every name is an array of bytes.
abbrev pub HasBytes : NameMap → Type 0
HasBytes nm = (i j : ℕ) → (nm.node_data i).name j < 256

init_from-HasBytes : (n i : ℕ) (nm : NameMap) → HasBytes nm → HasBytes (init_from n i nm)
unfolding init_from name_map_entry_init
init_from-HasBytes zero i nm h = h
init_from-HasBytes (suc n) i nm h =
    init_from-HasBytes n (i + 1) (init_one i nm) (λ k j. ground (arith, h i j, h k j))

init_from_queue : (n i : ℕ) (nm : NameMap) → (init_from n i nm).queue ≡ nm.queue
unfolding init_from
init_from_queue zero i nm = refl
init_from_queue (suc n) i nm = init_from_queue n (i + 1) (init_one i nm)

-- `name_map_init`, over any bytes, gives a map that holds no name.
pub name_map_init-IsNameMap : (nm : NameMap) → HasBytes nm → IsNameMap (name_map_init nm) 0
unfolding name_map_init
name_map_init-IsNameMap nm h =
    let nm' : NameMap = init_from max_names 0 (record nm { queue = queue_init }) in
    record {
      queue =
          subst (λ q. IsQueue q nm'.nodes [])
            (sym (init_from_queue max_names 0 (record nm { queue = queue_init })))
            (queue_init-IsQueue nm'.nodes);
      in_range = omega arith;
      owns = λ i p. init_from_owns max_names 0 (record nm { queue = queue_init }) i (omega arith) p;
      bytes = init_from-HasBytes max_names 0 (record nm { queue = queue_init }) h;
    }
