-- ===== src/Queue.antt =====
-- The intrusive queue of src/queue/queue.c and include/internal/queue.h.
-- A `queue_node_t *` is an address, `null` is 0. The nodes live in the structures that own them, so
-- a store gives the two fields of the node at each address; only an access through `null` faults.
-- A function that updates `*ctx` returns the new queue, beside its result and the new store.
mod Tests
pub mod Fifo
pub mod Mtf
pub mod Ops
pub mod Rep
pub mod Twice
use armv4_kernel.Prelude.{
  ℕ, ◌+◌, ◌-◌, ◌%◌, ◌^◌, Bool, ◌||◌, Option, none, some, ◌==◌, if◌then◌else◌, ◌>>=◌,
}

abbrev pub Ptr : Type 0
Ptr = ℕ

abbrev pub null : Ptr
null = 0

-- `A` is what a data pointer points to.
pub record Nodes {ℓ} (A : Type ℓ) : Type ℓ where
  pub payload : Ptr → A
  pub next : Ptr → Ptr

pub record Queue : Type 0 where
  pub front : Ptr
  pub back : Ptr
  pub elements : ℕ

abbrev pub update {ℓ} : {A : Type ℓ} → (ℕ → A) → ℕ → A → ℕ → A
update f i v j = if j == i then v else f j

-- `p->next`, which faults at `NULL`.
abbrev pub get_next {ℓ} : {A : Type ℓ} → Ptr → Nodes A → Option Ptr
get_next p s = if p == null then none else some (s.next p)

-- `p->data`
abbrev pub get_data {ℓ} : {A : Type ℓ} → Ptr → Nodes A → Option A
get_data p s = if p == null then none else some (s.payload p)

-- `p->next = q`
abbrev pub set_next {ℓ} : {A : Type ℓ} → Ptr → Ptr → Nodes A → Option (Nodes A)
set_next p q s =
    if p == null then none else some (record { payload = s.payload; next = update s.next p q })

-- `size_t` arithmetic is modulo 2 ^ 32.
abbrev pub inc_size : ℕ → ℕ
inc_size n = (n + 1) % 2 ^ 32

abbrev pub dec_size : ℕ → ℕ
dec_size n = (n + 2 ^ 32 - 1) % 2 ^ 32

unfoldable pub queue_node_init {ℓ} : {A : Type ℓ} → Ptr → A → Nodes A → Nodes A
queue_node_init p d s = record { payload = update s.payload p d; next = update s.next p null }

unfoldable pub queue_init : Queue
queue_init = record { front = null; back = null; elements = 0 }

unfoldable pub queue_size : Queue → ℕ
queue_size q = q.elements

unfoldable pub queue_empty : Queue → Bool
unfolding queue_size
queue_empty q = queue_size q == 0

module _ {ℓ} {A : Type ℓ} where
  unfoldable pub queue_put : Queue → Ptr → Nodes A → Option (ℕ × Queue × Nodes A)
  queue_put q node s = if node == null then some (1, q, s) else do
    s₁ ← if q.elements == 0 then some s else set_next q.back node s
    s₂ ← set_next node null s₁
    some (0, put_in, s₂)
    where
      put_in : Queue
      put_in = record {
        front = if q.elements == 0 then node else q.front;
        back = node;
        elements = inc_size q.elements;
      }

  unfoldable pub queue_put_front : Queue → Ptr → Nodes A → Option (ℕ × Queue × Nodes A)
  queue_put_front q node s =
      if node == null
      then some (1, q, s)
      else do s' ← set_next node (if q.elements == 0 then null else q.front) s; some (0, put_in, s')
    where
      put_in : Queue
      put_in = record {
        front = node;
        back = if q.elements == 0 then node else q.back;
        elements = inc_size q.elements;
      }

  -- The inner `none` is the `NULL` that an empty queue returns.
  unfoldable pub queue_get : Queue → Nodes A → Option (Option A × Queue × Nodes A)
  unfolding queue_empty
  queue_get q s = if queue_empty q then some (none, q, s) else do
    ret ← get_data q.front s
    rest ← get_next q.front s
    s' ← set_next q.front null s
    some (some ret, record q { front = rest; elements = dec_size q.elements }, s')

  unfoldable pub queue_peek : Queue → Nodes A → Option (Option A)
  unfolding queue_empty
  queue_peek q s = if queue_empty q then some none else do ret ← get_data q.front s; some (some ret)

  -- `parent->next` is read before `ctx` is looked at.
  unfoldable pub queue_mtf : Queue → Ptr → Nodes A → Option (ℕ × Queue × Nodes A)
  unfolding queue_empty
  queue_mtf q parent s = if parent == null then some (0, q, s) else do
    new_front ← get_next parent s
    if new_front == null || queue_empty q then some (1, q, s) else do
      after ← get_next new_front s
      s₁ ← set_next parent after s
      s₂ ← set_next new_front parent s₁
      some (0, record q { front = new_front }, s₂)
