-- ===== src/RingBuffer.antt =====
-- The byte ring of src/ringbuffer/ringbuffer.c and include/ringbuffer.h. One slot of the buffer stays
-- free, so that equal indices mean empty.
-- A `size_t` is a number below 2 ^ 32, with wrapping arithmetic. A `uint8_t *` into the buffer is
-- an index of it. A write past the buffer changes nothing here.
mod Tests
pub mod Cases
pub mod Contents
pub mod Fifo
pub mod Valid
pub mod Window
pub mod Refine
use armv4_kernel.Prelude.{
  ℕ, zero, suc, ◌+◌, ◌-◌, ◌%◌, ◌^◌, Bool, true, false, Option, none, some, List, [], ◌∷◌, ◌==◌, ltb,
  if◌then◌else◌, set, get_or,
}

pub record RingBuffer : Type 0 where
  pub read_index : ℕ
  pub write_index : ℕ
  pub size : ℕ
  pub buf : List ℕ

-- `(i + 1) % size`
abbrev pub step : RingBuffer → ℕ → ℕ
step rb i = (i + 1) % 2 ^ 32 % rb.size

-- `*p` for a pointer into the buffer
abbrev pub deref : RingBuffer → ℕ → ℕ
deref rb p = get_or rb.buf p 0

unfoldable pub ringbuffer_init : List ℕ → ℕ → RingBuffer
ringbuffer_init buf buf_size = record {
  read_index = 0;
  write_index = 0;
  size = buf_size;
  buf = buf;
}

unfoldable pub ringbuffer_empty : RingBuffer → Bool
ringbuffer_empty rb = rb.read_index == rb.write_index

unfoldable pub ringbuffer_full : RingBuffer → Bool
ringbuffer_full rb = step rb rb.write_index == rb.read_index

unfoldable pub ringbuffer_size : RingBuffer → ℕ
ringbuffer_size rb =
    if ltb rb.write_index rb.read_index
    then ((rb.write_index + rb.size) % 2 ^ 32 + 2 ^ 32 - rb.read_index) % 2 ^ 32
    else rb.write_index - rb.read_index

-- The pointer is `none` for `NULL`.
unfoldable pub ringbuffer_get : RingBuffer → Option ℕ × RingBuffer
unfolding ringbuffer_empty
ringbuffer_get rb =
    if ringbuffer_empty rb
    then (none, rb)
    else (some rb.read_index, record rb { read_index = step rb rb.read_index })

-- The write of one byte that `ringbuffer_put` and the loop of `ringbuffer_putn` share.
abbrev pub write_byte : RingBuffer → ℕ → RingBuffer
write_byte rb byte = record rb {
  write_index = step rb rb.write_index;
  buf = set rb.buf rb.write_index byte;
}

unfoldable pub ringbuffer_put : RingBuffer → ℕ → Bool × RingBuffer
unfolding ringbuffer_full
ringbuffer_put rb byte = if ringbuffer_full rb then (false, rb) else (true, write_byte rb byte)

-- The rounds `i` to `data_len - 1`, with the bytes from `data[i]` on.
unfoldable pub putn_loop : ℕ → List ℕ → RingBuffer → RingBuffer
putn_loop zero bytes rb = rb
putn_loop (suc n) [] rb = rb
putn_loop (suc n) (b ∷ bytes) rb = putn_loop n bytes (write_byte rb b)

unfoldable pub ringbuffer_putn : RingBuffer → List ℕ → ℕ → Bool × RingBuffer
unfolding ringbuffer_size putn_loop
ringbuffer_putn rb bytes data_len =
    if ltb (((rb.size + 2 ^ 32 - 1) % 2 ^ 32 + 2 ^ 32 - ringbuffer_size rb) % 2 ^ 32) data_len
    then (false, rb)
    else (true, putn_loop data_len bytes rb)
