-- ===== src/RingBuffer/Valid.antt =====
-- The invariant of the byte ring: indices in range, storage for them, no wrap of `size_t`.
use armv4_kernel.Prelude.{ℕ, ◌^◌, ◌<◌, ◌≤◌, arith, length, length-set, List}
use armv4_kernel.RingBuffer.{
  RingBuffer, step, ringbuffer_init, ringbuffer_get, ringbuffer_put, write_byte,
}

pub record IsValid (rb : RingBuffer) : Type 0 where
  pub read_in : rb.read_index < rb.size
  pub write_in : rb.write_index < rb.size
  pub storage : rb.size ≤ length rb.buf
  pub small : rb.size ≤ 2 ^ 31

pub step-lt : (rb : RingBuffer) (i : ℕ) → 0 < rb.size → step rb i < rb.size
step-lt rb i h = omega arith

pub write_byte-IsValid : {rb : RingBuffer} (b : ℕ) → IsValid rb → IsValid (write_byte rb b)
write_byte-IsValid {rb} b v =
    omega (arith, step-lt rb rb.write_index (omega arith), length-set rb.buf rb.write_index b)

-- A buffer that holds its `buf_size` bytes, at least one and at most 2 ^ 31, gives a valid ring.
pub ringbuffer_init-IsValid :
    (buf : List ℕ) (buf_size : ℕ)
    → 0 < buf_size
    → buf_size ≤ length buf
    → buf_size ≤ 2 ^ 31
    → IsValid (ringbuffer_init buf buf_size)
unfolding ringbuffer_init
ringbuffer_init-IsValid buf n p q r = omega arith

pub ringbuffer_get-IsValid : {rb : RingBuffer} → IsValid rb → IsValid (ringbuffer_get rb).1
unfolding ringbuffer_get
ringbuffer_get-IsValid {rb} v = ground (arith, step-lt rb rb.read_index (omega arith))

pub ringbuffer_put-IsValid :
    {rb : RingBuffer} (b : ℕ) → IsValid rb → IsValid (ringbuffer_put rb b).1
unfolding ringbuffer_put
ringbuffer_put-IsValid {rb} b v =
    ground (arith, step-lt rb rb.write_index (omega arith), length-set rb.buf rb.write_index b)
