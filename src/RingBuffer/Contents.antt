-- ===== src/RingBuffer/Contents.antt =====
-- The bytes that a ring of src/ringbuffer/ringbuffer.c holds, and how a written byte extends them.
use mathlib.Core.Path.{◌∙◌, sym}
use native.Mathlib.Decide.{dec_lt}
use native.Mathlib.Nat.{mod-add-mod}
use native.Mathlib.Numerals.{add-one}
use armv4_kernel.Prelude.{
  ℕ, ◌+◌, ◌-◌, ◌%◌, ◌^◌, ◌<◌, ◌≤◌, ◌≡◌, ap, ap₂, List, [], ◌∷◌, ◌++◌, arith, length, set, get_or,
  ◌==◌, lt→ltb,
}
use armv4_kernel.RingBuffer.{
  RingBuffer, step, ringbuffer_empty, ringbuffer_full, ringbuffer_size, write_byte,
}
use armv4_kernel.RingBuffer.Valid.{IsValid, write_byte-IsValid}
use armv4_kernel.RingBuffer.Window.{window, length-window, window-set, one_round, get_or-set_self}

-- The bytes that the ring holds.
abbrev pub contents : RingBuffer → List ℕ
contents rb = window rb.buf rb.size rb.read_index (ringbuffer_size rb)

-- `n` bytes stand between the indices.
pub record Holds (rb : RingBuffer) (n : ℕ) : Type 0 where
  pub below : n < rb.size
  pub meets : (rb.read_index + n) % rb.size ≡ rb.write_index

module _ {rb : RingBuffer} (v : IsValid rb) where
  size_wrapped :
      rb.write_index < rb.read_index → ringbuffer_size rb ≡ rb.write_index + rb.size - rb.read_index
  unfolding ringbuffer_size
  size_wrapped p = rw (lt→ltb _ _ p) (omega arith)

  size_straight :
      rb.read_index ≤ rb.write_index → ringbuffer_size rb ≡ rb.write_index - rb.read_index
  unfolding ringbuffer_size
  size_straight p = ground arith

  pub size-Holds : Holds rb (ringbuffer_size rb)
  size-Holds = elim (dec_lt rb.write_index rb.read_index) [
    | yes p ↦ omega (
      arith,
      size_wrapped p,
      one_round rb.size (rb.read_index + ringbuffer_size rb) (omega (arith, size_wrapped p)),
    )
    | no p ↦ omega (
      arith,
      size_straight (omega arith),
      one_round rb.size (rb.read_index + ringbuffer_size rb)
          (omega (arith, size_straight (omega arith))),
    )
  ]

  pub size_unique : (n : ℕ) → Holds rb n → ringbuffer_size rb ≡ n
  size_unique n m = omega (
    arith,
    size-Holds,
    one_round rb.size (rb.read_index + n) (omega arith),
    one_round rb.size (rb.read_index + ringbuffer_size rb) (omega (arith, size-Holds)),
  )

  pub step_eq : (i : ℕ) → i < rb.size → step rb i ≡ (i + 1) % rb.size
  step_eq i h = let e : (i + 1) % 2 ^ 32 ≡ i + 1 = omega arith in ap (λ k. k % rb.size) e

  -- The free slot: the ring is full when one slot is left.
  pub full_eq : ringbuffer_full rb ≡ (ringbuffer_size rb + 1 == rb.size)
  unfolding ringbuffer_full
  full_eq = ground (
    arith,
    size-Holds,
    step_eq rb.write_index v.write_in,
    one_round rb.size (rb.read_index + ringbuffer_size rb) (omega (arith, size-Holds)),
    one_round rb.size (rb.write_index + 1) (omega arith),
  )

  pub empty_eq : ringbuffer_empty rb ≡ (ringbuffer_size rb == 0)
  unfolding ringbuffer_empty
  empty_eq = ground (
    arith,
    size-Holds,
    one_round rb.size (rb.read_index + ringbuffer_size rb) (omega (arith, size-Holds)),
  )

module _ {rb : RingBuffer} (v : IsValid rb) (b : ℕ) where
  -- With room for it a byte is written behind the others.
  pub write_byte_size :
      ringbuffer_size rb + 1 < rb.size → ringbuffer_size (write_byte rb b) ≡ ringbuffer_size rb + 1
  write_byte_size room =
      size_unique (write_byte-IsValid b v) (ringbuffer_size rb + 1)
        (record { below = room; meets = meets_after })
    where
      meets_after : (rb.read_index + (ringbuffer_size rb + 1)) % rb.size ≡ step rb rb.write_index
      meets_after =
          ap (λ k. k % rb.size) (omega arith)
          ∙ sym (mod-add-mod (rb.read_index + ringbuffer_size rb) rb.size 1)
          ∙ ap (λ k. (k + 1) % rb.size) (size-Holds v).meets
          ∙ sym (step_eq v rb.write_index v.write_in)

  pub contents-write_byte :
      ringbuffer_size rb + 1 < rb.size → contents (write_byte rb b) ≡ contents rb ++ b ∷ []
  contents-write_byte room =
      ap (window buf' rb.size rb.read_index) (write_byte_size room ∙ add-one (ringbuffer_size rb))
      ∙ ap₂ (λ l x. l ++ x ∷ [])
          (window-set rb.buf rb.size rb.read_index (ringbuffer_size rb) rb.write_index b v.read_in
            (size-Holds v).below (sym (size-Holds v).meets) (ringbuffer_size rb) (omega arith))
          (ap (λ i. get_or buf' i 0) (size-Holds v).meets
            ∙ get_or-set_self rb.buf rb.write_index b (omega (arith, v.write_in, v.storage)))
    where
      buf' : List ℕ
      buf' = set rb.buf rb.write_index b

pub length-contents : (rb : RingBuffer) → length (contents rb) ≡ ringbuffer_size rb
length-contents rb = length-window rb.buf rb.size rb.read_index (ringbuffer_size rb)
