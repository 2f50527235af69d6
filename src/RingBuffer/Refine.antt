-- ===== src/RingBuffer/Refine.antt =====
-- About the operations of src/ringbuffer/ringbuffer.c, beside the FIFO of RingBuffer/Fifo.
use mathlib.Core.Path.{◌∙◌, sym, subst}
use mathlib.Core.Option
use mathlib.Core.List.{append-nil, append_assoc}
use native.Mathlib.Nat.{mod-add-mod, mod-eq_of_lt}
use armv4_kernel.Prelude.{
  ℕ, zero, suc, ◌+◌, ◌-◌, ◌%◌, ◌^◌, ◌<◌, ◌≤◌, ◌≡◌, refl, ap, ap₂, List, [], ◌∷◌, ◌++◌, arith,
  length, get_or, take, true, false, Option, none, some, ◌==◌, ltb, Bool-cases, inl, inr,
  length-take,
}
use armv4_kernel.RingBuffer.Fifo
use armv4_kernel.RingBuffer.{
  RingBuffer, step, deref, ringbuffer_empty, ringbuffer_full, ringbuffer_size, ringbuffer_get,
  ringbuffer_put, ringbuffer_putn, putn_loop,
}
use armv4_kernel.RingBuffer.Valid.{
  ringbuffer_put-IsValid, ringbuffer_get-IsValid, IsValid, write_byte-IsValid,
}
use armv4_kernel.RingBuffer.Contents.{
  contents, size-Holds, size_unique, step_eq, full_eq, empty_eq, write_byte_size,
  contents-write_byte, length-contents,
}
use armv4_kernel.RingBuffer.Window.{window, window_oldest}

-- What `ringbuffer_put` answers and leaves.
put-contents :
    {rb : RingBuffer} (b : ℕ)
    → IsValid rb
    → let (done, rb') = ringbuffer_put rb b in
      (done, contents rb') ≡ Fifo.put (rb.size - 1) (contents rb) b
unfolding ringbuffer_put
put-contents {rb} b v =
    let test : (length (contents rb) == rb.size - 1) ≡ ringbuffer_full rb =
      ground (arith, full_eq v, length-contents rb, (size-Holds v).below) in
    elim (Bool-cases (ringbuffer_full rb)) [
      | inl e ↦ rw (test, e)
      | inr e ↦
          rw (test, e)
            (ap (λ l. (true, l))
              (contents-write_byte v b (ground (arith, full_eq v, (size-Holds v).below))))
    ]

abbrev pub after_get : RingBuffer → RingBuffer
after_get rb = record rb { read_index = step rb rb.read_index }

-- On a valid ring `ringbuffer_put` answers as a FIFO of `size - 1` bytes does, leaves the ring
-- holding its bytes, and keeps the ring valid.
pub put_refines :
    {rb : RingBuffer} (b : ℕ)
    → IsValid rb
    → let (done, rb') = ringbuffer_put rb b in
      ((done, contents rb') ≡ Fifo.put (rb.size - 1) (contents rb) b) × IsValid rb'
put_refines b v = (put-contents b v, ringbuffer_put-IsValid b v)

module _ {rb : RingBuffer} (v : IsValid rb) where
  get_none : ringbuffer_empty rb ≡ true → ringbuffer_get rb ≡ (none, rb)
  unfolding ringbuffer_get
  get_none e = rw e

  get_some : ringbuffer_empty rb ≡ false → ringbuffer_get rb ≡ (some rb.read_index, after_get rb)
  unfolding ringbuffer_get
  get_some e = rw e

  pub get_size : (k : ℕ) → ringbuffer_size rb ≡ suc k → ringbuffer_size (after_get rb) ≡ k
  get_size k e =
      size_unique
        (record {
          read_in = omega (arith, step_eq v rb.read_index v.read_in);
          write_in = v.write_in;
          storage = v.storage;
          small = v.small;
        })
        k (record { below = omega (arith, (size-Holds v).below); meets = meets_after })
    where
      meets_after : (step rb rb.read_index + k) % rb.size ≡ rb.write_index
      meets_after =
          ap (λ i. (i + k) % rb.size) (step_eq v rb.read_index v.read_in)
          ∙ mod-add-mod (rb.read_index + 1) rb.size k
          ∙ ap (λ i. i % rb.size) (omega (arith, e))
          ∙ (size-Holds v).meets

  -- The oldest byte, and the rest.
  get_contents :
      (k : ℕ)
      → ringbuffer_size rb ≡ suc k
      → contents rb ≡ get_or rb.buf rb.read_index 0 ∷ contents (after_get rb)
  get_contents k e =
      ap (window rb.buf rb.size rb.read_index) e
      ∙ window_oldest rb.buf rb.size rb.read_index k
      ∙ ap₂ (λ i l. get_or rb.buf i 0 ∷ l) (mod-eq_of_lt v.read_in)
          (ap₂ (window rb.buf rb.size) (sym (step_eq v rb.read_index v.read_in))
            (sym (get_size k e)))

-- A client's view of one byte taken out, and of an empty ring.
module _ {rb : RingBuffer} (v : IsValid rb) where
  pub get_oldest :
      ringbuffer_empty rb ≡ false
      → (ringbuffer_get rb ≡ (some rb.read_index, after_get rb))
        × IsValid (after_get rb)
        × (contents rb ≡ deref (after_get rb) rb.read_index ∷ contents (after_get rb))
  get_oldest e =
      let count : ringbuffer_size rb ≡ suc (ringbuffer_size rb - 1) = ground (arith, empty_eq v) in
      (
        get_some v e,
        subst IsValid (ap (λ (x : Option ℕ × RingBuffer). x.1) (get_some v e))
            (ringbuffer_get-IsValid v),
        get_contents v (ringbuffer_size rb - 1) count,
      )

  pub contents-empty : ringbuffer_empty rb ≡ true → contents rb ≡ []
  contents-empty e =
      let none_left : ringbuffer_size rb ≡ 0 = ground (arith, empty_eq v) in
      ap (window rb.buf rb.size rb.read_index) none_left

-- What `ringbuffer_get` answers and leaves.
get_answer :
    {rb : RingBuffer}
    → IsValid rb
    → let (p, rb') = ringbuffer_get rb in
      (Option.map (deref rb') p, contents rb') ≡ Fifo.get (contents rb)
get_answer {rb} v = elim (Bool-cases (ringbuffer_empty rb)) [
  | inl e ↦
      let none_left : ringbuffer_size rb ≡ 0 = ground (arith, empty_eq v) in
      subst
        (λ (x : Option ℕ × RingBuffer).
          (Option.map (deref x.1) x.0, contents x.1) ≡ Fifo.get (contents rb))
        (sym (get_none v e))
        (let c : contents rb ≡ [] = ap (window rb.buf rb.size rb.read_index) none_left in
          ap₂ (λ a b. (a, b)) refl c ∙ sym (ap Fifo.get c))
  | inr e ↦
      let count : ringbuffer_size rb ≡ suc (ringbuffer_size rb - 1) = ground (arith, empty_eq v) in
      subst
        (λ (x : Option ℕ × RingBuffer).
          (Option.map (deref x.1) x.0, contents x.1) ≡ Fifo.get (contents rb))
        (sym (get_some v e)) (sym (ap Fifo.get (get_contents v (ringbuffer_size rb - 1) count)))
]

-- On a valid ring `ringbuffer_get` answers as the FIFO does, by a pointer to the byte, leaves the
-- ring holding the rest, and keeps the ring valid.
pub get_refines :
    {rb : RingBuffer}
    → IsValid rb
    → let (p, rb') = ringbuffer_get rb in
      ((Option.map (deref rb') p, contents rb') ≡ Fifo.get (contents rb)) × IsValid rb'
get_refines v = (get_answer v, ringbuffer_get-IsValid v)

-- What the loop of `ringbuffer_putn` leaves, where all its bytes fit.
putn_loop-contents :
    (n : ℕ) (bytes : List ℕ) {rb : RingBuffer}
    → IsValid rb
    → n ≤ length bytes
    → ringbuffer_size rb + n < rb.size
    → IsValid (putn_loop n bytes rb)
      × (contents (putn_loop n bytes rb) ≡ contents rb ++ take n bytes)
unfolding putn_loop
putn_loop-contents zero bytes v enough room = (v, sym (append-nil _))
putn_loop-contents (suc n) [] v enough room = absurd (omega arith)
putn_loop-contents (suc n) (b ∷ bytes) {rb} v enough room =
    let v' = write_byte-IsValid b v in
    let ih =
      putn_loop-contents n bytes v' (omega arith)
        (omega (arith, write_byte_size v b (omega arith))) in
    (
      ih.0,
      ih.1
          ∙ ap (λ l. l ++ take n bytes) (contents-write_byte v b (omega arith))
          ∙ append_assoc (contents rb) (b ∷ []) (take n bytes),
    )

-- On a valid ring `ringbuffer_putn` of `data_len` bytes, which the data holds, appends all of them
-- if they fit, and otherwise answers false and changes nothing; it keeps the ring valid.
pub putn_refines :
    {rb : RingBuffer} (bytes : List ℕ) (data_len : ℕ)
    → IsValid rb
    → data_len ≤ length bytes
    → data_len < 2 ^ 32
    → let (done, rb') = ringbuffer_putn rb bytes data_len in
      ((done, contents rb') ≡ Fifo.putn (rb.size - 1) (contents rb) (take data_len bytes))
      × IsValid rb'
unfolding ringbuffer_putn
putn_refines {rb} bytes n v enough word =
    let free : ((rb.size + 2 ^ 32 - 1) % 2 ^ 32 + 2 ^ 32 - ringbuffer_size rb) % 2 ^ 32
        ≡ rb.size - 1 - ringbuffer_size rb =
      omega (arith, (size-Holds v).below) in
    let test : ltb (rb.size - 1) (length (contents rb) + length (take n bytes))
        ≡ ltb (rb.size - 1 - ringbuffer_size rb) n =
      ground (arith, length-contents rb, length-take n bytes, (size-Holds v).below) in
    elim (Bool-cases (ltb (rb.size - 1 - ringbuffer_size rb) n)) [
      | inl e ↦ rw (free, test, e) (refl, v)
      | inr e ↦
          let done = putn_loop-contents n bytes v enough (ground (arith, (size-Holds v).below)) in
          rw (free, test, e) (ap (λ l. (true, l)) done.1, done.0)
    ]
