-- ===== src/IoServer/Flush.antt =====
-- About the loops of src/io_server/io_server.c that move bytes from a ring into a message.
use armv4_kernel.Prelude.{
  ℕ, zero, suc, ◌+◌, ◌<◌, ◌≤◌, ◌≡◌, ◌⊎◌, inl, inr, refl, sym, ap, ap₂, ◌∙◌, true, some, [], ◌∷◌,
  ◌++◌, arith, ltb, Bool-cases,
}
use armv4_kernel.Queue.{update}
use armv4_kernel.Queue.Rep.{update-same}
use armv4_kernel.CString.{Bytes}
use armv4_kernel.RingBuffer.{RingBuffer, deref, ringbuffer_empty}
use armv4_kernel.RingBuffer.Valid.{IsValid}
use armv4_kernel.RingBuffer.Contents.{contents}
use armv4_kernel.RingBuffer.Refine.{after_get, get_oldest, contents-empty}
use armv4_kernel.IoServer.{msg_max_data_len, slice, flush_loop}

-- What a loop leaves, with `k` bytes moved: they come off the front of the ring, in order, and the loop
-- stopped for one of its two reasons.
pub record Flushed (n i k : ℕ) (bytes : Bytes) (rb : RingBuffer) (bytes' : Bytes) (rb' : RingBuffer)
    : Type 0 where
  pub valid : IsValid rb'
  pub moved : contents rb ≡ slice i k bytes' ++ contents rb'
  pub kept : (j : ℕ) → j < i → bytes' j ≡ bytes j
  pub at_most : k ≤ n
  pub stopped : (k ≡ n) ⊎ (contents rb' ≡ [])
  pub size_kept : rb'.size ≡ rb.size

pub flush_loop_lem :
    (n i : ℕ) (bytes : Bytes) {rb : RingBuffer}
    → IsValid rb
    → i + n ≤ msg_max_data_len
    → (k : ℕ) × (bytes' : Bytes) × (rb' : RingBuffer) × (flush_loop n i bytes rb
        ≡ some (i + k, bytes', rb'))
      × Flushed n i k bytes rb bytes' rb'
unfolding flush_loop
flush_loop_lem zero i bytes {rb} v room = (
  0,
  bytes,
  rb,
  let z : i ≡ i + 0 = omega arith in ap (λ j. some (j, bytes, rb)) z,
  record {
    valid = v;
    moved = refl;
    kept = λ j p. refl;
    at_most = omega arith;
    stopped = inl refl;
    size_kept = refl;
  },
)
flush_loop_lem (suc n) i bytes {rb} v room = elim (Bool-cases (ringbuffer_empty rb)) [
  | inl e ↦ (
    0,
    bytes,
    rb,
    let z : i ≡ i + 0 = omega arith in rw (e, flush_loop) (ap (λ j. some (j, bytes, rb)) z),
    record {
      valid = v;
      moved = refl;
      kept = λ j p. refl;
      at_most = omega arith;
      stopped = inr (contents-empty v e);
      size_kept = refl;
    },
  )
  | inr e ↦
      let (got, v', front) = get_oldest v e in
      let byte : ℕ = deref (after_get rb) rb.read_index in
      let (k, bytes', rb', run, f) =
        flush_loop_lem n (i + 1) (update bytes i byte) v' (omega arith) in
      let z : i + 1 + k ≡ i + suc k = omega arith in
      let in_data : ltb i msg_max_data_len ≡ true = ground arith in
      (
        suc k,
        bytes',
        rb',
        rw (e, flush_loop, got, in_data, run) (ap (λ j. some (j, bytes', rb')) z),
        record {
          valid = f.valid;
          moved = front ∙ ap₂ ◌∷◌ (update-same bytes i byte ∙ sym (f.kept i (omega arith))) f.moved;
          kept = λ j p. ground (arith, f.kept j);
          at_most = omega (arith, f.at_most);
          stopped = elim f.stopped [ inl all ↦ inl (omega (arith, all)) | inr out ↦ inr out ];
          size_kept = f.size_kept;
        },
      )
]
