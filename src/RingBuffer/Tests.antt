-- ===== src/RingBuffer/Tests.antt =====
-- Tests of the model of src/ringbuffer/ringbuffer.c on a ring of four bytes whose indices wrapped.
use mathlib.Core.Option
use armv4_kernel.Prelude.{◌≡◌, [], ◌∷◌, arith}
use armv4_kernel.RingBuffer.{RingBuffer, deref, ringbuffer_get, ringbuffer_putn, ringbuffer_size}
use armv4_kernel.RingBuffer.Valid.{IsValid}
use armv4_kernel.RingBuffer.Contents.{contents}
use armv4_kernel.RingBuffer.Fifo
use armv4_kernel.RingBuffer.Refine.{get_refines, putn_refines}

abbrev ring : RingBuffer
ring = record { buf = 12 ∷ 0 ∷ 10 ∷ 11 ∷ []; size = 4; read_index = 2; write_index = 0 }

ring-IsValid : IsValid ring
ring-IsValid = record {
  read_in = omega arith;
  write_in = omega arith;
  storage = omega arith;
  small = omega arith;
}

get_refines_example :
    let (p, ring') = ringbuffer_get ring in
    ((Option.map (deref ring') p, contents ring') ≡ Fifo.get (10 ∷ 11 ∷ [])) × IsValid ring'
unfolding ringbuffer_size
get_refines_example = get_refines ring-IsValid

putn_refines_example :
    let (done, ring') = ringbuffer_putn ring (1 ∷ 2 ∷ []) 2 in
    ((done, contents ring') ≡ Fifo.putn 3 (10 ∷ 11 ∷ []) (1 ∷ 2 ∷ [])) × IsValid ring'
unfolding ringbuffer_size
putn_refines_example = putn_refines (1 ∷ 2 ∷ []) 2 ring-IsValid (omega arith) (omega arith)
