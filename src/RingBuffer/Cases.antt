-- ===== src/RingBuffer/Cases.antt =====
-- About the two ways in which a write to the ring of src/ringbuffer/ringbuffer.c ends, as a client
-- tells them apart.
use armv4_kernel.Prelude.{
  ℕ, ◌-◌, ◌^◌, ◌<◌, ◌≡◌, ◌⊎◌, inl, inr, refl, ap, ◌∙◌, true, false, Bool, List, [], ◌∷◌, ◌++◌,
  arith, length, take, if◌then◌else◌,
}
use armv4_kernel.RingBuffer.{RingBuffer, ringbuffer_put, ringbuffer_putn}
use armv4_kernel.RingBuffer.Valid.{IsValid}
use armv4_kernel.RingBuffer.Contents.{contents}
use armv4_kernel.RingBuffer.Fifo
use armv4_kernel.RingBuffer.Refine.{put_refines, putn_refines}

-- A write that was refused, or one that appended `new`.
pub record Written (rb : RingBuffer) (new : List ℕ) (done : Bool) (rb' : RingBuffer) : Type 0 where
  pub valid : IsValid rb'
  pub result :
      ((done ≡ false) × (contents rb' ≡ contents rb))
      ⊎ ((done ≡ true) × (contents rb' ≡ contents rb ++ new))

split_write :
    (full : Bool) (old new : List ℕ) (w : Bool × List ℕ)
    → w ≡ (if full then (false, old) else (true, old ++ new))
    → ((w.0 ≡ false) × (w.1 ≡ old)) ⊎ ((w.0 ≡ true) × (w.1 ≡ old ++ new))
split_write true old new w e =
    inl (ap (λ (x : Bool × List ℕ). x.0) e, ap (λ (x : Bool × List ℕ). x.1) e)
split_write false old new w e =
    inr (ap (λ (x : Bool × List ℕ). x.0) e, ap (λ (x : Bool × List ℕ). x.1) e)

pub take_all : (l : List ℕ) → take (length l) l ≡ l
take_all [] = refl
take_all (x ∷ l) = ap (λ r. x ∷ r) (take_all l)

pub put-Written :
    {rb : RingBuffer} (b : ℕ)
    → IsValid rb
    → let (done, rb') = ringbuffer_put rb b in Written rb (b ∷ []) done rb'
put-Written {rb} b v =
    let (e, v') = put_refines b v in
    record { valid = v'; result = split_write _ (contents rb) (b ∷ []) _ e }

pub putn-Written :
    {rb : RingBuffer} (new : List ℕ)
    → IsValid rb
    → length new < 2 ^ 32
    → let (done, rb') = ringbuffer_putn rb new (length new) in Written rb new done rb'
putn-Written {rb} new v small =
    let (e, v') = putn_refines new (length new) v (omega arith) small in
    record {
      valid = v';
      result =
          split_write _ (contents rb) new _
            (e ∙ ap (λ l. Fifo.putn (rb.size - 1) (contents rb) l) (take_all new));
    }
