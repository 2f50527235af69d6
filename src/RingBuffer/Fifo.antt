-- ===== src/RingBuffer/Fifo.antt =====
-- What the byte ring of src/ringbuffer/ringbuffer.c promises: a FIFO of at most `cap` bytes.
use armv4_kernel.Prelude.{
  ℕ, ◌+◌, Bool, true, false, Option, none, some, List, [], ◌∷◌, ◌++◌, ◌==◌, ltb, if◌then◌else◌,
  length,
}

abbrev pub put : ℕ → List ℕ → ℕ → Bool × List ℕ
put cap bytes b = if length bytes == cap then (false, bytes) else (true, bytes ++ b ∷ [])

abbrev pub get : List ℕ → Option ℕ × List ℕ
get [] = (none, [])
get (b ∷ bytes) = (some b, bytes)

-- All or nothing.
abbrev pub putn : ℕ → List ℕ → List ℕ → Bool × List ℕ
putn cap bytes new =
    if ltb cap (length bytes + length new) then (false, bytes) else (true, bytes ++ new)
