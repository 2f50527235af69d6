-- ===== src/Bwio.antt =====
-- The busy-wait output of src/bwio/bwio.c: what is written to the data registers of the two UARTs, and the
-- conversions between numbers and text.
-- A `char *` is an array of bytes, a function from indices, and the index that it points to. `char` is
-- unsigned, as on ARM. An `int` is its 32-bit pattern. The wait for a transmitter that is full is left
-- out. `none` is a division by 0, an argument of `bwformat` that is not there or of another type, or a
-- loop that outlives its fuel.
pub mod Digits
pub mod Format
pub mod Input
pub mod Number
pub mod Scale
pub mod Setup
mod Tests
use armv4_kernel.Prelude.{
  ℕ, zero, suc, ◌+◌, ◌-◌, ◌*◌, ◌/◌, ◌%◌, ◌^◌, Bool, ◌&&◌, ◌||◌, not, Option, none, some, List, [],
  ◌∷◌, ◌++◌, ◌==◌, ltb, leb, if◌then◌else◌, ◌>>=◌,
}
use armv4_kernel.Queue.{update}
use armv4_kernel.Task.{minus}
use armv4_kernel.CString.{Bytes}

abbrev pub com1 : ℕ
com1 = 0

abbrev pub com2 : ℕ
com2 = 1

-- The bytes written to the data registers so far.
pub record Uarts : Type 0 where
  pub uart1 : List ℕ
  pub uart2 : List ℕ

unfoldable pub bwputc : ℕ → ℕ → Uarts → ℕ × Uarts
bwputc channel c out =
    if channel == com1
    then (0, record out { uart1 = out.uart1 ++ c ∷ [] })
    else if channel == com2
    then (0, record out { uart2 = out.uart2 ++ c ∷ [] })
    else (minus 1, out)

unfoldable pub c2x : ℕ → ℕ
c2x ch = if leb ch 9 then (b'0' + ch) % 256 else (b'a' + ch + 256 - 10) % 256

unfoldable pub bwputx : ℕ → ℕ → Uarts → ℕ × Uarts
bwputx channel c out =
    let (res, out') = bwputc channel (c2x (c / 16)) out in bwputc channel (c2x (c % 16)) out'

-- The bytes of `reg` from the highest on.
unfoldable pub bwputr : ℕ → ℕ → Uarts → ℕ × Uarts
bwputr channel reg out =
    let (r₃, out₃) = bwputx channel (reg / 2 ^ 24 % 256) out in
    let (r₂, out₂) = bwputx channel (reg / 2 ^ 16 % 256) out₃ in
    let (r₁, out₁) = bwputx channel (reg / 2 ^ 8 % 256) out₂ in
    let (r₀, out₀) = bwputx channel (reg % 256) out₁ in bwputc channel b' ' out₀

-- Both loops that print a string, with fuel; that of `bwputstr` stops at a bad channel.
unfoldable pub bwputstr : ℕ → ℕ → Bytes → ℕ → Uarts → Option (ℕ × Uarts)
bwputstr zero channel bytes p out = none
bwputstr (suc fuel) channel bytes p out =
    let (res, out') = bwputc channel (bytes p) out in
    let rest = bwputstr fuel channel bytes (p + 1) out' in
    if bytes p == 0 then some (0, out) else if not (res == 0) then some (minus 1, out') else rest

unfoldable pub put_text : ℕ → ℕ → Bytes → ℕ → Uarts → Option Uarts
put_text zero channel bf p out = none
put_text (suc fuel) channel bf p out =
    let (res, out') = bwputc channel (bf p) out in
    let rest = put_text fuel channel bf (p + 1) out' in if bf p == 0 then some out else rest

-- What is left of the width `n` after the characters from `p` on.
unfoldable pub pad_count : ℕ → Bytes → ℕ → ℕ
pad_count zero bf p = zero
pad_count (suc n) bf p = if bf p == 0 then suc n else pad_count n bf (p + 1)

unfoldable pub pad : ℕ → ℕ → ℕ → Uarts → Uarts
pad zero channel fc out = out
pad (suc n) channel fc out = let (res, out') = bwputc channel fc out in pad n channel fc out'

-- The width `n` is not negative. `text_fuel` bounds the length of the string.
unfoldable pub bwputw : ℕ → ℕ → ℕ → ℕ → Bytes → Uarts → Option Uarts
bwputw text_fuel channel n fc bf out =
    put_text text_fuel channel bf 0 (pad (pad_count n bf 0) channel fc out)

-- `none` is a negative result.
unfoldable pub bwa2d : ℕ → Option ℕ
bwa2d ch =
    if leb b'0' ch && leb ch b'9'
    then some (ch - b'0')
    else if leb b'a' ch && leb ch b'f'
    then some (ch - b'a' + 10)
    else if leb b'A' ch && leb ch b'F'
    then some (ch - b'A' + 10)
    else none

-- The loop, with fuel, from the character `ch`, the next of which is at `p`. The result is the last
-- character read, where the next one is, and the number.
unfoldable pub bwa2i_loop : ℕ → ℕ → Bytes → ℕ → ℕ → ℕ → Option (ℕ × ℕ × ℕ)
bwa2i_loop zero ch src p base num = none
bwa2i_loop (suc fuel) ch src p base num = elim (bwa2d ch) [
  | none ↦ some (ch, p, num)
  | some digit ↦
      let rest = bwa2i_loop fuel (src p) src (p + 1) base ((num * base + digit) % 2 ^ 32) in
      if ltb base digit then some (ch, p, num) else rest
]

unfoldable pub bwa2i : ℕ → ℕ → Bytes → ℕ → ℕ → Option (ℕ × ℕ × ℕ)
unfolding bwa2i_loop
bwa2i fuel ch src p base = bwa2i_loop fuel ch src p base 0

-- `while( (num / d) >= base ) d *= base;`
unfoldable pub scale : ℕ → ℕ → ℕ → ℕ → Option ℕ
scale zero num base d = none
scale (suc fuel) num base d =
    let rest = scale fuel num base (d * base % 2 ^ 32) in
    if d == 0 then none else if leb base (num / d) then rest else some d

abbrev pub digit_char : ℕ → ℕ
digit_char dgt = (dgt + (if ltb dgt 10 then b'0' else b'a' - 10)) % 256

-- `while( d != 0 ) { … }`, with `n` digits written and `bf` pointing to the index `i`.
unfoldable pub emit : ℕ → (num base d n : ℕ) → Bytes → ℕ → Option (Bytes × ℕ)
emit zero num base d n bf i = none
emit (suc fuel) num base d n bf i =
    let written =
      emit fuel (num % d) base (d / base) (n + 1) (update bf i (digit_char (num / d))) (i + 1) in
    let skipped = emit fuel (num % d) base (d / base) n bf i in
    if d == 0
    then some (bf, i)
    else if base == 0
    then none
    else if ltb 0 n || ltb 0 (num / d) || (d / base == 0)
    then written
    else skipped

-- From the index `i` on.
unfoldable pub bwui2a : ℕ → ℕ → Bytes → ℕ → Option Bytes
bwui2a num base bf i = do
  d ← scale 33 num base 1
  (bf', end) ← emit 33 num base d 0 bf i
  some (update bf' end 0)

unfoldable pub bwi2a : ℕ → Bytes → Option Bytes
unfolding bwui2a
bwi2a num bf =
    if leb (2 ^ 31) num then bwui2a (2 ^ 32 - num) 10 (update bf 0 b'-') 1 else bwui2a num 10 bf 0
