-- ===== src/Bwio/Format.antt =====
-- `bwformat` of src/bwio/bwio.c. `fmt` and `va` are the pointer's array and the arguments that are left;
-- `bf` is the local buffer.
pub mod Decimal
pub mod Width
use armv4_kernel.Prelude.{
  ℕ, zero, suc, ◌+◌, ◌-◌, ◌%◌, ◌^◌, Bool, ◌&&◌, not, Option, none, some, List, [], ◌∷◌, ◌==◌, leb,
  if◌then◌else◌, ◌>>=◌,
}
use armv4_kernel.CString.{Bytes}
use armv4_kernel.Bwio.{Uarts, bwputc, bwputw, bwa2i, bwui2a, bwi2a}

pub data Arg : Type 0 where
  number : ℕ → Arg
  text : Bytes → Arg

pub record Formatting : Type 0 where
  pub va : List Arg
  pub bf : Bytes
  pub out : Uarts

-- What stands behind a `%`: the padding character, the width, the letter, and where the rest starts.
pub record Directive : Type 0 where
  pub lz : ℕ
  pub w : ℕ
  pub ch : ℕ
  pub next : ℕ

unfoldable pub directive : ℕ → Bytes → ℕ → Option Directive
directive fuel fmt p =
    let ch = fmt p in
    if ch == b'0'
    then some (record { lz = 1; w = 0; ch = fmt (p + 1); next = p + 2 })
    else if leb b'1' ch && leb ch b'9'
    then (do
      (ch', next, w) ← bwa2i fuel ch fmt (p + 1) 10
      some (record { lz = 0; w = w; ch = ch'; next = next }))
    else some (record { lz = 0; w = 0; ch = ch; next = p + 1 })

abbrev pub next_number : List Arg → Option (ℕ × List Arg)
next_number (number n ∷ va) = some (n, va)
next_number _ = none

abbrev pub next_text : List Arg → Option (Bytes × List Arg)
next_text (text t ∷ va) = some (t, va)
next_text _ = none

-- A negative width counts as 0.
abbrev pub width : ℕ → ℕ
width w = if leb (2 ^ 31) w then 0 else w

-- The second `switch`. A letter that it does not know prints nothing.
unfoldable pub convert : ℕ → ℕ → Directive → Formatting → Option Formatting
convert fuel channel d s =
    if d.ch == b'c'
    then (do
      (n, va) ← next_number s.va
      let (res, out) = bwputc channel (n % 256) s.out
      some (record s { va = va; out = out }))
    else if d.ch == b's'
    then (do
      (t, va) ← next_text s.va
      out ← bwputw fuel channel (width d.w) 0 t s.out
      some (record s { va = va; out = out }))
    else if d.ch == b'u'
    then (do
      (n, va) ← next_number s.va
      bf ← bwui2a n 10 s.bf 0
      out ← bwputw fuel channel (width d.w) d.lz bf s.out
      some (record { va = va; bf = bf; out = out }))
    else if d.ch == b'd'
    then (do
      (n, va) ← next_number s.va
      bf ← bwi2a n s.bf
      out ← bwputw fuel channel (width d.w) d.lz bf s.out
      some (record { va = va; bf = bf; out = out }))
    else if d.ch == b'x'
    then (do
      (n, va) ← next_number s.va
      bf ← bwui2a n 16 s.bf 0
      out ← bwputw fuel channel (width d.w) d.lz bf s.out
      some (record { va = va; bf = bf; out = out }))
    else if d.ch == b'%'
    then (let (res, out) = bwputc channel d.ch s.out in some (record s { out = out }))
    else some s

-- One round: where the next starts, unless the format ends here.
unfoldable pub format_round : ℕ → ℕ → Bytes → ℕ → Formatting → Option (Option ℕ × Formatting)
format_round fuel channel fmt p s =
    let ch = fmt p in
    if ch == 0
    then some (none, s)
    else if not (ch == b'%')
    then (let (res, out) = bwputc channel ch s.out in some (some (p + 1), record s { out = out }))
    else do
      d ← directive fuel fmt (p + 1)
      s' ← convert fuel channel d s
      some (if d.ch == 0 then (none, s) else (some d.next, s'))

-- The loop, with fuel, which bounds the length of each string too.
unfoldable pub bwformat : ℕ → ℕ → Bytes → ℕ → Formatting → Option Formatting
bwformat zero channel fmt p s = none
bwformat (suc fuel) channel fmt p s = do
  (next, s') ← format_round fuel channel fmt p s
  elim next [ none ↦ some s' | some p' ↦ bwformat fuel channel fmt p' s' ]
