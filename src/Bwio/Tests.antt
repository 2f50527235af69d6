-- ===== src/Bwio/Tests.antt =====
-- Tests of the model of src/bwio/bwio.c.
use armv4_kernel.Prelude.{
  ℕ, ◌≤◌, ◌≡◌, refl, some, List, [], ◌∷◌, arith, length, get_or, ◌<◌, ◌⊎◌, ◌^◌, ◌-◌,
}
use armv4_kernel.CString.{Bytes}
use armv4_kernel.Bwio.{
  Uarts, com1, com2, bwputc, c2x, bwputx, bwputr, bwa2d, bwa2i_loop, bwa2i, bwui2a, bwi2a,
}
use armv4_kernel.Bwio.Number.{bwi2a-fits, bwa2i-bwui2a}
use armv4_kernel.Bwio.Input.{get_byte, bwgetc}
use armv4_kernel.Bwio.Format.{Formatting, number, bwformat}
use armv4_kernel.Bwio.Format.Decimal.{value, bwformat_u}

abbrev silent : Uarts
silent = record { uart1 = []; uart2 = [] }

abbrev blank : Bytes
blank i = 0

-- "%u"
abbrev percent_u : Bytes
percent_u i = get_or (b'%' ∷ b'u' ∷ []) i 0

-- "1a"
abbrev one_a : Bytes
one_a i = get_or (b'1' ∷ b'a' ∷ []) i 0

-- The letter a, which is no decimal digit, is read as the digit 10 of a decimal number.
bwa2i_ten : bwa2i 33 (one_a 0) one_a 1 10 ≡ some (0, 3, 20)
unfolding bwa2i bwa2i_loop bwa2d
bwa2i_ten = refl

bwputr_word : bwputr com2 0x12abcdef silent ≡ (
  0,
  record { uart1 = []; uart2 = b'1' ∷ b'2' ∷ b'a' ∷ b'b' ∷ b'c' ∷ b'd' ∷ b'e' ∷ b'f' ∷ b' ' ∷ [] },
)
unfolding bwputr bwputx bwputc c2x
bwputr_word = refl

-- The flag of the first UART is raised at the third read; the channel 2 is none.
bwgetc_waits :
    bwgetc com1
      (record { flags = 0x10 ∷ 0x90 ∷ 0x50 ∷ []; received = b'k' })
      (record { flags = []; received = 0 })
    ≡ some b'k'
unfolding bwgetc get_byte
bwgetc_waits = refl

bwgetc_bad :
    bwgetc 2 (record { flags = []; received = 0 }) (record { flags = []; received = 0 })
    ≡ some 0xffffffff
unfolding bwgetc
bwgetc_bad = refl

bwa2i-bwui2a_example :
    (bf' : Bytes) × (p : ℕ) × (bwui2a 0x2bad 16 blank 0 ≡ some bf')
    × (bwa2i 33 (bf' 0) bf' 1 16 ≡ some (0, p, 0x2bad))
bwa2i-bwui2a_example = bwa2i-bwui2a 0x2bad 16 blank (omega arith) (omega arith) (omega arith)

bwi2a-fits_example :
    ((bf' : Bytes) × (n : ℕ) × (bwi2a 2147483648 blank ≡ some bf')
      × (n < 12)
      × (bf' n ≡ 0)
      × ((j : ℕ) → 12 ≤ j → bf' j ≡ 0))
    × ((bf' : Bytes) × (n : ℕ) × (bwui2a 2147483648 10 blank 0 ≡ some bf')
        × (n < 12)
        × (bf' n ≡ 0)
        × ((j : ℕ) → 12 ≤ j → bf' j ≡ 0))
    × ((bf' : Bytes) × (n : ℕ) × (bwui2a 2147483648 16 blank 0 ≡ some bf')
        × (n < 12)
        × (bf' n ≡ 0)
        × ((j : ℕ) → 12 ≤ j → bf' j ≡ 0))
bwi2a-fits_example = bwi2a-fits 2147483648 blank (omega arith)

bwformat_u_example :
    (s : Formatting) × (l : List ℕ) × (bwformat 12 com2 percent_u 0
        (record { va = number 4096 ∷ []; bf = blank; out = silent })
      ≡ some s)
    × (s.out ≡ record { uart1 = []; uart2 = l })
    × (length l ≤ 10)
    × (value 0 l ≡ some 4096)
    × ((10 ^ (length l - 1) ≤ 4096) ⊎ (length l ≡ 1))
bwformat_u_example =
    bwformat_u 10 percent_u 4096 blank silent (omega arith) (omega arith) refl refl refl
