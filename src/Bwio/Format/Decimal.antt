-- ===== src/Bwio/Format/Decimal.antt =====
-- About `bwformat` of src/bwio/bwio.c with the format "%u".
use mathlib.Core.List.{append-nil}
use mathlib.Core.Option.{none-ne-some}
use armv4_kernel.Prelude.{
  ℕ, zero, suc, ◌+◌, ◌-◌, ◌*◌, ◌^◌, ◌<◌, ◌≤◌, ◌≡◌, ◌≢◌, ◌∙◌, sym, refl, ap, Option, none, some,
  List, [], ◌∷◌, ◌++◌, arith, length, replicate, ◌>>=◌, leb, ◌&&◌, ◌⊎◌, inl, inr, if◌then◌else◌,
}
use armv4_kernel.CString.{Bytes}
use armv4_kernel.Bwio.{Uarts, com2, bwa2d, bwui2a, bwputw}
use armv4_kernel.Bwio.Digits.{Reads}
use armv4_kernel.Bwio.Number.{bwui2a_lem, few_digits, nul}
use armv4_kernel.Bwio.Scale.{power}
use native.Mathlib.Nat.{pow-suc}
use armv4_kernel.Bwio.Format.{Formatting, number, directive, convert, format_round, bwformat}
use armv4_kernel.Bwio.Format.Width.{IsText, bwputw_lem}

-- The value of a decimal digit; no other character is one.
abbrev pub decimal_digit : ℕ → Option ℕ
decimal_digit c = if leb b'0' c && leb c b'9' then some (c - b'0') else none

-- The number that a list of decimal digits continues `acc` to.
abbrev pub value : ℕ → List ℕ → Option ℕ
value acc [] = some acc
value acc (c ∷ cs) = do dgt ← decimal_digit c; value (acc * 10 + dgt) cs

-- A digit that `bwa2d` takes for less than 10 is a decimal one.
decimal_lem : (c dgt : ℕ) → bwa2d c ≡ some dgt → dgt < 10 → decimal_digit c ≡ some dgt
unfolding bwa2d
decimal_lem c dgt is less = ground arith

chars_of :
    (bf : Bytes) (i n acc r : ℕ)
    → Reads 10 bf i n acc r
    → bf (i + n) ≡ 0
    → (l : List ℕ) × IsText bf i l × (length l ≡ n) × (value acc l ≡ some r)
chars_of bf i zero acc r h end =
    let z : i ≡ i + 0 = omega arith in ([], ap bf z ∙ end, refl, ap some h)
chars_of bf i (suc n) acc r (dgt, is, less, h) end =
    let z : i + 1 + n ≡ i + suc n = omega arith in
    let (l, text, len, val) = chars_of bf (i + 1) n (acc * 10 + dgt) r h (ap bf z ∙ end) in
    (
      bf i ∷ l,
      (not_nul (bf i) dgt is, refl, text),
      ap suc len,
      rw (decimal_lem (bf i) dgt is less) val,
    )
  where
    not_nul : (c dgt : ℕ) → bwa2d c ≡ some dgt → c ≢ 0
    not_nul c dgt is e =
        let bad : none ≡ some dgt = sym nul ∙ ap bwa2d (sym e) ∙ is in absurd (none-ne-some dgt bad)

module _ (g : ℕ) (fmt : Bytes) (percent : fmt 0 ≡ b'%') (u : fmt 1 ≡ b'u') (end : fmt 2 ≡ 0) where
  first_round :
      (num : ℕ) (bf : Bytes) (out : Uarts) {bf' : Bytes} {out' : Uarts}
      → bwui2a num 10 bf 0 ≡ some bf'
      → bwputw (suc g) com2 0 0 bf' out ≡ some out'
      → format_round (suc g) com2 fmt 0 (record { va = number num ∷ []; bf = bf; out = out })
        ≡ some (some 2, record { va = []; bf = bf'; out = out' })
  unfolding format_round directive convert
  first_round num bf out digits put = rw (percent, u, digits, put) refl

  last_round : (s : Formatting) → bwformat (suc g) com2 fmt 2 s ≡ some s
  unfolding bwformat format_round
  last_round s = rw end refl

  both_rounds :
      (num : ℕ) (bf : Bytes) (out : Uarts) {s : Formatting}
      → format_round (suc g) com2 fmt 0 (record { va = number num ∷ []; bf = bf; out = out })
        ≡ some (some 2, s)
      → bwformat (suc (suc g)) com2 fmt 0 (record { va = number num ∷ []; bf = bf; out = out })
        ≡ some s
  unfolding bwformat
  both_rounds num bf out {s} run = rw run (last_round s)

power-pow : (n : ℕ) → power 10 n ≡ 10 ^ n
power-pow zero = refl
power-pow (suc n) = omega (arith, power-pow n, pow-suc 10 n)

-- With the format "%u", `bwformat` prints on the second UART a text of at most ten decimal digits, 0 to
-- 9, whose value is the argument, with no more digits than that needs, and nothing else; it and the
-- loops that it calls end within 12 rounds where at least that many are given, and those of `bwui2a`
-- within 33.
pub bwformat_u :
    (g : ℕ) (fmt : Bytes) (num : ℕ) (bf : Bytes) (out : Uarts)
    → num < 2 ^ 32
    → 10 ≤ g
    → fmt 0 ≡ b'%'
    → fmt 1 ≡ b'u'
    → fmt 2 ≡ 0
    → (s : Formatting) × (l : List ℕ) × (bwformat
          (suc (suc g))
          com2
          fmt
          0
          (record { va = number num ∷ []; bf = bf; out = out })
        ≡ some s)
      × (s.out ≡ record out { uart2 = out.uart2 ++ l })
      × (length l ≤ 10)
      × (value 0 l ≡ some num)
      × ((10 ^ (length l - 1) ≤ num) ⊎ (length l ≡ 1))
bwformat_u g fmt num bf out small fuel percent u end =
    let (n, bf', run, printed, below) = bwui2a_lem num 10 bf 0 (omega arith) (omega arith) small in
    let few : n ≤ 9 = few_digits 10 num n 9 (omega arith) below (omega (arith, small)) in
    let (l, is_text, len, val) = chars_of bf' 0 (suc n) 0 num printed.digits printed.ends in
    let short : length l ≤ 10 = omega (arith, len, few) in
    let one_less : length l - 1 ≡ n = omega (arith, len) in
    let none_padded : 0 - length l ≡ 0 = omega arith in
    let out' : Uarts = record out { uart2 = out.uart2 ++ replicate (0 - length l) 0 ++ l } in
    (
      record { va = []; bf = bf'; out = out' },
      l,
      both_rounds g fmt percent u end num bf out (
          first_round g fmt percent u end num bf out run
            (bwputw_lem g 0 0 bf' l out is_text (omega (arith, short, fuel)))),
      ap (λ k. record out { uart2 = out.uart2 ++ replicate k 0 ++ l }) none_padded
          ∙ ap (λ e. record out { uart2 = e ++ l }) (append-nil out.uart2),
      short,
      val,
      elim below [
        | inl b ↦ inl (rw (one_less, sym (power-pow n)) b)
        | inr z ↦ inr (omega (arith, len, z))
      ],
    )
