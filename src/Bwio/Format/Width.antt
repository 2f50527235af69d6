-- ===== src/Bwio/Format/Width.antt =====
-- About `bwputw` of src/bwio/bwio.c.
use mathlib.Core.List.{append-nil, append_assoc}
use armv4_kernel.Prelude.{
  ℕ, zero, suc, ◌+◌, ◌-◌, ◌≤◌, ◌≡◌, ◌≢◌, ◌∙◌, sym, ap, true, false, some, List, [], ◌∷◌, ◌++◌,
  arith, ◌==◌, length, replicate,
}
use armv4_kernel.CString.{Bytes}
use armv4_kernel.Bwio.{Uarts, com2, bwputc, put_text, pad_count, pad, bwputw}

-- The characters `l`, none of them 0, stand from the index `i` on, and a 0 behind them.
abbrev pub IsText : Bytes → ℕ → List ℕ → Type 0
IsText bf i [] = bf i ≡ 0
IsText bf i (c ∷ cs) = (c ≢ 0) × (bf i ≡ c) × IsText bf (i + 1) cs

pad_count_lem :
    (n : ℕ) (bf : Bytes) (i : ℕ) (l : List ℕ) → IsText bf i l → pad_count n bf i ≡ n - length l
unfolding pad_count
pad_count_lem zero bf i l h = omega arith
pad_count_lem (suc n) bf i [] h =
    let e : (bf i == 0) ≡ true = ground (arith, h) in rw e (omega arith)
pad_count_lem (suc n) bf i (c ∷ cs) (some_char, is, h) =
    let e : (bf i == 0) ≡ false = ground (arith, some_char, is) in
    rw e (pad_count_lem n bf (i + 1) cs h ∙ omega arith)

pad_lem :
    (n fc : ℕ) (out : Uarts)
    → pad n com2 fc out ≡ record out { uart2 = out.uart2 ++ replicate n fc }
unfolding pad bwputc
pad_lem zero fc out = ap (λ l. record out { uart2 = l }) (sym (append-nil out.uart2))
pad_lem (suc n) fc out =
    pad_lem n fc (record out { uart2 = out.uart2 ++ fc ∷ [] })
    ∙ ap (λ l. record out { uart2 = l }) (append_assoc out.uart2 (fc ∷ []) (replicate n fc))

put_text_lem :
    (f : ℕ) (bf : Bytes) (i : ℕ) (l : List ℕ) (out : Uarts)
    → IsText bf i l
    → length l ≤ f
    → put_text (suc f) com2 bf i out ≡ some (record out { uart2 = out.uart2 ++ l })
unfolding put_text bwputc
put_text_lem f bf i [] out h short =
    let e : (bf i == 0) ≡ true = ground (arith, h) in
    rw e (ap (λ l. some (record out { uart2 = l })) (sym (append-nil out.uart2)))
put_text_lem zero bf i (c ∷ cs) out h short = absurd (omega (arith, short))
put_text_lem (suc f) bf i (c ∷ cs) out (some_char, is, h) short =
    let e : (bf i == 0) ≡ false = ground (arith, some_char, is) in
    rw (e, is)
      (put_text_lem f bf (i + 1) cs (record out { uart2 = out.uart2 ++ c ∷ [] }) h
          (omega (arith, short))
        ∙ ap (λ l. some (record out { uart2 = l })) (append_assoc out.uart2 (c ∷ []) cs))

-- `bwputw` prints a text of at most `f` characters on the second UART, behind as many copies of the
-- padding character as the text falls short of the width.
pub bwputw_lem :
    (f n fc : ℕ) (bf : Bytes) (l : List ℕ) (out : Uarts)
    → IsText bf 0 l
    → length l ≤ f
    → bwputw (suc f) com2 n fc bf out
      ≡ some (record out { uart2 = out.uart2 ++ replicate (n - length l) fc ++ l })
unfolding bwputw
bwputw_lem f n fc bf l out h short =
    ap (λ k. put_text (suc f) com2 bf 0 (pad k com2 fc out)) (pad_count_lem n bf 0 l h)
    ∙ ap (put_text (suc f) com2 bf 0) (pad_lem (n - length l) fc out)
    ∙ put_text_lem f bf 0 l (record out { uart2 = out.uart2 ++ replicate (n - length l) fc }) h
        short
