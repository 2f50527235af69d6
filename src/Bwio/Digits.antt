-- ===== src/Bwio/Digits.antt =====
-- About the second loop of `bwui2a` of src/bwio/bwio.c, which writes the digits.
use mathlib.Core.Path.{subst}
use native.Mathlib.Nat.{
  div-lt_iff_lt-mul, le-div_iff_mul-le, mul-le-mul_left, mul-div_cancel, div-add-mod', mod-lt,
  div-eq_of_lt, div-one,
}
use armv4_kernel.Prelude.{
  ℕ, zero, suc, ◌+◌, ◌*◌, ◌/◌, ◌%◌, ◌<◌, ◌≤◌, ◌≡◌, ◌⊎◌, ◌∙◌, sym, inl, inr, refl, ap, true, false,
  some, arith, ◌==◌, ◌||◌, ltb, Bool-cases,
}
use armv4_kernel.Queue.{update}
use armv4_kernel.Queue.Rep.{update-same}
use armv4_kernel.CString.{Bytes}
use armv4_kernel.Bwio.{bwa2d, digit_char, emit}
use armv4_kernel.Bwio.Scale.{power}

-- The `n` characters from index `i` on are digits below the base, which continue the number `acc` to `r`.
abbrev pub Reads : ℕ → Bytes → ℕ → ℕ → ℕ → ℕ → Type 0
Reads base bf i zero acc r = acc ≡ r
Reads base bf i (suc n) acc r =
    (dgt : ℕ) × (bwa2d (bf i) ≡ some dgt)
    × (dgt < base)
    × Reads base bf (i + 1) n (acc * base + dgt) r

pub bwa2d-digit_char : (dgt : ℕ) → dgt < 16 → bwa2d (digit_char dgt) ≡ some dgt
unfolding bwa2d
bwa2d-digit_char dgt p = elim (Bool-cases (ltb dgt 10)) [
  | inl b ↦ let low : dgt < 10 = ground (arith, b) in rw b (ground arith)
  | inr b ↦ let high : 10 ≤ dgt = ground (arith, b) in rw b (ground arith)
]

-- A round that writes a digit.
emit_on :
    (f num base d n : ℕ) (bf : Bytes) (i : ℕ)
    → 0 < d
    → 2 ≤ base
    → (ltb 0 n || ltb 0 (num / d) || (d / base == 0)) ≡ true
    → emit (suc f) num base d n bf i
      ≡ emit f (num % d) base (d / base) (n + 1) (update bf i (digit_char (num / d))) (i + 1)
unfolding emit
emit_on f num base d n bf i pos two shown =
    let d_ok : (d == 0) ≡ false = ground (arith, pos) in
    let base_ok : (base == 0) ≡ false = ground (arith, two) in rw (d_ok, base_ok, shown) refl

emit_end : (f num base n : ℕ) (bf : Bytes) (i : ℕ) → emit (suc f) num base 0 n bf i ≡ some (bf, i)
unfolding emit
emit_end f num base n bf i = refl

shown_lem :
    (num base k d n : ℕ)
    → 0 < d
    → (0 < n) ⊎ ((d ≤ num) ⊎ (d < base))
    → (ltb 0 n || ltb 0 (num / d) || (d / base == 0)) ≡ true
shown_lem num base k d n pos (inl written) = ground (arith, written)
shown_lem num base k d n pos (inr (inl below)) =
    let one : 0 < num / d = (le-div_iff_mul-le {x = 1} {y = num} pos).1 (omega (arith, below)) in
    ground (arith, one)
shown_lem num base k d n pos (inr (inr last)) =
    let gone : d / base ≡ 0 = div-eq_of_lt last in ground (arith, gone)

-- What the loop leaves, with `m` digits written from the index `i` on.
pub record Emitted (base m acc r : ℕ) (bf : Bytes) (i : ℕ) (bf' : Bytes) : Type 0 where
  pub before : (j : ℕ) → j < i → bf' j ≡ bf j
  pub after : (j : ℕ) → i + m ≤ j → bf' j ≡ bf j
  pub digits : Reads base bf' i m acc r

pub update_off : (bf : Bytes) (i v j : ℕ) → (j < i) ⊎ (i < j) → update bf i v j ≡ bf j
update_off bf i v j off = ground (arith, off)

pos_left : (a b : ℕ) → 0 < a * b → 0 < a
pos_left zero b p = absurd (omega (arith, p))
pos_left (suc a) b p = omega arith

joined : (acc base num d : ℕ) → (acc * base + num / d) * d + num % d ≡ acc * (d * base) + num
joined acc base num d = omega (arith, div-add-mod' num d)

pub emit_lem :
    (f k num base d n acc : ℕ) (bf : Bytes) (i : ℕ)
    → 2 ≤ base
    → base ≤ 16
    → d ≡ power base k
    → 0 < d
    → num < d * base
    → (0 < n) ⊎ ((d ≤ num) ⊎ (d < base))
    → d < power 2 f
    → (bf' : Bytes) × (emit (suc f) num base d n bf i ≡ some (bf', i + suc k))
      × Emitted base (suc k) acc (acc * (d * base) + num) bf i bf'
emit_lem zero k num base d n acc bf i two most place pos above shown fuel =
    absurd (omega (arith, pos, fuel))
emit_lem (suc f) zero num base d n acc bf i two most place pos above shown fuel =
    let bf₁ : Bytes = update bf i (digit_char (num / d)) in
    let gone : d / base ≡ 0 = div-eq_of_lt (omega (arith, place, two)) in
    let whole : num / d ≡ num = ap (λ e. num / e) place ∙ div-one num in
    let unit : d * base ≡ 1 * base = ap (λ e. e * base) place in
    let less : num / d < base =
      (div-lt_iff_lt-mul {x = num} {y = base} pos).1 (omega (arith, above)) in
    (
      bf₁,
      emit_on (suc f) num base d n bf i pos two (shown_lem num base 0 d n pos shown)
          ∙ ap (λ e. emit (suc f) (num % d) base e (n + 1) bf₁ (i + 1)) gone
          ∙ emit_end f (num % d) base (n + 1) bf₁ (i + 1),
      record {
        before = λ j p. update_off bf i (digit_char (num / d)) j (inl p);
        after = λ j p. update_off bf i (digit_char (num / d)) j (inr (omega (arith, p)));
        digits = (
          num / d,
          ap bwa2d (sym (update-same bf i (digit_char (num / d))))
              ∙ bwa2d-digit_char (num / d) (omega (arith, less, most)),
          less,
          ap (λ e. acc * base + e) whole
              ∙ (let eq : acc * base + num ≡ acc * (1 * base) + num = omega arith in eq)
              ∙ ap (λ e. acc * e + num) (sym unit),
        );
      },
    )
emit_lem (suc f) (suc k) num base d n acc bf i two most place pos above shown fuel =
    let bf₁ : Bytes = update bf i (digit_char (num / d)) in
    let quot : d / base ≡ power base k =
      ap (λ e. e / base) place ∙ mul-div_cancel (power base k) (omega (arith, two)) in
    let back : d / base * base ≡ d = ap (λ e. e * base) quot ∙ sym place in
    let pos' : 0 < d / base = pos_left (d / base) base (omega (arith, back, pos)) in
    let less : num / d < base =
      (div-lt_iff_lt-mul {x = num} {y = base} pos).1 (omega (arith, above)) in
    let rest : num % d < d / base * base = omega (arith, mod-lt num pos, back) in
    let enough : d / base < power 2 f = omega (arith, fuel, back, mul-le-mul_left (d / base) two) in
    let (bf', run, e) =
      emit_lem f k (num % d) base (d / base) (n + 1) (acc * base + num / d) bf₁ (i + 1) two most
        quot pos' rest (inl (omega arith)) enough in
    let index : i + 1 + suc k ≡ i + suc (suc k) = omega arith in
    (
      bf',
      emit_on (suc f) num base d n bf i pos two (shown_lem num base (suc k) d n pos shown)
          ∙ run
          ∙ ap (λ z. some (bf', z)) index,
      record {
        before =
            λ j p. e.before j (omega (arith, p)) ∙ update_off bf i (digit_char (num / d)) j (inl p);
        after = λ j p.
            e.after j (omega (arith, p))
            ∙ update_off bf i (digit_char (num / d)) j (inr (omega (arith, p)));
        digits = (
          num / d,
          ap bwa2d (e.before i (omega arith) ∙ sym (update-same bf i (digit_char (num / d))))
              ∙ bwa2d-digit_char (num / d) (omega (arith, less, most)),
          less,
          subst (λ r. Reads base bf' (i + 1) (suc k) (acc * base + num / d) r)
              (ap (λ z. (acc * base + num / d) * z + num % d) back ∙ joined acc base num d)
              e.digits,
        );
      },
    )
