-- ===== src/Bits.antt =====
-- Single bits of words: what `|= 1ULL << k` and `&= ~(1ULL << k)` do to each bit, and the position of
-- the lowest bit that is set.
mod Step
use Prim.Native.Nat.{bit_and, bit_or, min, max, bit_and-bitwise}
use native.Mathlib.Nat.{pow-suc, one-le-pow}
use armv4_kernel.Prelude.{
  ℕ, zero, suc, ◌+◌, ◌-◌, ◌*◌, ◌/◌, ◌%◌, ◌^◌, ◌<◌, ◌≤◌, ◌≡◌, ◌≢◌, refl, arith, Bool, true, false,
  ◌==◌, ◌||◌, ◌&&◌, not, if◌then◌else◌,
}
use mathlib.Core.Path.{subst}
use Step.{or_low_digit, and_low_digit}

-- Bit `i` of `x`, as 0 or 1.
abbrev pub bit : ℕ → ℕ → ℕ
bit zero x = x % 2
bit (suc i) x = bit i (x / 2)

pub bit-lt : (i x : ℕ) → bit i x < 2
bit-lt zero x = omega arith
bit-lt (suc i) x = bit-lt i (x / 2)

half-or : (a b : ℕ) → bit_or a b / 2 ≡ bit_or (a / 2) (b / 2)
half-or a b = omega (arith, or_low_digit a b)

half-and : (a b : ℕ) → bit_and a b / 2 ≡ bit_and (a / 2) (b / 2)
half-and a b = omega (arith, and_low_digit a b)

pub bit-or : (i a b : ℕ) → bit i (bit_or a b) ≡ max (bit i a) (bit i b)
bit-or zero a b = omega (arith, or_low_digit a b)
bit-or (suc i) a b = rw half-or (bit-or i (a / 2) (b / 2))

pub bit-and : (i a b : ℕ) → bit i (bit_and a b) ≡ min (bit i a) (bit i b)
bit-and zero a b = omega (arith, and_low_digit a b)
bit-and (suc i) a b = rw half-and (bit-and i (a / 2) (b / 2))

-- The operations stay in the width of their operands.
pub or-lt : (w a b : ℕ) → a < 2 ^ w → b < 2 ^ w → bit_or a b < 2 ^ w
or-lt zero a b ha hb =
    let ea : a ≡ 0 = omega arith in let eb : b ≡ 0 = omega arith in rw (ea, eb) (omega arith)
or-lt (suc w) a b ha hb = omega (
  arith,
  pow-suc 2 w,
  or_low_digit a b,
  or-lt w (a / 2) (b / 2) (omega (arith, pow-suc 2 w)) (omega (arith, pow-suc 2 w)),
)

pub and-lt : (w a b : ℕ) → a < 2 ^ w → bit_and a b < 2 ^ w
and-lt zero a b ha = let ea : a ≡ 0 = omega arith in rw ea (omega (arith, bit_and-bitwise 0 b))
and-lt (suc w) a b ha =
    omega
      (arith, pow-suc 2 w, and_low_digit a b, and-lt w (a / 2) (b / 2) (omega (arith, pow-suc 2 w)))

pub bit_of_zero : (i : ℕ) → bit i 0 ≡ 0
bit_of_zero zero = refl
bit_of_zero (suc i) = bit_of_zero i

half-pow : (k : ℕ) → 2 ^ suc k / 2 ≡ 2 ^ k
half-pow k = omega (arith, pow-suc 2 k)

-- `1 << k` has bit `k` and no other.
pub bit-pow : (i k : ℕ) → bit i (2 ^ k) ≡ (if i == k then 1 else 0)
bit-pow zero zero = refl
bit-pow zero (suc k) = ground (arith, pow-suc 2 k)
bit-pow (suc i) zero = ground (arith, bit_of_zero i)
bit-pow (suc i) (suc k) = rw half-pow (ground (arith, bit-pow i k))

pub bit_of_ones : (w i : ℕ) → i < w → bit i (2 ^ w - 1) ≡ 1
bit_of_ones zero i h = absurd (omega arith)
bit_of_ones (suc w) zero h = ground (arith, pow-suc 2 w, one-le-pow w 2)
bit_of_ones (suc w) (suc i) h =
    let e : (2 ^ suc w - 1) / 2 ≡ 2 ^ w - 1 = omega (arith, pow-suc 2 w) in
    rw e (bit_of_ones w i (omega arith))

pub pow-lt : (k w : ℕ) → k < w → 2 ^ k < 2 ^ w
pow-lt zero zero h = absurd (omega arith)
pow-lt (suc k) zero h = absurd (omega arith)
pow-lt zero (suc w) h = omega (arith, pow-suc 2 w, one-le-pow w 2)
pow-lt (suc k) (suc w) h = omega (arith, pow-suc 2 w, pow-suc 2 k, pow-lt k w (omega arith))

-- `~(1 << k)` at width `w` has every bit below `w` but bit `k`.
pub bit_of_complement :
    (w i k : ℕ) → i < w → k < w → bit i (2 ^ w - 1 - 2 ^ k) ≡ (if i == k then 0 else 1)
bit_of_complement zero i k hi hk = absurd (omega arith)
bit_of_complement (suc w) zero zero hi hk = ground (arith, pow-suc 2 w, one-le-pow w 2)
bit_of_complement (suc w) zero (suc k) hi hk =
    ground (arith, pow-suc 2 w, pow-suc 2 k, pow-lt k w (omega arith))
bit_of_complement (suc w) (suc i) zero hi hk =
    let e : (2 ^ suc w - 1 - 2 ^ zero) / 2 ≡ 2 ^ w - 1 = omega (arith, pow-suc 2 w) in
    rw e (ground (arith, bit_of_ones w i (omega arith)))
bit_of_complement (suc w) (suc i) (suc k) hi hk =
    let e : (2 ^ suc w - 1 - 2 ^ suc k) / 2 ≡ 2 ^ w - 1 - 2 ^ k =
      omega (arith, pow-suc 2 w, pow-suc 2 k) in
    rw e (ground (arith, bit_of_complement w i k (omega arith) (omega arith)))

-- The lowest bit that is set stands at place `r`.
pub data LowestBit : ℕ → ℕ → Type 0 where
  here : {x : ℕ} → x % 2 ≡ 1 → LowestBit x 0
  later : {x r : ℕ} → x % 2 ≡ 0 → LowestBit (x / 2) r → LowestBit x (suc r)

-- Zero bits may be shifted out, and counted.
LowestBit-shift1 : (x r : ℕ) → x % 2 ≡ 0 → LowestBit (x / 2) r → LowestBit x (1 + r)
LowestBit-shift1 x r z l = subst (LowestBit x) (omega arith) (later z l)

pub LowestBit-shift2 : (x r : ℕ) → x % 4 ≡ 0 → LowestBit (x / 4) r → LowestBit x (2 + r)
LowestBit-shift2 x r z l =
    let inner : LowestBit (x / 2 / 2) r =
      subst (λ y. LowestBit y r) (let e : x / 4 ≡ x / 2 / 2 = omega arith in e) l in
    subst (LowestBit x) (omega arith)
      (LowestBit-shift1 x (1 + r) (omega arith) (LowestBit-shift1 (x / 2) r (omega arith) inner))

pub LowestBit-shift4 : (x r : ℕ) → x % 16 ≡ 0 → LowestBit (x / 16) r → LowestBit x (4 + r)
LowestBit-shift4 x r z l =
    let inner : LowestBit (x / 4 / 4) r =
      subst (λ y. LowestBit y r) (let e : x / 16 ≡ x / 4 / 4 = omega arith in e) l in
    subst (LowestBit x) (omega arith)
      (LowestBit-shift2 x (2 + r) (omega arith) (LowestBit-shift2 (x / 4) r (omega arith) inner))

pub LowestBit-shift8 : (x r : ℕ) → x % 256 ≡ 0 → LowestBit (x / 256) r → LowestBit x (8 + r)
LowestBit-shift8 x r z l =
    let inner : LowestBit (x / 16 / 16) r =
      subst (λ y. LowestBit y r) (let e : x / 256 ≡ x / 16 / 16 = omega arith in e) l in
    subst (LowestBit x) (omega arith)
      (LowestBit-shift4 x (4 + r) (omega arith) (LowestBit-shift4 (x / 16) r (omega arith) inner))

pub LowestBit-shift16 : (x r : ℕ) → x % 65536 ≡ 0 → LowestBit (x / 65536) r → LowestBit x (16 + r)
LowestBit-shift16 x r z l =
    let inner : LowestBit (x / 256 / 256) r =
      subst (λ y. LowestBit y r) (let e : x / 65536 ≡ x / 256 / 256 = omega arith in e) l in
    subst (LowestBit x) (omega arith)
      (LowestBit-shift8 x (8 + r) (omega arith) (LowestBit-shift8 (x / 256) r (omega arith) inner))

pub LowestBit-shift32 :
    (x r : ℕ) → x % 4294967296 ≡ 0 → LowestBit (x / 4294967296) r → LowestBit x (32 + r)
LowestBit-shift32 x r z l =
    let inner : LowestBit (x / 65536 / 65536) r =
      subst (λ y. LowestBit y r) (let e : x / 4294967296 ≡ x / 65536 / 65536 = omega arith in e)
        l in
    subst (LowestBit x) (omega arith) (
      LowestBit-shift16 x (16 + r) (omega arith)
        (LowestBit-shift16 (x / 65536) r (omega arith) inner))

pub LowestBit-set : {x r : ℕ} → LowestBit x r → bit r x ≡ 1
LowestBit-set (here h) = h
LowestBit-set (later h l) = LowestBit-set l

pub LowestBit-least : {x r : ℕ} → LowestBit x r → (i : ℕ) → i < r → bit i x ≡ 0
LowestBit-least (here h) i lt = absurd (omega arith)
LowestBit-least (later h l) zero lt = h
LowestBit-least (later h l) (suc i) lt = LowestBit-least l i (omega arith)

-- A number with no bit below `w` set, and below 2 ^ w, is 0.
pub eq-zero_of_bits : (w x : ℕ) → x < 2 ^ w → ((i : ℕ) → i < w → bit i x ≡ 0) → x ≡ 0
eq-zero_of_bits zero x h none_set = omega arith
eq-zero_of_bits (suc w) x h none_set = omega (
  arith,
  eq-zero_of_bits w (x / 2) (omega (arith, pow-suc 2 w)) (λ i lt. none_set (suc i) (omega arith)),
  none_set 0 (omega arith),
)
