-- ===== src/Bits/Step.antt =====
-- The native bit operations stand for a recursion on binary digits with fuel. These are the laws of
-- the lowest digit, which no longer mention the fuel.
use Prim.Native.Nat.{bit_and, bit_or, min, max, digits, bit_and-bitwise, bit_or-bitwise}
use armv4_kernel.Prelude.{ℕ, zero, suc, ◌+◌, ◌*◌, ◌/◌, ◌%◌, ◌≤◌, ◌≡◌, refl, arith}

-- More fuel than the first operand changes nothing.
enough_fuel :
    (z : ℕ → ℕ) (f : ℕ → ℕ → ℕ) (k l a b : ℕ) → a ≤ k → a ≤ l → digits z f k a b ≡ digits z f l a b
enough_fuel z f zero zero a b hk hl = refl
enough_fuel z f zero (suc l) zero b hk hl = refl
enough_fuel z f zero (suc l) (suc a) b hk hl = absurd (omega arith)
enough_fuel z f (suc k) zero zero b hk hl = refl
enough_fuel z f (suc k) zero (suc a) b hk hl = absurd (omega arith)
enough_fuel z f (suc k) (suc l) zero b hk hl = refl
enough_fuel z f (suc k) (suc l) (suc a) b hk hl =
    omega (arith, enough_fuel z f k l (suc a / 2) (b / 2) (omega arith) (omega arith))

pub or_low_digit : (a b : ℕ) → bit_or a b ≡ bit_or (a / 2) (b / 2) * 2 + max (a % 2) (b % 2)
or_low_digit zero b = omega (arith, bit_or-bitwise 0 b, bit_or-bitwise 0 (b / 2))
or_low_digit (suc a) b = omega (
  arith,
  bit_or-bitwise (suc a) b,
  bit_or-bitwise (suc a / 2) (b / 2),
  enough_fuel (λ y. y) max a (suc a / 2) (suc a / 2) (b / 2) (omega arith) (omega arith),
)

pub and_low_digit : (a b : ℕ) → bit_and a b ≡ bit_and (a / 2) (b / 2) * 2 + min (a % 2) (b % 2)
and_low_digit zero b = omega (arith, bit_and-bitwise 0 b, bit_and-bitwise 0 (b / 2))
and_low_digit (suc a) b = omega (
  arith,
  bit_and-bitwise (suc a) b,
  bit_and-bitwise (suc a / 2) (b / 2),
  enough_fuel (λ y. 0) min a (suc a / 2) (suc a / 2) (b / 2) (omega arith) (omega arith),
)
