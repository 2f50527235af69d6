-- ===== src/CString/Compare.antt =====
-- About `strncmp`, `memcmp` and `memchr` of src/cstdlib/string.c.
use armv4_kernel.Prelude.{
  ℕ, zero, suc, ◌+◌, ◌-◌, ◌%◌, ◌^◌, ◌<◌, ◌≤◌, ◌≡◌, ◌≢◌, ◌↔◌, refl, arith, Option, none, some, ◌==◌,
  ltb, if◌then◌else◌, Bool-cases, inl, inr,
}
use native.Mathlib.Decide.{dec_lt}
use armv4_kernel.CString.{
  Bytes, difference, strncmp_loop, strncmp, memchr_loop, memchr, memcmp_loop, memcmp,
}
use armv4_kernel.CString.Copy.{text}

-- Every byte is below 256.
abbrev pub IsBytes : Bytes → Type 0
IsBytes a = (i : ℕ) → a i < 256

module _ (lhs rhs : Bytes) (hl : IsBytes lhs) (hr : IsBytes rhs) where
  strncmp_loop_sound :
      (n i ret : ℕ) → ret ≡ 0 → strncmp_loop n i ret lhs rhs ≡ 0 → text n i lhs ≡ text n i rhs
  unfolding strncmp_loop
  strncmp_loop_sound zero i ret z e = refl
  strncmp_loop_sound (suc n) i ret z e =
      ground (arith, hl i, hr i, strncmp_loop_sound n (i + 1) (difference (lhs i) (rhs i)))

  strncmp_loop_complete :
      (n i ret : ℕ) → ret ≡ 0 → text n i lhs ≡ text n i rhs → strncmp_loop n i ret lhs rhs ≡ 0
  unfolding strncmp_loop
  strncmp_loop_complete zero i ret z e = z
  strncmp_loop_complete (suc n) i ret z e =
      ground (arith, hl i, hr i, strncmp_loop_complete n (i + 1) (difference (lhs i) (rhs i)))

  -- For arrays of bytes, `strncmp` returns 0 exactly when the two texts of at most `count` bytes are
  -- equal.
  pub strncmp-eq-zero :
      (count : ℕ) → (strncmp lhs rhs count ≡ 0) ↔ (text count 0 lhs ≡ text count 0 rhs)
  unfolding strncmp
  strncmp-eq-zero count = (strncmp_loop_sound count 0 0 refl, strncmp_loop_complete count 0 0 refl)

-- The first place, from index `i` on and among `n`, at which two arrays differ, if there is one.
abbrev pub first_difference : ℕ → ℕ → Bytes → Bytes → Option ℕ
first_difference zero i lhs rhs = none
first_difference (suc n) i lhs rhs =
    if lhs i == rhs i then first_difference n (i + 1) lhs rhs else some i

abbrev pub order_at : Bytes → Bytes → Option ℕ → ℕ
order_at lhs rhs none = 0
order_at lhs rhs (some i) = if ltb (lhs i) (rhs i) then 2 ^ 32 - 1 else 1

memcmp_loop_lem :
    (n i : ℕ) (lhs rhs : Bytes)
    → memcmp_loop n i lhs rhs ≡ order_at lhs rhs (first_difference n i lhs rhs)
unfolding memcmp_loop
memcmp_loop_lem zero i lhs rhs = refl
memcmp_loop_lem (suc n) i lhs rhs = ground (arith, memcmp_loop_lem n (i + 1) lhs rhs)

-- `memcmp` returns 0 where the first `count` bytes agree, and else -1 or 1 by the order of the first
-- two bytes that differ.
pub memcmp_lem :
    (lhs rhs : Bytes) (count : ℕ)
    → memcmp lhs rhs count ≡ order_at lhs rhs (first_difference count 0 lhs rhs)
unfolding memcmp
memcmp_lem lhs rhs count = memcmp_loop_lem count 0 lhs rhs

-- What `memchr` answers of the bytes from `i` to `i + n - 1`.
abbrev pub Finds : Bytes → ℕ → ℕ → ℕ → Option ℕ → Type 0
Finds ptr ch i n none = (j : ℕ) → i ≤ j → j < i + n → ptr j ≢ ch % 256
Finds ptr ch i n (some k) =
    (i ≤ k) × (k < i + n) × (ptr k ≡ ch % 256) × ((j : ℕ) → i ≤ j → j < k → ptr j ≢ ch % 256)

widen :
    (ptr : Bytes) (ch i m : ℕ)
    → ptr i ≢ ch % 256
    → ((j : ℕ) → i + 1 ≤ j → j < m → ptr j ≢ ch % 256)
    → (j : ℕ) → i ≤ j
    → j < m
    → ptr j ≢ ch % 256
widen ptr ch i m ne h j p q = elim (dec_lt i j) [
  | yes over ↦ h j (omega arith) q
  | no same ↦ let e : j ≡ i = omega arith in rw e ne
]

Finds-later :
    (ptr : Bytes) (ch i n : ℕ) (r : Option ℕ)
    → ptr i ≢ ch % 256
    → Finds ptr ch (i + 1) n r
    → Finds ptr ch i (suc n) r
Finds-later ptr ch i n none ne h = λ j p q. widen ptr ch i (i + 1 + n) ne h j p (omega arith)
Finds-later ptr ch i n (some k) ne h =
    (omega (arith, h.0), omega (arith, h.1), h.2, widen ptr ch i k ne h.3)

memchr_loop_lem : (n i : ℕ) (ptr : Bytes) (ch : ℕ) → Finds ptr ch i n (memchr_loop n i ptr ch)
unfolding memchr_loop
memchr_loop_lem zero i ptr ch = λ j p q. absurd (omega arith)
memchr_loop_lem (suc n) i ptr ch = elim (Bool-cases (ptr i == ch % 256)) [
  | inl e ↦ rw e (omega arith, omega arith, ground arith, λ j p q. absurd (omega arith))
  | inr e ↦ rw e (Finds-later ptr ch i n _ (ground arith) (memchr_loop_lem n (i + 1) ptr ch))
]

-- `memchr` returns the first of the `count` bytes that equals the low byte of `ch`, and `NULL` only
-- where there is none.
pub memchr_lem : (ptr : Bytes) (ch count : ℕ) → Finds ptr ch 0 count (memchr ptr ch count)
unfolding memchr
memchr_lem ptr ch count = memchr_loop_lem count 0 ptr ch
