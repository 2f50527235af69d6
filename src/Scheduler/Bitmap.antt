-- ===== src/Scheduler/Bitmap.antt =====
-- About `bitmap_leadingzeroes` of src/scheduler/scheduler.c.
use mathlib.Core.Path.{subst, sym, ap}
use armv4_kernel.Prelude.{
  ℕ, ◌+◌, ◌-◌, ◌/◌, ◌%◌, ◌^◌, ◌<◌, ◌≤◌, ◌≡◌, ◌≢◌, true, false, arith, ◌==◌, Bool-cases, inl, inr,
}
use armv4_kernel.Bits.{
  LowestBit, here, later, LowestBit-shift2, LowestBit-shift4, LowestBit-shift8, LowestBit-shift16,
  LowestBit-shift32,
}
use armv4_kernel.Scheduler.{narrow, bitmap_leadingzeroes}

-- What one test contributes, where the count stays in a byte.
module _ (k b c : ℕ) where
  narrow_shifts : (b % 2 ^ k == 0) ≡ true → c + k < 256 → narrow k (b, c) ≡ (b / 2 ^ k, c + k)
  unfolding narrow
  narrow_shifts e fits = rw e (ap (λ n. (b / 2 ^ k, n)) (omega arith))

  narrow_stays : (b % 2 ^ k == 0) ≡ false → narrow k (b, c) ≡ (b, c)
  unfolding narrow
  narrow_stays e = rw e

  narrow_lem :
      ((x r : ℕ) → x % 2 ^ k ≡ 0 → LowestBit (x / 2 ^ k) r → LowestBit x (k + r))
      → c + k < 256
      → (r : ℕ) → LowestBit (narrow k (b, c)).0 r
      → LowestBit b ((narrow k (b, c)).1 - c + r)
  narrow_lem shift fits r l = elim (Bool-cases (b % 2 ^ k == 0)) [
    | inl e ↦
        subst (λ p. LowestBit p.0 r → LowestBit b (p.1 - c + r)) (sym (narrow_shifts e fits))
          (λ l. subst (LowestBit b) (omega arith) (shift b r (ground arith) l)) l
    | inr e ↦
        subst (λ p. LowestBit p.0 r → LowestBit b (p.1 - c + r)) (sym (narrow_stays e))
          (λ l. subst (LowestBit b) (omega arith) l) l
  ]

  narrow_count : c + k < 256 → (c ≤ (narrow k (b, c)).1) × ((narrow k (b, c)).1 ≤ c + k)
  narrow_count fits = elim (Bool-cases (b % 2 ^ k == 0)) [
    | inl e ↦ rw (narrow_shifts e fits) (omega arith)
    | inr e ↦ rw (narrow_stays e) (omega arith)
  ]

-- After the test of `k` low bits, one of them is set.
narrow_rest :
    (k b c : ℕ)
    → (b % 2 ^ (k + k) ≢ 0)
    → (b % 2 ^ k ≡ 0 → b / 2 ^ k % 2 ^ k ≢ 0)
    → (narrow k (b, c)).0 % 2 ^ k ≢ 0
unfolding narrow
narrow_rest k b c set upper = elim (Bool-cases (b % 2 ^ k == 0)) [
  | inl e ↦ rw e (upper (ground arith))
  | inr e ↦ rw e (ground arith)
]

final_bit : (x : ℕ) → x % 4 ≢ 0 → LowestBit x (1 - x % 2)
final_bit x h = elim (Bool-cases (x % 2 == 1)) [
  | inl e ↦ subst (LowestBit x) (ground arith) (here (ground arith))
  | inr e ↦ subst (LowestBit x) (ground arith) (later {r = 0} (ground arith) (here (ground arith)))
]

module _ (b : ℕ) where
  abbrev after32 : ℕ × ℕ
  after32 = narrow 32 (b, 1)

  abbrev after16 : ℕ × ℕ
  after16 = narrow 16 after32

  abbrev after8 : ℕ × ℕ
  after8 = narrow 8 after16

  abbrev after4 : ℕ × ℕ
  after4 = narrow 4 after8

  abbrev after2 : ℕ × ℕ
  after2 = narrow 2 after4

  -- The five tests leave the count between 1 and 63.
  counts :
      (1 ≤ after32.1)
      × (after32.1 ≤ after16.1)
      × (after16.1 ≤ after8.1)
      × (after8.1 ≤ after4.1)
      × (after4.1 ≤ after2.1)
      × (after2.1 < 64)
  counts =
      let c32 = narrow_count 32 b 1 (omega arith) in
      let c16 = narrow_count 16 after32.0 after32.1 (omega (arith, c32)) in
      let c8 = narrow_count 8 after16.0 after16.1 (omega (arith, c32, c16)) in
      let c4 = narrow_count 4 after8.0 after8.1 (omega (arith, c32, c16, c8)) in
      let c2 = narrow_count 2 after4.0 after4.1 (omega (arith, c32, c16, c8, c4)) in
      omega (arith, c32, c16, c8, c4, c2)

  rest : b < 2 ^ 64 → b ≢ 0 → after2.0 % 4 ≢ 0
  rest small nonzero =
      let r32 = narrow_rest 32 b 1 (omega arith) (λ z. omega arith) in
      let r16 = narrow_rest 16 after32.0 after32.1 r32 (λ z. omega (arith, r32)) in
      let r8 = narrow_rest 8 after16.0 after16.1 r16 (λ z. omega (arith, r16)) in
      let r4 = narrow_rest 4 after8.0 after8.1 r8 (λ z. omega (arith, r8)) in
      narrow_rest 2 after4.0 after4.1 r4 (λ z. omega (arith, r4))

  narrowed_lowest : b < 2 ^ 64 → b ≢ 0 → LowestBit b (after2.1 - after2.0 % 2)
  narrowed_lowest small nonzero =
      let l2 =
        narrow_lem 2 after4.0 after4.1 LowestBit-shift2 (omega (arith, counts)) _
          (final_bit after2.0 (rest small nonzero)) in
      let l4 = narrow_lem 4 after8.0 after8.1 LowestBit-shift4 (omega (arith, counts)) _ l2 in
      let l8 = narrow_lem 8 after16.0 after16.1 LowestBit-shift8 (omega (arith, counts)) _ l4 in
      let l16 = narrow_lem 16 after32.0 after32.1 LowestBit-shift16 (omega (arith, counts)) _ l8 in
      let l32 = narrow_lem 32 b 1 LowestBit-shift32 (omega arith) _ l16 in
      subst (LowestBit b) (omega (arith, counts)) l32

  -- For a bitmap of 64 bits that is not 0, the function returns the place of the lowest bit set.
  pub bitmap_leadingzeroes-LowestBit : b < 2 ^ 64 → b ≢ 0 → LowestBit b (bitmap_leadingzeroes b)
  unfolding bitmap_leadingzeroes
  bitmap_leadingzeroes-LowestBit small nonzero = elim (Bool-cases (b % 2 == 1)) [
    | inl e ↦ rw e (here (ground arith))
    | inr e ↦ rw e (subst (LowestBit b) (omega (arith, counts)) (narrowed_lowest small nonzero))
  ]
