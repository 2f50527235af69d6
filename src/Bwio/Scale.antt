-- ===== src/Bwio/Scale.antt =====
-- About the first loop of `bwui2a` of src/bwio/bwio.c, which looks for the place of the first digit.
use native.Mathlib.Nat.{div-lt_iff_lt-mul, le-div_iff_mul-le, mul-le-mul_left}
use armv4_kernel.Prelude.{
  ℕ, zero, suc, ◌*◌, ◌/◌, ◌%◌, ◌^◌, ◌<◌, ◌≤◌, ◌≡◌, ◌⊎◌, inl, inr, refl, ap, true, false, some,
  arith, ◌==◌, leb, Bool-cases,
}
use armv4_kernel.Bwio.{scale}

abbrev pub power : ℕ → ℕ → ℕ
power base zero = 1
power base (suc k) = power base k * base

-- `d` is the place of the first digit of `num`, the digit `k` from the right; 0 has the digit 0.
pub record IsScale (num base k d : ℕ) : Type 0 where
  pub place : d ≡ power base k
  pub above : num < d * base
  pub below : (d ≤ num) ⊎ (k ≡ 0)
  pub positive : 0 < d

-- The loop stops at the digit's place.
stops :
    {num base k d : ℕ}
    → d ≡ power base k
    → 0 < d
    → (d ≤ num) ⊎ (k ≡ 0)
    → leb base (num / d) ≡ false
    → IsScale num base k d
stops {num} {base} {k} {d} place pos below stop =
    let less : num / d < base = ground (arith, stop) in
    record {
      place = place;
      above = omega (arith, (div-lt_iff_lt-mul {x = num} {y = base} pos).0 less);
      below = below;
      positive = pos;
    }

goes_on : {num d : ℕ} (base : ℕ) → 0 < d → leb base (num / d) ≡ true → d * base ≤ num
goes_on {num} {d} base pos go =
    let more : base ≤ num / d = ground (arith, go) in
    omega (arith, (le-div_iff_mul-le {x = base} {y = num} pos).0 more)

scale_on :
    (f num base d d' : ℕ)
    → 0 < d
    → leb base (num / d) ≡ true
    → d * base % 2 ^ 32 ≡ d * base
    → scale f num base (d * base) ≡ some d'
    → scale (suc f) num base d ≡ some d'
unfolding scale
scale_on f num base d d' pos go wide run =
    let d_ok : (d == 0) ≡ false = ground (arith, pos) in rw (d_ok, go, wide) run

pub scale_lem :
    (f num base d k : ℕ)
    → 2 ≤ base
    → num < 2 ^ 32
    → d ≡ power base k
    → 0 < d
    → (d ≤ num) ⊎ (k ≡ 0)
    → num < d * power 2 f
    → (k' : ℕ) × (d' : ℕ) × (scale (suc f) num base d ≡ some d') × IsScale num base k' d'
unfolding scale
scale_lem zero num base d k two small place pos below fuel =
    let d_ok : (d == 0) ≡ false = ground (arith, pos) in
    elim (Bool-cases (leb base (num / d))) [
      | inr stop ↦ (k, d, rw (d_ok, stop) refl, stops place pos below stop)
      | inl go ↦ absurd (omega (arith, goes_on base pos go, mul-le-mul_left d two, fuel, pos))
    ]
scale_lem (suc f) num base d k two small place pos below fuel =
    let d_ok : (d == 0) ≡ false = ground (arith, pos) in
    elim (Bool-cases (leb base (num / d))) [
      | inr stop ↦ (k, d, rw (d_ok, stop) refl, stops place pos below stop)
      | inl go ↦
          let up : d * base ≤ num = goes_on base pos go in
          let wide : d * base % 2 ^ 32 ≡ d * base = omega (arith, up, small) in
          let enough : num < d * base * power 2 f =
            omega (arith, fuel, mul-le-mul_left (d * power 2 f) two) in
          let (k', d', run, is) =
            scale_lem f num base (d * base) (suc k) two small (ap (λ e. e * base) place)
              (omega (arith, pos, mul-le-mul_left d two)) (inl up) enough in
          (k', d', scale_on (suc f) num base d d' pos go wide run, is)
    ]
