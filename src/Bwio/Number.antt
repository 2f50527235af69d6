-- ===== src/Bwio/Number.antt =====
-- About `bwui2a`, `bwi2a` and `bwa2i` of src/bwio/bwio.c.
use mathlib.Core.Path.{subst}
use native.Mathlib.Nat.{mul-le-mul, mul-le-mul_left}
use armv4_kernel.Prelude.{
  ℕ, zero, suc, ◌+◌, ◌-◌, ◌*◌, ◌%◌, ◌^◌, ◌<◌, ◌≤◌, ◌≡◌, ◌⊎◌, ◌∙◌, sym, inl, inr, refl, ap, false,
  none, some, arith, ltb, leb, Bool-cases, if◌then◌else◌, Option, ◌>>=◌,
}
use armv4_kernel.Queue.{update}
use armv4_kernel.Queue.Rep.{update-same}
use armv4_kernel.CString.{Bytes}
use armv4_kernel.Bwio.{bwa2d, scale, emit, bwui2a, bwi2a, bwa2i, bwa2i_loop}
use armv4_kernel.Bwio.Scale.{power, IsScale, scale_lem}
use armv4_kernel.Bwio.Digits.{Reads, emit_lem, update_off}

power_mono : (base j k : ℕ) → 1 ≤ base → power base j ≤ power base (k + j)
power_mono base j zero p =
    let z : 0 + j ≡ j = omega arith in
    subst (λ m. power base j ≤ power base m) (sym z) (omega arith)
power_mono base j (suc k) p =
    let z : suc (k + j) ≡ suc k + j = omega arith in
    subst (λ m. power base j ≤ power base m) z
      (omega (arith, power_mono base j k p, mul-le-mul_left (power base (k + j)) p))

power_base : (base k : ℕ) → 2 ≤ base → power 2 k ≤ power base k
power_base base zero p = omega arith
power_base base (suc k) p = omega (arith, mul-le-mul (power_base base k p) p)

-- A number below a power has no more digits.
pub few_digits :
    (base num k m : ℕ)
    → 1 ≤ base
    → (power base k ≤ num) ⊎ (k ≡ 0)
    → num < power base (suc m)
    → k ≤ m
few_digits base num k m p (inr none_but) small = omega (arith, none_but)
few_digits base num k m p (inl below) small = elim (Bool-cases (leb k m)) [
  | inl b ↦ ground (arith, b)
  | inr b ↦
      let over : (k - suc m) + suc m ≡ k = ground (arith, b) in
      let grown : power base (suc m) ≤ power base k =
        subst (λ j. power base (suc m) ≤ power base j) over
          (power_mono base (suc m) (k - suc m) p) in
      absurd (omega (arith, grown, below, small))
]

Reads-frame :
    (base : ℕ) (bf bf' : Bytes) (i n acc r : ℕ)
    → ((j : ℕ) → i ≤ j → j < i + n → bf' j ≡ bf j)
    → Reads base bf i n acc r
    → Reads base bf' i n acc r
Reads-frame base bf bf' i zero acc r same h = h
Reads-frame base bf bf' i (suc n) acc r same (dgt, is, less, h) = (
  dgt,
  ap bwa2d (same i (omega arith) (omega arith)) ∙ is,
  less,
  Reads-frame base bf bf' (i + 1) n (acc * base + dgt) r
      (λ j p q. same j (omega (arith, p)) (omega (arith, q))) h,
)

unit : {num base k d : ℕ} → IsScale num base k d → k ≡ 0 → d ≡ 1
unit {base} s z = s.place ∙ ap (power base) z

scale_small : {num base k d : ℕ} → IsScale num base k d → num < 2 ^ 32 → d < 2 ^ 32
scale_small s small = elim s.below [
  | inl b ↦ omega (arith, b, small)
  | inr z ↦ omega (arith, unit s z)
]

scale_shown : {num base k d : ℕ} → IsScale num base k d → 2 ≤ base → (d ≤ num) ⊎ (d < base)
scale_shown s two = elim s.below [ inl b ↦ inl b | inr z ↦ inr (omega (arith, unit s z, two)) ]

scale_below : {num base k d : ℕ} → IsScale num base k d → (power base k ≤ num) ⊎ (k ≡ 0)
scale_below {num} s = elim s.below [ inl b ↦ inl (subst (λ e. e ≤ num) s.place b) | inr z ↦ inr z ]

-- What `bwui2a` leaves: the `m` digits of the number from the index `i` on, and a 0 behind them.
pub record Printed (num base m : ℕ) (bf : Bytes) (i : ℕ) (bf' : Bytes) : Type 0 where
  pub digits : Reads base bf' i m 0 num
  pub ends : bf' (i + m) ≡ 0
  pub before : (j : ℕ) → j < i → bf' j ≡ bf j
  pub after : (j : ℕ) → i + m < j → bf' j ≡ bf j

loops :
    (num base : ℕ) (bf : Bytes) (i : ℕ) {d : ℕ} {bf' : Bytes} {end : ℕ}
    → scale 33 num base 1 ≡ some d
    → emit 33 num base d 0 bf i ≡ some (bf', end)
    → bwui2a num base bf i ≡ some (update bf' end 0)
unfolding bwui2a
loops num base bf i found run =
    ap (λ o. do d ← o; (b, e) ← emit 33 num base d 0 bf i; some (update b e 0)) found
    ∙ ap (λ (o : Option (Bytes × ℕ)). do (b, e) ← o; some (update b e 0)) run

pub bwui2a_lem :
    (num base : ℕ) (bf : Bytes) (i : ℕ)
    → 2 ≤ base
    → base ≤ 16
    → num < 2 ^ 32
    → (k : ℕ) × (bf' : Bytes) × (bwui2a num base bf i ≡ some bf')
      × Printed num base (suc k) bf i bf'
      × ((power base k ≤ num) ⊎ (k ≡ 0))
unfolding bwui2a
bwui2a_lem num base bf i two most small =
    let (k, d, found, s) =
      scale_lem 32 num base 1 0 two small refl (omega arith) (inr refl) (omega (arith, small)) in
    let limit : d < power 2 32 = scale_small s small in
    let shown : (0 < 0) ⊎ ((d ≤ num) ⊎ (d < base)) = inr (scale_shown s two) in
    let (bf₁, run, e) =
      emit_lem 32 k num base d 0 0 bf i two most s.place s.positive s.above shown limit in
    (
      k,
      update bf₁ (i + suc k) 0,
      loops num base bf i found run,
      record {
        digits =
            Reads-frame base bf₁ (update bf₁ (i + suc k) 0) i (suc k) 0 num
              (λ j p q. update_off bf₁ (i + suc k) 0 j (inl q))
              (let z : 0 * (d * base) + num ≡ num = omega arith in
                subst (λ r. Reads base bf₁ i (suc k) 0 r) z e.digits);
        ends = sym (update-same bf₁ (i + suc k) 0);
        before = λ j p. update_off bf₁ (i + suc k) 0 j (inl (omega (arith, p))) ∙ e.before j p;
        after = λ j p. update_off bf₁ (i + suc k) 0 j (inr p) ∙ e.after j (omega (arith, p));
      },
      scale_below s,
    )

-- The longest text has `m` characters before the final 0.
pub fits_lem :
    (num base m : ℕ) (bf : Bytes) (i : ℕ)
    → 2 ≤ base
    → base ≤ 16
    → num < 2 ^ 32
    → num < power base m
    → 0 < m
    → (n : ℕ) × (bf' : Bytes) × (bwui2a num base bf i ≡ some bf')
      × (n ≤ m)
      × Printed num base n bf i bf'
fits_lem num base zero bf i two most small width pos = absurd (omega (arith, pos))
fits_lem num base (suc m) bf i two most small width pos =
    let (k, bf', run, printed, below) = bwui2a_lem num base bf i two most small in
    (
      suc k,
      bf',
      run,
      omega (arith, few_digits base num k m (omega (arith, two)) below width),
      printed,
    )

fits_from :
    (num base m : ℕ) (bf : Bytes)
    → 2 ≤ base
    → base ≤ 16
    → num < 2 ^ 32
    → num < power base m
    → 0 < m
    → m < 12
    → (bf' : Bytes) × (n : ℕ) × (bwui2a num base bf 0 ≡ some bf')
      × (n < 12)
      × (bf' n ≡ 0)
      × ((j : ℕ) → 12 ≤ j → bf' j ≡ bf j)
fits_from num base m bf two most small width pos room =
    let (n, bf', run, short, p) = fits_lem num base m bf 0 two most small width pos in
    let z : 0 + n ≡ n = omega arith in
    (
      bf',
      n,
      run,
      omega (arith, short, room),
      ap bf' (sym z) ∙ p.ends,
      λ j q. p.after j (omega (arith, short, room, q)),
    )

signed_fits :
    (num : ℕ) (bf : Bytes)
    → num < 2 ^ 32
    → (bf' : Bytes) × (n : ℕ) × (bwi2a num bf ≡ some bf')
      × (n < 12)
      × (bf' n ≡ 0)
      × ((j : ℕ) → 12 ≤ j → bf' j ≡ bf j)
unfolding bwi2a
signed_fits num bf small = elim (Bool-cases (leb (2 ^ 31) num)) [
  | inr b ↦
      rw (b, bwi2a)
        (fits_from num 10 10 bf (omega arith) (omega arith) small (omega (arith, small))
          (omega arith) (omega arith))
  | inl b ↦
      let neg : 2 ^ 31 ≤ num = ground (arith, b) in
      let (n, bf', run, short, p) =
        fits_lem (2 ^ 32 - num) 10 10 (update bf 0 b'-') 1 (omega arith) (omega arith)
          (omega (arith, neg)) (omega (arith, neg)) (omega arith) in
      (
        bf',
        1 + n,
        rw (b, bwi2a) run,
        omega (arith, short),
        p.ends,
        λ j q.
            p.after j (omega (arith, short, q)) ∙ update_off bf 0 b'-' j (inr (omega (arith, q))),
      )
]

-- `bwi2a` of any `int` writes no byte outside the first 12 of its buffer, and ends the text with a 0
-- within them; and so does `bwui2a` of any `unsigned int` to the base 10 or 16.
pub bwi2a-fits :
    (num : ℕ) (bf : Bytes)
    → num < 2 ^ 32
    → ((bf' : Bytes) × (n : ℕ) × (bwi2a num bf ≡ some bf')
        × (n < 12)
        × (bf' n ≡ 0)
        × ((j : ℕ) → 12 ≤ j → bf' j ≡ bf j))
      × ((bf' : Bytes) × (n : ℕ) × (bwui2a num 10 bf 0 ≡ some bf')
          × (n < 12)
          × (bf' n ≡ 0)
          × ((j : ℕ) → 12 ≤ j → bf' j ≡ bf j))
      × ((bf' : Bytes) × (n : ℕ) × (bwui2a num 16 bf 0 ≡ some bf')
          × (n < 12)
          × (bf' n ≡ 0)
          × ((j : ℕ) → 12 ≤ j → bf' j ≡ bf j))
bwi2a-fits num bf small = (
  signed_fits num bf small,
  fits_from num 10 10 bf (omega arith) (omega arith) small (omega (arith, small)) (omega arith)
      (omega arith),
  fits_from num 16 8 bf (omega arith) (omega arith) small (omega (arith, small)) (omega arith)
      (omega arith),
)

pub nul : bwa2d 0 ≡ none
unfolding bwa2d
nul = refl

Reads-le : (base : ℕ) (bf : Bytes) (i n acc r : ℕ) → 1 ≤ base → Reads base bf i n acc r → acc ≤ r
Reads-le base bf i zero acc r one h = omega (arith, h)
Reads-le base bf i (suc n) acc r one (dgt, is, less, h) =
    omega (arith, Reads-le base bf (i + 1) n (acc * base + dgt) r one h, mul-le-mul_left acc one)

-- A round, once the character is looked at.
abbrev read_rest : ℕ → ℕ → Bytes → (ch i acc : ℕ) → Option ℕ → Option (ℕ × ℕ × ℕ)
read_rest f base bf ch i acc none = some (ch, i + 1, acc)
read_rest f base bf ch i acc (some digit) =
    if ltb base digit
    then some (ch, i + 1, acc)
    else bwa2i_loop f (bf (i + 1)) bf (i + 1 + 1) base ((acc * base + digit) % 2 ^ 32)

read_stop :
    (f base : ℕ) (bf : Bytes) (i acc : ℕ)
    → bwa2d (bf i) ≡ none
    → bwa2i_loop (suc f) (bf i) bf (i + 1) base acc ≡ some (bf i, i + 1, acc)
unfolding bwa2i_loop
read_stop f base bf i acc e = ap (read_rest f base bf (bf i) i acc) e

read_on :
    (f base : ℕ) (bf : Bytes) (i acc dgt : ℕ)
    → bwa2d (bf i) ≡ some dgt
    → ltb base dgt ≡ false
    → (acc * base + dgt) % 2 ^ 32 ≡ acc * base + dgt
    → bwa2i_loop (suc f) (bf i) bf (i + 1) base acc
      ≡ bwa2i_loop f (bf (i + 1)) bf (i + 1 + 1) base (acc * base + dgt)
unfolding bwa2i_loop
read_on f base bf i acc dgt is ok wide =
    ap (read_rest f base bf (bf i) i acc) is ∙ rw (ok, wide) refl

read_lem :
    (f base : ℕ) (bf : Bytes) (i n acc r : ℕ)
    → 1 ≤ base
    → n ≤ f
    → r < 2 ^ 31
    → bwa2d (bf (i + n)) ≡ none
    → Reads base bf i n acc r
    → bwa2i_loop (suc f) (bf i) bf (i + 1) base acc ≡ some (bf (i + n), i + n + 1, r)
read_lem f base bf i zero acc r one fuel small stop h =
    let z : i + 0 ≡ i = omega arith in
    let none_here : bwa2d (bf i) ≡ none = ap (λ j. bwa2d (bf j)) (sym z) ∙ stop in
    read_stop f base bf i acc none_here
    ∙ ap (λ j. some (bf j, j + 1, acc)) (sym z)
    ∙ ap (λ e. some (bf (i + 0), i + 0 + 1, e)) h
read_lem zero base bf i (suc n) acc r one fuel small stop h = absurd (omega (arith, fuel))
read_lem (suc f) base bf i (suc n) acc r one fuel small stop (dgt, is, less, h) =
    let ok : ltb base dgt ≡ false = ground (arith, less) in
    let le : acc * base + dgt ≤ r = Reads-le base bf (i + 1) n (acc * base + dgt) r one h in
    let wide : (acc * base + dgt) % 2 ^ 32 ≡ acc * base + dgt = omega (arith, le, small) in
    let index : i + 1 + n ≡ i + suc n = omega arith in
    read_on (suc f) base bf i acc dgt is ok wide
    ∙ read_lem f base bf (i + 1) n (acc * base + dgt) r one (omega (arith, fuel)) small
        (ap (λ j. bwa2d (bf j)) index ∙ stop) h
    ∙ ap (λ j. some (bf j, j + 1, r)) index

-- Every `unsigned int` below 2 ^ 31 that `bwui2a` prints to a base from 2 to 16, `bwa2i` reads back, from
-- the first character of the text up to the 0 behind it; no loop of either outlives 33 rounds.
pub bwa2i-bwui2a :
    (num base : ℕ) (bf : Bytes)
    → 2 ≤ base
    → base ≤ 16
    → num < 2 ^ 31
    → (bf' : Bytes) × (p : ℕ) × (bwui2a num base bf 0 ≡ some bf')
      × (bwa2i 33 (bf' 0) bf' 1 base ≡ some (0, p, num))
unfolding bwa2i
bwa2i-bwui2a num base bf two most small =
    let (k, bf', run, printed, below) = bwui2a_lem num base bf 0 two most (omega (arith, small)) in
    let short : k ≤ 31 =
      few_digits 2 num k 31 (omega arith)
        (elim below [ inl b ↦ inl (omega (arith, b, power_base base k two)) | inr z ↦ inr z ])
        (omega (arith, small)) in
    let z : 0 + 1 ≡ 1 = omega arith in
    (
      bf',
      0 + suc k + 1,
      run,
      read_lem 32 base bf' 0 (suc k) 0 num (omega (arith, two)) (omega (arith, short)) small
            (ap bwa2d printed.ends ∙ nul) printed.digits
          ∙ ap (λ c. some (c, 0 + suc k + 1, num)) printed.ends,
    )
