-- ===== src/ClockServer/Sorted.antt =====
-- The blocked tasks of src/clock_server/clock_server.c as a list in the order of their times.
use armv4_kernel.Prelude.{
  ℕ, ◌^◌, ◌<◌, ◌≤◌, ◌≡◌, inl, inr, List, [], ◌∷◌, arith, ltb, if◌then◌else◌, Bool-cases,
}
use armv4_kernel.ClockServer.{BlockedEntry, int_gt}

-- A task goes behind all that are due no later.
abbrev pub insert : BlockedEntry → List BlockedEntry → List BlockedEntry
insert e [] = e ∷ []
insert e (x ∷ xs) = if ltb e.ticks x.ticks then e ∷ x ∷ xs else x ∷ insert e xs

-- At the time `now`, the first task is released if its time has passed.
abbrev pub after_tick : ℕ → List BlockedEntry → List BlockedEntry
after_tick now [] = []
after_tick now (x ∷ xs) = if ltb x.ticks now then xs else x ∷ xs

-- No time is before `t`, and they do not decrease.
abbrev pub SortedFrom : ℕ → List BlockedEntry → Type 0
SortedFrom t [] = Unit
SortedFrom t (x ∷ xs) = (t ≤ x.ticks) × SortedFrom x.ticks xs

-- Positive as an `int`.
abbrev pub AllDue : List BlockedEntry → Type 0
AllDue [] = Unit
AllDue (x ∷ xs) = (0 < x.ticks) × (x.ticks < 2 ^ 31) × AllDue xs

pub insert-SortedFrom :
    (t : ℕ) (e : BlockedEntry) (l : List BlockedEntry)
    → t ≤ e.ticks
    → SortedFrom t l
    → SortedFrom t (insert e l)
insert-SortedFrom t e [] p s = (p, tt)
insert-SortedFrom t e (x ∷ xs) p (q, s) = elim (Bool-cases (ltb e.ticks x.ticks)) [
  | inl b ↦ rw b (p, (ground (arith, b), s))
  | inr b ↦ rw b (q, insert-SortedFrom x.ticks e xs (ground (arith, b)) s)
]

pub after_tick-SortedFrom :
    (t now : ℕ) (l : List BlockedEntry) → SortedFrom t l → SortedFrom t (after_tick now l)
after_tick-SortedFrom t now [] s = tt
after_tick-SortedFrom t now (x ∷ xs) (q, s) = elim (Bool-cases (ltb x.ticks now)) [
  | inl b ↦ rw b (weaken t x.ticks xs q s)
  | inr b ↦ rw b (q, s)
]
  where
    weaken : (t u : ℕ) (l : List BlockedEntry) → t ≤ u → SortedFrom u l → SortedFrom t l
    weaken t u [] p s = tt
    weaken t u (x ∷ xs) p (q, s) = (omega arith, s)

pub insert-AllDue :
    (e : BlockedEntry) (l : List BlockedEntry)
    → 0 < e.ticks
    → e.ticks < 2 ^ 31
    → AllDue l
    → AllDue (insert e l)
insert-AllDue e [] p q d = (p, q, tt)
insert-AllDue e (x ∷ xs) p q (a, b, d) = elim (Bool-cases (ltb e.ticks x.ticks)) [
  | inl c ↦ rw c (p, q, (a, b, d))
  | inr c ↦ rw c (a, b, insert-AllDue e xs p q d)
]

pub after_tick-AllDue : (now : ℕ) (l : List BlockedEntry) → AllDue l → AllDue (after_tick now l)
after_tick-AllDue now [] d = tt
after_tick-AllDue now (x ∷ xs) (a, b, d) = elim (Bool-cases (ltb x.ticks now)) [
  | inl c ↦ rw c d
  | inr c ↦ rw c (a, b, d)
]

-- On positive numbers the comparison of `int`s is that of the patterns.
pub int_gt_lem : (a b : ℕ) → a < 2 ^ 31 → b < 2 ^ 31 → int_gt a b ≡ ltb b a
int_gt_lem a b p q = ground arith
