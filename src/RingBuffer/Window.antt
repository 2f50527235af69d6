-- ===== src/RingBuffer/Window.antt =====
-- The bytes that stand in a buffer from an index on, going round at its size.
use mathlib.Core.Path.{◌∙◌, sym}
use native.Mathlib.Nat.{mod-add-mod, mod-eq_of_lt, mod-eq-sub-mod}
use native.Mathlib.Decide.{dec_lt}
use armv4_kernel.Prelude.{
  ℕ, zero, suc, ◌+◌, ◌-◌, ◌%◌, ◌<◌, ◌≤◌, ◌≡◌, ◌≢◌, refl, ap, ap₂, List, [], ◌∷◌, ◌++◌, arith,
  length, length-append, set, get_or, ◌⊎◌, inl, inr,
}

pub get_or-set_self : (l : List ℕ) (i v : ℕ) → i < length l → get_or (set l i v) i 0 ≡ v
get_or-set_self [] i v h = absurd (omega arith)
get_or-set_self (x ∷ l) zero v h = refl
get_or-set_self (x ∷ l) (suc i) v h = get_or-set_self l i v (omega arith)

pub get_or-set_ne : (l : List ℕ) (i j v : ℕ) → i ≢ j → get_or (set l i v) j 0 ≡ get_or l j 0
get_or-set_ne [] i j v h = refl
get_or-set_ne (x ∷ l) zero zero v h = absurd (h refl)
get_or-set_ne (x ∷ l) zero (suc j) v h = refl
get_or-set_ne (x ∷ l) (suc i) zero v h = refl
get_or-set_ne (x ∷ l) (suc i) (suc j) v h = get_or-set_ne l i j v (λ e. h (ap suc e))

module _ (buf : List ℕ) (size : ℕ) where
  -- The `n` bytes from index `r` on, the newest last.
  abbrev pub window : ℕ → ℕ → List ℕ
  window r zero = []
  window r (suc n) = window r n ++ get_or buf ((r + n) % size) 0 ∷ []

  pub length-window : (r n : ℕ) → length (window r n) ≡ n
  length-window r zero = refl
  length-window r (suc n) =
      omega
        (arith, length-append (window r n) (get_or buf ((r + n) % size) 0 ∷ []), length-window r n)

  -- The oldest byte in front.
  pub window_oldest :
      (r n : ℕ) → window r (suc n) ≡ get_or buf (r % size) 0 ∷ window ((r + 1) % size) n
  window_oldest r zero = ap (λ i. get_or buf (i % size) 0 ∷ []) (omega arith)
  window_oldest r (suc n) = ap₂ ◌++◌ (window_oldest r n) (ap (λ i. get_or buf i 0 ∷ []) shifted)
    where
      shifted : (r + suc n) % size ≡ ((r + 1) % size + n) % size
      shifted = ap (λ k. k % size) (omega arith) ∙ sym (mod-add-mod (r + 1) size n)

-- A sum of two indices goes round once at most.
pub one_round :
    (size a : ℕ)
    → a < size + size
    → ((a % size ≡ a) × (a < size)) ⊎ ((a % size ≡ a - size) × (size ≤ a))
one_round size a h = elim (dec_lt a size) [
  | yes p ↦ inl (mod-eq_of_lt p, p)
  | no p ↦ inr (
    mod-eq-sub-mod {n = a} {m = size} (omega arith)
        ∙ mod-eq_of_lt {n = a - size} {m = size} (omega arith),
    omega arith,
  )
]

-- Fewer than `size` steps from `r` do not lead back to where `n` steps lead.
pub mod-ne : (size r m n : ℕ) → r < size → m < n → n < size → (r + m) % size ≢ (r + n) % size
mod-ne size r m n hr hm hn =
    omega (arith, one_round size (r + m) (omega arith), one_round size (r + n) (omega arith))

pub window-set :
    (buf : List ℕ) (size r n i v : ℕ)
    → r < size
    → n < size
    → i ≡ (r + n) % size
    → (m : ℕ) → m ≤ n
    → window (set buf i v) size r m ≡ window buf size r m
window-set buf size r n i v hr hn e zero hm = refl
window-set buf size r n i v hr hn e (suc m) hm =
    ap₂ (λ l b. l ++ b ∷ []) (window-set buf size r n i v hr hn e m (omega arith))
      (get_or-set_ne buf i ((r + m) % size) v
        (λ c. mod-ne size r m n hr (omega arith) hn (sym c ∙ e)))
