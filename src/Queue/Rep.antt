-- ===== src/Queue/Rep.antt =====
-- What it means that a queue of src/queue/queue.c holds a list of nodes.
use armv4_kernel.Prelude.{
  ℕ, ◌<◌, ◌^◌, ◌≡◌, ◌≢◌, refl, true, false, List, [], ◌∷◌, ◌++◌, arith, ◌==◌, length, has,
  has-append,
}
use mathlib.Core.Path.{◌∙◌, ap₂, subst, sym}
use armv4_kernel.Queue.{Ptr, null, Nodes, Queue, update}

-- From `p` the `next` pointers lead through the distinct nodes `ps` to `NULL`.
abbrev pub Chain : (Ptr → Ptr) → Ptr → List Ptr → Type 0
Chain next p [] = p ≡ null
Chain next p (x ∷ xs) = (p ≡ x) × (x ≢ null) × (has x xs ≡ false) × Chain next (next x) xs

-- `b` is the last of a list, if it has one.
abbrev pub EndsAt : Ptr → List Ptr → Type 0
EndsAt b [] = Unit
EndsAt b (x ∷ []) = b ≡ x
EndsAt b (x ∷ y ∷ r) = EndsAt b (y ∷ r)

pub record IsQueue {ℓ} {A : Type ℓ} (q : Queue) (s : Nodes A) (ps : List Ptr) : Type 0 where
  pub chain : Chain s.next q.front ps
  pub count : q.elements ≡ length ps
  pub last : EndsAt q.back ps
  pub small : length ps < 2 ^ 32

abbrev pub SameOutside {ℓ} : {A : Type ℓ} → List Ptr → Nodes A → Nodes A → Type 0
SameOutside ps s t = (a : Ptr) → has a ps ≡ false → t.next a ≡ s.next a

pub update-same {ℓ} : {A : Type ℓ} (f : ℕ → A) (i : ℕ) (v : A) → v ≡ update f i v i
update-same f i v = let e : (i == i) ≡ true = ground arith in rw e

pub has-EndsAt : (b x : Ptr) (xs : List Ptr) → EndsAt b (x ∷ xs) → has b (x ∷ xs) ≡ true
has-EndsAt b x [] e = ground arith
has-EndsAt b x (y ∷ r) e = ground (arith, has-EndsAt b y r e)

pub Chain-frame :
    {next next' : Ptr → Ptr} (p : Ptr) (ps : List Ptr)
    → Chain next p ps
    → ((a : Ptr) → has a ps ≡ true → next' a ≡ next a)
    → Chain next' p ps
Chain-frame p [] c same = c
Chain-frame {next} {next'} p (x ∷ xs) c same = (
  c.0,
  c.1,
  c.2,
  Chain-frame (next' x) xs (let e : next' x ≡ next x = same x (ground arith) in rw e c.3)
      (λ a h. same a (ground arith)),
)

-- Linking a fresh node behind the last one extends the chain by it.
pub Chain-extend :
    (next : Ptr → Ptr) (b n p x : Ptr) (xs : List Ptr)
    → Chain next p (x ∷ xs)
    → EndsAt b (x ∷ xs)
    → n ≢ null
    → has n (x ∷ xs) ≡ false
    → Chain (update (update next b n) n null) p (x ∷ xs ++ n ∷ [])
Chain-extend next b n p x [] c e nn out = ground arith
Chain-extend next b n p x (y ∷ r) c e nn out =
    let keep : update (update next b n) n null x ≡ next x = ground (arith, has-EndsAt b y r e) in
    (
      c.0,
      c.1,
      ground (arith, has-append x r (n ∷ [])),
      rw keep (Chain-extend next b n (next x) y r c.3 e nn (ground arith)),
    )

pub EndsAt-append : (b : Ptr) (xs : List Ptr) → EndsAt b (xs ++ b ∷ [])
EndsAt-append b [] = refl
EndsAt-append b (x ∷ []) = refl
EndsAt-append b (x ∷ y ∷ r) = EndsAt-append b (y ∷ r)

pub EndsAt-tail : (b x : Ptr) (xs : List Ptr) → EndsAt b (x ∷ xs) → EndsAt b xs
EndsAt-tail b x [] e = tt
EndsAt-tail b x (y ∷ r) e = e

-- A queue whose own nodes keep their links is not disturbed.
pub IsQueue-frame {ℓ} :
    {A : Type ℓ} {q : Queue} {s t : Nodes A} (ps : List Ptr)
    → IsQueue q s ps
    → ((a : Ptr) → has a ps ≡ true → t.next a ≡ s.next a)
    → IsQueue q t ps
IsQueue-frame {q} ps h same = record {
  chain = Chain-frame q.front ps h.chain same;
  count = h.count;
  last = h.last;
  small = h.small;
}

-- The nodes that a pointer leads to are determined.
pub Chain-unique :
    (next : Ptr → Ptr) (p : Ptr) (xs ys : List Ptr) → Chain next p xs → Chain next p ys → xs ≡ ys
Chain-unique next p [] [] c d = refl
Chain-unique next p [] (y ∷ ys) c d = absurd (d.1 (sym d.0 ∙ c))
Chain-unique next p (x ∷ xs) [] c d = absurd (c.1 (sym c.0 ∙ d))
Chain-unique next p (x ∷ xs) (y ∷ ys) c d =
    let e : y ≡ x = sym d.0 ∙ c.0 in
    let d' : Chain next (next x) ys = subst (λ z. Chain next (next z) ys) e d.3 in
    ap₂ ◌∷◌ (sym e) (Chain-unique next (next x) xs ys c.3 d')
