-- ===== src/ClockServer/Insert.antt =====
-- About the insertion into the list of blocked tasks of src/clock_server/clock_server.c.
use mathlib.Core.Path.{subst}
use armv4_kernel.Prelude.{
  ℕ, zero, suc, ◌^◌, ◌<◌, ◌≡◌, ◌≢◌, inl, inr, refl, ap, sym, true, false, some, List, [], ◌∷◌,
  arith, ltb, ◌==◌, has, map, if◌then◌else◌, Bool-cases, length,
}
use armv4_kernel.Queue.{Ptr, null, Nodes, update}
use armv4_kernel.Queue.Rep.{Chain, Chain-frame, update-same}
use armv4_kernel.ClockServer.{BlockedEntry, int_gt, find_place}
use armv4_kernel.ClockServer.Sorted.{AllDue, insert, int_gt_lem}

-- The entry of a node.
abbrev pub entry_at : Nodes ℕ → (ℕ → BlockedEntry) → Ptr → BlockedEntry
entry_at nodes entries p = entries (nodes.payload p)

-- The place of the node `n` in a list of nodes in the order of their times.
abbrev pub place : (Ptr → BlockedEntry) → Ptr → List Ptr → List Ptr
place at n [] = n ∷ []
place at n (y ∷ ys) = if ltb (at n).ticks (at y).ticks then n ∷ y ∷ ys else y ∷ place at n ys

pub map-place :
    (at : Ptr → BlockedEntry) (n : Ptr) (xs : List Ptr)
    → map at (place at n xs) ≡ insert (at n) (map at xs)
map-place at n [] = refl
map-place at n (y ∷ ys) = elim (Bool-cases (ltb (at n).ticks (at y).ticks)) [
  | inl b ↦ rw b refl
  | inr b ↦ rw b (ap (λ l. at y ∷ l) (map-place at n ys))
]

pub has-place :
    (at : Ptr → BlockedEntry) (n : Ptr) (xs : List Ptr) (a : Ptr)
    → has a (place at n xs) ≡ has a (n ∷ xs)
has-place at n [] a = refl
has-place at n (y ∷ ys) a = ground (arith, has-place at n ys a)

pub length-place :
    (at : Ptr → BlockedEntry) (n : Ptr) (xs : List Ptr) → length (place at n xs) ≡ suc (length xs)
length-place at n [] = refl
length-place at n (y ∷ ys) = ground (arith, length-place at n ys)

-- The links after the insertion of `n` behind `c`.
abbrev pub linked : Ptr → Ptr → (Ptr → Ptr) → Ptr → Ptr
linked n c next = update (update next n (next c)) c n

link_between :
    (next : Ptr → Ptr) (n x y : Ptr) (ys : List Ptr)
    → next x ≡ y
    → has x (y ∷ ys) ≡ false
    → Chain next y (y ∷ ys)
    → n ≢ null
    → has n (x ∷ y ∷ ys) ≡ false
    → Chain (linked n x next) (linked n x next x) (n ∷ y ∷ ys)
link_between next n x y ys e apart ch nn out =
    let kept : Chain (linked n x next) y (y ∷ ys) =
      Chain-frame y (y ∷ ys) ch (λ a h. ground (arith, apart, out)) in
    (
      sym (update-same (update next n (next x)) x n),
      nn,
      ground (arith, out),
      (ground (arith, out, e), kept.1, kept.2, kept.3),
    )

module _ (nodes : Nodes ℕ) (entries : ℕ → BlockedEntry) (n : Ptr) where
  abbrev at : Ptr → BlockedEntry
  at = entry_at nodes entries

  -- The loop stops at the node behind which the new one belongs.
  pub find_place_lem :
      (fuel x : ℕ) (xs : List Ptr)
      → Chain nodes.next x (x ∷ xs)
      → n ≢ null
      → has n (x ∷ xs) ≡ false
      → (at n).ticks < 2 ^ 31
      → AllDue (map at xs)
      → length xs < fuel
      → (c : Ptr) × (find_place fuel x (at n).ticks entries nodes ≡ some c)
        × (has c (x ∷ xs) ≡ true)
        × (c ≢ null)
        × Chain (linked n c nodes.next) x (x ∷ place at n xs)
  unfolding find_place
  find_place_lem zero x xs ch nn out small due fuel = absurd (omega arith)
  find_place_lem (suc f) x [] ch nn out small due fuel =
      (x, ground (arith, ch), ground arith, ch.1, ground (arith, ch))
  find_place_lem (suc f) x (y ∷ ys) ch nn out small (pos, bound, due) fuel =
      let e : nodes.next x ≡ y = ch.3.0 in
      let from_y : Chain nodes.next y (y ∷ ys) = (refl, ch.3.1, ch.3.2, ch.3.3) in
      let x_ok : (x == null) ≡ false = ground (arith, ch.1) in
      let y_ok : (y == null) ≡ false = ground (arith, ch.3.1) in
      let compared : int_gt (at y).ticks (at n).ticks ≡ ltb (at n).ticks (at y).ticks =
        int_gt_lem (at y).ticks (at n).ticks bound small in
      elim (Bool-cases (ltb (at n).ticks (at y).ticks)) [
        | inl b ↦ (
          x,
          rw (x_ok, e, y_ok, compared, b) refl,
          ground arith,
          ch.1,
          rw b (
            refl,
            ch.1,
            ground (arith, out, ch.2),
            link_between nodes.next n x y ys e ch.2 from_y nn out,
          ),
        )
        | inr b ↦
            let (c, run, inside, not_null, ch') =
              find_place_lem f y ys from_y nn (ground arith) small due (omega arith) in
            let lx : y ≡ linked n c nodes.next x = ground (arith, inside, ch.2, out, e) in
            (
              c,
              rw (x_ok, e, y_ok, compared, b) run,
              ground arith,
              not_null,
              rw b (
                refl,
                ch.1,
                ground (arith, has-place at n ys x, out, ch.2),
                subst (λ z. Chain (linked n c nodes.next) z (y ∷ place at n ys)) lx ch',
              ),
            )
      ]
