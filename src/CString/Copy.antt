-- ===== src/CString/Copy.antt =====
-- About `strncpy`, `memset` and `memcpy` of src/cstdlib/string.c.
use armv4_kernel.Prelude.{
  ℕ, zero, suc, ◌+◌, ◌-◌, ◌%◌, ◌<◌, ◌≤◌, ◌≡◌, ◌⊎◌, refl, List, [], ◌∷◌, length, arith, ◌&&◌, ◌==◌,
  ltb, leb, if◌then◌else◌, Bool-cases, inl, inr,
}
use armv4_kernel.Queue.{update}
use armv4_kernel.CString.{Bytes, fill_loop, strncpy_loop, strncpy, memset, memcpy_loop, memcpy}

-- The text that `n` bytes from index `i` on hold: up to the first 0, or all of them.
abbrev pub text : ℕ → ℕ → Bytes → List ℕ
text zero i a = []
text (suc n) i a = if a i == 0 then [] else a i ∷ text n (i + 1) a

fill_loop_lem :
    (n i ch : ℕ) (dest : Bytes) (j : ℕ)
    → fill_loop n i ch dest j ≡ (if leb i j && ltb j (i + n) then ch else dest j)
unfolding fill_loop
fill_loop_lem zero i ch dest j = ground arith
fill_loop_lem (suc n) i ch dest j = ground (arith, fill_loop_lem n (i + 1) ch (update dest i ch) j)

-- `memset` writes the low byte of `ch` to the first `count` bytes, and to no other.
pub memset_lem :
    (dest : Bytes) (ch count j : ℕ)
    → memset dest ch count j ≡ (if ltb j count then ch % 256 else dest j)
unfolding memset
memset_lem dest ch count j = ground (arith, fill_loop_lem count 0 (ch % 256) dest j)

memcpy_loop_lem :
    (n i dest src : ℕ) (mem : Bytes) (a : ℕ)
    → (dest ≤ src) ⊎ (src + i + n ≤ dest + i)
    → memcpy_loop n i dest src mem a
      ≡ (if leb (dest + i) a && ltb a (dest + i + n) then mem (src + (a - dest)) else mem a)
unfolding memcpy_loop
memcpy_loop_lem zero i dest src mem a h = ground arith
memcpy_loop_lem (suc n) i dest src mem a h = ground (
  arith,
  memcpy_loop_lem n (i + 1) dest src (update mem (dest + i) (mem (src + i))) a (omega arith),
)

-- `memcpy` copies `count` bytes to `dest`, as they were before the call, and changes no other byte,
-- where the destination does not overlap the source from above.
pub memcpy_lem :
    (dest src count : ℕ) (mem : Bytes) (a : ℕ)
    → (dest ≤ src) ⊎ (src + count ≤ dest)
    → memcpy dest src count mem a
      ≡ (if leb dest a && ltb a (dest + count) then mem (src + (a - dest)) else mem a)
unfolding memcpy
memcpy_lem dest src count mem a h =
    ground (arith, memcpy_loop_lem count 0 dest src mem a (omega arith))

-- What `strncpy` leaves at index `j`, where it copies `n` bytes from index `i` on.
abbrev copied : ℕ → ℕ → Bytes → Bytes → ℕ → ℕ
copied n i dest src j =
    if leb i j && ltb j (i + n)
    then (if ltb j (i + length (text n i src)) then src j else 0)
    else dest j

strncpy_loop_lem :
    (n i : ℕ) (dest src : Bytes) (j : ℕ) → strncpy_loop n i dest src j ≡ copied n i dest src j
unfolding strncpy_loop
strncpy_loop_lem zero i dest src j = ground arith
strncpy_loop_lem (suc n) i dest src j = ground (
  arith,
  strncpy_loop_lem n (i + 1) (update dest i (src i)) src j,
  fill_loop_lem n (i + 1) 0 (update dest i 0) j,
)

-- `strncpy` copies the text of the source, fills up the first `count` bytes with zeros, and changes
-- no other byte.
pub strncpy_lem :
    (dest src : Bytes) (count j : ℕ)
    → strncpy dest src count j
      ≡ (if ltb j count then (if ltb j (length (text count 0 src)) then src j else 0) else dest j)
unfolding strncpy
strncpy_lem dest src count j = ground (arith, strncpy_loop_lem count 0 dest src j)

text_of_copy :
    (n i : ℕ) (a b : Bytes)
    → ((j : ℕ) → i ≤ j → j < i + n → a j ≡ (if ltb j (i + length (text n i b)) then b j else 0))
    → text n i a ≡ text n i b
text_of_copy zero i a b h = refl
text_of_copy (suc n) i a b h = elim (Bool-cases (b i == 0)) [
  | inl e ↦ ground (arith, h i (omega arith) (omega arith))
  | inr e ↦ ground (
    arith,
    h i (omega arith) (omega arith),
    text_of_copy n (i + 1) a b λ j p q. ground (arith, h j (omega arith) (omega arith)),
  )
]

-- After `strncpy` of `count` bytes, the first `count` bytes of the destination hold the text that
-- those of the source hold.
pub text-strncpy :
    (dest src : Bytes) (count : ℕ) → text count 0 (strncpy dest src count) ≡ text count 0 src
text-strncpy dest src count =
    text_of_copy count 0 (strncpy dest src count) src
      λ j p q. ground (arith, strncpy_lem dest src count j)
