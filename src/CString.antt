-- ===== src/CString.antt =====
-- The string and memory functions of src/cstdlib/string.c.
-- A `char *` or `void *` argument is the array that it points to, a function from indices to bytes;
-- `memcpy`, which the kernel calls between the buffers of two tasks, works on addresses of one
-- memory. `char` is unsigned, as on ARM. An `int` is its 32-bit pattern. Each loop recurs on the
-- rounds left. Counts stay below 2 ^ 31, where `int i` does not overflow, and addresses below 2 ^ 32.
mod Tests
pub mod Copy
pub mod Compare
use armv4_kernel.Prelude.{
  ℕ, zero, suc, ◌+◌, ◌-◌, ◌%◌, ◌^◌, ◌||◌, Option, none, some, ◌==◌, ltb, not, if◌then◌else◌,
}
use armv4_kernel.Queue.{update}

abbrev pub Bytes : Type 0
Bytes = ℕ → ℕ

-- The second loop of `strncpy`, and the whole of `memset`.
unfoldable pub fill_loop : ℕ → ℕ → ℕ → Bytes → Bytes
fill_loop zero i ch dest = dest
fill_loop (suc n) i ch dest = fill_loop n (i + 1) ch (update dest i ch)

-- The first loop, which the second follows with the same `i`.
unfoldable pub strncpy_loop : ℕ → ℕ → Bytes → Bytes → Bytes
unfolding fill_loop
strncpy_loop zero i dest src = dest
strncpy_loop (suc n) i dest src =
    let rest = strncpy_loop n (i + 1) (update dest i (src i)) src in
    if src i == 0 then fill_loop (suc n) i 0 dest else rest

unfoldable pub strncpy : Bytes → Bytes → ℕ → Bytes
unfolding strncpy_loop
strncpy dest src count = strncpy_loop count 0 dest src

-- `lhs[i] - rhs[i]` as an `int`
abbrev pub difference : ℕ → ℕ → ℕ
difference a b = (a + 2 ^ 32 - b) % 2 ^ 32

unfoldable pub strncmp_loop : ℕ → ℕ → ℕ → Bytes → Bytes → ℕ
strncmp_loop zero i ret lhs rhs = ret
strncmp_loop (suc n) i ret lhs rhs =
    let ret' = difference (lhs i) (rhs i) in
    let rest = strncmp_loop n (i + 1) ret' lhs rhs in
    if not (ret' == 0) || (lhs i == 0) then ret' else rest

unfoldable pub strncmp : Bytes → Bytes → ℕ → ℕ
unfolding strncmp_loop
strncmp lhs rhs count = strncmp_loop count 0 0 lhs rhs

-- The pointer returned is an index of the array, `none` for `NULL`.
unfoldable pub memchr_loop : ℕ → ℕ → Bytes → ℕ → Option ℕ
memchr_loop zero i ptr ch = none
memchr_loop (suc n) i ptr ch =
    let rest = memchr_loop n (i + 1) ptr ch in if ptr i == ch % 256 then some i else rest

unfoldable pub memchr : Bytes → ℕ → ℕ → Option ℕ
unfolding memchr_loop
memchr ptr ch count = memchr_loop count 0 ptr ch

unfoldable pub memcmp_loop : ℕ → ℕ → Bytes → Bytes → ℕ
memcmp_loop zero i lhs rhs = 0
memcmp_loop (suc n) i lhs rhs =
    let rest = memcmp_loop n (i + 1) lhs rhs in
    if ltb (lhs i) (rhs i) then 2 ^ 32 - 1 else if ltb (rhs i) (lhs i) then 1 else rest

unfoldable pub memcmp : Bytes → Bytes → ℕ → ℕ
unfolding memcmp_loop
memcmp lhs rhs count = memcmp_loop count 0 lhs rhs

unfoldable pub memset : Bytes → ℕ → ℕ → Bytes
unfolding fill_loop
memset dest ch count = fill_loop count 0 (ch % 256) dest

unfoldable pub memcpy_loop : ℕ → ℕ → (dest src : ℕ) → Bytes → Bytes
memcpy_loop zero i dest src mem = mem
memcpy_loop (suc n) i dest src mem =
    memcpy_loop n (i + 1) dest src (update mem (dest + i) (mem (src + i)))

unfoldable pub memcpy : (dest src count : ℕ) → Bytes → Bytes
unfolding memcpy_loop
memcpy dest src count mem = memcpy_loop count 0 dest src mem
