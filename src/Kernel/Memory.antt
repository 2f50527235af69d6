-- ===== src/Kernel/Memory.antt =====
-- Device registers and words of memory, for src/main.c.
use armv4_kernel.Prelude.{ℕ, ◌+◌, ◌*◌, ◌/◌, ◌%◌, ◌^◌}
use armv4_kernel.Queue.{update}
use armv4_kernel.CString.{Bytes}

-- What the registers hold, by address.
abbrev pub Regs : Type 0
Regs = ℕ → ℕ

-- A 32-bit word of memory, low byte first.
abbrev pub read32 : Bytes → ℕ → ℕ
read32 mem a = mem a + 2 ^ 8 * mem (a + 1) + 2 ^ 16 * mem (a + 2) + 2 ^ 24 * mem (a + 3)

abbrev pub write32 : Bytes → ℕ → ℕ → Bytes
write32 mem a w =
    update
      (update (update (update mem a (w % 2 ^ 8)) (a + 1) (w / 2 ^ 8 % 2 ^ 8)) (a + 2)
        (w / 2 ^ 16 % 2 ^ 8))
      (a + 3) (w / 2 ^ 24 % 2 ^ 8)
