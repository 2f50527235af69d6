-- ===== src/Bwio/Input.antt =====
-- `bwgetc` of src/bwio/bwio.c, which waits for a byte and reads it.
use Prim.Native.Nat.{bit_and}
use armv4_kernel.Prelude.{ℕ, ◌%◌, Option, none, some, List, [], ◌∷◌, ◌==◌, if◌then◌else◌}
use armv4_kernel.Task.{minus}
use armv4_kernel.Bwio.{com1, com2}

abbrev pub rxff_mask : ℕ
rxff_mask = 0x40

-- The receiver of a UART: what its flag register holds each time that it is read, and what its data
-- register holds after the last of them.
pub record Receiver : Type 0 where
  pub flags : List ℕ
  pub received : ℕ

-- The loop, and the read of the data register as an `unsigned char`. `none` is a flag that is raised
-- in none of the reads.
unfoldable pub get_byte : List ℕ → ℕ → Option ℕ
get_byte [] received = none
get_byte (flag ∷ flags) received =
    let rest = get_byte flags received in
    if bit_and flag rxff_mask == 0 then rest else some (received % 256)

unfoldable pub bwgetc : ℕ → Receiver → Receiver → Option ℕ
bwgetc channel uart1 uart2 =
    if channel == com1
    then get_byte uart1.flags uart1.received
    else if channel == com2
    then get_byte uart2.flags uart2.received
    else some (minus 1)
