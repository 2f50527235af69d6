-- ===== src/Kernel/Idle.antt =====
-- `idle_main` of src/main.c, the idle task: it waits until the kernel tells it, by a byte in its
-- stack, that no task waits for an event, prints what time the others took, and exits.
use armv4_kernel.Prelude.{
  ℕ, ◌+◌, ◌-◌, ◌%◌, ◌^◌, ◌≡◌, arith, Option, none, some, List, [], ◌∷◌, ◌==◌, if◌then◌else◌, ◌>>=◌,
  Bool-cases, inl, inr, get_or,
}
use armv4_kernel.Queue.{update}
use armv4_kernel.CString.{Bytes}
use armv4_kernel.EventHandler.{event_handler_empty}
use armv4_kernel.Bwio.{Uarts, com2}
use armv4_kernel.Bwio.Format.{number, bwformat}
use armv4_kernel.SysCall
use armv4_kernel.SysCall.{Trap}
use armv4_kernel.Kernel.{Kernel}
use armv4_kernel.Kernel.Memory.{read32, write32}
use armv4_kernel.Kernel.Dispatch.{clock, is_exit_address, non_idle_time_address, update_idle_task}

-- "Non-idle time: %u/%u\n\r"
abbrev pub idle_format : Bytes
idle_format i =
    get_or
      (b'N' ∷ b'o' ∷ b'n' ∷ b'-' ∷ b'i' ∷ b'd' ∷ b'l' ∷ b'e' ∷ b' ' ∷ b't' ∷ b'i' ∷ b'm' ∷ b'e'
        ∷ b':' ∷ b' ' ∷ b'%' ∷ b'u' ∷ b'/' ∷ b'%' ∷ b'u' ∷ 10 ∷ 13 ∷ [])
      i 0

module _ (stack_start : ℕ) where
  -- The loop: the memory as it is at each read of the byte. It returns what is left of them.
  unfoldable pub wait_exit : List Bytes → Option (List Bytes)
  wait_exit [] = none
  wait_exit (mem ∷ mems) =
      let rest = wait_exit mems in
      if mem (is_exit_address stack_start) == 0 then rest else some mems

  -- The memory is that at each read of the byte, and then that at the read of the word. `time` is what
  -- `clock` returns, `bf` what the buffer of `bwformat` holds. Then the task is at its trap.
  unfoldable pub idle_main :
      (fuel : ℕ) → List Bytes → (time : ℕ) → (bf : Bytes) → Uarts → (ℕ → ℕ) → Option (Uarts × Trap)
  idle_main fuel mems time bf out frame = do
    left ← wait_exit mems
    elim left [
      | [] ↦ none
      | mem ∷ _ ↦ do
        s ← bwformat fuel com2 idle_format 0 (record {
          va =
              number (read32 mem (non_idle_time_address stack_start)) ∷ number (time % 2 ^ 32) ∷ [];
          bf = bf;
          out = out;
        })
        some (s.out, SysCall.exit frame mem)
    ]

  -- A write of the word leaves the byte alone.
  exit_flag_kept :
      (mem : Bytes) (w : ℕ)
      → write32 mem (non_idle_time_address stack_start) w (is_exit_address stack_start)
        ≡ mem (is_exit_address stack_start)
  exit_flag_kept mem w = ground arith

  -- After the kernel's accounting, the loop ends at its next read if no task waits for an event, and
  -- goes on otherwise.
  pub wait_exit-update_idle_task :
      (k : Kernel) (mems : List Bytes)
      → wait_exit ((update_idle_task stack_start k).mem ∷ mems)
        ≡ (if event_handler_empty k.eh then some mems else wait_exit mems)
  unfolding wait_exit update_idle_task
  wait_exit-update_idle_task k mems =
      let a = is_exit_address stack_start in
      let mem = update k.mem a (if event_handler_empty k.eh then 1 else 0) in
      let w =
        (read32 mem (non_idle_time_address stack_start)
          + (clock k.regs + 2 ^ 32 - k.last_idle_time) % 2 ^ 32)
        % 2 ^ 32 in
      rw (exit_flag_kept mem w) (elim (Bool-cases (event_handler_empty k.eh)) [
        | inr e ↦ rw e (ground arith)
        | inl e ↦ rw e (ground arith)
      ])
