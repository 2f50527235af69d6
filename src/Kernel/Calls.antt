-- ===== src/Kernel/Calls.antt =====
-- The system calls of src/main.c that let the caller go on.
use armv4_kernel.Prelude.{ℕ, ◌≡◌, refl, Option, none, some, arith, false}
use armv4_kernel.Task.{TaskState, minus, task_descriptor_set_return_value}
use armv4_kernel.Scheduler.Ready.{ReadyLists}
use armv4_kernel.Scheduler.Ready.Put.{MayPut}
use armv4_kernel.Kernel.{Kernel, kernel_pass, kernel_mytid, kernel_parenttid}
use armv4_kernel.Kernel.Dispatch.{SysCode, handle_swi}
use armv4_kernel.Kernel.Ready.{
  Holds, with_ready, readied, answered, make_ready-eq, readied-Holds, write_task-Holds,
}

-- What the calls answer that only ask; `none` for the others.
abbrev pub query : SysCode → ℕ → Kernel → Option ℕ
query SysCode.pass t k = some 0
query SysCode.mytid t k = some (k.tasks.tds t).tid
query SysCode.parenttid t k =
    some (elim (k.tasks.tds t).parent [ none ↦ minus 1 | some p ↦ (k.tasks.tds p).tid ])
query _ t k = none

module _ (stack_start : ℕ) {R : ReadyLists} (k : Kernel) (active : ℕ) (h : Holds k R)
    (m : MayPut k.tasks R active) where
  tid_kept : (u : ℕ) → ((readied active k).tasks.tds u).tid ≡ (k.tasks.tds u).tid
  tid_kept u = ground arith

  parent_kept : ((readied active k).tasks.tds active).parent ≡ (k.tasks.tds active).parent
  parent_kept = ground arith

  parent_tid :
      (r : Option ℕ)
      → elim r [ none ↦ minus 1 | some p ↦ ((readied active k).tasks.tds p).tid ]
        ≡ elim r [ none ↦ minus 1 | some p ↦ (k.tasks.tds p).tid ]
  parent_tid none = refl
  parent_tid (some p) = tid_kept p

  handle_swi-query :
      (code : SysCode) (v : ℕ)
      → query code active k ≡ some v
      → handle_swi stack_start code active k ≡ some (false, answered active v (readied active k))
  unfolding handle_swi kernel_pass kernel_mytid kernel_parenttid task_descriptor_set_return_value
  handle_swi-query SysCode.pass v e = let z : 0 ≡ v = cc in rw (make_ready-eq k active h m, z)
  handle_swi-query SysCode.mytid v e =
      let z : (k.tasks.tds active).tid ≡ v = cc in
      rw (make_ready-eq k active h m, tid_kept active, z)
  handle_swi-query SysCode.parenttid v e =
      let z : elim (k.tasks.tds active).parent [ none ↦ minus 1 | some p ↦ (k.tasks.tds p).tid ]
          ≡ v =
        cc in
      rw (make_ready-eq k active h m, parent_kept, parent_tid (k.tasks.tds active).parent, z)
  handle_swi-query _ v e = cc

  -- `Pass`, `MyTid` and `MyParentTid` of a task that is in none of the ready lists put it behind
  -- the others of its priority and hand it its answer: 0, its id, and the id of its parent, or -1
  -- if it has none.
  pub handle_swi-answers :
      (code : SysCode) (v : ℕ)
      → query code active k ≡ some v
      → (k' : Kernel) × (handle_swi stack_start code active k ≡ some (false, k'))
        × Holds k' (with_ready R k active)
        × ((k'.tasks.tds active).frame 0 ≡ v)
        × ((k'.tasks.tds active).state ≡ TaskState.ready)
  handle_swi-answers code v e = (
    answered active v (readied active k),
    handle_swi-query code v e,
    write_task-Holds (readied active k) active _ (readied-Holds k active h m) refl,
    ground arith,
    ground arith,
  )
