-- ===== src/Kernel/Sound/Running.antt =====
-- What a system call of src/main.c finds and leaves: the running task, and whole queues.
use mathlib.Core.Path.{subst, sym}
use armv4_kernel.Prelude.{
  ℕ, ◌≡◌, ◌⊎◌, inl, inr, refl, true, Option, some, arith, ◌==◌, Bool-cases, ◌>>=◌, ◌<◌, ap, ◌∙◌,
  ◌≢◌,
}
use armv4_kernel.CString.{Bytes}
use armv4_kernel.Task.{Task, TaskState}
use armv4_kernel.Kernel.{Kernel, make_ready, write_task}
use armv4_kernel.Kernel.Ready.{readied}
use armv4_kernel.Kernel.Sound.{Wait, queue_of, Places, IsSound, IsFree}
use armv4_kernel.Kernel.Sound.Still.{Stays, free-make_ready, readied-IsSound, readied_places}

-- The task that the processor is with: it was made, it is in no queue, and its state is READY.
pub record IsRunning (k : Kernel) (P : Places) (t : ℕ) : Type 0 where
  pub free : IsFree k P t
  pub state : (k.tasks.tds t).state ≡ TaskState.ready

-- A task is still there, and its descriptor is as it was, but for its send queue.
abbrev pub Untouched : Kernel → Kernel → ℕ → Type 0
Untouched k k' u =
    (u < k'.next_free_td)
    × (record (k'.tasks.tds u) { send_q = (k.tasks.tds u).send_q } ≡ k.tasks.tds u)

pub Untouched-trans :
    (k k₁ k₂ : Kernel) (u : ℕ) → Untouched k k₁ u → Untouched k₁ k₂ u → Untouched k k₂ u
Untouched-trans k k₁ k₂ u (lt₁, same₁) (lt₂, same₂) =
    (lt₂, ap (λ (d : Task). record d { send_q = (k.tasks.tds u).send_q }) same₂ ∙ same₁)

pub Untouched-state :
    (k k' : Kernel) (u : ℕ) → Untouched k k' u → (k'.tasks.tds u).state ≡ (k.tasks.tds u).state
Untouched-state k k' u (lt, same) = ap (λ (d : Task). d.state) same

-- So is every task that waits for a reply, but for the running task and the task `to`.
abbrev pub Spares : (active to : ℕ) → Kernel → Kernel → Type 0
Spares active to k k' =
    (u : ℕ)
    → u < k.next_free_td
    → u ≢ active
    → u ≢ to
    → (k.tasks.tds u).state ≡ TaskState.reply_blocked
    → Untouched k k' u

-- The second of two steps starts with the tasks that the first one left.
pub Spares-trans :
    (active to : ℕ) (k k₁ k₂ : Kernel)
    → Spares active to k k₁
    → Spares active to k₁ k₂
    → Spares active to k k₂
Spares-trans active to k k₁ k₂ s s' u lt na nt st =
    let first = s u lt na nt st in
    Untouched-trans k k₁ k₂ u first (s' u first.0 na nt (Untouched-state k k₁ u first ∙ st))

-- A last step that touches only the running task.
pub Spares-then :
    (active to : ℕ) (k k₁ k₂ : Kernel)
    → k₂.next_free_td ≡ k₁.next_free_td
    → ((u : ℕ) → u ≢ active → k₂.tasks.tds u ≡ k₁.tasks.tds u)
    → Spares active to k k₁
    → Spares active to k k₂
Spares-then active to k k₁ k₂ n same s u lt na nt st =
    let first = s u lt na nt st in
    (
      omega (arith, n, first.0),
      ap (λ (d : Task). record d { send_q = (k.tasks.tds u).send_q }) (same u na) ∙ first.1,
    )

-- A call that does not fault, leaves the queues whole, and spares the tasks that wait for a reply.
abbrev pub Succeeds : (active to : ℕ) → Kernel → Option (ℕ × Kernel) → Type 0
Succeeds active to k r =
    (ret : ℕ) × (k' : Kernel) × (P : Places) × (r ≡ some (ret, k'))
    × IsSound k' P
    × Spares active to k k'

-- A write to a descriptor that leaves alone what the queues depend on, and any write to user memory.
pub rewrite-Stays :
    (k : Kernel) (P : Places) (t : ℕ) (d : Task) (mem : Bytes)
    → d.tid ≡ (k.tasks.tds t).tid
    → d.priority ≡ (k.tasks.tds t).priority
    → d.send_q ≡ (k.tasks.tds t).send_q
    → (d.state ≡ (k.tasks.tds t).state) ⊎ IsFree k P t
    → Stays k (record (write_task t d k) { mem = mem }) P
rewrite-Stays k P t d mem same_tid same_priority same_q st = record {
  keeps = record {
    next_free = refl;
    tids = λ u. ground arith;
    priorities = λ u. ground arith;
    owners = refl;
  };
  sch = refl;
  links = λ a. refl;
  queues = queues;
  states = λ u. elim (Bool-cases (u == t)) [
    | inr e ↦ inl (rw e)
    | inl e ↦
        let ut : u ≡ t = ground arith in
        subst
          (λ x.
            ((record (write_task t d k) { mem = mem }).tasks.tds x).state ≡ (k.tasks.tds x).state
            ⊎ IsFree k P x)
          (sym ut) (let self : (t == t) ≡ true = ground arith in rw self st)
  ];
}
  where
    queues : (w : Wait) → queue_of w (record (write_task t d k) { mem = mem }) ≡ queue_of w k
    queues (Wait.to_send u) = ground arith
    queues (Wait.on_event e) = refl

-- A write to user memory alone.
pub mem-Stays : (k : Kernel) (P : Places) (mem : Bytes) → Stays k (record k { mem = mem }) P
mem-Stays k P mem = record {
  keeps = record { next_free = refl; tids = λ u. refl; priorities = λ u. refl; owners = refl };
  sch = refl;
  links = λ a. refl;
  queues = queues;
  states = λ u. inl refl;
}
  where
    queues : (w : Wait) → queue_of w (record k { mem = mem }) ≡ queue_of w k
    queues (Wait.to_send u) = refl
    queues (Wait.on_event e) = refl

module _ {k : Kernel} {P : Places} (h : IsSound k P) (t : ℕ) (f : IsFree k P t) where
  -- A call that only lets its caller go on, with an answer.
  pub go_on_with :
      (to : ℕ) (answer : Kernel → ℕ)
      → Succeeds t to k (do k' ← make_ready t k; some (answer k', k'))
  go_on_with to answer = (
    answer (readied t k),
    readied t k,
    readied_places P k t,
    rw (free-make_ready h t f),
    readied-IsSound h t f,
    (λ u lt na nt st. (lt, ground arith)),
  )

  pub go_on : (to ret : ℕ) → Succeeds t to k (do k' ← make_ready t k; some (ret, k'))
  go_on to ret = go_on_with to (λ k'. ret)
