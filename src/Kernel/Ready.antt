-- ===== src/Kernel/Ready.antt =====
-- The ready lists through the steps that the system calls of src/main.c are made of.
use mathlib.Core.Path.{subst}
use armv4_kernel.Prelude.{
  ℕ, ◌+◌, ◌^◌, ◌<◌, ◌≡◌, ◌≢◌, refl, false, some, arith, length, has, has-append, length-append, [],
  ◌∷◌,
}
use armv4_kernel.Queue.{update}
use armv4_kernel.Task.{Task, task_descriptor_set_return_value}
use armv4_kernel.Scheduler.{priority_count}
use armv4_kernel.Scheduler.Ready.{ReadyLists, IsReady}
use armv4_kernel.Scheduler.Ready.Apart.{IsReady-frame}
use armv4_kernel.Scheduler.Ready.Put.{
  put_ready, put_scheduler, put_tasks, MayPut, scheduler_put-eq, put-IsReady,
}
use armv4_kernel.Kernel.{Kernel, make_ready, write_task, set_return_value}

-- The kernel holds the ready lists `R`.
abbrev pub Holds : Kernel → ReadyLists → Type 0
Holds k R = IsReady k.sch k.tasks R

abbrev pub priority_of : ℕ → Kernel → ℕ
priority_of t k = (k.tasks.tds t).priority

-- The lists with a task behind the others of its priority.
abbrev pub with_ready : ReadyLists → Kernel → ℕ → ReadyLists
with_ready R k t = put_ready R (priority_of t k) t

-- What `make_ready` leaves behind.
abbrev pub readied : ℕ → Kernel → Kernel
readied t k = record k {
  tasks = put_tasks k.sch (priority_of t k) t k.tasks;
  sch = put_scheduler k.sch (priority_of t k) t;
}

module _ {R : ReadyLists} (k : Kernel) (t : ℕ) (h : Holds k R) (m : MayPut k.tasks R t) where
  pub make_ready-eq : make_ready t k ≡ some (readied t k)
  unfolding make_ready
  make_ready-eq = rw (scheduler_put-eq t h m)

  pub readied-Holds : Holds (readied t k) (with_ready R k t)
  readied-Holds = put-IsReady t h m

-- A write to a descriptor that keeps its priority disturbs no ready list.
pub write_task-Holds :
    {R : ReadyLists} (k : Kernel) (t : ℕ) (d : Task)
    → Holds k R
    → d.priority ≡ priority_of t k
    → Holds (write_task t d k) R
write_task-Holds k t d h e = IsReady-frame h (λ u. refl) (λ u. refl) (λ u. ground arith)

pub write_task-MayPut :
    {R : ReadyLists} (k : Kernel) (t u : ℕ) (d : Task)
    → MayPut k.tasks R u
    → d.priority ≡ priority_of t k
    → MayPut (write_task t d k).tasks R u
write_task-MayPut {R} k t u d m e =
    let p : priority_of u k ≡ priority_of u (write_task t d k) = ground arith in
    record {
      priority = subst (λ p. p < priority_count) p m.priority;
      fresh = subst (λ p. has u (R p) ≡ false) p m.fresh;
      owner = m.owner;
      room = subst (λ p. length (R p) + 1 < 2 ^ 32) p m.room;
    }

-- The descriptor of a task whose system call returns `v`.
abbrev pub answered : ℕ → ℕ → Kernel → Kernel
answered t v k =
    write_task t (record (k.tasks.tds t) { frame = update (k.tasks.tds t).frame 0 v }) k

module _ {R : ReadyLists} (k : Kernel) (t v : ℕ) (h : Holds k R) (m : MayPut k.tasks R t) where
  pub answered-MayPut : MayPut (answered t v k).tasks R t
  answered-MayPut = write_task-MayPut k t t _ m refl

  answered-Holds : Holds (answered t v k) R
  answered-Holds = write_task-Holds k t _ h refl

  -- A task that is given its result and made ready.
  pub answer-eq : make_ready t (set_return_value t v k) ≡ some (readied t (answered t v k))
  unfolding task_descriptor_set_return_value
  answer-eq = make_ready-eq (answered t v k) t answered-Holds answered-MayPut

  pub answer-Holds : Holds (readied t (answered t v k)) (with_ready R k t)
  answer-Holds =
      subst (λ p. Holds (readied t (answered t v k)) (put_ready R p t))
        (let e : priority_of t (answered t v k) ≡ priority_of t k = ground arith in e)
        (readied-Holds (answered t v k) t answered-Holds answered-MayPut)

-- After one task was made ready, another one still may be.
module _ {R : ReadyLists} (k : Kernel) (t u : ℕ) (m : MayPut k.tasks R u) (other : u ≢ t)
    (room : length (R (priority_of u k)) + 2 < 2 ^ 32) where
  pub readied-MayPut : MayPut (readied t k).tasks (with_ready R k t) u
  readied-MayPut =
      let p : priority_of u k ≡ priority_of u (readied t k) = ground arith in
      record {
        priority = subst (λ p. p < priority_count) p m.priority;
        fresh =
            subst (λ p. has u (with_ready R k t p) ≡ false) p
              (ground (arith, m.fresh, has-append u (R (priority_of t k)) (t ∷ [])));
        owner = m.owner;
        room =
            subst (λ p. length (with_ready R k t p) + 1 < 2 ^ 32) p
              (ground (arith, room, length-append (R (priority_of t k)) (t ∷ [])));
      }
