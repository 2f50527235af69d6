-- ===== src/ClockServer/Wake.antt =====
-- About the release of the tasks that the clock server of src/clock_server/clock_server.c keeps waiting.
use mathlib.Core.Path.{subst}
use armv4_kernel.Prelude.{
  ℕ, zero, suc, ◌+◌, ◌-◌, ◌%◌, ◌^◌, ◌<◌, ◌≤◌, ◌≡◌, refl, ap, ◌∙◌, sym, false, inl, inr, none, some,
  List, [], ◌∷◌, ◌++◌, arith, ltb, map, Bool-cases, length, replicate, drop,
}
use armv4_kernel.Task.{max_tasks}
use armv4_kernel.ClockServer.{
  BlockedEntry, ClockServer, ClockServerMsg, ClockServerMsgType, Answer, clock_server_step,
}
use armv4_kernel.ClockServer.Sorted.{after_tick}
use armv4_kernel.ClockServer.Holds.{IsWaiting}
use armv4_kernel.ClockServer.Loop.{Delivery, Progress, is_exit, clock_server_loop}
use armv4_kernel.ClockServer.Step.{IsAt, released, Keeps, promise, clock_server_step-Keeps}

-- No task waits for a time after `t`.
abbrev pub AllBy : ℕ → List BlockedEntry → Type 0
AllBy t [] = Unit
AllBy t (x ∷ xs) = (x.ticks ≤ t) × AllBy t xs

abbrev pub tids : List Answer → List ℕ
tids [] = []
tids (a ∷ rest) = a.tid ∷ tids rest

-- The tasks that are answered in the rounds of a run of ticks, without the notifier, which each round
-- answers first.
abbrev pub woken : List (List Answer) → List ℕ
woken [] = []
woken (t ∷ ts) = tids (drop 1 t) ++ woken ts

abbrev waiting_tids : List BlockedEntry → List ℕ
waiting_tids l = map (λ (e : BlockedEntry). e.tid) l

-- A round releases the first task, or none.
one_tick :
    (now : ℕ) (msg : ClockServerMsg) (l : List BlockedEntry)
    → waiting_tids l ≡ tids (released now msg l) ++ waiting_tids (after_tick now l)
one_tick now msg [] = refl
one_tick now msg (x ∷ xs) = elim (Bool-cases (ltb x.ticks now)) [
  | inl b ↦ rw b refl
  | inr b ↦ rw b refl
]

AllBy-after_tick : (t now : ℕ) (l : List BlockedEntry) → AllBy t l → AllBy t (after_tick now l)
AllBy-after_tick t now [] h = tt
AllBy-after_tick t now (x ∷ xs) (p, h) = elim (Bool-cases (ltb x.ticks now)) [
  | inl b ↦ rw b h
  | inr b ↦ rw b (p, h)
]

-- Each round brings the last task nearer: the time comes nearer, or the queue before it is shorter.
progress_lem :
    (t now n : ℕ) (l : List BlockedEntry)
    → AllBy t l
    → (t + 1 - now) + length l ≤ suc n
    → (t + 1 - (now + 1)) + length (after_tick (now + 1) l) ≤ n
progress_lem t now n [] h p = omega (arith, p)
progress_lem t now n (x ∷ xs) (q, h) p = elim (Bool-cases (ltb x.ticks (now + 1))) [
  | inl b ↦ rw b (omega (arith, p))
  | inr b ↦ let late : now + 1 ≤ x.ticks = ground (arith, b) in rw b (omega (arith, p, q, late))
]

length-after_tick : (now : ℕ) (l : List BlockedEntry) → length (after_tick now l) ≤ length l
length-after_tick now [] = omega arith
length-after_tick now (x ∷ xs) = ground arith

none_left : (l : List BlockedEntry) → length l ≤ 0 → l ≡ []
none_left [] p = refl
none_left (x ∷ xs) p = absurd (omega (arith, p))

tick_step :
    (d : Delivery) {s : ClockServer} {l : List BlockedEntry}
    → IsWaiting s l
    → length l < max_tasks
    → s.ticks + 1 < 2 ^ 32
    → d.msg.type ≡ ClockServerMsgType.tick
    → d.msg.time < 2 ^ 32
    → (s' : ClockServer) × (clock_server_step d.sender d.msg s
        ≡ some (record { tid = d.sender; msg = d.msg } ∷ released (s.ticks + 1) d.msg l, s'))
      × IsAt s' (s.ticks + 1) (after_tick (s.ticks + 1) l)
tick_step d {s} {l} w room small is_tick bound =
    let now : (s.ticks + 1) % 2 ^ 32 ≡ s.ticks + 1 = omega (arith, small) in
    let (s', run, at) =
      subst
        (λ type. Keeps (clock_server_step d.sender d.msg s) (promise type d.sender d.msg s.ticks l))
        is_tick (clock_server_step-Keeps d.sender d.msg w room bound) in
    (
      s',
      run ∙ ap (λ t. some (record { tid = d.sender; msg = d.msg } ∷ released t d.msg l, s')) now,
      subst (λ t. IsAt s' t (after_tick t l)) now at,
    )

pub loop_on :
    (d : Delivery) (ds : List Delivery) (s : ClockServer) {s' : ClockServer} {answers : List Answer}
    {p : Progress}
    → clock_server_step d.sender d.msg s ≡ some (answers, s')
    → is_exit d.msg.type ≡ false
    → clock_server_loop ds s' ≡ some p
    → clock_server_loop (d ∷ ds) s ≡ some (record p { turns = answers ∷ p.turns })
unfolding clock_server_loop
loop_on d ds s run on rest = rw (run, on, rest) refl

-- In a server that keeps fewer than 64 tasks waiting, in order, none of them for a time after `t`, a run of
-- ticks alone releases all of them, each once and in order, after at most as many ticks as pass until the
-- time after `t` and one more for each of the tasks, where the clock does not reach 2 ^ 32.
pub clock_server_loop-wakes :
    (n t : ℕ) (d : Delivery) {s : ClockServer} {l : List BlockedEntry}
    → IsWaiting s l
    → length l < max_tasks
    → AllBy t l
    → (t + 1 - s.ticks) + length l ≤ n
    → s.ticks + n < 2 ^ 32
    → d.msg.type ≡ ClockServerMsgType.tick
    → d.msg.time < 2 ^ 32
    → (p : Progress) × (clock_server_loop (replicate n d) s ≡ some p)
      × (woken p.turns ≡ map (λ (e : BlockedEntry). e.tid) l)
      × (p.server.ticks ≡ s.ticks + n)
      × IsWaiting p.server []
unfolding clock_server_loop
clock_server_loop-wakes zero t d {s} {l} w room by enough small is_tick bound =
    let nil : l ≡ [] = none_left l (omega (arith, enough)) in
    (
      record { server = s; turns = []; exiter = none; rest = [] },
      refl,
      ap waiting_tids (sym nil),
      omega arith,
      subst (IsWaiting s) nil w,
    )
clock_server_loop-wakes (suc n) t d {s} {l} w room by enough small is_tick bound =
    let (s', run, at) = tick_step d w room (omega (arith, small)) is_tick bound in
    let now : ℕ = s.ticks + 1 in
    let left : List BlockedEntry = after_tick now l in
    let clock : s'.ticks ≡ now = at.clock in
    let enough' : (t + 1 - s'.ticks) + length left ≤ n =
      rw clock (progress_lem t s.ticks n l by enough) in
    let (p, rest, told, last, idle) =
      clock_server_loop-wakes n t d at.waiting (omega (arith, room, length-after_tick now l))
        (AllBy-after_tick t now l by) enough' (omega (arith, small, clock)) is_tick bound in
    (
      record p {
        turns = (record { tid = d.sender; msg = d.msg } ∷ released now d.msg l) ∷ p.turns;
      },
      loop_on d (replicate n d) s run (ap is_exit is_tick) rest,
      ap (λ r. tids (released now d.msg l) ++ r) told ∙ sym (one_tick now d.msg l),
      omega (arith, last, clock),
      idle,
    )
