-- ===== src/IoServer/Run/Drain.antt =====
-- About the loop of src/io_server/io_server.c that sends the notifiers away.
use armv4_kernel.Prelude.{
  ℕ, zero, suc, ◌+◌, ◌≤◌, ◌≡◌, inl, inr, refl, ap, true, false, List, [], ◌∷◌, arith, length, ltb,
  Bool-cases,
}
use armv4_kernel.IoServer.{Action, reply, panic}
use armv4_kernel.IoServer.Run.{Delivery, is_exit, is_notif, exit_notifiers}

-- How many of the messages come from notifiers.
abbrev pub notifs : List Delivery → ℕ
notifs [] = 0
notifs (d ∷ ds) = elim (is_notif d.msg.type) [ true ↦ suc (notifs ds) | false ↦ notifs ds ]

-- The senders of the first `n` of them.
abbrev pub first_notifs : ℕ → List Delivery → List ℕ
first_notifs n [] = []
first_notifs zero (d ∷ ds) = []
first_notifs (suc n) (d ∷ ds) = elim (is_notif d.msg.type) [
  | true ↦ d.sender ∷ first_notifs n ds
  | false ↦ first_notifs (suc n) ds
]

-- The tasks that are told to exit.
abbrev pub dismissed : List Action → List ℕ
dismissed [] = []
dismissed (reply t m ∷ acts) = elim (is_exit m.type) [
  | true ↦ t ∷ dismissed acts
  | false ↦ dismissed acts
]
dismissed (panic ∷ acts) = dismissed acts

drain_lem :
    (n count : ℕ) (ds : List Delivery)
    → count + n ≡ 2
    → n ≤ notifs ds
    → ((exit_notifiers count ds).1 ≡ 2)
      × (dismissed (exit_notifiers count ds).0 ≡ first_notifs n ds)
      × (length (exit_notifiers count ds).0 ≡ n)
unfolding exit_notifiers
drain_lem zero count [] e p = (omega (arith, e), refl, refl)
drain_lem (suc n) count [] e p = absurd (omega (arith, p))
drain_lem zero count (d ∷ ds) e p =
    let over : ltb count 2 ≡ false = ground (arith, e) in
    rw (over, exit_notifiers) (omega (arith, e), refl, refl)
drain_lem (suc n) count (d ∷ ds) e p =
    let more : ltb count 2 ≡ true = ground (arith, e) in
    elim (Bool-cases (is_notif d.msg.type)) [
      | inl is ↦
          let (c, told, some_more) =
            drain_lem n (count + 1) ds (omega (arith, e)) (ground (arith, p, is)) in
          rw (more, is, exit_notifiers, first_notifs)
            (c, ap (λ l. d.sender ∷ l) told, ap suc some_more)
      | inr not ↦
          let left : suc n ≤ notifs ds = ground (arith, p, not) in
          rw (more, not, exit_notifiers, first_notifs) (drain_lem (suc n) count ds e left)
    ]

-- The loop that sends the notifiers away ends with the count 2 once two messages of notifiers are among
-- those that arrive, and answers exactly the first two of them, in order, with a message of type exit.
pub exit_notifiers_lem :
    (ds : List Delivery)
    → 2 ≤ notifs ds
    → ((exit_notifiers 0 ds).1 ≡ 2)
      × (dismissed (exit_notifiers 0 ds).0 ≡ first_notifs 2 ds)
      × (length (exit_notifiers 0 ds).0 ≡ 2)
exit_notifiers_lem ds p = drain_lem 2 0 ds refl p
