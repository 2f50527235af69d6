-- ===== src/NameServer/Loop/History.antt =====
-- About the loop of `name_server_main` of src/name_server/name_server.c over a whole run.
use armv4_kernel.Prelude.{
  ℕ, zero, suc, ◌+◌, ◌≤◌, ◌≡◌, ◌≢◌, refl, ap, ap₂, ◌∙◌, sym, Bool, true, false, inl, inr, ◌&&◌,
  Option, none, some, List, [], ◌∷◌, ◌++◌, arith, ◌==◌, if◌then◌else◌, Bool-cases,
}
use armv4_kernel.CString.{Bytes}
use armv4_kernel.CString.Copy.{text}
use armv4_kernel.CString.Compare.{IsBytes}
use armv4_kernel.NameServer.{NameMap, MsgType, max_names, max_name_len, serve, name_map_init}
use armv4_kernel.NameServer.Map.{IsNameMap, HasBytes, name_map_init-IsNameMap}
use armv4_kernel.NameServer.Find.{name_map_find-search}
use armv4_kernel.NameServer.Serve.{Registered, serve-register, serve-who_is}
use armv4_kernel.NameServer.Loop.{Request, Outcome, is_exit, round, name_server_loop}

-- The registrations so far, the latest first: the text of the name, up to 12 bytes, and the task.
abbrev pub History : Type 0
History = List (List ℕ × ℕ)

abbrev pub same : List ℕ → List ℕ → Bool
same [] [] = true
same (x ∷ xs) (y ∷ ys) = (x == y) && same xs ys
same _ _ = false

-- The task that registered the name last, and 1 where none has.
abbrev pub lookup : List ℕ → History → ℕ
lookup t [] = 1
lookup t ((u, tid) ∷ h) = if same t u then tid else lookup t h

abbrev pub name_of : Bytes → List ℕ
name_of name = text max_name_len 0 name

same_eq : (xs ys : List ℕ) → same xs ys ≡ true → xs ≡ ys
same_eq [] [] e = refl
same_eq [] (y ∷ ys) e = absurd (ground (arith, e))
same_eq (x ∷ xs) [] e = absurd (ground (arith, e))
same_eq (x ∷ xs) (y ∷ ys) e =
    let head : x ≡ y = ground (arith, e) in
    let tail : same xs ys ≡ true = ground (arith, e) in ap₂ ◌∷◌ head (same_eq xs ys tail)

same_refl : (xs : List ℕ) → same xs xs ≡ true
same_refl [] = refl
same_refl (x ∷ xs) = ground (arith, same_refl xs)

-- The map holds `n` registrations, and a question is answered by `history`.
pub record Knows (nm : NameMap) (n : ℕ) (history : History) : Type 0 where
  pub map : IsNameMap nm n
  pub answers :
      (wanted : Bytes) (asker : ℕ)
      → IsBytes wanted
      → serve MsgType.who_is wanted asker nm ≡ some (some (lookup (name_of wanted) history), nm)

-- What a run promises: the replies, and the history.
abbrev pub promise_one : Request → History → List (ℕ × ℕ) × History
promise_one r h = if r.failed then ([], h) else elim r.type [
  | MsgType.register ↦ ((r.sender, 0) ∷ [], (name_of r.name, r.sender) ∷ h)
  | MsgType.who_is ↦ ((r.sender, lookup (name_of r.name) h) ∷ [], h)
  | MsgType.exit ↦ ([], h)
]

abbrev pub promise : List Request → History → List (ℕ × ℕ)
promise [] h = []
promise (r ∷ rs) h =
    let (replies, h') = promise_one r h in
    elim (is_exit r.type) [ true ↦ replies | false ↦ replies ++ promise rs h' ]

-- The names are arrays of bytes.
abbrev pub AllBytes : List Request → Type 0
AllBytes [] = Unit
AllBytes (r ∷ rs) = IsBytes r.name × AllBytes rs

abbrev answer_of : Option (Option ℕ × NameMap) → ℕ
answer_of none = 0
answer_of (some (none, nm)) = 0
answer_of (some (some a, nm)) = a

register-Knows :
    {nm nm' : NameMap} {n : ℕ} {h : History} (name : Bytes) (sender : ℕ)
    → Knows nm n h
    → Registered nm n name sender nm'
    → Knows nm' (suc n) ((name_of name, sender) ∷ h)
register-Knows {nm} {nm'} {n} {h} name sender k reg = record {
  map = reg.map;
  answers = λ wanted asker wb. elim (Bool-cases (same (name_of wanted) (name_of name))) [
    | inl e ↦ rw e (reg.own_name wanted asker wb (same_eq (name_of wanted) (name_of name) e))
    | inr e ↦
        let (answer, before, after) = reg.other_names wanted asker wb (differ wanted e) in
        rw e (
          after
          ∙ ap (λ a. some (some a, nm')) (ap answer_of (sym before ∙ k.answers wanted asker wb)))
  ];
}
  where
    differ :
        (wanted : Bytes)
        → same (name_of wanted) (name_of name) ≡ false
        → name_of wanted ≢ name_of name
    differ wanted e eq =
        let bad : true ≡ false =
          sym (same_refl (name_of name)) ∙ ap (λ t. same t (name_of name)) (sym eq) ∙ e in
        ground arith

-- How many registrations a run asks for.
abbrev pub registrations : List Request → ℕ
registrations [] = 0
registrations (r ∷ rs) = elim r.type [
  | MsgType.register ↦ suc (registrations rs)
  | _ ↦ registrations rs
]

-- One round, on the type of its message.
exits :
    (name : Bytes) (sender : ℕ) (nm : NameMap)
    → round (record { failed = false; sender = sender; type = MsgType.exit; name = name }) nm
      ≡ some ([], nm)
unfolding round serve
exits name sender nm = refl

round_lem :
    (failed : Bool) (type : MsgType) (name : Bytes) (sender : ℕ) {nm : NameMap} {n : ℕ}
    {h : History}
    → let r : Request = record { failed = failed; sender = sender; type = type; name = name } in
      Knows nm n h
      → IsBytes name
      → n + registrations (r ∷ []) ≤ max_names
      → (n' : ℕ) × (nm' : NameMap) × (round r nm ≡ some ((promise_one r h).0, nm'))
        × Knows nm' n' (promise_one r h).1
        × (n' ≤ n + registrations (r ∷ []))
unfolding round
round_lem true type name sender {nm} {n} k b room = (n, nm, refl, k, omega arith)
round_lem false MsgType.register name sender {nm} {n} k b room =
    let (nm', run, reg) = serve-register k.map name sender (omega (arith, room)) b in
    (suc n, nm', rw run refl, register-Knows name sender k reg, omega arith)
round_lem false MsgType.who_is name sender {nm} {n} k b room =
    (n, nm, rw (k.answers name sender b) refl, k, omega arith)
round_lem false MsgType.exit name sender {nm} {n} k b room =
    (n, nm, exits name sender nm, k, omega arith)

one_of :
    (r : Request) (rs : List Request)
    → registrations (r ∷ rs) ≡ registrations (r ∷ []) + registrations rs
one_of r rs = split r.type
  where
    split :
        (t : MsgType)
        → ◌≡◌ {A = ℕ}
            (elim t [ MsgType.register ↦ suc (registrations rs) | _ ↦ registrations rs ])
            ((elim t [ MsgType.register ↦ suc zero | _ ↦ zero ]) + registrations rs)
    split MsgType.register = omega arith
    split MsgType.who_is = omega arith
    split MsgType.exit = omega arith

loop_lem :
    (rs : List Request) {nm : NameMap} {n : ℕ} {h : History}
    → Knows nm n h
    → AllBytes rs
    → n + registrations rs ≤ max_names
    → (o : Outcome) × (name_server_loop rs nm ≡ some o) × (o.replies ≡ promise rs h)
unfolding name_server_loop
loop_lem [] {nm} k b room = (record { replies = []; map = nm; ended = false }, refl, refl)
loop_lem (r ∷ rs) {nm} {n} {h} k (b, bs) room =
    let (n', nm', run, k', few) =
      round_lem r.failed r.type r.name r.sender k b (omega (arith, one_of r rs, room)) in
    elim (Bool-cases (is_exit r.type)) [
      | inl last ↦
          rw (last, promise)
            (record { replies = (promise_one r h).0; map = nm'; ended = true }, rw run refl, refl)
      | inr on ↦
          let (o, rest, told) = loop_lem rs k' bs (omega (arith, few, one_of r rs, room)) in
          rw (on, promise)
            (
              record o { replies = (promise_one r h).0 ++ o.replies },
              rw (run, rest) refl,
              ap (λ l. (promise_one r h).0 ++ l) told,
            )
    ]

-- The server answers as the history of its registrations says: from its start, over any messages with at
-- most 256 registrations, up to the first of type exit, each registration is answered with 0, and each
-- question with the task that last registered a name of the same text, up to 12 bytes, or with 1 where none
-- has; a message of which `Receive` reports an error gets no reply. The server reaches no `NULL`, leaves no
-- array, and stays within the fuel.
pub name_server_main-promise :
    (nm : NameMap) (rs : List Request)
    → HasBytes nm
    → AllBytes rs
    → registrations rs ≤ max_names
    → (o : Outcome) × (name_server_loop rs (name_map_init nm) ≡ some o)
      × (o.replies ≡ promise rs [])
name_server_main-promise nm rs bytes names room =
    let start : IsNameMap (name_map_init nm) 0 = name_map_init-IsNameMap nm bytes in
    loop_lem rs
      (record {
        map = start;
        answers = λ wanted asker wb.
            serve-who_is (name_map_init nm) wanted asker none (name_map_find-search start wanted);
      })
      names (omega (arith, room))
