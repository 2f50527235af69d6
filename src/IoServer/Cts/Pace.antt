-- ===== src/IoServer/Cts/Pace.antt =====
-- The CTS notifier and the transmit notifier of src/io_server/io_server.c, run side by side.
use armv4_kernel.Prelude.{
  ℕ, zero, suc, ◌+◌, ◌-◌, ◌<◌, ◌≤◌, ◌≡◌, refl, Bool, true, false, Option, none, some, List, [], ◌∷◌,
  ◌++◌, arith, Bool-cases, inl, inr, if◌then◌else◌, ◌==◌, ◌&&◌, ◌%◌,
}
use mathlib.Core.List.{append_assoc}
use Prim.Native.Nat.{bit_and}
use armv4_kernel.Bits.{bit-and}
use armv4_kernel.CString.{Bytes}
use armv4_kernel.Bwio.{com1}
use armv4_kernel.IoServer.{IoServerMsg}
use armv4_kernel.IoServer.Notifier.{is_exit}
use armv4_kernel.IoServer.Start.{Call, panic_if}
use armv4_kernel.IoServer.Cts.{
  is_clear, cts_mask, cts_address, CtsRound, cts_round, cts_loop, io_server_notifier_cts_main,
  TxRound, transmit1, tx_loop,
}

abbrev sends : Call → Bool
sends (Call.send_empty t) = true
sends _ = false

abbrev receives : Call → Bool
receives Call.receive_empty = true
receives _ = false

-- Whether bit 0 of the word at UART1_BASE + 0x60 was found clear, and whether a byte was written.
abbrev cleared : Call → ℕ
cleared (Call.read a v) = if (a == 0x808c_0060) && (v % 2 == 0) then 1 else 0
cleared _ = 0

abbrev wrote : Call → ℕ
wrote (Call.write a b) = 1
wrote _ = 0

-- Two tasks, with the calls `cs` and `ts` still to make after `a` reads of the word at UART1_BASE +
-- 0x60 that found its bit 0 clear, and `b` writes of a byte. The empty message of the one is what the other receives; all else they do on their own.
pub data Joint (cs₀ ts₀ : List Call) : List Call → List Call → ℕ → ℕ → Type 0 where
  begin : Joint cs₀ ts₀ cs₀ ts₀ 0 0
  cts_step :
      {x : Call} {cs ts : List Call} {a b : ℕ}
      → sends x ≡ false
      → Joint cs₀ ts₀ (x ∷ cs) ts a b
      → Joint cs₀ ts₀ cs ts (a + cleared x) b
  tx_step :
      {x : Call} {cs ts : List Call} {a b : ℕ}
      → receives x ≡ false
      → Joint cs₀ ts₀ cs (x ∷ ts) a b
      → Joint cs₀ ts₀ cs ts a (b + wrote x)
  meet :
      {t : ℕ} {cs ts : List Call} {a b : ℕ}
      → Joint cs₀ ts₀ (Call.send_empty t ∷ cs) (Call.receive_empty ∷ ts) a b
      → Joint cs₀ ts₀ cs ts a b

-- Each message needs a credit, which a read that finds the bit clear gives.
abbrev CtsPaced : ℕ → List Call → Type 0
CtsPaced d [] = Unit
CtsPaced d (Call.send_empty t ∷ l) = (0 < d) × CtsPaced (d - 1) l
CtsPaced d (x ∷ l) = CtsPaced (d + cleared x) l

-- Each byte needs a message.
abbrev TxPaced : ℕ → List Call → Type 0
TxPaced e [] = Unit
TxPaced e (Call.receive_empty ∷ l) = TxPaced (e + 1) l
TxPaced e (Call.write a b ∷ l) = (0 < e) × TxPaced (e - 1) l
TxPaced e (x ∷ l) = TxPaced e l

record Credit (cs ts : List Call) (a b : ℕ) : Type 0 where
  d : ℕ
  e : ℕ
  cts : CtsPaced d cs
  tx : TxPaced e ts
  balance : b + e + d ≡ 1 + a

cts_step-Credit :
    (x : Call) (cs : List Call) {ts : List Call} {a b : ℕ}
    → sends x ≡ false
    → Credit (x ∷ cs) ts a b
    → Credit cs ts (a + cleared x) b
cts_step-Credit (Call.send_empty t) cs s c = cc
cts_step-Credit Call.time cs s c = record {
  d = c.d + 0;
  e = c.e;
  cts = c.cts;
  tx = c.tx;
  balance = omega (arith, c.balance);
}
cts_step-Credit x cs s c = record {
  d = c.d + cleared x;
  e = c.e;
  cts = c.cts;
  tx = c.tx;
  balance = omega (arith, c.balance);
}

tx_step-Credit :
    (x : Call) (cs : List Call) {ts : List Call} {a b : ℕ}
    → receives x ≡ false
    → Credit cs (x ∷ ts) a b
    → Credit cs ts a (b + wrote x)
tx_step-Credit Call.receive_empty cs s c = cc
tx_step-Credit (Call.write p q) cs s c = record {
  d = c.d;
  e = c.e - 1;
  cts = c.cts;
  tx = c.tx.1;
  balance = omega (arith, c.balance, c.tx.0);
}
tx_step-Credit x cs s c = record {
  d = c.d;
  e = c.e;
  cts = c.cts;
  tx = c.tx;
  balance = omega (arith, c.balance);
}

Joint-Credit :
    {cs₀ ts₀ cs ts : List Call} {a b : ℕ}
    → CtsPaced 1 cs₀
    → TxPaced 0 ts₀
    → Joint cs₀ ts₀ cs ts a b
    → Credit cs ts a b
Joint-Credit p q begin = record { d = 1; e = 0; cts = p; tx = q; balance = refl }
Joint-Credit p q (cts_step s j) = cts_step-Credit _ _ s (Joint-Credit p q j)
Joint-Credit p q (tx_step s j) = tx_step-Credit _ _ s (Joint-Credit p q j)
Joint-Credit p q (meet j) =
    let c = Joint-Credit p q j in
    record {
      d = c.d - 1;
      e = c.e + 1;
      cts = c.cts.1;
      tx = c.tx;
      balance = omega (arith, c.balance, c.cts.0);
    }

panic_if-CtsPaced :
    (b : Bool) (l : List Call) → ((d : ℕ) → CtsPaced d l) → (d : ℕ) → CtsPaced d (panic_if b ++ l)
panic_if-CtsPaced true l h d = h (d + 0)
panic_if-CtsPaced false l h d = h d

clear_lem : (v : ℕ) → is_clear v ≡ true → cleared (Call.read cts_address v) ≡ 1
clear_lem v e =
    let none_set : bit_and v cts_mask ≡ 0 = ground arith in
    let low : v % 2 ≡ 0 = omega (arith, bit-and 0 v cts_mask, none_set) in rw low refl

-- A round spends no more credit than it gets.
cts_loop-CtsPaced : (t : ℕ) (rounds : List CtsRound) (d : ℕ) → CtsPaced d (cts_loop t rounds)
unfolding cts_loop cts_round
cts_loop-CtsPaced t [] d = tt
cts_loop-CtsPaced t (r ∷ rs) d = rw (append_assoc (panic_if r.await_failed)) (
    panic_if-CtsPaced r.await_failed _
      (λ k. elim (Bool-cases (is_clear r.flag)) [
        | inl e ↦
            let c : cleared (Call.read cts_address r.flag) ≡ 1 = clear_lem r.flag e in
            rw e (omega (arith, c), panic_if-CtsPaced r.send_failed _ (cts_loop-CtsPaced t rs) _)
        | inr e ↦ rw e (cts_loop-CtsPaced t rs _)
      ])
      (d + 0 + 0))

panic_if-TxPaced : (b : Bool) (l : List Call) (e : ℕ) → TxPaced e l → TxPaced e (panic_if b ++ l)
panic_if-TxPaced true l e h = h
panic_if-TxPaced false l e h = h

transmit1-TxPaced :
    (uart_base tx_event : ℕ) (r : TxRound) (n i : ℕ) (bytes : Bytes) (rest : List Call)
    → ((e : ℕ) → TxPaced e rest)
    → (e : ℕ) → TxPaced e (transmit1 uart_base tx_event r n i bytes ++ rest)
unfolding transmit1
transmit1-TxPaced uart_base tx_event r zero i bytes rest h e = h e
transmit1-TxPaced uart_base tx_event r (suc n) i bytes rest h e =
    rw (append_assoc (panic_if (r.await_failed i))) (
      panic_if-TxPaced (r.await_failed i) _ (e + 1)
        (omega arith, transmit1-TxPaced uart_base tx_event r n (i + 1) bytes rest h (e + 1 - 1)))

after_exit : (b : Bool) (l : List Call) (e : ℕ) → TxPaced e l → TxPaced e (if b then [] else l)
after_exit true l e h = tt
after_exit false l e h = h

module _ (uart_base tx_event server : ℕ) where
  tx_loop-TxPaced :
      (rounds : List TxRound) (len : ℕ) (bytes : Bytes) (e : ℕ)
      → TxPaced e (tx_loop uart_base tx_event com1 server len bytes rounds)
  unfolding tx_loop
  tx_loop-TxPaced [] len bytes e = tt
  tx_loop-TxPaced (r ∷ rs) len bytes e =
      transmit1-TxPaced uart_base tx_event r len 0 bytes _
        (λ k. after (tx_loop-TxPaced rs) k r.answer) e
    where
      after :
          ((len : ℕ) (bytes : Bytes) (e : ℕ)
            → TxPaced e (tx_loop uart_base tx_event com1 server len bytes rs))
          → (k : ℕ) (answer : Option IoServerMsg)
          → TxPaced k (
              Call.send_msg server ∷ elim answer [
                | none ↦ Call.panic ∷ tx_loop uart_base tx_event com1 server 0 bytes rs
                | some rep ↦
                    let later = tx_loop uart_base tx_event com1 server rep.len rep.bytes rs in
                    if is_exit rep.type then [] else later
              ])
      after ih k none = ih 0 bytes k
      after ih k (some rep) = after_exit (is_exit rep.type) _ k (ih rep.len rep.bytes k)

  -- On COM1 the transmitter is paced by the CTS notifier. Let the CTS notifier and the loop of the transmit notifier
  -- run side by side, however their steps interleave and whatever their other calls return, where an
  -- empty message that the transmit notifier receives is one that the CTS notifier sends. Then at
  -- every point the bytes written to the UART are at most one more than the CTS notifier's reads of the
  -- word at the address 0x808c0060, which is UART1_BASE + 0x60 and not the flag register, that found
  -- its bit 0 clear.
  pub cts_paced :
      (tx_notifier_tid : ℕ) (send_failed : Bool) (cts_rounds : List CtsRound)
      (tx_rounds : List TxRound) (len : ℕ) (bytes : Bytes) {cs ts : List Call} {a b : ℕ}
      → Joint
          (io_server_notifier_cts_main tx_notifier_tid send_failed cts_rounds)
          (tx_loop uart_base tx_event com1 server len bytes tx_rounds)
          cs
          ts
          a
          b
      → b ≤ 1 + a
  unfolding io_server_notifier_cts_main
  cts_paced t failed cts_rounds tx_rounds len bytes j =
      let c =
        Joint-Credit (omega arith, panic_if-CtsPaced failed _ (cts_loop-CtsPaced t cts_rounds) _)
          (tx_loop-TxPaced tx_rounds len bytes 0) j in
      omega (arith, c.balance)
